-- ===== src/Recovery.antt =====
-- The check of restored objects against the database: internal/platform/recovery/reconcile.go. The
-- map of digests is the list of its entries, in the order in which they are visited; its lookup finds
-- the first. sort.Strings orders texts by their code points, which is the order of their bytes.
pub mod Names
mod Examples
use opensource_project_intel.Base.{
  ℕ, Bool, true, false, ◌&&◌, ◌||◌, not, Option, none, some, List, [], ◌∷◌, if◌then◌else◌, ltb,
  ◌==◌, nat_eq,
}
use opensource_project_intel.Base.Lists.{contains}
use opensource_project_intel.Base.Text.{Text, text_eq}

pub record Object : Type 0 where
  pub key : Text
  pub sha256 : Text

pub record Result : Type 0 where
  pub missing : List Text
  pub mismatched : List Text
  pub orphaned : List Text

abbrev pub no_texts : List Text → Bool
no_texts [] = true
no_texts (_ ∷ _) = false

unfoldable pub clean : Result → Bool
clean r = no_texts r.missing && no_texts r.mismatched && no_texts r.orphaned

-- `s < t` on strings.
unfoldable pub text_lt : Text → Text → Bool
text_lt s [] = false
text_lt [] (d ∷ t) = true
text_lt (c ∷ s) (d ∷ t) = ltb c d || (c == d && text_lt s t)

unfoldable pub insert : Text → List Text → List Text
unfolding text_lt
insert x [] = x ∷ []
insert x (y ∷ ys) = let rest = insert x ys in if text_lt y x then y ∷ rest else x ∷ y ∷ ys

-- `sort.Strings`.
unfoldable pub sort_strings : List Text → List Text
unfolding insert
sort_strings [] = []
sort_strings (x ∷ xs) = insert x (sort_strings xs)

abbrev pub lookup : List (Text × Text) → Text → Option Text
lookup [] key = none
lookup ((k, digest) ∷ entries) key = if k == key then some digest else lookup entries key

abbrev pub differs : Option Text → Text → Bool
differs none sha256 = false
differs (some digest) sha256 = not (digest == sha256)

abbrev pub is_none : Option Text → Bool
is_none none = true
is_none (some _) = false

-- What the loop over the manifest appends to `Missing` and to `Mismatched`.
abbrev pub missing_keys : List (Text × Text) → List Object → List Text
missing_keys actual [] = []
missing_keys actual (o ∷ os) =
    if is_none (lookup actual o.key) then o.key ∷ missing_keys actual os else missing_keys actual os

abbrev pub mismatched_keys : List (Text × Text) → List Object → List Text
mismatched_keys actual [] = []
mismatched_keys actual (o ∷ os) =
    if differs (lookup actual o.key) o.sha256
    then o.key ∷ mismatched_keys actual os
    else mismatched_keys actual os

abbrev pub keys_of : List Object → List Text
keys_of [] = []
keys_of (o ∷ os) = o.key ∷ keys_of os

-- What the loop over the digests appends to `Orphaned`.
abbrev pub orphaned_keys : List Text → List (Text × Text) → List Text
orphaned_keys referenced [] = []
orphaned_keys referenced ((key, _) ∷ entries) =
    if not (contains referenced key)
    then key ∷ orphaned_keys referenced entries
    else orphaned_keys referenced entries

unfoldable pub reconcile : List Object → List (Text × Text) → Result
unfolding sort_strings
reconcile expected actual = record {
  missing = sort_strings (missing_keys actual expected);
  mismatched = sort_strings (mismatched_keys actual expected);
  orphaned = sort_strings (orphaned_keys (keys_of expected) actual);
}
