-- ===== src/Recovery/Names.antt =====
-- What `Reconcile` of internal/platform/recovery/reconcile.go reports.
use opensource_project_intel.Base.{
  ◌≡◌, refl, ◌∙◌, Bool-cases, inl, inr, Bool, true, false, ◌&&◌, ◌||◌, not, List, [], ◌∷◌, if-split,
  nat_eq, arith,
}
use opensource_project_intel.Base.Lists.{contains}
use opensource_project_intel.Base.Text.{Text, text_eq, text_beq, text_beq_iff}
use opensource_project_intel.Recovery.{
  Object, text_lt, insert, sort_strings, lookup, differs, is_none, missing_keys, mismatched_keys,
  keys_of, orphaned_keys, reconcile,
}

-- No text is after the one that follows it.
abbrev pub IsSorted : List Text → Type 0
IsSorted [] = Unit
IsSorted (x ∷ []) = Unit
IsSorted (x ∷ y ∷ ys) = (text_lt y x ≡ false) × IsSorted (y ∷ ys)

text_lt_asym : (s t : Text) → text_lt s t ≡ true → text_lt t s ≡ false
unfolding text_lt
text_lt_asym s [] h = cc
text_lt_asym [] (d ∷ t) h = refl
text_lt_asym (c ∷ s) (d ∷ t) h = ground (arith, text_lt_asym s t)

-- The first one of the list is not before the text.
abbrev Follows : Text → List Text → Type 0
Follows y [] = Unit
Follows y (z ∷ zs) = text_lt z y ≡ false

cons-IsSorted : (y : Text) (zs : List Text) → Follows y zs → IsSorted zs → IsSorted (y ∷ zs)
cons-IsSorted y [] f h = tt
cons-IsSorted y (z ∷ zs) f h = (f, h)

tail-IsSorted : (y : Text) (zs : List Text) → IsSorted (y ∷ zs) → Follows y zs × IsSorted zs
tail-IsSorted y [] h = (tt, tt)
tail-IsSorted y (z ∷ zs) h = h

insert-Follows :
    (x y : Text) (zs : List Text) → text_lt x y ≡ false → Follows y zs → Follows y (insert x zs)
unfolding insert
insert-Follows x y [] l f = l
insert-Follows x y (z ∷ zs) l f = if-split (Follows y) (text_lt z x) (λ _. f) (λ _. l)

insert-IsSorted : (x : Text) (ys : List Text) → IsSorted ys → IsSorted (insert x ys)
unfolding insert
insert-IsSorted x [] h = tt
insert-IsSorted x (y ∷ ys) h =
    let (f, rest) = tail-IsSorted y ys h in
    if-split IsSorted (text_lt y x)
      (λ b.
        cons-IsSorted y (insert x ys) (insert-Follows x y ys (text_lt_asym y x b) f)
          (insert-IsSorted x ys rest))
      (λ b. (b, h))

insert-contains :
    (x : Text) (ys : List Text) (k : Text)
    → contains (insert x ys) k ≡ (text_beq x k || contains ys k)
unfolding insert
insert-contains x [] k = refl
insert-contains x (y ∷ ys) k = ground (arith, insert-contains x ys k)

sort-IsSorted : (xs : List Text) → IsSorted (sort_strings xs)
unfolding sort_strings
sort-IsSorted [] = tt
sort-IsSorted (x ∷ xs) = insert-IsSorted x (sort_strings xs) (sort-IsSorted xs)

sort-contains : (xs : List Text) (k : Text) → contains (sort_strings xs) k ≡ contains xs k
unfolding sort_strings
sort-contains [] k = refl
sort-contains (x ∷ xs) k = ground (arith, insert-contains x (sort_strings xs) k, sort-contains xs k)

missing_keys-contains :
    (actual : List (Text × Text)) (os : List Object) (k : Text)
    → contains (missing_keys actual os) k ≡ (contains (keys_of os) k && is_none (lookup actual k))
missing_keys-contains actual [] k = refl
missing_keys-contains actual (o ∷ os) k = elim (Bool-cases (text_beq o.key k)) [
  | inl b ↦
      let same : o.key ≡ k = ground (arith, text_beq_iff o.key k) in
      ground (arith, missing_keys-contains actual os k, same)
  | inr b ↦ ground (arith, missing_keys-contains actual os k)
]

orphaned_keys-contains :
    (referenced : List Text) (actual : List (Text × Text)) (k : Text)
    → contains (orphaned_keys referenced actual) k
      ≡ (not (is_none (lookup actual k)) && not (contains referenced k))
orphaned_keys-contains referenced [] k = refl
orphaned_keys-contains referenced ((key, digest) ∷ entries) k = elim (Bool-cases (text_beq key k)) [
  | inl b ↦
      let same : key ≡ k = ground (arith, text_beq_iff key k) in
      ground (arith, orphaned_keys-contains referenced entries k, same)
  | inr b ↦ ground (arith, orphaned_keys-contains referenced entries k)
]

-- The manifest has an object of the key whose digest is another than the restored one.
abbrev pub has_other : List (Text × Text) → List Object → Text → Bool
has_other actual [] k = false
has_other actual (o ∷ os) k =
    (text_beq o.key k && differs (lookup actual k) o.sha256) || has_other actual os k

mismatched_keys-contains :
    (actual : List (Text × Text)) (os : List Object) (k : Text)
    → contains (mismatched_keys actual os) k ≡ has_other actual os k
mismatched_keys-contains actual [] k = refl
mismatched_keys-contains actual (o ∷ os) k = elim (Bool-cases (text_beq o.key k)) [
  | inl b ↦
      let same : o.key ≡ k = ground (arith, text_beq_iff o.key k) in
      ground (arith, mismatched_keys-contains actual os k, same)
  | inr b ↦ ground (arith, mismatched_keys-contains actual os k)
]

-- `Reconcile` reports as missing the keys of the manifest that no restored object has, as mismatched
-- those of an object of the manifest whose digest the restored one does not have, and as orphaned
-- the restored keys that the manifest does not have; each list is sorted.
pub reconcile-names :
    (expected : List Object) (actual : List (Text × Text)) (k : Text)
    → (contains (reconcile expected actual).missing k
        ≡ (contains (keys_of expected) k && is_none (lookup actual k)))
      × (contains (reconcile expected actual).mismatched k ≡ has_other actual expected k)
      × (contains (reconcile expected actual).orphaned k
          ≡ (not (is_none (lookup actual k)) && not (contains (keys_of expected) k)))
      × IsSorted (reconcile expected actual).missing
      × IsSorted (reconcile expected actual).mismatched
      × IsSorted (reconcile expected actual).orphaned
unfolding reconcile
reconcile-names expected actual k = (
  sort-contains (missing_keys actual expected) k ∙ missing_keys-contains actual expected k,
  sort-contains (mismatched_keys actual expected) k ∙ mismatched_keys-contains actual expected k,
  sort-contains (orphaned_keys (keys_of expected) actual) k
      ∙ orphaned_keys-contains (keys_of expected) actual k,
  sort-IsSorted (missing_keys actual expected),
  sort-IsSorted (mismatched_keys actual expected),
  sort-IsSorted (orphaned_keys (keys_of expected) actual),
)
