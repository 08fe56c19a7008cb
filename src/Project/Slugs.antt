-- ===== src/Project/Slugs.antt =====
-- The slugs of projects: `Slug` of internal/project/rules.go. `lower` is the Unicode table of
-- strings.ToLower beyond ASCII.
use mathlib.Core.List.{map, reverse, reverse-cons, reverse-reverse}
use opensource_project_intel.Base.{
  ℕ, ◌≡◌, refl, sym, ◌∙◌, ap, Bool, true, false, ◌&&◌, ◌||◌, not, [], ◌∷◌, ◌++◌, if◌then◌else◌, ltb,
  leb, ◌==◌, nat_eq, arith,
}
use opensource_project_intel.Base.Lists.{all}
use opensource_project_intel.Base.Result.{Result, ok, err}
use opensource_project_intel.Base.Text.{
  Text, text_eq, trim_space, trim_left, is_space, to_lower, byte_length,
}
use opensource_project_intel.Project.{Error, invalid}

abbrev pub dash : ℕ
dash = 45

-- `[a-z0-9]`.
unfoldable pub is_word : ℕ → Bool
is_word c = (leb 97 c && leb c 122) || (leb 48 c && leb c 57)

-- `slugPattern`: words joined by single dashes. The flag says whether a word was begun.
unfoldable pub matches_from : Bool → Text → Bool
unfolding is_word
matches_from begun [] = begun
matches_from begun (c ∷ s) =
    let word = matches_from true s in
    let joined = matches_from false s in
    if is_word c then word else if c == dash && begun then joined else false

-- `strings.ReplaceAll(s, " ", "-")`.
unfoldable pub dash_spaces : Text → Text
dash_spaces = map λ c. if c == 32 then dash else c

-- `strings.Trim(s, "-")`.
unfoldable pub strip_left : Text → Text
strip_left [] = []
strip_left (c ∷ s) = let rest = strip_left s in if c == dash then rest else c ∷ s

unfoldable pub strip_right : Text → Text
strip_right [] = []
strip_right (c ∷ s) = let rest = strip_right s in if rest == [] && c == dash then [] else c ∷ rest

abbrev pub refused : Text → Bool
refused s = s == [] || ltb 100 (byte_length s) || not (matches_from false s)

-- The text before it is checked.
abbrev slug_text : (ℕ → ℕ) → Text → Text
slug_text lower value = strip_right (strip_left (to_lower lower (dash_spaces (trim_space value))))

unfoldable pub slug : (ℕ → ℕ) → Text → Result Error Text
unfolding trim_space to_lower byte_length matches_from dash_spaces strip_left strip_right
slug lower value = let s = slug_text lower value in if refused s then err invalid else ok s

-- A character of a slug.
abbrev is_slug : ℕ → Bool
is_slug c = is_word c || c == dash

matches-is_slug : (b : Bool) (s : Text) → matches_from b s ≡ true → all is_slug s ≡ true
unfolding matches_from is_word
matches-is_slug b [] h = refl
matches-is_slug b (c ∷ s) h = ground (arith, matches-is_slug true s, matches-is_slug false s)

all-snoc_slug : (s : Text) (c : ℕ) → all is_slug (s ++ c ∷ []) ≡ (all is_slug s && is_slug c)
all-snoc_slug [] c = ground arith
all-snoc_slug (d ∷ s) c = ground (arith, all-snoc_slug s c)

all-reverse_slug : (s : Text) → all is_slug (reverse s) ≡ all is_slug s
all-reverse_slug [] = refl
all-reverse_slug (c ∷ s) =
    ap (all is_slug) (reverse-cons c s)
    ∙ all-snoc_slug (reverse s) c
    ∙ ground (arith, all-reverse_slug s)

trim_left-slug : (s : Text) → all is_slug s ≡ true → trim_left s ≡ s
unfolding trim_left is_space is_word
trim_left-slug [] h = refl
trim_left-slug (c ∷ s) h = ground arith

to_lower-slug : (lower : ℕ → ℕ) (s : Text) → all is_slug s ≡ true → to_lower lower s ≡ s
unfolding to_lower is_word
to_lower-slug lower [] h = refl
to_lower-slug lower (c ∷ s) h = ground (arith, to_lower-slug lower s)

dash_spaces-slug : (s : Text) → all is_slug s ≡ true → dash_spaces s ≡ s
unfolding dash_spaces is_word
dash_spaces-slug [] h = refl
dash_spaces-slug (c ∷ s) h = ground (arith, dash_spaces-slug s)

strip_left-slug : (s : Text) → matches_from false s ≡ true → strip_left s ≡ s
unfolding strip_left matches_from is_word
strip_left-slug [] h = refl
strip_left-slug (c ∷ s) h = ground arith

-- What does not end in a dash keeps its end.
strip_right-slug : (b : Bool) (s : Text) → matches_from b s ≡ true → strip_right s ≡ s
unfolding strip_right matches_from is_word
strip_right-slug b [] h = refl
strip_right-slug b (c ∷ []) h = ground arith
strip_right-slug b (c ∷ d ∷ s) h =
    ground (arith, strip_right-slug true (d ∷ s), strip_right-slug false (d ∷ s))

trim_space-slug : (s : Text) → all is_slug s ≡ true → trim_space s ≡ s
unfolding trim_space
trim_space-slug s h =
    ap (λ t. reverse (trim_left (reverse t))) (trim_left-slug s h)
    ∙ ap reverse (trim_left-slug (reverse s) (all-reverse_slug s ∙ h))
    ∙ reverse-reverse s

accepted-matches :
    (s t : Text) → (if refused s then err invalid else ok s) ≡ ok t → (s ≡ t) × (refused s ≡ false)
accepted-matches s t h = ground arith

-- A slug is words of lower-case letters and digits joined by single dashes, at most 100 bytes long,
-- and it is its own slug.
pub slug_twice :
    (lower : ℕ → ℕ) (value s : Text)
    → slug lower value ≡ ok s
    → (matches_from false s ≡ true) × (ltb 100 (byte_length s) ≡ false) × (slug lower s ≡ ok s)
unfolding slug
slug_twice lower value s h =
    let (same, accepted) = accepted-matches (slug_text lower value) s h in
    let kept : refused s ≡ false = ap refused (sym same) ∙ accepted in
    let fits : matches_from false s ≡ true = ground arith in
    let short : ltb 100 (byte_length s) ≡ false = ground arith in
    let chars = matches-is_slug false s fits in
    let again : strip_right (strip_left (to_lower lower (dash_spaces (trim_space s)))) ≡ s =
      ap (λ t. strip_right (strip_left (to_lower lower (dash_spaces t)))) (trim_space-slug s chars)
      ∙ ap (λ t. strip_right (strip_left (to_lower lower t))) (dash_spaces-slug s chars)
      ∙ ap (λ t. strip_right (strip_left t)) (to_lower-slug lower s chars)
      ∙ ap strip_right (strip_left-slug s fits)
      ∙ strip_right-slug false s fits in
    (fits, short, ap (λ t. if refused t then err invalid else ok t) again ∙ ground (arith, kept))
