-- ===== src/Policy/Pages.antt =====
-- The pages of a policy's history: `PageVersions` of internal/policy/policy.go.
use mathlib.Core.List.{append-nil}
use opensource_project_intel.Base.{
  ℕ, zero, suc, ◌+◌, ◌-◌, ◌≤◌, ◌<◌, ◌≡◌, refl, sym, ◌∙◌, ap, Bool, true, false, List, [], ◌∷◌, ◌++◌,
  leb, ltb, arith, inl, inr, Bool-cases,
}
use opensource_project_intel.Base.Int.{pos}
use opensource_project_intel.Base.Lists.{length}
use opensource_project_intel.Base.Result.{Result, ok, err, ◌>>=◌}
use opensource_project_intel.Policy.{Error, invalid, Version}
use opensource_project_intel.Policy.Versions.{drop, take, min, page_versions}

-- Reading page after page while there is another one, at most so many of them.
abbrev pub then_more :
    Bool → List Version → Result Error (List Version) → Result Error (List Version)
then_more true page (ok rest) = ok (page ++ rest)
then_more true page (err e) = err e
then_more false page rest = ok page

abbrev pub read_pages : ℕ → List Version → ℕ → ℕ → Result Error (List Version)
read_pages zero values limit offset = err invalid
read_pages (suc pages) values limit offset =
    let rest = read_pages pages values limit (offset + limit) in
    page_versions values (pos limit) (pos offset) >>= λ (page, more). then_more more page rest

module _ {A : Type 0} where
  take-all : (n : ℕ) (xs : List A) → length xs ≤ n → take n xs ≡ xs
  take-all zero [] h = refl
  take-all zero (x ∷ xs) h = ground arith
  take-all (suc n) [] h = refl
  take-all (suc n) (x ∷ xs) h = ap (λ ys. x ∷ ys) (take-all n xs omega arith)

  take-drop : (n : ℕ) (xs : List A) → take n xs ++ drop n xs ≡ xs
  take-drop zero xs = refl
  take-drop (suc n) [] = refl
  take-drop (suc n) (x ∷ xs) = ap (λ ys. x ∷ ys) (take-drop n xs)

  drop_twice : (a b : ℕ) (xs : List A) → drop (a + b) xs ≡ drop b (drop a xs)
  drop_twice zero b xs = ap (λ n. drop n xs) omega arith
  drop_twice (suc a) b [] = drop_nil (suc a + b) ∙ sym (drop_nil b)
    where
      drop_nil : (n : ℕ) → drop {A = A} n [] ≡ []
      drop_nil zero = refl
      drop_nil (suc n) = refl
  drop_twice (suc a) b (x ∷ xs) =
      let step : suc a + b ≡ suc (a + b) = omega arith in
      ap (λ n. drop n (x ∷ xs)) step ∙ drop_twice a b xs

  length-drop : (n : ℕ) (xs : List A) → length (drop n xs) ≡ length xs - n
  length-drop zero xs = omega arith
  length-drop (suc n) [] = omega arith
  length-drop (suc n) (x ∷ xs) = length-drop n xs ∙ omega arith

  drop_all : (n : ℕ) (xs : List A) → length xs ≤ n → drop n xs ≡ []
  drop_all zero [] h = refl
  drop_all zero (x ∷ xs) h = ground arith
  drop_all (suc n) [] h = refl
  drop_all (suc n) (x ∷ xs) h = drop_all n xs omega arith

  take-min :
      (from limit : ℕ) (xs : List A)
      → from ≤ length xs
      → take (min (length xs) (from + limit) - from) (drop from xs) ≡ take limit (drop from xs)
  take-min from limit xs h = elim (Bool-cases (leb (length xs) (from + limit))) [
    | inl b ↦
        let size = length-drop from xs in
        take-all (min (length xs) (from + limit) - from) (drop from xs) ground arith
        ∙ sym (take-all limit (drop from xs) ground arith)
    | inr b ↦ ap (λ n. take n (drop from xs)) ground arith
  ]

page_versions-page :
    (values : List Version) (limit offset : ℕ)
    → 0 < limit
    → limit ≤ 200
    → page_versions values (pos limit) (pos offset)
      ≡ ok (take limit (drop offset values), ltb (offset + limit) (length values))
unfolding page_versions
page_versions-page values limit offset p l = elim (Bool-cases (leb (length values) offset)) [
  | inl b ↦
      let none_left : drop offset values ≡ [] = drop_all offset values ground arith in
      let page : take limit (drop offset values) ≡ [] =
        ap (take limit) none_left ∙ take-all limit [] omega arith in
      ground (arith, page)
  | inr b ↦ ground (arith, take-min offset limit values)
]

-- A page and what comes after it.
page-rest :
    (limit offset : ℕ) (values : List Version)
    → take limit (drop offset values) ++ drop (offset + limit) values ≡ drop offset values
page-rest limit offset values =
    ap (λ rest. take limit (drop offset values) ++ rest) (drop_twice offset limit values)
    ∙ take-drop limit (drop offset values)

then_more-drop :
    (limit offset : ℕ) (values : List Version) (more : Bool) (rest : Result Error (List Version))
    → more ≡ ltb (offset + limit) (length values)
    → (offset + limit < length values → rest ≡ ok (drop (offset + limit) values))
    → then_more more (take limit (drop offset values)) rest ≡ ok (drop offset values)
then_more-drop limit offset values false rest m h =
    let none_left : drop (offset + limit) values ≡ [] =
      drop_all (offset + limit) values ground arith in
    ap ok (
      sym (append-nil (take limit (drop offset values)))
      ∙ ap (λ r. take limit (drop offset values) ++ r) (sym none_left)
      ∙ page-rest limit offset values)
then_more-drop limit offset values true (ok xs) m h =
    let same : ok xs ≡ ok (drop (offset + limit) values) = h ground arith in
    let inner : xs ≡ drop (offset + limit) values = cc in
    ap ok (ap (λ r. take limit (drop offset values) ++ r) inner ∙ page-rest limit offset values)
then_more-drop limit offset values true (err e) m h =
    let same : err e ≡ ok (drop (offset + limit) values) = h ground arith in cc

read_pages-drop :
    (pages : ℕ) (values : List Version) (limit offset : ℕ)
    → 0 < limit
    → limit ≤ 200
    → 0 < pages
    → length values ≤ offset + pages
    → read_pages pages values limit offset ≡ ok (drop offset values)
read_pages-drop zero values limit offset p l q b = ground arith
read_pages-drop (suc pages) values limit offset p l q b =
    ap
      (λ r.
        r >>= λ (page, more). then_more more page (read_pages pages values limit (offset + limit)))
      (page_versions-page values limit offset p l)
    ∙ then_more-drop limit offset values _ (read_pages pages values limit (offset + limit)) refl
        (λ m. read_pages-drop pages values limit (offset + limit) p l omega arith omega arith)

-- With a limit from 1 to 200, following the pages from the first one while there is another one after
-- it gives the whole history in its order, each version once, with as many pages as there are
-- versions, or one for an empty history.
pub page_versions-covers :
    (values : List Version) (limit pages : ℕ)
    → 0 < limit
    → limit ≤ 200
    → 0 < pages
    → length values ≤ pages
    → read_pages pages values limit 0 ≡ ok values
page_versions-covers values limit pages p l q b =
    read_pages-drop pages values limit 0 p l q omega arith
