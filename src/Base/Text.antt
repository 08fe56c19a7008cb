-- ===== src/Base/Text.antt =====
-- Go strings as lists of code points: `==`, strings.TrimSpace and strings.ToLower.
use Prim.Native.Nat.{ℕ, ◌+◌}
use Prim.Native.Char.{code}
use Prim.Native.String.{String}
use mathlib.Core.Path.{◌≡◌, sym, ap, ◌∙◌}
use mathlib.Core.Logic.{◌↔◌, ◌≢◌}
use mathlib.Core.Bool.{Bool, true, false, ◌&&◌, ◌||◌}
use mathlib.Core.List.{List, [], ◌∷◌, ◌++◌, map, reverse, reverse-cons}
use native.Mathlib.Omega.{arith}
use opensource_project_intel.Base.Lists.{all}
use opensource_project_intel.Base.Tests.{ltb, leb, nat_beq, if◌then◌else◌, Eq}

abbrev pub Text : Type 0
Text = List ℕ

abbrev pub codes : String → Text
codes String.[] = []
codes (String.◌∷◌ c s) = code c ∷ codes s

abbrev pub text_beq : Text → Text → Bool
text_beq [] [] = true
text_beq (a ∷ s) (b ∷ t) = nat_beq a b && text_beq s t
text_beq _ _ = false

pub text_beq_iff : (s t : Text) → (text_beq s t ≡ true) ↔ (s ≡ t)
text_beq_iff [] [] = ground arith
text_beq_iff [] (b ∷ t) = ground arith
text_beq_iff (a ∷ s) [] = ground arith
text_beq_iff (a ∷ s) (b ∷ t) = ground (arith, text_beq_iff s t)

instance abbrev pub text_eq : Eq Text
text_eq = record { beq = text_beq; beq_iff = text_beq_iff }

-- unicode.IsSpace.
unfoldable pub is_space : ℕ → Bool
is_space c =
    (leb 9 c && leb c 13)
    || nat_beq c 0x20
    || nat_beq c 0x85
    || nat_beq c 0xA0
    || nat_beq c 0x1680
    || (leb 0x2000 c && leb c 0x200a)
    || nat_beq c 0x2028
    || nat_beq c 0x2029
    || nat_beq c 0x202f
    || nat_beq c 0x205f
    || nat_beq c 0x3000

unfoldable pub trim_left : Text → Text
unfolding is_space
trim_left [] = []
trim_left (c ∷ s) = if is_space c then trim_left s else c ∷ s

unfoldable pub trim_space : Text → Text
unfolding trim_left
trim_space s = reverse (trim_left (reverse (trim_left s)))

-- `strings.TrimSpace(s) == ""`.
unfoldable pub is_blank : Text → Bool
unfolding trim_space
is_blank s = text_beq (trim_space s) []

-- strings.ToLower: ASCII letters as written out here, other code points by the Unicode table `table`.
unfoldable pub to_lower : (ℕ → ℕ) → Text → Text
to_lower table =
    map λ c. if ltb c 128 then (if leb b'A' c && leb c b'Z' then c + 32 else c) else table c

-- Texts that the test tells apart differ.
pub text_ne : (s t : Text) → text_beq s t ≡ false → s ≢ t
text_ne s t h = ground (arith, text_beq_iff s t)

-- `len(s)`: the bytes of the UTF-8 encoding.
rune_bytes : ℕ → ℕ
rune_bytes c = if ltb c 0x80 then 1 else if ltb c 0x800 then 2 else if ltb c 0x10000 then 3 else 4

unfoldable pub byte_length : Text → ℕ
unfolding rune_bytes
byte_length [] = 0
byte_length (c ∷ s) = rune_bytes c + byte_length s

-- A blank text is one of spaces only, and trimming keeps a text blank or not.
trim_left-empty : (s : Text) → text_beq (trim_left s) [] ≡ all is_space s
unfolding trim_left
trim_left-empty [] = ground arith
trim_left-empty (c ∷ s) = ground (arith, trim_left-empty s)

all-trim_left : (s : Text) → all is_space (trim_left s) ≡ all is_space s
unfolding trim_left
all-trim_left [] = ground arith
all-trim_left (c ∷ s) = ground (arith, all-trim_left s)

all-snoc : (s : Text) (c : ℕ) → all is_space (s ++ c ∷ []) ≡ (all is_space s && is_space c)
all-snoc [] c = ground arith
all-snoc (d ∷ s) c = ground (arith, all-snoc s c)

all-reverse : (s : Text) → all is_space (reverse s) ≡ all is_space s
all-reverse [] = ground arith
all-reverse (c ∷ s) =
    ground (arith, ap (all is_space) (reverse-cons c s), all-snoc (reverse s) c, all-reverse s)

reverse-empty : (s : Text) → text_beq (reverse s) [] ≡ text_beq s []
reverse-empty [] = ground arith
reverse-empty (c ∷ s) = ap (λ r. text_beq r []) (reverse-cons c s) ∙ snoc (reverse s)
  where
    snoc : (t : Text) → text_beq (t ++ c ∷ []) [] ≡ false
    snoc [] = ground arith
    snoc (d ∷ t) = ground arith

blank-spaces : (s : Text) → is_blank s ≡ all is_space s
unfolding is_blank trim_space
blank-spaces s =
    reverse-empty (trim_left (reverse (trim_left s)))
    ∙ trim_left-empty (reverse (trim_left s))
    ∙ all-reverse (trim_left s)
    ∙ all-trim_left s

pub blank-trim : (s : Text) → is_blank (trim_space s) ≡ is_blank s
unfolding trim_space
blank-trim s =
    blank-spaces (trim_space s)
    ∙ all-reverse (trim_left (reverse (trim_left s)))
    ∙ all-trim_left (reverse (trim_left s))
    ∙ all-reverse (trim_left s)
    ∙ all-trim_left s
    ∙ sym (blank-spaces s)
