-- ===== src/Access/CodecExamples.antt =====
-- The theorems about tokens and cursors at concrete encodings.
use opensource_project_intel.Base.{
  ℕ, ◌+◌, ◌-◌, ◌≡◌, refl, sym, ◌∙◌, ap, zero, suc, true, false, Option, none, some, List, [], ◌∷◌,
  ◌++◌, if◌then◌else◌, ◌==◌, nat_eq, arith, ◌&&◌,
}
use opensource_project_intel.Base.Int.{ℤ, pos, negsuc, ◌≤ℤ◌}
use opensource_project_intel.Base.Lists.{length, contains}
use opensource_project_intel.Base.Result.{ok, err}
use opensource_project_intel.Base.Text.{Text, codes, text_eq}
use opensource_project_intel.Access.Tokens.{
  Cursor, invalid_cursor, Encodings, dot, new_secret, encode_session_token, decode_session_token,
  verify_secret, encode_cursor, decode_cursor, cut,
}
use opensource_project_intel.Access.Codecs.{
  IsStandard, new_secret-token, decode_cursor-encode, decode_cursor-signed,
}

-- Encodings in which a number is one code point and base64 shifts each byte beyond the dot. Only a
-- cursor without filters has a JSON.
abbrev format_number : ℤ → Text
format_number (pos n) = 48 ∷ (n + 100) ∷ []
format_number (negsuc n) = 45 ∷ (n + 100) ∷ []

abbrev parse_number : Text → Option ℤ
parse_number (c ∷ n ∷ []) = if c == 48 then some (pos (n - 100)) else some (negsuc (n - 100))
parse_number _ = none

abbrev shift : List ℕ → Text
shift [] = []
shift (b ∷ bytes) = (b + 100) ∷ shift bytes

abbrev unshift : Text → List ℕ
unshift [] = []
unshift (c ∷ s) = (c - 100) ∷ unshift s

abbrev marshal_fields : Text → Text → ℤ → Option (List ℕ)
marshal_fields route [] (pos offset) = some (offset ∷ route)
marshal_fields route [] (negsuc _) = none
marshal_fields route (_ ∷ _) offset = none

abbrev unmarshal_fields : List ℕ → Option Cursor
unmarshal_fields [] = none
unmarshal_fields (offset ∷ route) =
    some (record { route = route; filters = []; offset = pos offset })

abbrev shifting : Encodings
shifting = record {
  format_int = format_number;
  parse_int = parse_number;
  to_base64 = shift;
  from_base64 = λ s. some (unshift s);
  sha256 = shift;
  hmac = λ key payload. payload ++ key;
  marshal = λ cursor. marshal_fields cursor.route cursor.filters cursor.offset;
  unmarshal = unmarshal_fields;
}

unshift-shift : (bytes : List ℕ) → unshift (shift bytes) ≡ bytes
unshift-shift [] = refl
unshift-shift (b ∷ bytes) = ground (arith, unshift-shift bytes)

shift-dot : (bytes : List ℕ) → contains (shift bytes) dot ≡ false
shift-dot [] = refl
shift-dot (b ∷ bytes) = ground (arith, shift-dot bytes)

number-dot : (n : ℤ) → contains (format_number n) dot ≡ false
number-dot (pos n) = ground arith
number-dot (negsuc n) = ground arith

unmarshal-marshal :
    (route filters : Text) (offset : ℤ) (payload : List ℕ)
    → marshal_fields route filters offset ≡ some payload
    → unmarshal_fields payload ≡ some (record { route = route; filters = filters; offset = offset })
unmarshal-marshal route [] (pos offset) payload h = cc
unmarshal-marshal route [] (negsuc _) payload h = cc
unmarshal-marshal route (_ ∷ _) offset payload h = cc

shifting-IsStandard : IsStandard shifting
shifting-IsStandard = record {
  parses = λ n b. ground arith;
  decimal = number-dot;
  decodes = λ bytes. ap some (unshift-shift bytes);
  decodes_empty = refl;
  alphabet = shift-dot;
  unmarshals =
      λ cursor payload. unmarshal-marshal cursor.route cursor.filters cursor.offset payload;
}

abbrev repeated : ℕ → List ℕ
repeated zero = []
repeated (suc n) = 7 ∷ repeated n

length-repeated : (n : ℕ) → length (repeated n) ≡ n
length-repeated zero = refl
length-repeated (suc n) = ground (arith, length-repeated n)

abbrev random : ℕ → ℕ → Option (List ℕ) × ℕ
random n w = (some (repeated n), suc w)

random-fills : (k w w' : ℕ) (bytes : List ℕ) → random k w ≡ (some bytes, w') → length bytes ≡ k
random-fills k w w' bytes e = ap (length {0}) (some-eq (sym (ap (λ r. r.0) e))) ∙ length-repeated k
  where
    some-eq : {x y : List ℕ} → some x ≡ some y → x ≡ y
    some-eq e = cc

drawn : new_secret shifting random 0 ≡ (ok (shift (repeated 32), shift (shift (repeated 32))), 1)
unfolding new_secret
drawn = refl

new_secret-token_example :
    (decode_session_token shifting (encode_session_token shifting (pos 5) (shift (repeated 32)))
      ≡ ok (pos 5, shift (repeated 32)))
    × (verify_secret shifting (shift (repeated 32)) (shift (shift (repeated 32))) ≡ true)
new_secret-token_example =
    new_secret-token shifting shifting-IsStandard random random-fills 0 1 (shift (repeated 32))
      (shift (shift (repeated 32))) 5 drawn omega arith omega arith

abbrev projects : Cursor
projects = record { route = codes "/projects"; filters = []; offset = pos 20 }

abbrev key : List ℕ
key = 1 ∷ 2 ∷ []

abbrev signed : Text
signed = shift (20 ∷ codes "/projects") ++ dot ∷ shift (20 ∷ codes "/projects" ++ key)

projects-encode : encode_cursor shifting key projects ≡ ok signed
unfolding encode_cursor
projects-encode = refl

projects-decode : decode_cursor shifting key signed (codes "/projects") [] ≡ ok projects
unfolding decode_cursor cut
projects-decode = refl

decode_cursor-encode_example : decode_cursor shifting key signed (codes "/issues") [] ≡ (
    if projects.route == codes "/issues" && projects.filters == []
    then ok projects
    else err invalid_cursor)
decode_cursor-encode_example =
    decode_cursor-encode shifting shifting-IsStandard key projects signed (codes "/issues") []
      projects-encode

decode_cursor-signed_example :
    (payload : List ℕ) × (left right : Text) × (signed ≡ left ++ dot ∷ right)
    × (contains left dot ≡ false)
    × (shifting.from_base64 left ≡ some payload)
    × (shifting.from_base64 right ≡ some (shifting.hmac key payload))
    × (shifting.unmarshal payload ≡ some projects)
    × (projects.route ≡ codes "/projects")
    × (projects.filters ≡ [])
    × (pos 0 ≤ℤ projects.offset)
decode_cursor-signed_example =
    decode_cursor-signed shifting key signed (codes "/projects") [] projects projects-decode
