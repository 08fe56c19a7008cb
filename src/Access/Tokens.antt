-- ===== src/Access/Tokens.antt =====
-- Session tokens and signed cursors: internal/access/session.go and internal/access/cursor.go.
-- `Encodings` has what the code takes from strconv, base64, SHA-256, HMAC and JSON. Each of a file's
-- errors is a text, and `Error` has one constructor for each text.
use opensource_project_intel.Base.{
  ℕ, Bool, true, ◌||◌, not, Option, none, some, List, [], ◌∷◌, ◌++◌, if◌then◌else◌, ltb, ◌==◌,
  nat_eq,
}
use opensource_project_intel.Base.Int.{ℤ, pos, ltb_ℤ, nonpositive}
use opensource_project_intel.Base.Lists.{length}
use opensource_project_intel.Base.Result.{Result, ok, err, fail_if, ◌>>=◌}
use opensource_project_intel.Base.Stateful.{Action}
use opensource_project_intel.Base.Text.{Text, text_eq}

pub record Cursor : Type 0 where
  pub route : Text
  pub filters : Text
  pub offset : ℤ

pub data Error : Type 0 where
  no_entropy : Error
  invalid_token : Error
  weak_key incomplete_cursor invalid_cursor : Error
  unencodable : Error

pub record Encodings : Type 0 where
  pub format_int : ℤ → Text
  pub parse_int : Text → Option ℤ
  pub to_base64 : List ℕ → Text
  pub from_base64 : Text → Option (List ℕ)
  pub sha256 : Text → List ℕ
  pub hmac : List ℕ → List ℕ → List ℕ
  pub marshal : Cursor → Option (List ℕ)
  pub unmarshal : List ℕ → Option Cursor

abbrev pub dot : ℕ
dot = 46

abbrev pub before : ℕ → Option (Text × Text) → Option (Text × Text)
before c none = none
before c (some (left, right)) = some (c ∷ left, right)

-- `strings.Cut(s, ".")`, which `cutCursor` is too: what stands before and after the first dot.
unfoldable pub cut : Text → Option (Text × Text)
cut [] = none
cut (c ∷ s) = let rest = cut s in if c == dot then some ([], s) else before c rest

abbrev pub or_fail : {E A : Type 0} → E → Option A → Result E A
or_fail e none = err e
or_fail e (some a) = ok a

abbrev pub token_bytes : ℕ
token_bytes = 32

module _ (code : Encodings) where
  -- The pair that `NewSecret` makes of its random bytes.
  unfoldable pub sealed : Option (List ℕ) → Result Error (Text × List ℕ)
  sealed raw = do
    bytes ← or_fail no_entropy raw
    ok (code.to_base64 bytes, code.sha256 (code.to_base64 bytes))

  -- `random n` is rand.Read into a slice of n bytes.
  unfoldable pub new_secret :
      {W : Type 0} → (ℕ → W → Option (List ℕ) × W) → Action W Error (Text × List ℕ)
  unfolding sealed
  new_secret random w = let (raw, w') = random token_bytes w in (sealed raw, w')

  unfoldable pub encode_session_token : ℤ → Text → Text
  encode_session_token id verifier = code.format_int id ++ dot ∷ verifier

  -- `err != nil || len(decoded) != tokenBytes`.
  abbrev pub wrong_verifier : Option (List ℕ) → Bool
  wrong_verifier none = true
  wrong_verifier (some decoded) = not (length decoded == token_bytes)

  unfoldable pub decode_session_token : Text → Result Error (ℤ × Text)
  unfolding cut
  decode_session_token token = do
    (id_text, verifier) ← or_fail invalid_token (cut token)
    _ ← fail_if (verifier == []) invalid_token
    id ← or_fail invalid_token (code.parse_int id_text)
    _ ← fail_if (nonpositive id) invalid_token
    _ ← fail_if (wrong_verifier (code.from_base64 verifier)) invalid_token
    ok (id, verifier)

  unfoldable pub verify_secret : Text → List ℕ → Bool
  verify_secret verifier expected = code.sha256 verifier == expected

  -- A codec is its key.
  unfoldable pub new_cursor_codec : List ℕ → Result Error (List ℕ)
  new_cursor_codec key = if ltb (length key) 32 then err weak_key else ok key

  unfoldable pub encode_cursor : List ℕ → Cursor → Result Error Text
  encode_cursor key cursor = do
    _ ← fail_if (cursor.route == [] || ltb_ℤ cursor.offset (pos 0)) incomplete_cursor
    payload ← or_fail unencodable (code.marshal cursor)
    ok (code.to_base64 payload ++ dot ∷ code.to_base64 (code.hmac key payload))

  unfoldable pub decode_cursor : List ℕ → Text → Text → Text → Result Error Cursor
  unfolding cut
  decode_cursor key value route filters = do
    (payload_text, signature_text) ← or_fail invalid_cursor (cut value)
    payload ← or_fail invalid_cursor (code.from_base64 payload_text)
    signature ← or_fail invalid_cursor (code.from_base64 signature_text)
    _ ← fail_if (not (signature == code.hmac key payload)) invalid_cursor
    cursor ← or_fail invalid_cursor (code.unmarshal payload)
    _ ←
        fail_if
          (not (cursor.route == route)
            || not (cursor.filters == filters)
            || ltb_ℤ cursor.offset (pos 0))
          invalid_cursor
    ok cursor
