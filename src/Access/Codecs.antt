-- ===== src/Access/Codecs.antt =====
-- Session tokens and cursors decode to what was encoded: internal/access/session.go and
-- internal/access/cursor.go.
use opensource_project_intel.Base.{
  ℕ, ◌<◌, ◌^◌, ◌≡◌, refl, ◌∙◌, ap, true, false, ◌&&◌, ◌||◌, not, Option, none, some, List, [], ◌∷◌,
  ◌++◌, if◌then◌else◌, ◌==◌, nat_eq, arith, inl, inr, Bool-cases, nat_beq,
}
use opensource_project_intel.Base.Int.{ℤ, pos, ltb_ℤ, ◌≤ℤ◌}
use opensource_project_intel.Base.Lists.{length, contains}
use opensource_project_intel.Base.Result.{ok, err, fail_if, >>=-eq-ok}
use opensource_project_intel.Base.Text.{Text, text_eq, text_beq_iff}
use opensource_project_intel.Access.Tokens.{
  Cursor, incomplete_cursor, invalid_cursor, unencodable, Encodings, dot, before, cut, or_fail,
  token_bytes, sealed, new_secret, encode_session_token, decode_session_token, verify_secret,
  encode_cursor, decode_cursor,
}

-- The documented behaviour of the encodings: decimals, the alphabet and the inverse of unpadded
-- base64, and JSON of a cursor read back.
pub record IsStandard (code : Encodings) : Type 0 where
  pub parses : (n : ℕ) → n < 2 ^ 63 → code.parse_int (code.format_int (pos n)) ≡ some (pos n)
  pub decimal : (n : ℤ) → contains (code.format_int n) dot ≡ false
  pub decodes : (bytes : List ℕ) → code.from_base64 (code.to_base64 bytes) ≡ some bytes
  pub decodes_empty : code.from_base64 [] ≡ some []
  pub alphabet : (bytes : List ℕ) → contains (code.to_base64 bytes) dot ≡ false
  pub unmarshals :
      (cursor : Cursor) (payload : List ℕ)
      → code.marshal cursor ≡ some payload
      → code.unmarshal payload ≡ some cursor

cut-append : (s t : Text) → contains s dot ≡ false → cut (s ++ dot ∷ t) ≡ some (s, t)
unfolding cut
cut-append [] t h = refl
cut-append (c ∷ s) t h = ground (arith, cut-append s t)

before-eq-some :
    (c : ℕ) (o : Option (Text × Text)) {left right : Text}
    → before c o ≡ some (left, right)
    → (l : Text) × (o ≡ some (l, right)) × (left ≡ c ∷ l)
before-eq-some c none h = cc
before-eq-some c (some (l, r)) h = (l, cc, cc)

cut-eq-some :
    (value left right : Text)
    → cut value ≡ some (left, right)
    → (value ≡ left ++ dot ∷ right) × (contains left dot ≡ false)
unfolding cut
cut-eq-some [] left right h = cc
cut-eq-some (c ∷ s) left right h = elim (Bool-cases (nat_beq c dot)) [
  | inl b ↦ ground arith
  | inr b ↦
      let rest : before c (cut s) ≡ some (left, right) = ground arith in
      let (l, e, same) = before-eq-some c (cut s) rest in
      let (back, clean) = cut-eq-some s l right e in ground (arith, back, clean, same)
]

or_fail-ok : {E A : Type 0} (e : E) (o : Option A) {a : A} → or_fail e o ≡ ok a → o ≡ some a
or_fail-ok e none h = cc
or_fail-ok e (some a) h = cc

module _ (code : Encodings) (standard : IsStandard code) where
  decode_session_token-encode :
      (n : ℕ) (verifier : Text) (bytes : List ℕ)
      → 0 < n
      → n < 2 ^ 63
      → code.from_base64 verifier ≡ some bytes
      → length bytes ≡ 32
      → decode_session_token code (encode_session_token code (pos n) verifier)
        ≡ ok (pos n, verifier)
  unfolding decode_session_token encode_session_token
  decode_session_token-encode n verifier bytes p b d l = ground (
    arith,
    cut-append (code.format_int (pos n)) verifier (standard.decimal (pos n)),
    standard.parses n b,
    standard.decodes_empty,
    text_beq_iff verifier [],
    d,
    l,
  )

  sealed-ok :
      (raw : Option (List ℕ)) {secret : Text} {digest : List ℕ}
      → sealed code raw ≡ ok (secret, digest)
      → (bytes : List ℕ) × (raw ≡ some bytes)
        × (secret ≡ code.to_base64 bytes)
        × (digest ≡ code.sha256 (code.to_base64 bytes))
  unfolding sealed
  sealed-ok none h = cc
  sealed-ok (some bytes) h = (bytes, refl, ground arith, ground arith)

  -- A secret that `NewSecret` returned, made into the token of a positive identifier, decodes to that
  -- identifier and the secret, and verifies against the digest that came with it. The encodings
  -- keep their documented behaviour and the random source fills the slice it is given.
  pub new_secret-token :
      {W : Type 0} (random : ℕ → W → Option (List ℕ) × W)
      → ((k : ℕ) (w w' : W) (bytes : List ℕ) → random k w ≡ (some bytes, w') → length bytes ≡ k)
      → (w w' : W) (secret : Text) (digest : List ℕ) (n : ℕ)
      → new_secret code random w ≡ (ok (secret, digest), w')
      → 0 < n
      → n < 2 ^ 63
      → (decode_session_token code (encode_session_token code (pos n) secret) ≡ ok (pos n, secret))
        × (verify_secret code secret digest ≡ true)
  unfolding new_secret verify_secret
  new_secret-token random fills w w' secret digest n h p b =
      let (bytes, drawn, same, kept) = sealed-ok (random token_bytes w).0 (ap (λ r. r.0) h) in
      let full : length bytes ≡ 32 =
        fills 32 w _ bytes (ap (λ x. (x, (random token_bytes w).1)) drawn) in
      let known : code.from_base64 secret ≡ some bytes =
        ap code.from_base64 same ∙ standard.decodes bytes in
      (
        decode_session_token-encode n secret bytes p b known full,
        ground (arith, same, kept, text_beq_iff digest digest),
      )

  -- A cursor that a key's codec encoded decodes under that key to itself for its own route and filters,
  -- and is refused for any other. The encodings keep their documented behaviour.
  pub decode_cursor-encode :
      (key : List ℕ) (cursor : Cursor) (value route filters : Text)
      → encode_cursor code key cursor ≡ ok value
      → decode_cursor code key value route filters ≡ (
          if cursor.route == route && cursor.filters == filters
          then ok cursor
          else err invalid_cursor)
  unfolding encode_cursor decode_cursor
  decode_cursor-encode key cursor value route filters h =
      let (_, guarded, h') =
        >>=-eq-ok (fail_if (cursor.route == [] || ltb_ℤ cursor.offset (pos 0)) incomplete_cursor) _
          h in
      let (payload, marshalled, h'') = >>=-eq-ok (or_fail unencodable (code.marshal cursor)) _ h' in
      let signature = code.hmac key payload in
      ground (
        arith,
        cut-append (code.to_base64 payload) (code.to_base64 signature) (standard.alphabet payload),
        standard.decodes payload,
        standard.decodes signature,
        standard.unmarshals cursor payload (or_fail-ok unencodable _ marshalled),
        text_beq_iff signature signature,
        guarded,
        h'',
      )

module _ (code : Encodings) where
  -- `Decode` accepts only what was signed with the key: an accepted text has a payload that decodes to
  -- the cursor before its first dot and that payload's signature after it, and the cursor has the
  -- route and the filters asked for and no negative offset.
  pub decode_cursor-signed :
      (key : List ℕ) (value route filters : Text) (cursor : Cursor)
      → decode_cursor code key value route filters ≡ ok cursor
      → (payload : List ℕ) × (left right : Text) × (value ≡ left ++ dot ∷ right)
        × (contains left dot ≡ false)
        × (code.from_base64 left ≡ some payload)
        × (code.from_base64 right ≡ some (code.hmac key payload))
        × (code.unmarshal payload ≡ some cursor)
        × (cursor.route ≡ route)
        × (cursor.filters ≡ filters)
        × (pos 0 ≤ℤ cursor.offset)
  unfolding decode_cursor
  decode_cursor-signed key value route filters cursor h =
      let ((left, right), e1, h1) = >>=-eq-ok (or_fail invalid_cursor (cut value)) _ h in
      let (payload, e2, h2) = >>=-eq-ok (or_fail invalid_cursor (code.from_base64 left)) _ h1 in
      let (signature, e3, h3) = >>=-eq-ok (or_fail invalid_cursor (code.from_base64 right)) _ h2 in
      let (_, e4, h4) =
        >>=-eq-ok (fail_if (not (signature == code.hmac key payload)) invalid_cursor) _ h3 in
      let (found, e5, h5) = >>=-eq-ok (or_fail invalid_cursor (code.unmarshal payload)) _ h4 in
      let (back, clean) = cut-eq-some value left right (or_fail-ok invalid_cursor _ e1) in
      let p = or_fail-ok invalid_cursor _ e2 in
      let s = or_fail-ok invalid_cursor _ e3 in
      let u = or_fail-ok invalid_cursor _ e5 in
      (
        payload,
        left,
        right,
        back,
        clean,
        p,
        ground (arith, text_beq_iff signature (code.hmac key payload)),
        ground arith,
        ground (arith, text_beq_iff found.route route),
        ground (arith, text_beq_iff found.filters filters),
        ground arith,
      )
