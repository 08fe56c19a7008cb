-- ===== src/Evidence/Objects.antt =====
-- What an evidence object and a purge manifest promise: internal/evidence/evidence.go.
use opensource_project_intel.Base.{ℕ, ◌≡◌, ◌↔◌, true, ◌&&◌, ◌||◌, not, List, [], ◌∷◌, ◌++◌, arith}
use opensource_project_intel.Base.Int.{ℤ, pos, int_eq, int_beq_iff}
use opensource_project_intel.Base.Lists.{contains, length}
use opensource_project_intel.Base.Result.{ok, is_ok}
use opensource_project_intel.Base.Text.{Text, text_eq, text_beq, text_beq_iff}
use opensource_project_intel.Evidence.{
  Object, new_object, verify, PurgeManifest, not_in, remaining, mark_deleted,
}

-- An object that `NewObject` makes of a body verifies exactly the bodies of the same length and the
-- same digest, the body itself among them.
pub new_object-verify :
    (sha256 : List ℕ → List ℕ) (key_of : ℤ → List ℕ → Text) (id project_id : ℤ) (media_type : Text)
    (body other : List ℕ) {object : Object}
    → new_object sha256 key_of id project_id media_type body ≡ ok object
    → (verify sha256 object body ≡ ok tt)
      × ((is_ok (verify sha256 object other) ≡ true)
          ↔ ((length other ≡ length body) × (sha256 other ≡ sha256 body)))
unfolding new_object verify
new_object-verify sha256 key_of id project_id media_type body other h = (
  ground (
    arith,
    text_beq_iff (sha256 body) (sha256 body),
    int_beq_iff (pos (length body)) (pos (length body)),
  ),
  ground (arith, text_beq_iff (sha256 other) (sha256 body)),
)

contains-snoc_key :
    (ss : List Text) (key s : Text)
    → contains (ss ++ key ∷ []) s ≡ (contains ss s || text_beq key s)
contains-snoc_key [] key s = ground arith
contains-snoc_key (t ∷ ss) key s = ground (arith, contains-snoc_key ss key s)

not_in-contains :
    (deleted keys : List Text) (s : Text)
    → contains (not_in deleted keys) s ≡ (contains keys s && not (contains deleted s))
unfolding not_in
not_in-contains deleted [] s = ground arith
not_in-contains deleted (key ∷ keys) s =
    ground (arith, not_in-contains deleted keys s, text_beq_iff key s)

-- `MarkDeleted` returns no error exactly for a key of the manifest, and then the keys that remain are
-- those that remained before but that one.
pub mark_deleted-remaining :
    (manifest : PurgeManifest) (key : Text)
    → ((is_ok (mark_deleted manifest key) ≡ true) ↔ (contains manifest.keys key ≡ true))
      × ((after : PurgeManifest)
          → mark_deleted manifest key ≡ ok after
          → (s : Text)
          → contains (remaining after) s
            ≡ (contains (remaining manifest) s && not (text_beq key s)))
unfolding mark_deleted remaining
mark_deleted-remaining manifest key = (
  ground arith,
  λ after h s. ground (
    arith,
    not_in-contains manifest.deleted manifest.keys s,
    not_in-contains (manifest.deleted ++ key ∷ []) manifest.keys s,
    contains-snoc_key manifest.deleted key s,
    text_beq_iff key s,
  ),
)
