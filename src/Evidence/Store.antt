-- ===== src/Evidence/Store.antt =====
-- The evidence store of internal/evidence/store.go. `Services` are the blob store and the catalog that
-- it is made of, over any type of worlds, with the fmt.Sprintf of a staged key. The error of a blob
-- store's Delete is dropped, so `delete` has none.
use opensource_project_intel.Base.{ℕ, not, List, ◌++◌, ◌==◌}
use opensource_project_intel.Base.Int.{ℤ, int_eq}
use opensource_project_intel.Base.Result.{Result, ok, err, fail_if}
use opensource_project_intel.Base.Stateful.{Action, after, ◌>>=◌, pure}
use opensource_project_intel.Base.Text.{Text, codes}
use opensource_project_intel.Evidence.{Error, invalid, Object, new_object, verify}

-- `domain` is an error of the package, `wrapped` one of a service after a text that says what failed,
-- and `passed` one that is returned as it is.
pub data Failure : Type 0 where
  domain : Error → Failure
  wrapped : Text → Text → Failure
  passed : Text → Failure

pub record Services (W : Type 0) : Type 0 where
  pub stage : Text → List ℕ → Text → W → Result Text (Unit {0}) × W
  pub read : Text → W → Result Text (List ℕ) × W
  pub promote : Text → Text → W → Result Text (Unit {0}) × W
  pub delete : Text → W → W
  pub commit : Object → W → Result Text (Unit {0}) × W
  pub find : ℤ → ℤ → W → Result Text Object × W
  pub sha256 : List ℕ → List ℕ
  pub key_of : ℤ → List ℕ → Text
  pub staged_suffix : ℤ → Text

abbrev pub in_domain : {A : Type 0} → Result Error A → Result Failure A
in_domain (ok a) = ok a
in_domain (err e) = err (domain e)

-- `fmt.Errorf("what: %w", err)` on an error of a call.
abbrev pub wrap : {A W : Type 0} → Text → Result Text A × W → Result Failure A × W
wrap what (ok a, w) = (ok a, w)
wrap what (err e, w) = (err (wrapped what e), w)

abbrev pub pass : {A W : Type 0} → Result Text A × W → Result Failure A × W
pass (ok a, w) = (ok a, w)
pass (err e, w) = (err (passed e), w)

module _ {W : Type 0} (services : Services W) where
  -- What runs as the call returns: a failure deletes the key.
  abbrev pub or_delete : {A : Type 0} → Text → Result Failure A × W → Result Failure A × W
  or_delete key (ok a, w) = (ok a, w)
  or_delete key (err e, w) = (err e, services.delete key w)

  abbrev pub staged_key : Object → Text
  staged_key object = object.key ++ services.staged_suffix object.id

  unfoldable pub committed : Object → Action W Failure Object
  committed object w = or_delete object.key (
      after (λ _. pure (ok object))
        (wrap (codes "commit evidence ownership") (services.commit object w)))

  -- From the read of the staged bytes on.
  unfoldable pub promoted : Object → Action W Failure Object
  unfolding committed
  promoted object = do
    staged ← λ w. wrap (codes "read staged evidence") (services.read (staged_key object) w)
    _ ← pure (in_domain (verify services.sha256 object staged))
    _ ← λ w. wrap (codes "promote evidence") (services.promote (staged_key object) object.key w)
    committed object

  unfoldable pub put_evidence : ℤ → ℤ → Text → List ℕ → Action W Failure Object
  unfolding promoted
  put_evidence id project_id media_type body = do
    object ←
        pure (in_domain (new_object services.sha256 services.key_of id project_id media_type body))
    _ ← λ w. wrap (codes "stage evidence") (services.stage (staged_key object) body media_type w)
    λ w. or_delete (staged_key object) (promoted object w)

  -- The rest of `Get` on the object that the catalog found.
  unfoldable pub read_object : ℤ → Object → Action W Failure (List ℕ)
  read_object project_id object = do
    _ ← pure (in_domain (fail_if (not (object.project_id == project_id)) invalid))
    body ← λ w. wrap (codes "read evidence") (services.read object.key w)
    _ ← pure (in_domain (verify services.sha256 object body))
    pure (ok body)

  unfoldable pub get_evidence : ℤ → ℤ → Action W Failure (List ℕ)
  unfolding read_object
  get_evidence project_id object_id = do
    object ← λ w. pass (services.find project_id object_id w)
    read_object project_id object
