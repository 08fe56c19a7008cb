-- ===== src/Evidence.antt =====
-- Evidence objects and purge manifests: internal/evidence/evidence.go. `sha256` is sha256.Sum256 and
-- `key_of` the fmt.Sprintf of a key; both are arguments. A body is a list of bytes.
pub mod Objects
pub mod Store
pub mod Kept
mod Examples
use opensource_project_intel.Base.{ℕ, Bool, ◌||◌, not, List, [], ◌∷◌, ◌++◌, if◌then◌else◌, ◌==◌}
use opensource_project_intel.Base.Int.{ℤ, pos, nonpositive, int_eq}
use opensource_project_intel.Base.Lists.{contains, length}
use opensource_project_intel.Base.Result.{Result, ok, err, fail_if}
use opensource_project_intel.Base.Text.{Text, text_eq, is_blank}

pub data Error : Type 0 where
  invalid corrupt : Error

pub record Object : Type 0 where
  pub id : ℤ
  pub project_id : ℤ
  pub key : Text
  pub digest : List ℕ
  pub size : ℤ
  pub media_type : Text

unfoldable pub new_object :
    (List ℕ → List ℕ) → (ℤ → List ℕ → Text) → ℤ → ℤ → Text → List ℕ → Result Error Object
new_object sha256 key_of id project_id media_type body =
    if nonpositive id || nonpositive project_id || is_blank media_type
    then err invalid
    else ok (record {
      id = id;
      project_id = project_id;
      key = key_of project_id (sha256 body);
      digest = sha256 body;
      size = pos (length body);
      media_type = media_type;
    })

unfoldable pub verify : (List ℕ → List ℕ) → Object → List ℕ → Result Error (Unit {0})
verify sha256 object body =
    fail_if (not (pos (length body) == object.size) || not (sha256 body == object.digest)) corrupt

pub record PurgeManifest : Type 0 where
  pub project_id : ℤ
  pub keys : List Text
  pub deleted : List Text

-- The keys of the loop of `Remaining` that are not deleted.
unfoldable pub not_in : List Text → List Text → List Text
not_in deleted [] = []
not_in deleted (key ∷ keys) =
    if not (contains deleted key) then key ∷ not_in deleted keys else not_in deleted keys

unfoldable pub remaining : PurgeManifest → List Text
unfolding not_in
remaining manifest = not_in manifest.deleted manifest.keys

unfoldable pub mark_deleted : PurgeManifest → Text → Result Error PurgeManifest
mark_deleted manifest key =
    if not (contains manifest.keys key)
    then err invalid
    else ok (
        if not (contains manifest.deleted key)
        then record manifest { deleted = manifest.deleted ++ key ∷ [] }
        else manifest)
