-- ===== src/Project.antt =====
-- The project aggregate of internal/project/project.go, and `MarkUnavailable` of
-- internal/project/rules.go. A method of the value receiver returns the changed record or the error.
-- `Validate` lowers URLs by the Unicode table `table` (strings.ToLower beyond ASCII), and
-- `AddRepository` compares them by `equal_fold` (strings.EqualFold); both are arguments. The slices
-- are values here: that a method also writes to its caller's slice is not modelled.
pub mod History
pub mod Ranges
pub mod Slugs
pub mod Valid
pub mod Lifecycle
pub mod Repositories
pub mod Primary
pub mod Removal
pub mod Association
mod Examples
use native.Mathlib.Decide.{ℕ_discrete}
use opensource_project_intel.Base.{
  ℕ, zero, suc, ◌+◌, Bool, true, false, ◌&&◌, ◌||◌, not, Option, none, some, List, [], ◌∷◌, ◌++◌,
  map, if◌then◌else◌, ltb, leb, Eq, ◌==◌, nat_eq, eq_of_discrete,
}
use opensource_project_intel.Base.Int.{ℤ, pos, ltb_ℤ, leb_ℤ, nonpositive, inc64, int_eq}
use opensource_project_intel.Base.Lists.{contains, length}
use opensource_project_intel.Base.Result.{Result, ok, err, ◌>>=◌, ◌>>◌, fail_if, is_ok}
use opensource_project_intel.Base.Text.{Text, codes, text_eq, is_blank, trim_space, to_lower}

pub data State : Type 0 where
  active paused archived deleting deleted : State
  other_state : Text → State

pub data Role : Type 0 where
  primary core documentation examples sdk other : Role
  other_role : Text → Role

pub data SourceState : Type 0 where
  available unavailable source_paused removed : SourceState
  other_source_state : Text → SourceState

unfoldable pub State-discrete : Discrete State
State-discrete = hlevel ℕ_discrete

unfoldable pub Role-discrete : Discrete Role
Role-discrete = hlevel ℕ_discrete

instance abbrev pub State_eq : Eq State
State_eq = eq_of_discrete State-discrete

instance abbrev pub Role_eq : Eq Role
Role_eq = eq_of_discrete Role-discrete

pub data Error : Type 0 where
  invalid conflict version_conflict permission_denied not_found : Error

pub record Repository : Type 0 where
  pub id : ℤ
  pub project_id : ℤ
  pub provider : Text
  pub canonical_url : Text
  pub role : Role
  pub version : ℤ

pub record Source : Type 0 where
  pub id : ℤ
  pub project_id : ℤ
  pub kind : Text
  pub canonical_url : Text
  pub state : SourceState
  pub public : Bool
  pub coverage_from : Option ℤ
  pub coverage_to : Option ℤ
  pub last_attempt_at : Option ℤ
  pub last_success_at : Option ℤ
  pub next_run_at : Option ℤ
  pub failure : Text
  pub version : ℤ

pub record Project : Type 0 where
  pub id : ℤ
  pub workspace_id : ℤ
  pub name : Text
  pub slug : Text
  pub description : Text
  pub state : State
  pub version : ℤ
  pub repositories : List Repository
  pub sources : List Source
  pub deleted_at : Option ℤ

-- `max(version, 1)`.
abbrev pub at_least_one : ℤ → ℤ
at_least_one version = if ltb_ℤ version (pos 1) then pos 1 else version

unfoldable pub valid_state : State → Bool
valid_state (other_state s) = false
valid_state _ = true

unfoldable pub valid_role : Role → Bool
valid_role (other_role s) = false
valid_role _ = true

unfoldable pub new : ℤ → ℤ → Text → Text → Repository → Result Error Project
new id workspace_id name slug repository =
    if nonpositive id || nonpositive workspace_id || is_blank name || is_blank slug
    then err invalid
    else if nonpositive repository.id
        || not (repository.project_id == id)
        || not (repository.role == primary)
        || is_blank repository.canonical_url
    then err invalid
    else ok (record {
      id = id;
      workspace_id = workspace_id;
      name = trim_space name;
      slug = trim_space slug;
      description = [];
      state = active;
      version = pos 1;
      repositories = record repository { version = at_least_one repository.version } ∷ [];
      sources = [];
      deleted_at = none;
    })

-- The check of one repository that `Validate` and `AddRepository` share.
unfoldable pub malformed : ℤ → Repository → Bool
unfolding valid_role
malformed project_id r =
    nonpositive r.id
    || not (r.project_id == project_id)
    || not (valid_role r.role)
    || is_blank r.canonical_url

-- The loop of `Validate`, with the URLs seen and the primaries counted so far.
unfoldable pub scan : (ℕ → ℕ) → ℤ → List Text → ℕ → List Repository → Result Error ℕ
unfolding malformed
scan table id seen primaries [] = ok primaries
scan table id seen primaries (r ∷ rs) =
    fail_if (malformed id r) invalid
    >> (fail_if (contains seen (to_lower table r.canonical_url)) conflict
        >> scan table id (to_lower table r.canonical_url ∷ seen)
            (if r.role == primary then suc primaries else primaries) rs)

unfoldable pub validate : (ℕ → ℕ) → Project → Result Error (Unit {0})
unfolding scan valid_state
validate table p = do
  fail_if
      (nonpositive p.id
        || nonpositive p.workspace_id
        || is_blank p.name
        || is_blank p.slug
        || nonpositive p.version
        || not (valid_state p.state))
      invalid
  primaries ← scan table p.id [] 0 p.repositories
  fail_if (not (p.state == deleted) && not (primaries == 1)) conflict

unfoldable pub can_synchronize : Project → Result Error (Unit {0})
can_synchronize p = fail_if (not (p.state == active)) conflict

unfoldable pub allowed : State → List State
allowed active = paused ∷ archived ∷ deleting ∷ []
allowed paused = active ∷ archived ∷ deleting ∷ []
allowed archived = active ∷ paused ∷ deleting ∷ []
allowed deleting = deleted ∷ []
allowed _ = []

-- The assignments of `Transition`; `now` is what time.Now gives.
enter : Project → State → ℤ → Project
enter p to now =
    let moved = record p { state = to; version = inc64 p.version } in
    if to == deleted
    then record moved { deleted_at = some now; repositories = []; sources = [] }
    else moved

unfoldable pub transition : Project → State → ℤ → Bool → ℤ → Result Error Project
unfolding allowed enter
transition p to expected_version admin now =
    if not admin
    then err permission_denied
    else if not (expected_version == p.version)
    then err version_conflict
    else if p.state == to && (to == paused || to == archived)
    then ok p
    else if not (contains (allowed p.state) to)
    then err conflict
    else ok (enter p to now)

unfoldable pub read_only : State → Bool
read_only archived = true
read_only deleting = true
read_only deleted = true
read_only _ = false

-- The loop that turns every primary into a core repository.
unfoldable pub demote : List Repository → List Repository
demote [] = []
demote (r ∷ rs) =
    (if r.role == primary then record r { role = core; version = inc64 r.version } else r)
    ∷ demote rs

-- `p, p.Validate()`: the project beside an error is dropped.
checked : (ℕ → ℕ) → Project → Result Error Project
unfolding validate
checked table p = validate table p >> ok p

unfoldable pub has_url : (Text → Text → Bool) → Text → List Repository → Bool
has_url equal_fold url [] = false
has_url equal_fold url (r ∷ rs) = equal_fold r.canonical_url url || has_url equal_fold url rs

unfoldable pub add_repository :
    (ℕ → ℕ) → (Text → Text → Bool) → Project → Repository → ℤ → Result Error Project
unfolding read_only malformed has_url demote checked
add_repository table equal_fold p repository limit =
    if read_only p.state
    then err conflict
    else if ltb_ℤ (pos 0) limit && leb_ℤ limit (pos (length p.repositories))
    then err conflict
    else if malformed p.id repository
    then err invalid
    else if has_url equal_fold repository.canonical_url p.repositories
    then ok p
    else let kept = if repository.role == primary then demote p.repositories else p.repositories in
      checked table (record p {
        repositories = kept ++ record repository { version = at_least_one repository.version } ∷ [];
        version = inc64 p.version;
      })

unfoldable pub find_repository : ℤ → List Repository → Option Repository
find_repository id [] = none
find_repository id (r ∷ rs) = if r.id == id then some r else find_repository id rs

-- The write to the first repository of that id.
unfoldable pub set_role : ℤ → Role → List Repository → List Repository
set_role id role [] = []
set_role id role (r ∷ rs) =
    if r.id == id
    then record r { role = role; version = inc64 r.version } ∷ rs
    else r ∷ set_role id role rs

unfoldable pub remove_first : ℤ → List Repository → List Repository
remove_first id [] = []
remove_first id (r ∷ rs) = if r.id == id then rs else r ∷ remove_first id rs

change_found : (ℕ → ℕ) → Project → Role → Option Repository → Result Error Project
unfolding demote set_role checked
change_found table p role none = err not_found
change_found table p role (some found) =
    if found.role == role
    then ok p
    else if not (role == primary) && found.role == primary
    then err conflict
    else let kept = if role == primary then demote p.repositories else p.repositories in
      checked table
        (record p { repositories = set_role found.id role kept; version = inc64 p.version })

unfoldable pub change_repository_role : (ℕ → ℕ) → Project → ℤ → Role → Result Error Project
unfolding read_only valid_role find_repository change_found
change_repository_role table p id role =
    if read_only p.state
    then err conflict
    else if not (valid_role role)
    then err invalid
    else change_found table p role (find_repository id p.repositories)

remove_found : (ℕ → ℕ) → Project → Option Repository → Result Error Project
unfolding remove_first checked
remove_found table p none = ok p
remove_found table p (some found) =
    if found.role == primary
    then err conflict
    else checked table (record p {
      repositories = remove_first found.id p.repositories;
      version = inc64 p.version;
    })

unfoldable pub remove_repository : (ℕ → ℕ) → Project → ℤ → Result Error Project
unfolding read_only find_repository remove_found
remove_repository table p id =
    if read_only p.state
    then err conflict
    else remove_found table p (find_repository id p.repositories)

unfoldable pub mark_unavailable : Source → Text → Result Error Source
mark_unavailable source reason =
    if is_blank reason
    then err invalid
    else ok (record source {
      state = unavailable;
      public = false;
      failure = trim_space reason;
      next_run_at = none;
      version = inc64 source.version;
    })
