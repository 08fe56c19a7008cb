-- ===== src/Analysis/Examples.antt =====
-- The theorems about analysis runs and guards at concrete inputs.
use opensource_project_intel.Base.{
  ◌≡◌, refl, ◌↔◌, Bool, true, false, Option, none, some, [], ◌∷◌, ◌++◌, arith, if◌then◌else◌, ◌==◌,
}
use opensource_project_intel.Base.Int.{ℤ, pos, int_eq, inc64, ◌<ℤ◌}
use opensource_project_intel.Base.Lists.{contains}
use opensource_project_intel.Base.Result.{ok, err, is_ok}
use opensource_project_intel.Base.Text.{Text, codes, text_eq, is_blank, trim_space}
use opensource_project_intel.Analysis.Run.{
  State-discrete, queued, succeeded, Citation, citation_eq, UsageRecord, Output, Bytes, Run,
  new_run, start, succeed, validate_output, validate_usage, selection_rejected,
}
use opensource_project_intel.Analysis.Storage.{
  bad_parent, malformed_citation, validate_for_persistence,
}
use opensource_project_intel.Analysis.History.{Feedback, append_feedback, Selection, select, Query}
use opensource_project_intel.Analysis.Evidence.{
  Resolves, IsUnrepeated, cited, IsPublishable, validate_output_iff, validate_output-cited,
}
use opensource_project_intel.Analysis.Lifecycle.{
  begin, publish, apply, perform, IsFair, perform-persists,
}
use opensource_project_intel.Analysis.Selections.{
  IsNumbered, HasDistinctRequests, select-IsNumbered, select-refuses_replay,
}
use opensource_project_intel.Analysis.Guard.{
  Confirmation, consume, confirmation_rejected, consume_once, Budget, Usage,
}

-- Every text but the empty one is the JSON of `report`.
abbrev quote : Citation
quote = record { snapshot_id = pos 1; chunk_id = pos 5; start_offset = pos 0; end_offset = pos 9 }

abbrev report : Output
report = record {
  summary = codes "up";
  claims = record { text = codes "grew"; citations = quote ∷ quote ∷ [] } ∷ [];
}

abbrev valid : Bytes → Bool
valid [] = false
valid (_ ∷ _) = true

abbrev unmarshal : Bytes → Option Output
unmarshal [] = none
unmarshal (_ ∷ _) = some report

abbrev chunks : ℤ → Option Citation
chunks chunk = if chunk == pos 5 then some quote else none

abbrev spent : UsageRecord
spent = record { input_tokens = pos 10; output_tokens = pos 3; cost = 0; currency = codes "USD" }

abbrev draft : Run
draft = record {
  id = pos 1;
  series_id = pos 2;
  project_id = pos 3;
  parent_run_id = none;
  kind = codes "summary";
  state = queued;
  prompt_version = codes "p1";
  schema_version = codes "s1";
  retrieval_version = codes "r1";
  provider = codes "gemini";
  model = codes "m";
  language = codes "en";
  requested_by = pos 9;
  reason = [];
  cutoff = pos 100;
  created_at = pos 100;
  started_at = none;
  finished_at = none;
  output = [];
  evidence = [];
  usage = spent;
  failure_code = [];
}

abbrev finished : Run
finished = record draft {
  state = succeeded;
  started_at = some (pos 110);
  finished_at = some (pos 120);
  output = 1 ∷ [];
  evidence = quote ∷ [];
}

draft-new : new_run draft ≡ ok draft
unfolding new_run trim_space is_blank
draft-new = refl

collects : validate_output valid unmarshal (1 ∷ []) chunks ≡ ok (quote ∷ [])
unfolding validate_output is_blank
collects = refl

draft-finishes :
    perform valid unmarshal (begin (pos 110) ∷ publish (1 ∷ []) chunks spent (pos 120) ∷ []) draft
    ≡ ok finished
unfolding perform apply start succeed State-discrete is_blank
draft-finishes = refl

chunks-IsFair : IsFair (publish (1 ∷ []) chunks spent (pos 120))
unfolding malformed_citation
chunks-IsFair chunk c h = ground arith

perform-persists_example : validate_for_persistence valid unmarshal finished ≡ ok tt
unfolding bad_parent validate_usage
perform-persists_example =
    perform-persists valid unmarshal draft
      (begin (pos 110) ∷ publish (1 ∷ []) chunks spent (pos 120) ∷ []) refl refl refl refl refl refl
      (tt, (chunks-IsFair, tt)) draft-new draft-finishes

validate_output_iff_example :
    (is_ok (validate_output valid unmarshal (1 ∷ []) chunks) ≡ true)
    ↔ ((output : Output) × IsPublishable valid unmarshal (1 ∷ []) chunks output)
validate_output_iff_example = validate_output_iff valid unmarshal (1 ∷ []) chunks

validate_output-cited_example :
    (output : Output) × (unmarshal (1 ∷ []) ≡ some output)
    × Resolves chunks (quote ∷ [])
    × IsUnrepeated (quote ∷ [])
    × ((c : Citation) → contains (quote ∷ []) c ≡ contains (cited output.claims) c)
validate_output-cited_example = validate_output-cited valid unmarshal (1 ∷ []) chunks collects

abbrev first : Selection
first = record {
  id = pos 50;
  series_id = pos 2;
  run_id = pos 1;
  actor_id = pos 9;
  version = pos 1;
  request_id = codes "a";
  selected_at = pos 130;
}

abbrev second : Selection
second = record first {
  id = pos 51;
  version = pos 2;
  request_id = codes "b";
  selected_at = pos 140;
}

second-selected : select (first ∷ []) finished second ≡ ok (first ∷ second ∷ [])
unfolding select State-discrete is_blank inc64
second-selected = refl

select-IsNumbered_example :
    ((first ∷ second ∷ []) ≡ (first ∷ []) ++ second ∷ [])
    × IsNumbered (first ∷ second ∷ [])
    × HasDistinctRequests (first ∷ second ∷ [])
select-IsNumbered_example =
    select-IsNumbered (first ∷ []) finished second (refl, tt) (refl, tt) (omega arith)
      second-selected

select-refuses_replay_example : select (first ∷ second ∷ []) finished first ≡ err selection_rejected
select-refuses_replay_example =
    select-refuses_replay (first ∷ second ∷ []) finished first (refl, (refl, tt)) (omega arith) refl

abbrev praise : Feedback
praise = record {
  id = pos 60;
  run_id = pos 1;
  actor_id = pos 9;
  rating = codes "faithful";
  note = codes "good";
  request_id = codes "f";
  created_at = pos 150;
}

praise-appended : append_feedback [] finished praise ≡ ok (praise ∷ [])
unfolding append_feedback State-discrete is_blank
praise-appended = refl

abbrev question : Query
question = record {
  project_id = pos 3;
  question = codes "why?";
  cutoff = pos 100;
  source_ids = pos 4 ∷ pos 6 ∷ [];
  max_results = pos 10;
  max_output_bytes = pos 2048;
}

abbrev approval : Confirmation
approval = record { action = codes "merge"; version = pos 4; expires_at = pos 200; used_at = none }

consume_once_example :
    ((is_ok (consume approval (codes "merge") (pos 4) (pos 150)) ≡ true) ↔ (
      (approval.used_at ≡ none)
      × (pos 150 <ℤ approval.expires_at)
      × (approval.action ≡ codes "merge")
      × (approval.version ≡ pos 4)))
    × ((is_ok (consume approval (codes "merge") (pos 4) (pos 150)) ≡ true)
        → (consume approval (codes "merge") (pos 4) (pos 150)
            ≡ ok (record approval { used_at = some (pos 150) }))
          × ((action : Text) (version now : ℤ)
              → consume (record approval { used_at = some (pos 150) }) action version now
                ≡ err confirmation_rejected))
consume_once_example = consume_once approval (codes "merge") (pos 4) (pos 150)

abbrev limits : Budget
limits = record { max_steps = pos 5; max_output = pos 100; max_cost = pos 9; deadline = pos 500 }

abbrev used : Usage
used = record { steps = pos 5; output = pos 7; cost = pos 0; now = pos 400 }
