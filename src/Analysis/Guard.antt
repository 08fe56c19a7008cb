-- ===== src/Analysis/Guard.antt =====
-- The guards on an agent: internal/analysis/guard.go and internal/analysis/readiness.go. `ToLower`
-- beyond ASCII is the table `table`; the text that an error wraps is dropped.
use opensource_project_intel.Base.{
  ℕ, Bool, true, ◌||◌, not, Option, none, some, List, [], ◌∷◌, if◌then◌else◌, ◌==◌, is_some, ◌≡◌,
  refl, ◌↔◌, ◌≢◌, arith, nat_eq,
}
use opensource_project_intel.Base.Int.{ℤ, pos, ltb_ℤ, nonpositive, int_eq, int_beq_iff, ◌≤ℤ◌, ◌<ℤ◌}
use opensource_project_intel.Base.Lists.{contains, all}
use opensource_project_intel.Base.Result.{Result, ok, err, is_ok, fail_if}
use opensource_project_intel.Base.Text.{
  Text, text_eq, text_beq_iff, is_blank, codes, to_lower, trim_space,
}

pub data Error : Type 0 where
  tool_not_allowed action_not_allowed confirmation_rejected : Error
  budget_exceeded dependencies_incomplete insufficient_data : Error

pub record Guard : Type 0 where
  pub tools : List Text

unfoldable pub new_guard : List Text → Result Error Guard
new_guard [] = err tool_not_allowed
new_guard (tool ∷ tools) =
    if not (all (λ t. not (is_blank t)) (tool ∷ tools))
    then err tool_not_allowed
    else ok (record { tools = tool ∷ tools })

-- The receiver is a pointer: `none` is nil.
unfoldable pub authorize_tool : Option Guard → Text → Result Error (Unit {0})
authorize_tool none tool = err tool_not_allowed
authorize_tool (some guard) tool = fail_if (not (contains guard.tools tool)) tool_not_allowed

abbrev pub forbidden : List Text
forbidden =
    codes "membership"
    ∷ codes "credential"
    ∷ codes "policy"
    ∷ codes "archive"
    ∷ codes "deletion"
    ∷ []

unfoldable pub authorize_proposal : (ℕ → ℕ) → Text → Result Error (Unit {0})
authorize_proposal table action =
    fail_if (contains forbidden (to_lower table (trim_space action))) action_not_allowed

pub record Confirmation : Type 0 where
  pub action : Text
  pub version : ℤ
  pub expires_at : ℤ
  pub used_at : Option ℤ

unfoldable pub consume : Confirmation → Text → ℤ → ℤ → Result Error Confirmation
consume confirmation action version now =
    if is_some confirmation.used_at
      || not (ltb_ℤ now confirmation.expires_at)
      || not (confirmation.action == action)
      || not (confirmation.version == version)
    then err confirmation_rejected
    else ok (record confirmation { used_at = some now })

pub record Budget : Type 0 where
  pub max_steps : ℤ
  pub max_output : ℤ
  pub max_cost : ℤ
  pub deadline : ℤ

pub record Usage : Type 0 where
  pub steps : ℤ
  pub output : ℤ
  pub cost : ℤ
  pub now : ℤ

unfoldable pub check : Budget → Usage → Result Error (Unit {0})
check budget usage =
    if nonpositive budget.max_steps
      || nonpositive budget.max_output
      || nonpositive budget.max_cost
      || budget.deadline == pos 0
    then err budget_exceeded
    else fail_if
        (ltb_ℤ budget.max_steps usage.steps
          || ltb_ℤ budget.max_output usage.output
          || ltb_ℤ budget.max_cost usage.cost
          || ltb_ℤ budget.deadline usage.now)
        budget_exceeded

pub record Readiness : Type 0 where
  pub collection_complete : Bool
  pub metrics_complete : Bool
  pub observation_count : ℤ

unfoldable pub authorize_publication : Readiness → Result Error (Unit {0})
authorize_publication value =
    if not value.collection_complete || not value.metrics_complete
    then err dependencies_incomplete
    else fail_if (nonpositive value.observation_count) insufficient_data

-- A confirmation is consumed exactly when it is unused, unexpired and given for that action and that
-- version, and the value returned, which differs only in the time of its use, is never consumed again.
pub consume_once :
    (c : Confirmation) (action : Text) (version now : ℤ)
    → ((is_ok (consume c action version now) ≡ true) ↔ (
        (c.used_at ≡ none) × (now <ℤ c.expires_at) × (c.action ≡ action) × (c.version ≡ version)))
      × ((is_ok (consume c action version now) ≡ true)
          → (consume c action version now ≡ ok (record c { used_at = some now }))
            × ((action' : Text) (version' now' : ℤ)
                → consume (record c { used_at = some now }) action' version' now'
                  ≡ err confirmation_rejected))
unfolding consume
consume_once c action version now = (
  ground (arith, text_beq_iff c.action action, int_beq_iff c.version version),
  λ h. (ground arith, λ action' version' now'. refl),
)

-- `Check` returns no error exactly for a budget with positive limits and a deadline, and a usage within
-- all of its limits.
pub check_iff :
    (budget : Budget) (usage : Usage)
    → (is_ok (check budget usage) ≡ true) ↔ (
        (pos 0 <ℤ budget.max_steps)
        × (pos 0 <ℤ budget.max_output)
        × (pos 0 <ℤ budget.max_cost)
        × (budget.deadline ≢ pos 0)
        × (usage.steps ≤ℤ budget.max_steps)
        × (usage.output ≤ℤ budget.max_output)
        × (usage.cost ≤ℤ budget.max_cost)
        × (usage.now ≤ℤ budget.deadline))
unfolding check
check_iff budget usage = ground (arith, int_beq_iff budget.deadline (pos 0))
