-- ===== src/Collector.antt =====
-- The bounded scheduler `RunBounded` of internal/collector/bounded.go. The goroutines and the context
-- interleave with the loop in any order, so a call is a system of steps: `State` holds where the
-- loop stands, the goroutines, the slice `errs` and whether the context is cancelled. Each task runs
-- once in a call, so the tasks are a function `task` to what each of them returns, an error or nil.
-- The `select` of Go takes either of its ready cases. A goroutine's deferred calls run after its task,
-- the last one first: it gives its slot back, and then it is done.
pub mod Bound
pub mod Outcome
mod Examples
use opensource_project_intel.Base.{
  ℕ, zero, suc, ◌+◌, ◌≤◌, ◌<◌, ◌≡◌, Bool, true, false, Option, none, some, List, [], ◌∷◌, ◌++◌,
  if◌then◌else◌,
}
use opensource_project_intel.Base.Int.{ℤ, pos, ltb_ℤ}
use opensource_project_intel.Base.Lists.{length}
use opensource_project_intel.Base.Result.{Result, ok, err}
use opensource_project_intel.Base.Text.{Text}

-- What a failure is reported as: a limit below 1, the error of a task with its index, or `ctx.Err()`.
pub data Failure : Type 0 where
  bad_limit : Failure
  task_failed : ℕ → Text → Failure
  context_done : Failure

-- Where the loop stands: at the `select` before task `index`, at a `wait.Wait()` (the flag: because
-- the context was done), or returned with the joined errors.
pub data Position : Type 0 where
  selecting : (index : ℕ) → Position
  waiting : (interrupted : Bool) → Position
  returned : List Failure → Position

pub record State : Type 0 where
  pub position : Position
  -- The tasks that run.
  pub running : List ℕ
  -- How many goroutines hold a slot still, with their tasks over.
  pub releasing : ℕ
  -- How many have given it back, and are not done.
  pub ending : ℕ
  pub errs : List (Option Text)
  pub cancelled : Bool

-- `make([]error, n)`.
unfoldable pub no_errors : ℕ → List (Option Text)
no_errors zero = []
no_errors (suc n) = none ∷ no_errors n

-- `errs[index] = …`.
unfoldable pub set_error : ℕ → Text → List (Option Text) → List (Option Text)
set_error index e [] = []
set_error zero e (x ∷ xs) = some e ∷ xs
set_error (suc index) e (x ∷ xs) = x ∷ set_error index e xs

-- `compact`, with the index that each error was wrapped with.
unfoldable pub compact : ℕ → List (Option Text) → List Failure
compact index [] = []
compact index (none ∷ xs) = compact (suc index) xs
compact index (some e ∷ xs) = task_failed index e ∷ compact (suc index) xs

-- `append(compact(errs), ctx.Err())` after an interruption, and `compact(errs)` otherwise.
unfoldable pub joined : Bool → List (Option Text) → List Failure
unfolding compact
joined true errs = compact 0 errs ++ context_done ∷ []
joined false errs = compact 0 errs

-- What a finished task leaves in `errs`.
abbrev pub recorded : ℕ → Option Text → List (Option Text) → List (Option Text)
recorded index none errs = errs
recorded index (some e) errs = set_error index e errs

-- The slots of the semaphore that are taken.
abbrev pub taken : State → ℕ
taken s = length s.running + s.releasing

-- The steps that a call with `limit` slots and `n` tasks takes itself.
pub data Step (limit n : ℕ) (task : ℕ → Option Text) (s : State) : State → Type 0 where
  -- The `select` takes a slot, and the task is started.
  starts :
      (index : ℕ)
      → s.position ≡ selecting index
      → index < n
      → taken s < limit
      → Step limit n task s
          (record s { position = selecting (suc index); running = index ∷ s.running })
  -- The `select` takes `ctx.Done()`.
  interrupts :
      (index : ℕ)
      → s.position ≡ selecting index
      → index < n
      → s.cancelled ≡ true
      → Step limit n task s (record s { position = waiting true })
  -- The loop is over.
  leaves : s.position ≡ selecting n → Step limit n task s (record s { position = waiting false })
  -- A task returns, and its error is written.
  finishes :
      (earlier later : List ℕ) (index : ℕ)
      → s.running ≡ earlier ++ index ∷ later
      → Step limit n task s (record s {
        running = earlier ++ later;
        releasing = suc s.releasing;
        errs = recorded index (task index) s.errs;
      })
  -- `<-semaphore`.
  releases :
      (others : ℕ)
      → s.releasing ≡ suc others
      → Step limit n task s (record s { releasing = others; ending = suc s.ending })
  -- `wait.Done()`.
  departs :
      (others : ℕ) → s.ending ≡ suc others → Step limit n task s (record s { ending = others })
  -- The wait is over.
  returns :
      (interrupted : Bool)
      → s.position ≡ waiting interrupted
      → s.running ≡ []
      → s.releasing ≡ 0
      → s.ending ≡ 0
      → Step limit n task s (record s { position = returned (joined interrupted s.errs) })

-- A number of events: steps of the call, and the cancellation of its context by somebody else.
pub data Steps (limit n : ℕ) (task : ℕ → Option Text) (s : State) : ℕ → State → Type 0 where
  here : Steps limit n task s 0 s
  then_step :
      {k : ℕ} {t u : State}
      → Steps limit n task s k t
      → Step limit n task t u
      → Steps limit n task s (suc k) u
  then_cancelled :
      {k : ℕ} {t : State}
      → Steps limit n task s k t
      → t.cancelled ≡ false
      → Steps limit n task s (suc k) (record t { cancelled = true })

-- The state in which the loop begins; without tasks it ends at once.
unfoldable pub begin : ℕ → Bool → State
unfolding no_errors
begin n cancelled = record {
  position = selecting 0;
  running = [];
  releasing = 0;
  ending = 0;
  errs = no_errors n;
  cancelled = cancelled;
}

-- The call: the limit is checked first.
unfoldable pub run_bounded : ℤ → ℕ → Bool → Result Failure State
unfolding begin
run_bounded limit n cancelled =
    if ltb_ℤ limit (pos 1) then err bad_limit else ok (begin n cancelled)
