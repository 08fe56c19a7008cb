-- ===== src/Collector/Examples.antt =====
-- The theorems about the bounded scheduler at a concrete call: two tasks, of which the second fails
-- and ends first, in one or two slots.
use opensource_project_intel.Base.{
  ℕ, zero, suc, ◌+◌, ◌*◌, ◌≤◌, ◌≡◌, refl, ◌⊎◌, true, false, Option, none, some, List, [], ◌∷◌, ◌++◌,
  arith,
}
use opensource_project_intel.Base.Text.{Text, codes}
use opensource_project_intel.Collector.{
  Failure, task_failed, context_done, selecting, returned, State, no_errors, set_error, compact,
  joined, Step, starts, leaves, finishes, releases, departs, returns, taken, waiting, Steps, here,
  then_step, begin, run_bounded,
}
use opensource_project_intel.Collector.Bound.{run_bounded_ends, run_bounded_moves}
use opensource_project_intel.Collector.Outcome.{failures, run_bounded_refines}

abbrev task : ℕ → Option Text
task zero = none
task (suc index) = some (codes "e")

abbrev both : State
both = record {
  position = selecting 2;
  running = 1 ∷ 0 ∷ [];
  releasing = 0;
  ending = 0;
  errs = none ∷ none ∷ [];
  cancelled = false;
}

abbrev done : State
done = record both {
  position = returned (task_failed 1 (codes "e") ∷ []);
  running = [];
  errs = none ∷ some (codes "e") ∷ [];
}

both-Steps : Steps 2 2 task (begin 2 false) 2 both
unfolding begin no_errors
both-Steps =
    then_step (then_step here (starts 0 refl (omega arith) (omega arith)))
      (starts 1 refl (omega arith) (omega arith))

-- The second task ends, the loop is over, the first one ends, and both goroutines are done.
abbrev over : State
over = record both {
  position = waiting false;
  running = [];
  releasing = 2;
  errs = none ∷ some (codes "e") ∷ [];
}

over-Steps : Steps 2 2 task (begin 2 false) 5 over
unfolding begin no_errors set_error
over-Steps =
    then_step (then_step (then_step both-Steps (finishes [] (0 ∷ []) 1 refl)) (leaves refl))
      (finishes [] [] 0 refl)

done-Steps : Steps 2 2 task (begin 2 false) 10 done
unfolding joined compact
done-Steps =
    then_step
      (then_step
        (then_step (then_step (then_step over-Steps (releases 1 refl)) (departs 0 refl))
          (releases 0 refl))
        (departs 0 refl))
      (returns false refl refl refl refl)

run_bounded_ends_example : (taken both ≤ 2) × (2 ≤ 4 * 2 + 3)
run_bounded_ends_example = run_bounded_ends false both-Steps

run_bounded_moves_example :
    ((fs : List Failure) × (both.position ≡ returned fs)) ⊎ ((u : State) × Step 2 2 task both u)
unfolding run_bounded
run_bounded_moves_example = run_bounded_moves false refl both-Steps

run_bounded_refines_example :
    ((task_failed 1 (codes "e") ∷ []) ≡ failures task 0 2)
    ⊎ ((done.cancelled ≡ true)
        × ((m : ℕ) × (m ≤ 2)
            × ((task_failed 1 (codes "e") ∷ []) ≡ failures task 0 m ++ context_done ∷ [])))
run_bounded_refines_example = run_bounded_refines task false done-Steps refl
