-- ===== src/Collector/Bound.antt =====
-- At most `limit` tasks are in flight, every call ends, and it cannot get stuck.
use opensource_project_intel.Base.{
  ℕ, zero, suc, ◌+◌, ◌*◌, ◌-◌, ◌≤◌, ◌<◌, ◌≡◌, refl, ap, subst, ◌⊎◌, inl, inr, Bool, true, false,
  Option, List, [], ◌∷◌, ◌++◌, arith, Bool-cases, ltb, ltb→lt, ◌∙◌,
}
use opensource_project_intel.Base.Int.{pos}
use opensource_project_intel.Base.Result.{ok}
use opensource_project_intel.Base.Lists.{length, length-append}
use opensource_project_intel.Base.Text.{Text}
use opensource_project_intel.Collector.{
  Failure, Position, selecting, waiting, returned, State, Step, starts, interrupts, leaves,
  finishes, releases, departs, returns, taken, Steps, here, run_bounded, then_step, then_cancelled,
  begin,
}

abbrev pub IsPlaced : ℕ → Position → Type 0
IsPlaced n (selecting index) = index ≤ n
IsPlaced n (waiting _) = Unit
IsPlaced n (returned _) = Unit

pub record IsBounded (limit n : ℕ) (s : State) : Type 0 where
  pub bounded : taken s ≤ limit
  pub placed : IsPlaced n s.position

-- What is left to do: the tasks not started cost four steps each, a goroutine what it has left of
-- them, and the loop's end, the return and the cancellation one each.
abbrev pub left_at : ℕ → Position → ℕ
left_at n (selecting index) = 4 * (n - index) + 2
left_at n (waiting _) = 1
left_at n (returned _) = 0

abbrev pub left_to_cancel : Bool → ℕ
left_to_cancel true = 0
left_to_cancel false = 1

abbrev pub left : ℕ → State → ℕ
left n s =
    left_at n s.position
    + 3 * length s.running
    + 2 * s.releasing
    + s.ending
    + left_to_cancel s.cancelled

length-cut :
    (earlier later : List ℕ) (index : ℕ)
    → length (earlier ++ index ∷ later) ≡ suc (length (earlier ++ later))
length-cut earlier later index =
    omega (arith, length-append {0} earlier (index ∷ later), length-append {0} earlier later)

passed-limit :
    (limit n : ℕ) (cancelled : Bool) {s : State}
    → run_bounded (pos limit) n cancelled ≡ ok s
    → (1 ≤ limit) × (begin n cancelled ≡ s)
unfolding run_bounded
passed-limit limit n cancelled h = ground arith

module _ {limit n : ℕ} {task : ℕ → Option Text} where
  -- Every step keeps the bounds and leaves less to do.
  Step-IsBounded :
      {s t : State}
      → Step limit n task s t
      → IsBounded limit n s
      → IsBounded limit n t × (left n t < left n s)
  Step-IsBounded {s} (starts index p lt free) b =
      (record { bounded = omega arith; placed = omega arith }, omega (arith, ap (left_at n) p))
  Step-IsBounded {s} (interrupts index p lt c) b =
      (record { bounded = b.bounded; placed = tt }, omega (arith, ap (left_at n) p))
  Step-IsBounded {s} (leaves p) b =
      (record { bounded = b.bounded; placed = tt }, omega (arith, ap (left_at n) p))
  Step-IsBounded {s} (finishes earlier later index h) b = (
    record {
      bounded = omega (arith, b.bounded, ap (length {0}) h, length-cut earlier later index);
      placed = b.placed;
    },
    omega (arith, ap (length {0}) h, length-cut earlier later index),
  )
  Step-IsBounded {s} (releases others h) b =
      (record { bounded = omega (arith, b.bounded, h); placed = b.placed }, omega (arith, h))
  Step-IsBounded {s} (departs others h) b =
      (record { bounded = b.bounded; placed = b.placed }, omega (arith, h))
  Step-IsBounded {s} (returns interrupted p h r e) b =
      (record { bounded = b.bounded; placed = tt }, omega (arith, ap (left_at n) p))

  Steps-IsBounded :
      {s : State} {k : ℕ} {t : State}
      → Steps limit n task s k t
      → IsBounded limit n s
      → IsBounded limit n t × (left n t + k ≤ left n s)
  Steps-IsBounded here b = (b, omega arith)
  Steps-IsBounded (then_step r st) b =
      let (b', m) = Steps-IsBounded r b in let (b'', d) = Step-IsBounded st b' in (b'', omega arith)
  Steps-IsBounded (then_cancelled r c) b =
      let (b', m) = Steps-IsBounded r b in
      (record { bounded = b'.bounded; placed = b'.placed }, omega (arith, m, ap left_to_cancel c))

  -- Whatever the interleaving, a call never has more than `limit` slots taken, by tasks that run and
  -- goroutines that are about to give theirs back, and no run of a call of `n` tasks has more
  -- than 4 * n + 3 events, which are its own steps and the cancellation of its context.
  pub run_bounded_ends :
      {k : ℕ} {t : State} (cancelled : Bool)
      → Steps limit n task (begin n cancelled) k t
      → (taken t ≤ limit) × (k ≤ 4 * n + 3)
  unfolding begin
  run_bounded_ends true r =
      let (b, m) = Steps-IsBounded r (record { bounded = omega arith; placed = omega arith }) in
      (b.bounded, omega arith)
  run_bounded_ends false r =
      let (b, m) = Steps-IsBounded r (record { bounded = omega arith; placed = omega arith }) in
      (b.bounded, omega arith)

  -- A state that has not returned can take a step.
  waits-at :
      (s : State) (interrupted : Bool) (running : List ℕ) (releasing ending : ℕ)
      → s.position ≡ waiting interrupted
      → s.running ≡ running
      → s.releasing ≡ releasing
      → s.ending ≡ ending
      → (t : State) × Step limit n task s t
  waits-at s interrupted (x ∷ xs) releasing ending e f r d = (_, finishes [] xs x f)
  waits-at s interrupted [] (suc others) ending e f r d = (_, releases others r)
  waits-at s interrupted [] zero (suc others) e f r d = (_, departs others d)
  waits-at s interrupted [] zero zero e f r d = (_, returns interrupted e f r d)

  selects-at :
      (s : State) (index : ℕ) (running : List ℕ) (releasing : ℕ)
      → 1 ≤ limit
      → index ≤ n
      → s.position ≡ selecting index
      → s.running ≡ running
      → s.releasing ≡ releasing
      → (t : State) × Step limit n task s t
  selects-at s index (x ∷ xs) releasing l p e f r = (_, finishes [] xs x f)
  selects-at s index [] (suc others) l p e f r = (_, releases others r)
  selects-at s index [] zero l p e f r = elim (Bool-cases (ltb index n)) [
    | inl b ↦ (_, starts index e (ltb→lt index n b) omega (arith, ap (length {0}) f, r))
    | inr b ↦ (_, leaves (e ∙ ap selecting ground arith))
  ]

  moves-at :
      (s : State) (position : Position)
      → 1 ≤ limit
      → IsPlaced n position
      → s.position ≡ position
      → ((fs : List Failure) × (s.position ≡ returned fs)) ⊎ ((t : State) × Step limit n task s t)
  moves-at s (returned fs) l p e = inl (fs, e)
  moves-at s (waiting b) l p e = inr (waits-at s b s.running s.releasing s.ending e refl refl refl)
  moves-at s (selecting index) l p e =
      inr (selects-at s index s.running s.releasing l p e refl refl)

  -- A call whose limit is accepted cannot get stuck: in every state that it reaches, it has returned or
  -- can take a step of its own, without anybody cancelling its context.
  pub run_bounded_moves :
      {s : State} {k : ℕ} {t : State} (cancelled : Bool)
      → run_bounded (pos limit) n cancelled ≡ ok s
      → Steps limit n task s k t
      → ((fs : List Failure) × (t.position ≡ returned fs)) ⊎ ((u : State) × Step limit n task t u)
  unfolding begin
  run_bounded_moves {s} {k} {t} cancelled accepted r =
      let (l, e) = passed-limit limit n cancelled accepted in
      let start =
        subst (IsBounded limit n) e (record { bounded = omega arith; placed = omega arith }) in
      let (b, m) = Steps-IsBounded r start in moves-at t t.position l b.placed refl
