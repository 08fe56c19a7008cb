-- ===== src/Collector/Outcome.antt =====
-- The error that a call returns is that of a sequential run of the tasks it started.
use opensource_project_intel.Base.{
  ℕ, zero, suc, ◌+◌, ◌≤◌, ◌<◌, ◌≡◌, refl, sym, ap, subst, ◌∙◌, ◌⊎◌, inl, inr, Bool, true, false,
  ◌&&◌, Option, none, some, List, [], ◌∷◌, ◌++◌, arith, ltb, nat_beq, if◌then◌else◌,
}
use opensource_project_intel.Base.Text.{Text}
use opensource_project_intel.Collector.{
  Failure, task_failed, context_done, Position, selecting, waiting, returned, State, no_errors,
  set_error, compact, joined, recorded, Step, starts, interrupts, leaves, finishes, releases,
  departs, returns, Steps, here, then_step, then_cancelled, begin,
}

abbrev pub count : ℕ → List ℕ → ℕ
count i [] = 0
count i (x ∷ xs) = (if nat_beq x i then 1 else 0) + count i xs

count-append : (i : ℕ) (xs ys : List ℕ) → count i (xs ++ ys) ≡ count i xs + count i ys
count-append i [] ys = omega arith
count-append i (x ∷ xs) ys = omega (arith, count-append i xs ys)

-- `f k`, …, `f (k + n - 1)`.
abbrev pub table : (ℕ → Option Text) → ℕ → ℕ → List (Option Text)
table f k zero = []
table f k (suc n) = f k ∷ table f (suc k) n

table-ext :
    (f g : ℕ → Option Text) (k n : ℕ) → ((i : ℕ) → k ≤ i → f i ≡ g i) → table f k n ≡ table g k n
table-ext f g k zero h = refl
table-ext f g k (suc n) h =
    ground (arith, h k (omega arith), table-ext f g (suc k) n (λ i l. h i (omega arith)))

no_errors-table : (k n : ℕ) → no_errors n ≡ table (λ i. none) k n
unfolding no_errors
no_errors-table k zero = refl
no_errors-table k (suc n) = ap (λ xs. none ∷ xs) (no_errors-table (suc k) n)

set_error-table :
    (f : ℕ → Option Text) (e : Text) (j k n : ℕ)
    → set_error j e (table f k n) ≡ table (λ i. if nat_beq i (k + j) then some e else f i) k n
unfolding set_error
set_error-table f e zero k zero = refl
set_error-table f e (suc j) k zero = refl
set_error-table f e zero k (suc n) = ground (
  arith,
  table-ext f (λ i. if nat_beq i (k + 0) then some e else f i) (suc k) n (λ i l. ground arith),
)
set_error-table f e (suc j) k (suc n) = ground (
  arith,
  set_error-table f e j (suc k) n,
  table-ext (λ i. if nat_beq i (suc k + j) then some e else f i)
      (λ i. if nat_beq i (k + suc j) then some e else f i) (suc k) n (λ i l. ground arith),
)

module _ (task : ℕ → Option Text) where
  -- The failures of the tasks `k`, …, `k + n - 1`, run one after the other.
  pub failures : ℕ → ℕ → List Failure
  failures k zero = []
  failures k (suc n) = elim (task k) [
    | none ↦ failures (suc k) n
    | some e ↦ task_failed k e ∷ failures (suc k) n
  ]

  -- What `errs` holds when `started` tasks were started and these run.
  abbrev value : ℕ → List ℕ → ℕ → Option Text
  value started running i = if ltb i started && nat_beq (count i running) 0 then task i else none

  abbrev prefix : ℕ → ℕ → Option Text
  prefix started i = if ltb i started then task i else none

  compact-none :
      (f : ℕ → Option Text) (k c : ℕ)
      → ((i : ℕ) → k ≤ i → f i ≡ none)
      → compact k (table f k c) ≡ []
  unfolding compact
  compact-none f k zero h = refl
  compact-none f k (suc c) h =
      ground (arith, h k (omega arith), compact-none f (suc k) c (λ i l. h i (omega arith)))

  compact-cons :
      (k : ℕ) (o : Option Text) (xs : List (Option Text)) (n : ℕ)
      → task k ≡ o
      → compact (suc k) xs ≡ failures (suc k) n
      → compact k (o ∷ xs) ≡ failures k (suc n)
  unfolding compact failures
  compact-cons k o xs n e h = ground arith

  compact-prefix :
      (m k r c : ℕ) → k + r ≡ m → r ≤ c → compact k (table (prefix m) k c) ≡ failures k r
  compact-prefix m k zero c e l =
      compact-none (prefix m) k c (λ i h. ground arith) ∙ unfold failures in refl
  compact-prefix m k (suc r) zero e l = absurd (omega arith)
  compact-prefix m k (suc r) (suc c) e l =
      compact-cons k (prefix m k) (table (prefix m) (suc k) c) r ground arith
        (compact-prefix m (suc k) r c (omega arith) (omega arith))

  -- Why the loop was left: it was over, or the context was done.
  abbrev IsLeft : ℕ → ℕ → Bool → Bool → Type 0
  IsLeft n started cancelled true = cancelled ≡ true
  IsLeft n started cancelled false = started ≡ n

  abbrev IsAt : ℕ → ℕ → Bool → Position → Type 0
  IsAt n started cancelled (selecting index) = index ≡ started
  IsAt n started cancelled (waiting interrupted) = IsLeft n started cancelled interrupted
  IsAt n started cancelled (returned fs) =
      (interrupted : Bool) × (fs ≡ joined interrupted (table (value started []) 0 n))
      × IsLeft n started cancelled interrupted

  -- A cancellation takes nothing back.
  cancelled-IsAt :
      (n started : ℕ) (position : Position)
      → IsAt n started false position
      → IsAt n started true position
  cancelled-IsAt n started (selecting index) a = a
  cancelled-IsAt n started (waiting true) a = cc
  cancelled-IsAt n started (waiting false) a = a
  cancelled-IsAt n started (returned fs) (true, e, l) = (true, e, cc)
  cancelled-IsAt n started (returned fs) (false, e, l) = (false, e, l)

  record IsRecorded (n started : ℕ) (s : State) : Type 0 where
    fits : started ≤ n
    at : IsAt n started s.cancelled s.position
    counted : (i : ℕ) → count i s.running ≤ (if ltb i started then 1 else 0)
    written : s.errs ≡ table (value started s.running) 0 n

  begin-IsRecorded : (n : ℕ) (cancelled : Bool) → IsRecorded n 0 (begin n cancelled)
  unfolding begin
  begin-IsRecorded n cancelled = record {
    fits = omega arith;
    at = refl;
    counted = λ i. omega arith;
    written = no_errors-table 0 n ∙ table-ext (λ i. none) (value 0 []) 0 n (λ i z. ground arith);
  }

  value-prefix : (n m : ℕ) → table (value m []) 0 n ≡ table (prefix m) 0 n
  value-prefix n m = table-ext (value m []) (prefix m) 0 n (λ i z. ground arith)

  module _ {n : ℕ} where
    started-IsRecorded :
        (s : State) (m : ℕ)
        → IsRecorded n m s
        → s.position ≡ selecting m
        → m < n
        → IsRecorded n (suc m) (record s { position = selecting (suc m); running = m ∷ s.running })
    started-IsRecorded s m rec p l = record {
      fits = l;
      at = refl;
      counted = λ i. ground (arith, rec.counted i);
      written =
          rec.written
          ∙ table-ext (value m s.running) (value (suc m) (m ∷ s.running)) 0 n
              (λ i z. ground (arith, rec.counted i));
    }

    finished-IsRecorded :
        (s : State) (m : ℕ) (earlier later : List ℕ) (index : ℕ)
        → IsRecorded n m s
        → s.running ≡ earlier ++ index ∷ later
        → IsRecorded n m (record s {
          running = earlier ++ later;
          releasing = suc s.releasing;
          errs = recorded index (task index) s.errs;
        })
    finished-IsRecorded s m earlier later index rec h = record {
      fits = rec.fits;
      at = rec.at;
      counted = λ i. ground (arith, rec.counted i, counts i);
      written = write (task index) refl;
    }
      where
        counts :
            (i : ℕ)
            → count i s.running ≡ (if nat_beq index i then 1 else 0) + count i (earlier ++ later)
        counts i = omega (
          arith,
          ap (count i) h,
          count-append i earlier (index ∷ later),
          count-append i earlier later,
        )

        write :
            (o : Option Text)
            → task index ≡ o
            → recorded index o s.errs ≡ table (value m (earlier ++ later)) 0 n
        write none e =
            rec.written
            ∙ table-ext (value m s.running) (value m (earlier ++ later)) 0 n
                (λ i z. ground (arith, rec.counted i, counts i))
        write (some x) e =
            ap (set_error index x) rec.written
            ∙ set_error-table (value m s.running) x index 0 n
            ∙ table-ext (λ i. if nat_beq i (0 + index) then some x else value m s.running i)
                (value m (earlier ++ later)) 0 n (λ i z. ground (arith, rec.counted i, counts i))

  module _ {limit n : ℕ} where
    -- Every step keeps the record, with as many tasks started or one more.
    Step-IsRecorded :
        {s t : State} (m : ℕ)
        → Step limit n task s t
        → IsRecorded n m s
        → (m' : ℕ) × IsRecorded n m' t
    Step-IsRecorded {s} m (starts index p l free) rec =
        let e : index ≡ m = subst (IsAt n m s.cancelled) p rec.at in
        (
          suc m,
          subst
              (λ i.
                IsRecorded n (suc m)
                  (record s { position = selecting (suc i); running = i ∷ s.running }))
              (sym e) (started-IsRecorded s m rec (p ∙ ap selecting e) (omega arith)),
        )
    Step-IsRecorded {s} m (interrupts index p l c) rec =
        (m, record { fits = rec.fits; at = c; counted = rec.counted; written = rec.written })
    Step-IsRecorded {s} m (leaves p) rec =
        let e : n ≡ m = subst (IsAt n m s.cancelled) p rec.at in
        (m, record { fits = rec.fits; at = sym e; counted = rec.counted; written = rec.written })
    Step-IsRecorded {s} m (finishes earlier later index h) rec =
        (m, finished-IsRecorded s m earlier later index rec h)
    Step-IsRecorded {s} m (releases others h) rec =
        (m, record { fits = rec.fits; at = rec.at; counted = rec.counted; written = rec.written })
    Step-IsRecorded {s} m (departs others h) rec =
        (m, record { fits = rec.fits; at = rec.at; counted = rec.counted; written = rec.written })
    Step-IsRecorded {s} m (returns interrupted p h r d) rec = (
      m,
      record {
        fits = rec.fits;
        at = (
          interrupted,
          ap (joined interrupted) rec.written
              ∙ ap (λ fl. joined interrupted (table (value m fl) 0 n)) h,
          subst (IsAt n m s.cancelled) p rec.at,
        );
        counted = rec.counted;
        written = rec.written;
      },
    )

    Steps-IsRecorded :
        {s : State} {k : ℕ} {t : State}
        → Steps limit n task s k t
        → IsRecorded n 0 s
        → (m : ℕ) × IsRecorded n m t
    Steps-IsRecorded here rec = (0, rec)
    Steps-IsRecorded (then_step r st) rec =
        let (m, rec') = Steps-IsRecorded r rec in Step-IsRecorded m st rec'
    Steps-IsRecorded (then_cancelled {t} r c) rec =
        let (m, rec') = Steps-IsRecorded r rec in
        (
          m,
          record {
            fits = rec'.fits;
            at = cancelled-IsAt n m t.position (subst (λ b. IsAt n m b t.position) c rec'.at);
            counted = rec'.counted;
            written = rec'.written;
          },
        )

    -- However the tasks interleave, the errors that a call returns are those of running the tasks one
    -- after the other: of all tasks, in their order, or, only where the context was cancelled, of the
    -- first m of them and then the context's.
    pub run_bounded_refines :
        {k : ℕ} {t : State} {fs : List Failure} (cancelled : Bool)
        → Steps limit n task (begin n cancelled) k t
        → t.position ≡ returned fs
        → (fs ≡ failures 0 n)
          ⊎ ((t.cancelled ≡ true) × ((m : ℕ) × (m ≤ n) × (fs ≡ failures 0 m ++ context_done ∷ [])))
    unfolding joined
    run_bounded_refines {k} {t} {fs} cancelled r p =
        let (m, rec) = Steps-IsRecorded r (begin-IsRecorded n cancelled) in
        let (interrupted, e, why) = subst (IsAt n m t.cancelled) p rec.at in
        let q = ap (compact 0) (value-prefix n m) ∙ compact-prefix m 0 m n (omega arith) rec.fits in
        told m rec.fits interrupted e why q
      where
        told :
            (m : ℕ)
            → m ≤ n
            → (b : Bool) → fs ≡ joined b (table (value m []) 0 n)
            → IsLeft n m t.cancelled b
            → compact 0 (table (value m []) 0 n) ≡ failures 0 m
            → (fs ≡ failures 0 n)
              ⊎ ((t.cancelled ≡ true)
                  × ((m' : ℕ) × (m' ≤ n) × (fs ≡ failures 0 m' ++ context_done ∷ [])))
        told m l true e why q = inr (why, (m, l, e ∙ ap (λ xs. xs ++ context_done ∷ []) q))
        told m l false e why q = inl (e ∙ q ∙ ap (failures 0) why)
