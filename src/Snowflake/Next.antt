-- ===== src/Snowflake/Next.antt =====
-- What one call of `Next` does, on every path (internal/platform/id/snowflake.go).
use opensource_project_intel.Base.{ℕ, ◌^◌, ◌≤◌, ◌<◌, ◌≡◌, ◌⊎◌, inl, inr, arith}
use opensource_project_intel.Base.Int.{ℤ, ◌≤ℤ◌, unix_milli}
use opensource_project_intel.Base.Result.{Result, ok, err, Result-cases}
use opensource_project_intel.Snowflake.{
  Error, Env, Generator, max_node, max_sequence, now_leased, renew_if_due, recover_clock,
  take_position, encode, finish, next, Action, after, ◌>>=◌,
}
use opensource_project_intel.Snowflake.Stages.{
  Same, Before, Took, Holds, now_leased-Same, renew_if_due-Same, recover_clock_lem,
  take_position_lem, id_at, IsSupported, encode_lem,
}

-- The node fits its field, and so does the sequence.
pub record IsValid (g : Generator) : Type 0 where
  pub node_fits : g.lease.node ≤ max_node
  pub sequence_fits : g.sequence ≤ max_sequence

abbrev pub Reached : Generator → Generator → Type 0
Reached g g' = IsValid g' × (g'.lease.node ≡ g.lease.node) × (Before g g' ⊎ Same g g')

abbrev pub Issued : ℕ → Generator → Type 0
Issued id g =
    (id ≡ id_at g.last_millisecond g.lease.node g.sequence)
    × IsSupported g.last_millisecond
    × (0 < id)
    × (id < 2 ^ 63)

-- A step that ends in a state with `Q`, error or not.
Holds-always :
    {A W : Type 0} (Q : Generator → Type 0) (t : Result Error A × Generator × W)
    → Q t.1
    → Holds (λ _ g. Q g) Q t
Holds-always Q (ok a, g, w) q = q
Holds-always Q (err e, g, w) q = q

-- From one step to the next.
Holds-after :
    {A B W : Type 0} (f : A → Action W B) (P : A → Generator → Type 0) (Q : Generator → Type 0)
    (R : B → Generator → Type 0) (t : Result Error A × Generator × W)
    → Holds P Q t
    → ((a : A) (g' : Generator) (w' : W) → P a g' → Holds R Q (f a g' w'))
    → Holds R Q (after f t)
Holds-after f P Q R (ok a, g, w) h k = k a g w h
Holds-after f P Q R (err e, g, w) h k = h

Holds-map :
    {A W : Type 0} (P P' : A → Generator → Type 0) (Q Q' : Generator → Type 0)
    (t : Result Error A × Generator × W)
    → Holds P Q t
    → ((a : A) (g : Generator) → P a g → P' a g)
    → ((g : Generator) → Q g → Q' g)
    → Holds P' Q' t
Holds-map P P' Q Q' (ok a, g, w) h p q = p a g h
Holds-map P P' Q Q' (err e, g, w) h p q = q g h

module _ {W : Type 0} (env : Env W) (start : Generator) (valid : IsValid start) where
  -- What holds after `Next` returned an identifier.
  abbrev pub Done : ℕ → Generator → Type 0
  Done id g = Before start g × Issued id g × IsValid g × (g.lease.node ≡ start.lease.node)

  finish_lem :
      (ms : ℤ) (g : Generator) (w : W)
      → Before start g
      → g.last_millisecond ≡ ms
      → IsValid g
      → g.lease.node ≡ start.lease.node
      → Holds Done (Reached start) (finish ms g w)
  unfolding finish
  finish_lem ms g w b l v n = elim (Result-cases (encode ms g.lease.node g.sequence)) [
    | inl (id, q) ↦
        rw q
          (ground (arith, encode_lem ms g.lease.node g.sequence id v.node_fits v.sequence_fits q))
    | inr (e, q) ↦ rw q (ground arith)
  ]

  -- The rest of `Next` once a step has left the position alone.
  take_lem :
      (now : ℤ) (g : Generator) (w : W)
      → Same start g
      → start.last_millisecond ≤ℤ unix_milli now
      → Holds Done (Reached start) ((take_position env now >>= finish) g w)
  take_lem now g w s l =
      Holds-after finish (Took g) (Reached start) Done (take_position env now g w)
        (Holds-map (Took g) (Took g) (λ g'. g' ≡ g) (Reached start) (take_position env now g w)
          (take_position_lem env now g w (ground arith) (ground arith)) (λ ms g' h. h)
          (λ g' e. ground arith))
        (λ ms g' w' h.
          finish_lem ms g' w' (ground arith) (ground arith) (ground arith) (ground arith))

  recover_lem :
      (now : ℤ) (g : Generator) (w : W)
      → Same start g
      → Holds Done
          (Reached start)
          ((recover_clock env now >>= λ later. take_position env later >>= finish) g w)
  recover_lem now g w s =
      Holds-after (λ later. take_position env later >>= finish)
        (λ later g'. (g' ≡ g) × (g.last_millisecond ≤ℤ unix_milli later)) (Reached start) Done
        (recover_clock env now g w)
        (Holds-map (λ later g'. (g' ≡ g) × (g.last_millisecond ≤ℤ unix_milli later))
          (λ later g'. (g' ≡ g) × (g.last_millisecond ≤ℤ unix_milli later)) (λ g'. g' ≡ g)
          (Reached start) (recover_clock env now g w) (recover_clock_lem env now g w)
          (λ later g' h. h) (λ g' e. ground arith))
        (λ later g' w' h. take_lem later g' w' (ground arith) (ground arith))

  renew_lem :
      (now : ℤ) (g : Generator) (w : W)
      → Same start g
      → Holds Done (Reached start) (
          (renew_if_due env now >>= λ leased.
          recover_clock env leased >>= λ later. take_position env later >>= finish)
            g w)
  renew_lem now g w s =
      Holds-after
        (λ leased. recover_clock env leased >>= λ later. take_position env later >>= finish)
        (λ _. Same start) (Reached start) Done (renew_if_due env now g w)
        (Holds-map (λ _. Same start) (λ _. Same start) (Same start) (Reached start)
          (renew_if_due env now g w)
          (Holds-always (Same start) (renew_if_due env now g w)
            (ground (arith, renew_if_due-Same env now g w)))
          (λ leased g' h. h) (λ g' h. ground arith))
        (λ leased g' w' h. recover_lem leased g' w' h)

  pub next-Holds : (w : W) → Holds Done (Reached start) (next env start w)
  unfolding next
  next-Holds w =
      Holds-after
        (λ read. renew_if_due env read >>= λ leased.
          recover_clock env leased >>= λ later. take_position env later >>= finish)
        (λ _. Same start) (Reached start) Done (now_leased env start w)
        (Holds-map (λ _. Same start) (λ _. Same start) (Same start) (Reached start)
          (now_leased env start w)
          (Holds-always (Same start) (now_leased env start w) (now_leased-Same env start w))
          (λ leased g' h. h) (λ g' h. ground arith))
        (λ read g' w' h. renew_lem read g' w' h)
