-- ===== src/Snowflake/Order.antt =====
-- The order and the range of the identifiers that a generator issues, and their fields
-- (internal/platform/id/snowflake.go).
use opensource_project_intel.Base.{
  ℕ, zero, suc, ◌^◌, ◌≤◌, ◌<◌, ◌≡◌, refl, ◌⊎◌, inl, inr, List, [], ◌∷◌, arith,
}
use opensource_project_intel.Base.Int.{ℤ, pos, ◌≤ℤ◌, -ℤ_parts}
use opensource_project_intel.Base.Result.{Result, ok, err}
use opensource_project_intel.Base.Text.{Text}
use opensource_project_intel.Snowflake.{Error, Env, Generator, epoch_milli, next, new}
use opensource_project_intel.Snowflake.Stages.{Before, Holds, id_at}
use opensource_project_intel.Snowflake.Next.{IsValid, Reached, Done, next-Holds}

-- An identifier is at most that of the generator's position, or none was issued yet.
abbrev Covers : ℕ → Generator → Type 0
Covers bound g =
    (bound ≡ 0)
    ⊎ ((pos epoch_milli ≤ℤ g.last_millisecond)
        × (bound ≤ id_at g.last_millisecond g.lease.node g.sequence))

Before-id_at :
    (g g' : Generator)
    → IsValid g
    → IsValid g'
    → g'.lease.node ≡ g.lease.node
    → Before g g'
    → pos epoch_milli ≤ℤ g.last_millisecond
    → id_at g.last_millisecond g.lease.node g.sequence
      < id_at g'.last_millisecond g'.lease.node g'.sequence
Before-id_at g g' v v' n b e = ground (
  arith,
  -ℤ_parts g.last_millisecond (pos epoch_milli),
  -ℤ_parts g'.last_millisecond (pos epoch_milli),
)

Before-Covers :
    (bound : ℕ) (g g' : Generator)
    → IsValid g
    → IsValid g'
    → g'.lease.node ≡ g.lease.node
    → Before g g'
    → Covers bound g
    → Covers bound g'
Before-Covers bound g g' v v' n b c = ground (arith, Before-id_at g g' v v' n b)

Reached-Covers :
    (bound : ℕ) (g g' : Generator) → IsValid g → Reached g g' → Covers bound g → Covers bound g'
Reached-Covers bound g g' v (v', n, inl b) c = Before-Covers bound g g' v v' n b c
Reached-Covers bound g g' v (v', n, inr s) c = ground arith

-- Each is above the one before it, and below 2 ^ 63.
abbrev pub IsIncreasing : ℕ → List ℕ → Type 0
IsIncreasing bound [] = Unit
IsIncreasing bound (id ∷ ids) = (bound < id) × (id < 2 ^ 63) × IsIncreasing id ids

abbrev pub collect : Result Error ℕ → List ℕ → List ℕ
collect (ok id) ids = id ∷ ids
collect (err e) ids = ids

module _ {W : Type 0} (env : Env W) where
  -- The identifiers that a number of calls of `Next` issue, in order.
  unfoldable pub issue : ℕ → Generator → W → List ℕ
  issue zero g w = []
  issue (suc calls) g w = let (r, g', w') = next env g w in collect r (issue calls g' w')

  issue-IsIncreasing :
      (calls bound : ℕ) (g : Generator) (w : W)
      → IsValid g
      → Covers bound g
      → IsIncreasing bound (issue calls g w)
  unfolding issue
  issue-IsIncreasing zero bound g w v c = tt
  issue-IsIncreasing (suc calls) bound g w v c =
      go (issue-IsIncreasing calls) (next env g w) (next-Holds env g v w)
    where
      go :
          ((bound : ℕ) (g : Generator) (w : W)
            → IsValid g
            → Covers bound g
            → IsIncreasing bound (issue calls g w))
          → (t : Result Error ℕ × Generator × W) → Holds (Done env g v) (Reached g) t
          → IsIncreasing bound (collect t.0 (issue calls t.1 t.2))
      go ih (ok id, g', w') h =
          let above = Before-Covers bound g g' v h.2 h.3 h.0 c in
          (ground (arith, Before-id_at g g' v h.2 h.3 h.0), h.1.3, ih id g' w' h.2 (ground arith))
      go ih (err e, g', w') h = ih bound g' w' h.0 (Reached-Covers bound g g' v h c)

  pub new-IsValid :
      (holder : Text) (ttl interval tolerance : ℤ) (w : W) {g : Generator}
      → (new env holder ttl interval tolerance w).0 ≡ ok g
      → IsValid g
  unfolding new
  new-IsValid holder ttl interval tolerance w h = ground arith

  -- The identifiers that a generator made by `New` issues over any number of calls of `Next`, the
  -- calls that return an error left out, are positive, below 2 ^ 63 and strictly increasing,
  -- from any later world and whatever the clock, the sleeps and the lease renewals do.
  pub new-issue-IsIncreasing :
      (holder : Text) (ttl interval tolerance : ℤ) (w later : W) (calls : ℕ) {g : Generator}
      → (new env holder ttl interval tolerance w).0 ≡ ok g
      → IsIncreasing 0 (issue calls g later)
  new-issue-IsIncreasing holder ttl interval tolerance w later calls {g} h =
      issue-IsIncreasing calls 0 g later (new-IsValid holder ttl interval tolerance w h) (inl refl)
