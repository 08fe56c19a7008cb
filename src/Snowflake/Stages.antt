-- ===== src/Snowflake/Stages.antt =====
-- What each part of `Next` does to the generator's position (internal/platform/id/snowflake.go).
use opensource_project_intel.Base.{
  ℕ, ◌+◌, ◌*◌, ◌^◌, ◌≤◌, ◌<◌, ◌≡◌, refl, ◌⊎◌, Option, none, some, arith,
}
use opensource_project_intel.Base.Bits.{bit_or-shifted}
use opensource_project_intel.Base.Int.{ℤ, pos, pos_part, ◌-ℤ◌, ◌≤ℤ◌, ◌<ℤ◌, unix_milli, -ℤ_parts}
use opensource_project_intel.Base.Result.{Result, ok, err}
use opensource_project_intel.Snowflake.{
  Error, Lease, Env, Generator, max_node, max_sequence, epoch_milli, now_leased, renewed,
  renew_if_due, recover_clock, take_position, pack, encode,
}

-- The same node and position.
abbrev pub Same : Generator → Generator → Type 0
Same g g' =
    (g'.lease.node ≡ g.lease.node)
    × (g'.last_millisecond ≡ g.last_millisecond)
    × (g'.sequence ≡ g.sequence)

-- The position of `g` comes before that of `g'`.
abbrev pub Before : Generator → Generator → Type 0
Before g g' =
    (g.last_millisecond <ℤ g'.last_millisecond)
    ⊎ ((g'.last_millisecond ≡ g.last_millisecond) × (g.sequence < g'.sequence))

-- The next position after that of `g`, at a millisecond.
abbrev pub Took : Generator → ℤ → Generator → Type 0
Took g ms g' =
    Before g g' × (g'.sequence ≤ max_sequence) × (g'.last_millisecond ≡ ms) × (g'.lease ≡ g.lease)

-- How a step ended: with `P` on a result, with `Q` on an error.
abbrev pub Holds :
    {A W : Type 0}
    → (A → Generator → Type 0)
    → (Generator → Type 0)
    → Result Error A × Generator × W
    → Type 0
Holds P Q (ok a, g, w) = P a g
Holds P Q (err e, g, w) = Q g

module _ {W : Type 0} (env : Env W) where
  pub now_leased-Same : (g : Generator) (w : W) → Same g (now_leased env g w).1
  unfolding now_leased
  now_leased-Same g w = (refl, refl, refl)

  renewed-Same :
      (now : ℤ) (lease : Option Lease) (g : Generator) (w : W)
      → Same g (renewed env now lease g w).1
  unfolding renewed
  renewed-Same now none g w = (refl, refl, refl)
  renewed-Same now (some lease) g w = ground arith

  pub renew_if_due-Same : (now : ℤ) (g : Generator) (w : W) → Same g (renew_if_due env now g w).1
  unfolding renew_if_due
  renew_if_due-Same now g w = ground (
    arith,
    renewed-Same now (env.renew g.lease now g.lease_ttl w).0 g
        (env.renew g.lease now g.lease_ttl w).1,
  )

  pub recover_clock_lem :
      (now : ℤ) (g : Generator) (w : W)
      → Holds
          (λ now' g'. (g' ≡ g) × (g.last_millisecond ≤ℤ unix_milli now'))
          (λ g'. g' ≡ g)
          (recover_clock env now g w)
  unfolding recover_clock
  recover_clock_lem now g w = ground arith

  pub take_position_lem :
      (now : ℤ) (g : Generator) (w : W)
      → g.sequence ≤ max_sequence
      → g.last_millisecond ≤ℤ unix_milli now
      → Holds (Took g) (λ g'. g' ≡ g) (take_position env now g w)
  unfolding take_position
  take_position_lem now g w s l = ground arith

-- Fields in range are packed side by side.
pub pack_sum :
    (delta node sequence : ℕ)
    → delta < 2 ^ 41
    → node ≤ max_node
    → sequence ≤ max_sequence
    → pack delta node sequence ≡ delta * 2 ^ 22 + node * 2 ^ 12 + sequence
unfolding pack
pack_sum delta node sequence d n s = ground (
  arith,
  bit_or-shifted delta 22 (node * 2 ^ 12),
  bit_or-shifted (delta * 2 ^ 10 + node) 12 sequence,
)

-- The identifier at a position of a node.
abbrev pub id_at : ℤ → ℕ → ℕ → ℕ
id_at millisecond node sequence =
    pos_part (millisecond -ℤ pos epoch_milli) * 2 ^ 22 + node * 2 ^ 12 + sequence

abbrev pub IsSupported : ℤ → Type 0
IsSupported millisecond =
    (pos epoch_milli ≤ℤ millisecond) × (millisecond <ℤ pos (epoch_milli + 2 ^ 41))

pub encode_lem :
    (millisecond : ℤ) (node sequence id : ℕ)
    → node ≤ max_node
    → sequence ≤ max_sequence
    → encode millisecond node sequence ≡ ok id
    → (id ≡ id_at millisecond node sequence) × IsSupported millisecond × (0 < id) × (id < 2 ^ 63)
unfolding encode
encode_lem millisecond node sequence id n s h = ground (
  arith,
  pack_sum (pos_part (millisecond -ℤ pos epoch_milli)) node sequence,
  -ℤ_parts millisecond (pos epoch_milli),
)
