-- ===== src/Snowflake.antt =====
-- The identifier generator of internal/platform/id/snowflake.go. The clock, the sleep and the
-- database that leases a node are the environment `Env`, over any type of worlds; each call of them
-- gives a result and the next world. `g.mu` is held for the whole of `Next`, so calls do not overlap.
pub mod Stages
pub mod Next
pub mod Order
pub mod Fields
mod Examples
use Prim.Native.Nat.{bit_or}
use opensource_project_intel.Base.{
  ℕ, ◌+◌, ◌*◌, ◌/◌, ◌%◌, ◌^◌, ◌-◌, Bool, true, false, ◌||◌, ◌&&◌, not, Option, none, some, List, [],
  ◌∷◌, if◌then◌else◌, ◌==◌, ltb, leb, nat_eq,
}
use opensource_project_intel.Base.Int.{
  ℤ, pos, negsuc, pos_part, ◌+ℤ◌, ◌-ℤ◌, ltb_ℤ, leb_ℤ, nonpositive, int_eq, wrap64, div_floor,
  unix_milli, from_unix_milli, scale,
}
use opensource_project_intel.Base.Result.{Result, ok, err}
use opensource_project_intel.Base.Text.{Text, text_eq}

pub data Error : Type 0 where
  holder_required bad_ttl bad_interval acquire_failed lease_lost renew_failed : Error
  clock_regression sleep_failed not_advanced outside_epoch not_positive : Error

pub record Lease : Type 0 where
  pub node : ℕ  -- uint16
  pub holder : Text
  pub expires_at : ℤ

-- `Now`, `Sleep` (true: no error) and the methods of `Leaser` (none: an error).
pub record Env (W : Type 0) : Type 0 where
  pub clock : W → ℤ × W
  pub sleep : ℤ → W → Bool × W
  pub acquire : Text → ℤ → ℤ → W → Option Lease × W
  pub renew : Lease → ℤ → ℤ → W → Option Lease × W

pub record Generator : Type 0 where
  pub lease : Lease
  pub lease_ttl : ℤ
  pub renew_at : ℤ
  pub renewal_interval : ℤ
  pub tolerance : ℤ
  pub last_millisecond : ℤ
  pub sequence : ℕ  -- uint16

abbrev pub node_bits : ℕ
node_bits = 10

abbrev pub sequence_bits : ℕ
sequence_bits = 12

abbrev pub max_node : ℕ
max_node = 2 ^ node_bits - 1

abbrev pub max_sequence : ℕ
max_sequence = 2 ^ sequence_bits - 1

-- `Epoch.UnixMilli()` of the first of January 2026.
abbrev pub epoch_milli : ℕ
epoch_milli = 1_767_225_600_000

-- `RenewalInterval == 0` stands for a third of the TTL, which is positive here.
interval_or_third : ℤ → ℤ → ℤ
interval_or_third interval ttl = if interval == pos 0 then div_floor ttl 3 else interval

-- The checks of `New` on the lease that it got, and the generator that it makes.
with_lease : Text → ℤ → ℤ → ℤ → ℤ → Option Lease → Result Error Generator
with_lease holder ttl interval tolerance now none = err acquire_failed
with_lease holder ttl interval tolerance now (some lease) =
    if ltb max_node lease.node || not (lease.holder == holder) || not (ltb_ℤ now lease.expires_at)
    then err lease_lost
    else ok (record {
      lease = lease;
      lease_ttl = ttl;
      renew_at = now +ℤ interval;
      renewal_interval = interval;
      tolerance = tolerance;
      last_millisecond = pos 0;
      sequence = 0;
    })

-- A method of `Generator`: what is written to `g` before an error stays written.
abbrev pub Action : Type 0 → Type 0 → Type 0
Action W A = Generator → W → Result Error A × Generator × W

-- `if err != nil { return 0, err }` between two steps.
abbrev pub after :
    {A B W : Type 0}
    → (A → Action W B)
    → Result Error A × Generator × W
    → Result Error B × Generator × W
after f (ok a, g, w) = f a g w
after f (err e, g, w) = (err e, g, w)

infixl 5 ◌>>=◌
abbrev pub ◌>>=◌ : {A B W : Type 0} → Action W A → (A → Action W B) → Action W B
◌>>=◌ m f g w = after f (m g w)

module _ {W : Type 0} (env : Env W) where
  unfoldable pub new : Text → ℤ → ℤ → ℤ → W → Result Error Generator × W
  unfolding interval_or_third with_lease
  new holder ttl interval tolerance w =
      let chosen = interval_or_third interval ttl in
      let (now, w₁) = env.clock w in
      let (lease, w₂) = env.acquire holder now ttl w₁ in
      if holder == []
      then (err holder_required, w)
      else if nonpositive ttl
      then (err bad_ttl, w)
      else if nonpositive chosen || leb_ℤ ttl chosen
      then (err bad_interval, w)
      else (with_lease holder ttl chosen tolerance now lease, w₂)

  -- `now := g.now().UTC()`, refused once the lease has ended.
  pub now_leased : Action W ℤ
  now_leased g w =
      let (now, w') = env.clock w in
      (if not (ltb_ℤ now g.lease.expires_at) then err lease_lost else ok now, g, w')

  -- What `Next` does with the lease that a renewal gave.
  renewed : ℤ → Option Lease → Action W ℤ
  renewed now none g w = (err renew_failed, g, w)
  renewed now (some lease) g w =
      if not (lease.node == g.lease.node)
        || not (lease.holder == g.lease.holder)
        || not (ltb_ℤ now lease.expires_at)
      then (err lease_lost, g, w)
      else (ok now, record g { lease = lease; renew_at = now +ℤ g.renewal_interval }, w)

  pub renew_if_due : ℤ → Action W ℤ
  unfolding renewed
  renew_if_due now g w =
      let (lease, w') = env.renew g.lease now g.lease_ttl w in
      if not (ltb_ℤ now g.renew_at) then renewed now lease g w' else (ok now, g, w)

  -- After the sleep of a regression: the clock must have reached the last millisecond.
  recovered : Bool → Action W ℤ
  unfolding now_leased
  recovered false g w = (err sleep_failed, g, w)
  recovered true g w =
      let (r, g', w') = now_leased g w in
      elim r [
        | err e ↦ (err e, g', w')
        | ok now ↦ (
          if ltb_ℤ (unix_milli now) g.last_millisecond then err clock_regression else ok now,
          g',
          w',
        )
      ]

  -- The branch `millisecond < g.lastMillisecond`.
  pub recover_clock : ℤ → Action W ℤ
  unfolding recovered
  recover_clock now g w =
      let regression = wrap64 (scale 1_000_000 (g.last_millisecond -ℤ unix_milli now)) in
      let (slept, w') = env.sleep regression w in
      if ltb_ℤ (unix_milli now) g.last_millisecond
      then (if ltb_ℤ g.tolerance regression
          then (err clock_regression, g, w)
          else recovered slept g w')
      else (ok now, g, w)

  -- After the sleep of an exhausted sequence: the clock must have advanced.
  advanced : Bool → Action W ℤ
  unfolding now_leased
  advanced false g w = (err sleep_failed, g, w)
  advanced true g w =
      let (r, g', w') = now_leased g w in
      elim r [
        | err e ↦ (err e, g', w')
        | ok now ↦
            if leb_ℤ (unix_milli now) g.last_millisecond then (err not_advanced, g', w') else (
              ok (unix_milli now),
              record g' { last_millisecond = unix_milli now; sequence = 0 },
              w',
            )
      ]

  -- The choice of the next position; it returns the millisecond.
  pub take_position : ℤ → Action W ℤ
  unfolding advanced
  take_position now g w =
      let wait_until = from_unix_milli (g.last_millisecond +ℤ pos 1) in
      let (slept, w') = env.sleep (wait_until -ℤ now) w in
      if unix_milli now == g.last_millisecond
      then (if g.sequence == max_sequence
          then (if not (ltb_ℤ wait_until g.lease.expires_at)
              then (err lease_lost, g, w)
              else advanced slept g w')
          else (ok (unix_milli now), record g { sequence = (g.sequence + 1) % 2 ^ 16 }, w))
      else (ok (unix_milli now), record g { last_millisecond = unix_milli now; sequence = 0 }, w)

-- `delta<<22 | int64(node)<<12 | int64(sequence)` as an int64's 64 bits.
unfoldable pub pack : ℕ → ℕ → ℕ → ℕ
pack delta node sequence =
    bit_or
      (bit_or ((delta * 2 ^ (node_bits + sequence_bits)) % 2 ^ 64)
        ((node * 2 ^ sequence_bits) % 2 ^ 64))
      sequence

-- The checks of the timestamp and of the sign, and the packed value.
pub encode : ℤ → ℕ → ℕ → Result Error ℕ
unfolding pack
encode millisecond node sequence =
    let delta = millisecond -ℤ pos epoch_milli in
    let value = pack (pos_part delta) node sequence in
    if ltb_ℤ delta (pos 0) || leb_ℤ (pos (2 ^ 41)) delta
    then err outside_epoch
    else if value == 0 || leb (2 ^ 63) value
    then err not_positive
    else ok value

-- The tail of `Next`, which reads `g` only.
pub finish : {W : Type 0} → ℤ → Action W ℕ
unfolding encode
finish millisecond g w = (encode millisecond g.lease.node g.sequence, g, w)

module _ {W : Type 0} (env : Env W) where
  unfoldable pub next : Action W ℕ
  unfolding now_leased renew_if_due recover_clock take_position finish
  next = do
    read ← now_leased env
    leased ← renew_if_due env read
    now ← recover_clock env leased
    millisecond ← take_position env now
    finish millisecond
