-- ===== src/Snowflake/Examples.antt =====
-- Tests of the generator in a small environment, and the theorems about it at concrete inputs.
use opensource_project_intel.Base.{ℕ, ◌+◌, ◌*◌, ◌≡◌, refl, ap, ◌≤◌, ◌≢◌, true, some, [], ◌∷◌, arith}
use opensource_project_intel.Base.Int.{pos, ◌+ℤ◌, unix_milli, from_unix_milli, div_floor}
use opensource_project_intel.Base.Lists.{All}
use opensource_project_intel.Base.Result.{ok}
use opensource_project_intel.Base.Text.{Text, codes}
use opensource_project_intel.Snowflake.{Env, Generator, new, next, pack}
use opensource_project_intel.Snowflake.Next.{IsValid}
use opensource_project_intel.Snowflake.Order.{IsIncreasing, issue, new-issue-IsIncreasing}
use opensource_project_intel.Snowflake.Fields.{issue_apart}

-- Nanoseconds from Go's zero time to the start of 2026.
abbrev year_2026 : ℕ
year_2026 = 63_902_822_400_000_000_000

-- A world is the number of 400 microsecond ticks since the start of 2026; a sleep takes three.
abbrev ticking : ℕ → Env ℕ
ticking node = record {
  clock = λ w. (pos (year_2026 + w * 400_000), w + 1);
  sleep = λ d w. (true, w + 3);
  acquire = λ holder now ttl w.
      (some (record { node = node; holder = holder; expires_at = now +ℤ ttl }), w);
  renew = λ lease now ttl w. (some (record lease { expires_at = now +ℤ ttl }), w);
}

abbrev api : Text
api = codes "api"

abbrev generator : ℕ → Generator
generator node = record {
  lease = record { node = node; holder = api; expires_at = pos (year_2026 + 30_000_000_000) };
  lease_ttl = pos 30_000_000_000;
  renew_at = pos (year_2026 + 10_000_000_000);
  renewal_interval = pos 10_000_000_000;
  tolerance = pos 5_000_000;
  last_millisecond = pos 0;
  sequence = 0;
}

new-generator :
    new (ticking 5) api (pos 30_000_000_000) (pos 0) (pos 5_000_000) 0 ≡ (ok (generator 5), 1)
unfolding new ◌+ℤ◌ div_floor
new-generator = refl

-- Three calls within one and the same or the next millisecond.
issue_three : issue (ticking 5) 3 (generator 5) 1 ≡ 20480 ∷ 20481 ∷ 4214784 ∷ []
unfolding issue next pack unix_milli
issue_three = refl

-- The last sequence number of a millisecond: the next call sleeps, and the clock has then moved on by two.
abbrev exhausted : Generator
exhausted =
    let g = generator 5 in record g { last_millisecond = pos 1_767_225_600_000; sequence = 4095 }

next-exhausted : (next (ticking 5) exhausted 1).0 ≡ ok 8409088
unfolding next pack unix_milli from_unix_milli
next-exhausted = refl

generator-IsValid : (node : ℕ) → node ≤ 1023 → IsValid (generator node)
generator-IsValid node h = record { node_fits = h; sequence_fits = omega arith }

new-issue-IsIncreasing_example : IsIncreasing 0 (issue (ticking 5) 3 (generator 5) 1)
new-issue-IsIncreasing_example =
    new-issue-IsIncreasing (ticking 5) api (pos 30_000_000_000) (pos 0) (pos 5_000_000) 0 1 3
      (ap (λ t. t.0) new-generator)

abbrev after_first : Generator
after_first =
    let g = generator 5 in record g { last_millisecond = pos 1_767_225_600_000; sequence = 0 }

next-first : next (ticking 5) (generator 5) 1 ≡ (ok 20480, after_first, 2)
unfolding next pack unix_milli
next-first = refl

issue_apart_example :
    All
      (λ id. All (λ id'. id ≢ id') (issue (ticking 6) 4 (generator 6) 1))
      (issue (ticking 5) 3 (generator 5) 1)
issue_apart_example =
    issue_apart (ticking 5) (ticking 6) (generator 5) (generator 6) 3 4 1 1
      (generator-IsValid 5 (omega arith)) (generator-IsValid 6 (omega arith)) (omega arith)
