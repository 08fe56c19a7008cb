-- ===== src/Project/Ranges.antt =====
-- What an accepted history range is: internal/project/rules.go.
use opensource_project_intel.Base.{
  ℕ, false, ◌*◌, ◌≤◌, ◌<◌, ◌≡◌, refl, ◌⊎◌, inl, ◌&&◌, ◌||◌, not, if◌then◌else◌, ◌==◌, arith,
}
use opensource_project_intel.Base.Int.{
  ℤ, pos, negsuc, pos_part, neg_part, ◌≤ℤ◌, ◌<ℤ◌, ◌-ℤ◌, ltb_ℤ, +ℤ_parts, -ℤ_parts, int_eq, scale,
  div_floor, parts_apart,
}
use opensource_project_intel.Base.Result.{ok, err}
use opensource_project_intel.Project.{invalid}
use opensource_project_intel.Project.History.{
  HistoryRange, day, day_length, add_days, days_between, clipped, validate_history_range,
}

-- The days of the largest Duration.
abbrev pub longest : ℕ
longest = 106_751

lt-add_days : (t : ℤ) → t <ℤ add_days t (pos 1)
unfolding add_days scale
lt-add_days t = omega (arith, +ℤ_parts t (pos (day_length * 1)))

midnight_parts :
    (z : ℤ)
    → (pos_part (scale day_length z) ≡ day_length * pos_part z)
      × (neg_part (scale day_length z) ≡ day_length * neg_part z)
unfolding scale
midnight_parts (pos n) = (refl, omega arith)
midnight_parts (negsuc n) = (omega arith, omega arith)

-- Two midnights are a whole number of days apart.
midnights_apart :
    (a b : ℤ) → pos_part (scale day_length b -ℤ scale day_length a) ≡ day_length * pos_part (b -ℤ a)
midnights_apart a b = omega (
  arith,
  midnight_parts a,
  midnight_parts b,
  -ℤ_parts b a,
  -ℤ_parts (scale day_length b) (scale day_length a),
  parts_apart (b -ℤ a),
  parts_apart (scale day_length b -ℤ scale day_length a),
)

-- Two midnights are no more days apart than are counted, where less than the longest is counted.
midnights_within :
    (a b : ℤ) (n : ℕ)
    → n < longest
    → days_between (scale day_length a) (scale day_length b) ≤ n
    → scale day_length b ≤ℤ add_days (scale day_length a) (pos n)
unfolding days_between add_days scale
midnights_within a b n l h = ground (
  arith,
  midnights_apart a b,
  -ℤ_parts (scale day_length b) (scale day_length a),
  +ℤ_parts (scale day_length a) (pos (day_length * n)),
)

-- The end of an accepted range before it is cut to the end of today.
days_within :
    (from to maximum_days : ℤ)
    → (ltb_ℤ (pos 0) maximum_days && ltb_ℤ maximum_days (pos (days_between (day from) (day to))))
      ≡ false
    → maximum_days ≤ℤ pos 0
      ⊎ pos longest ≤ℤ maximum_days
      ⊎ day to ≤ℤ add_days (day from) maximum_days
unfolding day
days_within from to (negsuc n) h = inl (omega arith)
days_within from to (pos n) h =
    ground (arith, midnights_within (div_floor from day_length) (div_floor to day_length) n)

range_within :
    (from to today tomorrow maximum_days : ℤ) (r : HistoryRange)
    → today <ℤ tomorrow
    → (if day from == pos 0
          || day to == pos 0
          || not (ltb_ℤ (day from) (day to))
          || ltb_ℤ today (day from)
        then err invalid
        else if ltb_ℤ (pos 0) maximum_days
            && ltb_ℤ maximum_days (pos (days_between (day from) (day to)))
        then err invalid
        else ok (clipped (day from) (day to) tomorrow))
      ≡ ok r
    → (r.from ≡ day from)
      × (r.from <ℤ r.to)
      × (r.to ≤ℤ day to)
      × (r.to ≤ℤ tomorrow)
      × (maximum_days ≤ℤ pos 0 ⊎ pos longest ≤ℤ maximum_days ⊎ r.to ≤ℤ add_days r.from maximum_days)
range_within from to today tomorrow maximum_days r t h =
    ground (arith, days_within from to maximum_days)

-- An accepted range begins at the midnight of the day it was asked from, and ends after that and no
-- later than at the midnight of the day it was asked to and the end of today. Where the maximum
-- number of days is at least 1 and below 106751, the days of the largest Duration, it ends no later
-- than that many days after its begin.
pub validate_history_range_within :
    (from to now maximum_days : ℤ) {r : HistoryRange}
    → validate_history_range from to now maximum_days ≡ ok r
    → (r.from ≡ day from)
      × (r.from <ℤ r.to)
      × (r.to ≤ℤ day to)
      × (r.to ≤ℤ add_days (day now) (pos 1))
      × (maximum_days ≤ℤ pos 0 ⊎ pos longest ≤ℤ maximum_days ⊎ r.to ≤ℤ add_days r.from maximum_days)
unfolding validate_history_range
validate_history_range_within from to now maximum_days {r} h =
    range_within from to (day now) (add_days (day now) (pos 1)) maximum_days r
      (lt-add_days (day now)) h
