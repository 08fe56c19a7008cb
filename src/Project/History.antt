-- ===== src/Project/History.antt =====
-- The ranges of a project's history: `ValidateHistoryRange` and `InitialHistoryRange` of
-- internal/project/rules.go. A day of UTC is 24 hours from a midnight, and the zero instant is one.
use opensource_project_intel.Base.{ℕ, ◌/◌, ◌&&◌, ◌||◌, not, if◌then◌else◌, ◌==◌}
use opensource_project_intel.Base.Int.{
  ℤ, pos, negsuc, pos_part, ◌+ℤ◌, ◌-ℤ◌, ltb_ℤ, nonpositive, div_floor, scale, int_eq, max_int64,
}
use opensource_project_intel.Base.Result.{Result, ok, err}
use opensource_project_intel.Project.{Error, invalid}

abbrev pub default_history_days : ℤ
default_history_days = pos 180

pub record HistoryRange : Type 0 where
  pub from : ℤ
  pub to : ℤ

abbrev pub day_length : ℕ
day_length = 86_400_000_000_000

-- `day`: the midnight before.
unfoldable pub day : ℤ → ℤ
unfolding div_floor scale
day t = scale day_length (div_floor t day_length)

-- `t.AddDate(0, 0, n)` in UTC.
unfoldable pub add_days : ℤ → ℤ → ℤ
unfolding ◌+ℤ◌ ◌-ℤ◌ scale
add_days t (pos n) = t +ℤ scale day_length (pos n)
add_days t (negsuc n) = t -ℤ scale day_length (pos n) -ℤ pos day_length

-- `int(to.Sub(from).Hours()/24)` of an ordered range: the difference stops at the largest Duration,
-- so that no more than 106751 days are counted.
unfoldable pub days_between : ℤ → ℤ → ℕ
unfolding ◌-ℤ◌
days_between from to =
    let d = to -ℤ from in (if ltb_ℤ (pos max_int64) d then max_int64 else pos_part d) / day_length

-- The days of the range, the last of them no later than today.
abbrev pub clipped : ℤ → ℤ → ℤ → HistoryRange
clipped from to tomorrow = record { from = from; to = if ltb_ℤ tomorrow to then tomorrow else to }

unfoldable pub validate_history_range : ℤ → ℤ → ℤ → ℤ → Result Error HistoryRange
unfolding day add_days days_between
validate_history_range from to now maximum_days =
    let first = day from in
    let last = day to in
    let today = day now in
    if first == pos 0 || last == pos 0 || not (ltb_ℤ first last) || ltb_ℤ today first
    then err invalid
    else if ltb_ℤ (pos 0) maximum_days && ltb_ℤ maximum_days (pos (days_between first last))
    then err invalid
    else ok (clipped first last (add_days today (pos 1)))

unfoldable pub initial_history_range : ℤ → ℤ → HistoryRange
unfolding day add_days
initial_history_range now days =
    let used = if nonpositive days then default_history_days else days in
    let to = add_days (day now) (pos 1) in record { from = add_days to (pos 0 -ℤ used); to = to }
