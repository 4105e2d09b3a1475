-- ===== src/Python/Isoformat.antt =====
-- `datetime.isoformat()`, for a UTC offset of whole minutes, seconds or microseconds.
use Prim.Native.String
use cryptopulse.Prelude.{
  ℕ, zero, suc, ◌+◌, ◌-◌, ◌*◌, ◌/◌, ◌%◌, String, ltb, leb, ◌==◌, if◌then◌else◌,
}
use cryptopulse.Prelude.Int.{ℤ, pos, pos_part, neg_part, ◌+ℤ◌, ltb_ℤ}
use cryptopulse.Python.Text.{str_ℕ}
use cryptopulse.Python.Datetime.{Datetime, Tzinfo, absent, vague, offset, second}

zeros : ℕ → String
zeros zero = ""
zeros (suc n) = String.◌++◌ "0" (zeros n)

-- `'%0{width}d' % n`
padded : ℕ → ℕ → String
unfolding zeros str_ℕ
padded width n = String.◌++◌ (zeros (width - String.len (str_ℕ n))) (str_ℕ n)

-- Days from 0000-03-01 to 1970-01-01, so that every day of a datetime has a natural number.
abbrev epoch_days : ℕ
epoch_days = 719468

abbrev day_microseconds : ℕ
day_microseconds = 86400 * second

-- Microseconds from 0000-03-01T00:00:00 to the reading of the clock.
abbrev since_zero : ℤ → ℕ
since_zero wall = pos_part (wall +ℤ pos (epoch_days * day_microseconds))

-- The proleptic Gregorian calendar, in years that begin in March.
date_text : ℕ → String
unfolding padded
date_text day =
    let era = day / 146097 in
    let doe = day % 146097 in
    let yoe = (doe - doe / 1460 + doe / 36524 - doe / 146096) / 365 in
    let doy = doe - (365 * yoe + yoe / 4 - yoe / 100) in
    let mp = (5 * doy + 2) / 153 in
    let d = doy - (153 * mp + 2) / 5 + 1 in
    let m : ℕ = if ltb mp 10 then mp + 3 else mp - 9 in
    let y : ℕ = if leb m 2 then yoe + era * 400 + 1 else yoe + era * 400 in
    String.◌++◌ (padded 4 y)
      (String.◌++◌ "-" (String.◌++◌ (padded 2 m) (String.◌++◌ "-" (padded 2 d))))

hours_minutes : ℕ → String
unfolding padded
hours_minutes seconds =
    String.◌++◌ (padded 2 (seconds / 3600)) (String.◌++◌ ":" (padded 2 (seconds / 60 % 60)))

-- Microseconds are left out where they are 0.
fraction : ℕ → String
unfolding padded
fraction n = if n == 0 then "" else String.◌++◌ "." (padded 6 n)

time_text : ℕ → String
unfolding padded hours_minutes fraction
time_text t =
    String.◌++◌ (hours_minutes (t / second))
      (String.◌++◌ ":" (String.◌++◌ (padded 2 (t / second % 60)) (fraction (t % second))))

-- The seconds of an offset are left out where it has whole minutes.
offset_text : ℤ → String
unfolding time_text hours_minutes
offset_text z =
    let t = pos_part z + neg_part z in
    String.◌++◌ (if ltb_ℤ z (pos 0) then "-" else "+")
      (if t % (60 * second) == 0 then hours_minutes (t / second) else time_text t)

abbrev zone_text : Tzinfo → String
zone_text absent = ""
zone_text vague = ""
zone_text (offset z) = offset_text z

unfoldable pub isoformat : Datetime → String
unfolding date_text time_text offset_text ◌+ℤ◌
isoformat d = String.◌++◌ (date_text (since_zero d.wall / day_microseconds)) (
    String.◌++◌ "T"
      (String.◌++◌ (time_text (since_zero d.wall % day_microseconds)) (zone_text d.tzinfo)))
