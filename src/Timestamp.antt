-- ===== src/Timestamp.antt =====
-- pkg/trigger/trigger.go: `GetTimestamp`. The clock is a parameter: the wall time of each reading,
-- in nanoseconds since 1970 in UTC. `UTC()` strips the monotonic reading, so that a later reading
-- may be an earlier time.
pub mod Spacing
pub mod Width
pub mod Keeps
pub mod Mutex
mod Tests
use kabanero_events.Prelude.{
  ℕ, zero, suc, ◌+◌, ◌-◌, ◌*◌, ◌/◌, ◌%◌, List, [], ◌∷◌, ◌++◌, Str, digits, length, ltb, leb,
  if◌then◌else◌,
}
use kabanero_events.Go.Exec.{World, Result, ok, out_of_fuel, Exec, pure, ◌>>=◌}

-- A tenth of a second.
abbrev pub tenth : ℕ
tenth = 100000000

-- The clock is read until a tenth of a second has gone by since the last time. The mutex makes
-- the calls follow one another.
unfoldable pub wait : (ℕ → ℕ) → ℕ → Exec ℕ
wait clock zero w = (out_of_fuel, w)
wait clock (suc fuel) w =
    let now = clock w.readings in
    let read = record w { readings = suc w.readings } in
    let again = wait clock fuel read in
    if ltb now (w.last_time + tenth) then again else (ok now, record read { last_time = now })

-- The date in the Gregorian calendar, by eras of 400 years of 146097 days that start in March.
pub record Civil : Type 0 where
  pub year : ℕ
  pub month : ℕ
  pub day : ℕ

abbrev pub year_of_era : ℕ → ℕ
year_of_era day = (day - day / 1460 + day / 36524 - day / 146096) / 365

abbrev pub day_of_year : ℕ → ℕ
day_of_year day = day - (365 * year_of_era day + year_of_era day / 4 - year_of_era day / 100)

abbrev pub month_from_march : ℕ → ℕ
month_from_march day = (5 * day_of_year day + 2) / 153

abbrev pub month_of : ℕ → ℕ
month_of month = if ltb month 10 then month + 3 else month - 9

-- Of the days since 1970.
unfoldable pub civil : ℕ → Civil
civil days =
    let z = days + 719468 in
    let day = z % 146097 in
    let month = month_of (month_from_march day) in
    record {
      year = year_of_era day + z / 146097 * 400 + (if leb month 2 then 1 else 0);
      month = month;
      day = day_of_year day - (153 * month_from_march day + 2) / 5 + 1;
    }

zeros : ℕ → Str
zeros zero = []
zeros (suc n) = b'0' ∷ zeros n

-- `%0wd`
unfoldable pub pad : ℕ → ℕ → Str
unfolding zeros
pad width n = zeros (width - length (digits n)) ++ digits n

unfoldable pub format : ℕ → Str
format now =
    let seconds = now / 1000000000 in
    let date = civil (seconds / 86400) in
    pad 4 date.year
    ++ pad 2 date.month
    ++ pad 2 date.day
    ++ pad 2 (seconds % 86400 / 3600)
    ++ pad 2 (seconds % 3600 / 60)
    ++ pad 2 (seconds % 60)
    ++ pad 1 (now % 1000000000 / tenth)

-- `GetTimestamp`
unfoldable pub get_timestamp : (ℕ → ℕ) → ℕ → Exec Str
get_timestamp clock fuel = do now ← wait clock fuel; pure (format now)
