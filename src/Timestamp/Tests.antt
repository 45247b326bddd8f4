-- ===== src/Timestamp/Tests.antt =====
-- Timestamps, on concrete clocks.
use kabanero_events.Prelude.{◌≡◌, refl, arith, ℕ, ◌+◌, ◌*◌, ◌/◌, ◌≤◌, ◌<◌, Str, lit, digits, length}
use kabanero_events.Timestamp.{tenth, wait, civil, pad, format, get_timestamp}
use kabanero_events.Go.Exec.{World, Result, ok, ◌>>=◌}
use kabanero_events.Timestamp.Spacing.{get_timestamp-later, get_timestamp-ok}
use kabanero_events.Timestamp.Width.{length-format}
use kabanero_events.Sample.{no_world}

-- 29 February 2020, 23:59:59.95.
formatted : format (1583020799 * 1000000000 + 950000000) ≡ lit "202002292359599"
unfolding format civil pad digits
formatted = refl

length-format_example : length (format 1583020799950000000) ≡ 15
length-format_example = length-format 1583020799950000000 (omega arith)

-- A clock that stands still for two readings.
abbrev clock : ℕ → ℕ
clock n = n / 2 * 60000000

get_timestamp-ok_example : (s : Str) × (w' : World) × (get_timestamp clock 5 no_world ≡ (ok s, w'))
get_timestamp-ok_example = get_timestamp-ok clock 4 no_world (omega arith)

abbrev run : Result Str × World
run = get_timestamp clock 5 no_world

run-ok : run ≡ (ok (lit "197001010000001"), run.1)
unfolding get_timestamp wait ◌>>=◌ format civil pad digits
run-ok = refl

get_timestamp-later_example :
    (lit "197001010000001" ≡ format run.1.last_time)
    × (no_world.last_time + tenth ≤ run.1.last_time)
    × (no_world.last_time / tenth < run.1.last_time / tenth)
get_timestamp-later_example = get_timestamp-later clock 5 no_world run-ok
