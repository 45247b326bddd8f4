-- ===== src/Timestamp/Mutex/Tests.antt =====
-- Two goroutines that call `GetTimestamp` at the same time: they are run in a given order.
use mathlib.Core.List.{foldl}
use native.Mathlib.Decide.{ℕ_discrete}
use kabanero_events.Prelude.{
  ◌≡◌, refl, ℕ, suc, ◌+◌, ◌*◌, ◌⊎◌, true, Option, none, some, Bool, false, List, [], ◌∷◌, ltb,
}
use kabanero_events.Timestamp.{tenth}
use kabanero_events.Timestamp.Mutex.{
  Place, outside, blocked, looking, comparing, keeping, leaving, Shared, System, Move, begin_call,
  lock, look, sleep, go_on, keep, unlock, pick, init, Steps, here, then, holds,
}
use kabanero_events.Timestamp.Mutex.Invariant.{IsSpaced}
use kabanero_events.Timestamp.Mutex.Atomic.{Calls, given-Calls}
use kabanero_events.Timestamp.Mutex.Safety.{given-IsSpaced, Able, blocked-Able}
use kabanero_events.Sample.{no_world}

-- The clock goes 60 milliseconds forward between readings.
abbrev clock : ℕ → ℕ
clock n = suc n * 60000000

record Next (m : Shared) (p : Place) : Type 0 where
  mem : Shared
  place : Place
  move : Move clock m p mem place

-- A goroutine that waits at a locked mutex has no next step.
taking : (m : Shared) (locked : Bool) → m.locked ≡ locked → Option (Next m blocked)
taking m true e = none
taking m false e = some (record { mem = _; place = _; move = lock e })

compared :
    (m : Shared) (now : ℕ) (early : Bool)
    → ltb now (m.last_time + tenth) ≡ early
    → Next m (comparing now)
compared m now true e = record { mem = _; place = _; move = sleep e }
compared m now false e = record { mem = _; place = _; move = go_on e }

next_step : (m : Shared) (p : Place) → Option (Next m p)
unfolding taking compared
next_step m outside = some (record { mem = _; place = _; move = begin_call })
next_step m blocked = taking m m.locked refl
next_step m looking = some (record { mem = _; place = _; move = look })
next_step m (comparing now) = some (compared m now (ltb now (m.last_time + tenth)) refl)
next_step m (keeping now) = some (record { mem = _; place = _; move = keep })
next_step m (leaving now) = some (record { mem = _; place = _; move = unlock })

record Run : Type 0 where
  last : System
  steps : Steps clock (init no_world) last

turn : Run → ℕ → Run
unfolding next_step
turn r i = elim (next_step r.last.mem (r.last.at i)) [
  | none ↦ r
  | some n ↦ record { last = _; steps = then r.steps (pick i n.move) }
]

run : List ℕ → Run
unfolding turn
run = foldl turn (record { last = _; steps = here })

-- Goroutine 1 finds the mutex locked.
abbrev contended : Run
contended = run (0 ∷ 0 ∷ 1 ∷ 1 ∷ 0 ∷ 1 ∷ [])

contended_places : (contended.last.at 1 ≡ blocked) × (holds (contended.last.at 0) ≡ true)
unfolding run ℕ_discrete
contended_places = (refl, refl)

-- Both calls return; each reads the clock twice.
abbrev both : Run
both = run (0 ∷ 0 ∷ 1 ∷ 1 ∷ 0 ∷ 1 ∷ 0 ∷ 0 ∷ 0 ∷ 0 ∷ 0 ∷ 0 ∷ 1 ∷ 1 ∷ 1 ∷ 1 ∷ 1 ∷ 1 ∷ 1 ∷ 1 ∷ [])

both_given : both.last.mem.given ≡ 240000000 ∷ 120000000 ∷ []
unfolding run ℕ_discrete
both_given = refl

given-Calls_example :
    Calls clock no_world both.last.mem.given
      (record no_world { last_time = both.last.mem.last_time; readings = both.last.mem.readings })
unfolding run ℕ_discrete
given-Calls_example = given-Calls clock no_world both.last both.steps refl

given-IsSpaced_example :
    ((i j : ℕ) → holds (contended.last.at i) ≡ true → holds (contended.last.at j) ≡ true → i ≡ j)
    × IsSpaced contended.last.mem.given
given-IsSpaced_example = given-IsSpaced clock no_world contended.last contended.steps

blocked-Able_example :
    Able clock contended.last.mem (contended.last.at 1)
    ⊎ ((j : ℕ) × (holds (contended.last.at j) ≡ true)
        × Able clock contended.last.mem (contended.last.at j))
unfolding run ℕ_discrete
blocked-Able_example = blocked-Able clock no_world contended.last contended.steps 1 refl
