-- ===== src/Timestamp/Mutex/Safety.antt =====
-- The goroutines that call `GetTimestamp` together: the mutex, and the times that they get.
use kabanero_events.Prelude.{◌≡◌, ℕ, ◌+◌, ◌⊎◌, inl, inr, true, Bool-cases, ltb}
use kabanero_events.Go.Exec.{World}
use kabanero_events.Timestamp.{tenth}
use kabanero_events.Timestamp.Mutex.{
  Place, outside, blocked, looking, comparing, keeping, leaving, Shared, System, Move, lock, look,
  sleep, go_on, keep, unlock, init, Steps, holds,
}
use kabanero_events.Timestamp.Mutex.Invariant.{IsSpaced, Steps-Inv}

-- Whatever the order of the steps, no two goroutines are between `mutex.Lock()` and
-- `mutex.Unlock()`, and the times that were given, in the order in which they were, lie a tenth of
-- a second or more apart.
pub given-IsSpaced :
    (clock : ℕ → ℕ) (w : World) (s : System)
    → Steps clock (init w) s
    → ((i j : ℕ) → holds (s.at i) ≡ true → holds (s.at j) ≡ true → i ≡ j) × IsSpaced s.mem.given
given-IsSpaced clock w s steps = let inv = Steps-Inv w steps in (inv.unique, inv.spaced)

-- A goroutine can move.
pub record Able (clock : ℕ → ℕ) (m : Shared) (p : Place) : Type 0 where
  pub mem : Shared
  pub next : Place
  pub move : Move clock m p mem next

Able-holds : (clock : ℕ → ℕ) (m : Shared) (p : Place) → holds p ≡ true → Able clock m p
Able-holds clock m outside h = absurd (cc h)
Able-holds clock m blocked h = absurd (cc h)
Able-holds clock m looking h = record { mem = _; next = _; move = look }
Able-holds clock m (comparing now) h = elim (Bool-cases (ltb now (m.last_time + tenth))) [
  | inl e ↦ record { mem = _; next = _; move = sleep e }
  | inr e ↦ record { mem = _; next = _; move = go_on e }
]
Able-holds clock m (keeping now) h = record { mem = _; next = _; move = keep }
Able-holds clock m (leaving now) h = record { mem = _; next = _; move = unlock }

-- No deadlock: whatever the order of the steps so far, one that waits at the mutex either can take
-- it, or another goroutine is past it and can move.
pub blocked-Able :
    (clock : ℕ → ℕ) (w : World) (s : System)
    → Steps clock (init w) s
    → (i : ℕ) → s.at i ≡ blocked
    → Able clock s.mem (s.at i) ⊎ ((j : ℕ) × (holds (s.at j) ≡ true) × Able clock s.mem (s.at j))
blocked-Able clock w s steps i e = elim (Bool-cases s.mem.locked) [
  | inl q ↦
      let (j, h) = (Steps-Inv w steps).taken q in inr (j, h, Able-holds clock s.mem (s.at j) h)
  | inr q ↦ inl (rw e (record { mem = _; next = _; move = lock q }))
]
