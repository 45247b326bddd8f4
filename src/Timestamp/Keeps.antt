-- ===== src/Timestamp/Keeps.antt =====
-- A property of the world that does not look at the clock is kept by `GetTimestamp`.
use kabanero_events.Prelude.{ℕ, zero, suc, ◌+◌, inl, inr, Bool-cases, ltb}
use kabanero_events.Go.Exec.{World}
use kabanero_events.Go.Keeps.{Keeps, KeptByVariables, Keeps-bind, Keeps-pure}
use kabanero_events.Timestamp.{tenth, wait, get_timestamp}

module _ {P : World → Type 0} (variables : KeptByVariables P) where
  open variables use {by_reading, by_time}

  wait_keeps : (clock : ℕ → ℕ) (fuel : ℕ) (w : World) → P w → P (wait clock fuel w).1
  unfolding wait
  wait_keeps clock zero w h = h
  wait_keeps clock (suc fuel) w h =
      elim (Bool-cases (ltb (clock w.readings) (w.last_time + tenth))) [
        | inl e ↦
            rw e (wait_keeps clock fuel (record w { readings = suc w.readings }) (by_reading w h))
        | inr e ↦
            rw e
              (by_time (record w { readings = suc w.readings }) (clock w.readings) (by_reading w h))
      ]

  pub get_timestamp-Keeps : (clock : ℕ → ℕ) (fuel : ℕ) → Keeps P (get_timestamp clock fuel)
  unfolding get_timestamp
  get_timestamp-Keeps clock fuel =
      Keeps-bind (record { at = wait_keeps clock fuel }) (λ now. Keeps-pure _)
