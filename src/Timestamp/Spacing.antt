-- ===== src/Timestamp/Spacing.antt =====
-- Timestamps given out one after the other, and when one is given out.
use mathlib.Core.Path.{subst}
use kabanero_events.Prelude.{
  ◌≡◌, refl, sym, ap, ◌∙◌, arith, ℕ, zero, suc, ◌+◌, ◌/◌, ◌≤◌, ◌<◌, false, inl, inr, Bool-cases,
  Str, ltb, false,
}
use kabanero_events.Go.Exec.{World, Result, ok, ◌>>=◌}
use kabanero_events.Go.Bind.{bind-eq-ok, pure-eq-ok, bind-of_ok}
use kabanero_events.Timestamp.{tenth, wait, format, get_timestamp}

wait-eq-ok :
    (clock : ℕ → ℕ) (fuel : ℕ) (w : World) {now : ℕ} {w' : World}
    → wait clock fuel w ≡ (ok now, w')
    → (w'.last_time ≡ now) × (w.last_time + tenth ≤ now) × (w.readings < w'.readings)
unfolding wait
wait-eq-ok clock zero w h = absurd (cc h)
wait-eq-ok clock (suc fuel) w {now} {w'} h =
    elim (Bool-cases (ltb (clock w.readings) (w.last_time + tenth))) [
      | inl e ↦
          let (p, q, r) =
            wait-eq-ok clock fuel (record w { readings = suc w.readings }) (rw e at h) in
          (p, q, omega arith)
      | inr e ↦ read_now (clock w.readings) (rw e at h) (not_before _ _ e)
    ]
  where
    not_before : (a b : ℕ) → ltb a b ≡ false → b ≤ a
    not_before a b e = ground arith

    read_now :
        (time : ℕ)
        → ◌≡◌ {A = Result ℕ × World}
            (ok time, record w { readings = suc w.readings; last_time = time })
            (ok now, w')
        → w.last_time + tenth ≤ time
        → (w'.last_time ≡ now) × (w.last_time + tenth ≤ now) × (w.readings < w'.readings)
    read_now time h le =
        let e : time ≡ now = ap (λ r. value r.0) h in
        (
          sym (λ i. (h i).1.last_time) ∙ e,
          subst (λ t. w.last_time + tenth ≤ t) e le,
          omega (arith, reading),
        )
      where
        value : Result ℕ → ℕ
        value (ok n) = n
        value _ = 0

        reading : suc w.readings ≡ w'.readings
        reading = λ i. (h i).1.readings

-- A timestamp that `GetTimestamp` gives out is the format of the time kept for the next call, at
-- least a tenth of a second after the time kept before, and in a later tenth of a second.
pub get_timestamp-later :
    (clock : ℕ → ℕ) (fuel : ℕ) (w : World) {s : Str} {w' : World}
    → get_timestamp clock fuel w ≡ (ok s, w')
    → (s ≡ format w'.last_time)
      × (w.last_time + tenth ≤ w'.last_time)
      × (w.last_time / tenth < w'.last_time / tenth)
unfolding get_timestamp
get_timestamp-later clock fuel w {w' = w'} h =
    let (now, w₁, p, q) = bind-eq-ok (wait clock fuel) _ w h in
    let (e, le, _) = wait-eq-ok clock fuel w p in
    let (f, g) = pure-eq-ok (format now) w₁ q in
    let last : w'.last_time ≡ now = sym (λ i. (g i).last_time) ∙ e in
    (
      sym f ∙ ap format (sym last),
      subst (λ t. w.last_time + tenth ≤ t) (sym last) le,
      tenths w.last_time w'.last_time (subst (λ t. w.last_time + tenth ≤ t) (sym last) le),
    )
  where
    tenths : (a b : ℕ) → a + tenth ≤ b → a / tenth < b / tenth
    tenths a b h = omega arith

wait-ok :
    (clock : ℕ → ℕ) (fuel k : ℕ) (w : World)
    → k < fuel
    → w.last_time + tenth ≤ clock (w.readings + k)
    → (now : ℕ) × (w' : World) × (wait clock fuel w ≡ (ok now, w'))
unfolding wait
wait-ok clock zero k w h le = absurd (omega arith)
wait-ok clock (suc fuel) zero w h le =
    let now = clock w.readings in
    let e : w.readings + 0 ≡ w.readings = omega arith in
    let le' = subst (λ i. w.last_time + tenth ≤ clock i) e le in
    (
      now,
      record w { readings = suc w.readings; last_time = now },
      rw (not_before now (w.last_time + tenth) le') refl,
    )
  where
    not_before : (a b : ℕ) → b ≤ a → ltb a b ≡ false
    not_before a b h = ground arith
wait-ok clock (suc fuel) (suc k) w h le =
    elim (Bool-cases (ltb (clock w.readings) (w.last_time + tenth))) [
      | inr e ↦ (
        clock w.readings,
        record w { readings = suc w.readings; last_time = clock w.readings },
        rw e refl,
      )
      | inl e ↦ rw e (
          wait-ok clock fuel k (record w { readings = suc w.readings }) (omega arith)
            (subst (λ i. w.last_time + tenth ≤ clock i) shifted le))
    ]
  where
    shifted : w.readings + suc k ≡ suc w.readings + k
    shifted = omega arith

-- `GetTimestamp` returns as soon as a reading of the clock is a tenth of a second after the last
-- time: fuel for one reading more is enough.
pub get_timestamp-ok :
    (clock : ℕ → ℕ) (k : ℕ) (w : World)
    → w.last_time + tenth ≤ clock (w.readings + k)
    → (s : Str) × (w' : World) × (get_timestamp clock (suc k) w ≡ (ok s, w'))
unfolding get_timestamp ◌>>=◌
get_timestamp-ok clock k w le =
    let (now, w', e) = wait-ok clock (suc k) k w (omega arith) le in
    (format now, w', bind-of_ok (wait clock (suc k)) _ w e)
