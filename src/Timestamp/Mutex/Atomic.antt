-- ===== src/Timestamp/Mutex/Atomic.antt =====
-- The goroutines that call `GetTimestamp` together, and the same calls one after the other.
use mathlib.Core.Path.{subst}
use kabanero_events.Prelude.{
  ◌≡◌, ◌≢◌, refl, sym, ap, ◌∙◌, arith, ℕ, suc, ◌+◌, true, false, List, [], ◌∷◌, Str, ltb,
}
use kabanero_events.Go.Exec.{World, Result, ok, pure, ◌>>=◌}
use kabanero_events.Go.Family.{set, set-cases}
use kabanero_events.Go.Bind.{bind-of_ok}
use kabanero_events.Timestamp.{tenth, wait, format, get_timestamp}
use kabanero_events.Timestamp.Mutex.{
  Place, outside, blocked, looking, comparing, keeping, leaving, Shared, System, Move, begin_call,
  lock, look, sleep, go_on, keep, unlock, Step, pick, init, Steps, here, then, holds,
}
use kabanero_events.Timestamp.Mutex.Invariant.{Inv, Steps-Inv}

module _ (clock : ℕ → ℕ) where
  -- Calls of `GetTimestamp` one after the other, from one world to another, and the times that
  -- they give the formats of, the last one first.
  pub data Calls (w : World) : List ℕ → World → Type 0 where
    none_yet : Calls w [] w
    one_more :
        {times : List ℕ} {w₁ w₂ : World} {now : ℕ}
        → Calls w times w₁
        → (fuel : ℕ)
        → ◌≡◌ {A = Result Str × World} (get_timestamp clock fuel w₁) (ok (format now), w₂)
        → Calls w (now ∷ times) w₂

  get_timestamp_of_wait :
      (fuel now : ℕ) (w₁ : World) {w₂ : World}
      → ◌≡◌ {A = Result ℕ × World} (wait clock fuel w₁) (ok now, w₂)
      → ◌≡◌ {A = Result Str × World} (get_timestamp clock fuel w₁) (ok (format now), w₂)
  unfolding get_timestamp ◌>>=◌
  get_timestamp_of_wait fuel now w₁ e = bind-of_ok (wait clock fuel) (λ n. pure (format n)) w₁ e

  -- The run from `w₁` goes on as the run from `w`.
  record Continues (w₁ w : World) : Type 0 where
    on :
        (fuel : ℕ)
        → (fuel' : ℕ) × ◌≡◌ {A = Result ℕ × World} (wait clock fuel' w₁) (wait clock fuel w)

  module _ (w : World) where
    -- The world of a shared state.
    abbrev world : Shared → World
    world m = record w { last_time = m.last_time; readings = m.readings }

    abbrev read_before : Shared → ℕ → World
    read_before m r = record w { last_time = m.last_time; readings = r }

    -- How far the call of the goroutine that holds the mutex is, begun at `w₁`.
    Stage : World → Shared → Place → Type 0
    Stage w₁ m looking = Continues w₁ (world m)
    Stage w₁ m (comparing now) =
        (r : ℕ) × (m.readings ≡ suc r) × (now ≡ clock r) × Continues w₁ (read_before m r)
    Stage w₁ m (keeping now) =
        (r : ℕ) × (m.readings ≡ suc r)
        × (now ≡ clock r)
        × Continues w₁ (read_before m r)
        × (ltb now (m.last_time + tenth) ≡ false)
    Stage w₁ m (leaving now) =
        (fuel : ℕ) × ◌≡◌ {A = Result ℕ × World} (wait clock fuel w₁) (ok now, world m)
    Stage w₁ m _ = Unit

    Stage-free : (w₁ : World) (m : Shared) (p : Place) → holds p ≡ false → Stage w₁ m p
    unfolding Stage
    Stage-free w₁ m outside h = tt
    Stage-free w₁ m blocked h = tt
    Stage-free w₁ m looking h = absurd (cc h)
    Stage-free w₁ m (comparing now) h = absurd (cc h)
    Stage-free w₁ m (keeping now) h = absurd (cc h)
    Stage-free w₁ m (leaving now) h = absurd (cc h)

    record InStep (m : Shared) (at : ℕ → Place) : Type 0 where
      base : World
      calls : Calls w m.given base
      stage : (i : ℕ) → Stage base m (at i)
      idle : m.locked ≡ false → base ≡ world m

    asleep :
        (w₁ : World) (m : Shared) (now r : ℕ)
        → m.readings ≡ suc r
        → now ≡ clock r
        → Continues w₁ (read_before m r)
        → ltb now (m.last_time + tenth) ≡ true
        → Continues w₁ (world m)
    unfolding wait
    asleep w₁ m now r e f c t = record {
      on = λ fuel.
          let (fuel', q) = c.on (suc fuel) in
          (
            fuel',
            q
                ∙ rw (← f, t)
                    (ap (λ n. wait clock fuel (record w { last_time = m.last_time; readings = n }))
                      (sym e)),
          );
    }

    kept :
        (w₁ : World) (m : Shared) (now r : ℕ)
        → m.readings ≡ suc r
        → now ≡ clock r
        → Continues w₁ (read_before m r)
        → ltb now (m.last_time + tenth) ≡ false
        → Stage w₁ (record m { last_time = now }) (leaving now)
    unfolding Stage wait
    kept w₁ m now r e f c t =
        let (fuel', q) = c.on 1 in
        (
          fuel',
          q ∙ rw (← f, t) (ap (λ n. done (record w { last_time = now; readings = n })) (sym e)),
        )
      where
        done : World → Result ℕ × World
        done v = (ok now, v)

    InStep-init : InStep (init w).mem (init w).at
    unfolding Stage
    InStep-init = record { base = w; calls = none_yet; stage = λ i. tt; idle = λ q. refl }

    module _ {m : Shared} {at : ℕ → Place} (inv : Inv m at) (i : ℕ) (s : InStep m at) where
      own : {p : Place} → at i ≡ p → Stage s.base m p
      own e = subst (Stage s.base m) e (s.stage i)

      -- The goroutine that held the mutex moves; no other holds it.
      alone :
          (w₁ : World) (m' : Shared) (p : Place)
          → holds (at i) ≡ true
          → Stage w₁ m' p
          → (j : ℕ) → Stage w₁ m' (set at i p j)
      alone w₁ m' p h mine j =
          set-cases (Stage w₁ m') at i p j (λ _. mine)
            (λ q. Stage-free w₁ m' (at j) (ground (arith, inv.unique i j)))

      not_taken : holds (at i) ≡ true → m.locked ≢ false
      not_taken h q = ground (arith, inv.owned i)

      -- The goroutine goes on under the mutex.
      going_on :
          (m' : Shared) (p : Place)
          → holds (at i) ≡ true
          → m'.locked ≡ m.locked
          → m'.given ≡ m.given
          → Stage s.base m' p
          → InStep m' (set at i p)
      going_on m' p h l g mine = record {
        base = s.base;
        calls = subst (λ times. Calls w times s.base) (sym g) s.calls;
        stage = alone s.base m' p h mine;
        idle = λ q. absurd (not_taken h (sym l ∙ q));
      }

      Move-InStep :
          {p p' : Place} {m' : Shared} → Move clock m p m' p' → at i ≡ p → InStep m' (set at i p')
      unfolding Stage
      Move-InStep begin_call e = record {
        base = s.base;
        calls = s.calls;
        stage = λ j. set-cases (Stage s.base m) at i blocked j (λ _. tt) (λ q. s.stage j);
        idle = s.idle;
      }
      Move-InStep (lock g) e = record {
        base = s.base;
        calls = s.calls;
        stage = λ j.
            set-cases (Stage s.base (record m { locked = true })) at i looking j
              (λ _. record { on = λ fuel. (fuel, ap (wait clock fuel) (s.idle g)) })
              (λ q.
                Stage-free s.base (record m { locked = true }) (at j)
                  (ground (arith, inv.owned j)));
        idle = λ q. absurd (cc q);
      }
      Move-InStep look e = going_on _ _ (ap holds e) refl refl (m.readings, refl, refl, own e)
      Move-InStep (sleep {now} t) e =
          let (r, p, q, c) = own e in
          going_on m looking (ap holds e) refl refl (asleep s.base m now r p q c t)
      Move-InStep (go_on t) e =
          let (r, p, q, c) = own e in going_on _ _ (ap holds e) refl refl (r, p, q, c, t)
      Move-InStep (keep {now}) e =
          let (r, p, q, c, t) = own e in
          going_on (record m { last_time = now }) (leaving now) (ap holds e) refl refl
            (kept s.base m now r p q c t)
      Move-InStep (unlock {now}) e =
          let (fuel, q) = own e in
          record {
            base = world m;
            calls = one_more s.calls fuel (get_timestamp_of_wait fuel now s.base q);
            stage =
                alone (world m) (record m { locked = false; given = now ∷ m.given }) outside
                  (ap holds e) tt;
            idle = λ q. refl;
          }

    Step-InStep :
        {s t : System} → Inv s.mem s.at → Step clock s t → InStep s.mem s.at → InStep t.mem t.at
    Step-InStep inv (pick i mv) h = Move-InStep inv i h mv refl

    Steps-InStep : {s : System} → Steps clock (init w) s → InStep s.mem s.at
    Steps-InStep here = InStep-init
    Steps-InStep (then steps step) = Step-InStep (Steps-Inv w steps) step (Steps-InStep steps)

-- Whatever the order in which the goroutines that call `GetTimestamp` take their steps: when the
-- mutex is free, the times given are those that the same clock gives to calls which follow one
-- another, in the order in which the goroutines held the mutex, and the calls leave the same time
-- and have read the clock as often.
pub given-Calls :
    (clock : ℕ → ℕ) (w : World) (s : System)
    → Steps clock (init w) s
    → s.mem.locked ≡ false
    → Calls clock w s.mem.given
        (record w { last_time = s.mem.last_time; readings = s.mem.readings })
given-Calls clock w s steps free =
    let h = Steps-InStep clock w steps in subst (Calls clock w s.mem.given) (h.idle free) h.calls
