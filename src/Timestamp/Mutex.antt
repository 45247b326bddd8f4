-- ===== src/Timestamp/Mutex.antt =====
-- pkg/trigger/trigger.go: `GetTimestamp` called from several goroutines, a shared access at a time.
-- The package variables `mutex` and `lastTime` are the shared state. Any goroutine that is not
-- blocked may move next.
pub mod Invariant
pub mod Atomic
pub mod Safety
mod Tests
use kabanero_events.Prelude.{ℕ, suc, ◌+◌, ◌≡◌, Bool, true, false, List, [], ◌∷◌, ltb}
use kabanero_events.Go.Exec.{World}
use kabanero_events.Go.Family.{set}
use kabanero_events.Timestamp.{tenth}

-- Where a goroutine stands, with its local variable `now`.
pub data Place : Type 0 where
  outside : Place  -- not in `GetTimestamp`
  blocked : Place  -- at `mutex.Lock()`
  looking : Place  -- before `time.Now()`
  comparing : (now : ℕ) → Place  -- at the condition of the loop
  keeping : (now : ℕ) → Place  -- before `lastTime = now`
  leaving : (now : ℕ) → Place  -- before the deferred `mutex.Unlock()`

-- The goroutines are numbered. `given` is the times whose formats were returned, the last one first.
pub record Shared : Type 0 where
  pub locked : Bool
  pub last_time : ℕ
  pub readings : ℕ  -- of the clock, so far
  pub given : List ℕ

pub record System : Type 0 where
  pub mem : Shared
  pub at : ℕ → Place

-- `lastTime` is set when the package is loaded.
abbrev pub init : World → System
init w = record {
  mem = record { locked = false; last_time = w.last_time; readings = w.readings; given = [] };
  at = λ _. outside;
}

module _ (clock : ℕ → ℕ) where
  -- One step of one goroutine.
  pub data Move (m : Shared) : Place → Shared → Place → Type 0 where
    begin_call : Move m outside m blocked
    lock : m.locked ≡ false → Move m blocked (record m { locked = true }) looking
    look : Move m looking (record m { readings = suc m.readings }) (comparing (clock m.readings))
    sleep : {now : ℕ} → ltb now (m.last_time + tenth) ≡ true → Move m (comparing now) m looking
    go_on :
        {now : ℕ} → ltb now (m.last_time + tenth) ≡ false → Move m (comparing now) m (keeping now)
    keep : {now : ℕ} → Move m (keeping now) (record m { last_time = now }) (leaving now)
    unlock :
        {now : ℕ}
        → Move m (leaving now) (record m { locked = false; given = now ∷ m.given }) outside

  pub data Step (s : System) : System → Type 0 where
    pick :
        (i : ℕ) {m : Shared} {p : Place}
        → Move s.mem (s.at i) m p
        → Step s (record { mem = m; at = set s.at i p })

  pub data Steps : System → System → Type 0 where
    here : {s : System} → Steps s s
    then : {s t u : System} → Steps s t → Step t u → Steps s u

-- Between the return of `mutex.Lock()` and `mutex.Unlock()`.
abbrev pub holds : Place → Bool
holds outside = false
holds blocked = false
holds _ = true
