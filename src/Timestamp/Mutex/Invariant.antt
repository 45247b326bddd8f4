-- ===== src/Timestamp/Mutex/Invariant.antt =====
-- What holds in every state that goroutines calling `GetTimestamp` reach.
use mathlib.Core.Path.{subst}
use kabanero_events.Prelude.{◌≡◌, refl, arith, ℕ, ◌+◌, ◌≤◌, true, false, List, [], ◌∷◌, ltb}
use kabanero_events.Go.Exec.{World}
use kabanero_events.Go.Family.{set, set-cases}
use kabanero_events.Timestamp.{tenth}
use kabanero_events.Timestamp.Mutex.{
  Place, outside, blocked, looking, comparing, keeping, leaving, Shared, System, Move, begin_call,
  lock, go_on, keep, unlock, Step, pick, init, Steps, here, then, holds,
}

-- The last of the times, if any, lies a tenth of a second or more before `bound`.
abbrev pub Before : ℕ → List ℕ → Type 0
Before bound [] = Unit
Before bound (time ∷ times) = time + tenth ≤ bound

abbrev pub UpTo : ℕ → List ℕ → Type 0
UpTo bound [] = Unit
UpTo bound (time ∷ times) = time ≤ bound

-- Times from the last one to the first, a tenth of a second or more apart.
abbrev pub IsSpaced : List ℕ → Type 0
IsSpaced [] = Unit
IsSpaced (time ∷ times) = Before time times × IsSpaced times

-- What the local variable of a goroutine says about the shared state.
abbrev IsFresh : Shared → Place → Type 0
IsFresh m (keeping now) = (m.last_time + tenth ≤ now) × UpTo m.last_time m.given
IsFresh m (leaving now) = (m.last_time ≡ now) × Before now m.given
IsFresh m _ = Unit

pub record Inv (m : Shared) (at : ℕ → Place) : Type 0 where
  pub owned : (i : ℕ) → holds (at i) ≡ true → m.locked ≡ true
  pub unique : (i j : ℕ) → holds (at i) ≡ true → holds (at j) ≡ true → i ≡ j
  pub taken : m.locked ≡ true → (i : ℕ) × (holds (at i) ≡ true)
  pub fresh : (i : ℕ) → IsFresh m (at i)
  pub bounded : UpTo m.last_time m.given
  pub spaced : IsSpaced m.given

Inv-init : (w : World) → Inv (init w).mem (init w).at
Inv-init w = record {
  owned = λ i q. cc;
  unique = λ i j q r. cc;
  taken = λ q. absurd (cc);
  fresh = λ i. tt;
  bounded = tt;
  spaced = tt;
}

Before-of_UpTo :
    (bound now : ℕ) (times : List ℕ) → bound + tenth ≤ now → UpTo bound times → Before now times
Before-of_UpTo bound now [] h u = tt
Before-of_UpTo bound now (time ∷ times) h u = omega arith

UpTo-of_Before : (now : ℕ) (times : List ℕ) → Before now times → UpTo now times
UpTo-of_Before now [] u = tt
UpTo-of_Before now (time ∷ times) u = omega arith

IsFresh-free : (m : Shared) (p : Place) → holds p ≡ false → IsFresh m p
IsFresh-free m (keeping now) h = absurd (cc h)
IsFresh-free m (leaving now) h = absurd (cc h)
IsFresh-free m outside h = tt
IsFresh-free m blocked h = tt
IsFresh-free m looking h = tt
IsFresh-free m (comparing now) h = tt

-- The premise of a move.
abbrev Guard : {clock : ℕ → ℕ} {m m' : Shared} {p p' : Place} → Move clock m p m' p' → Type 0
Guard {m} (lock _) = m.locked ≡ false
Guard {m} (go_on {now} _) = ltb now (m.last_time + tenth) ≡ false
Guard _ = Unit

guard : {clock : ℕ → ℕ} {m m' : Shared} {p p' : Place} (mv : Move clock m p m' p') → Guard mv
guard (lock g) = g
guard (go_on g) = g
guard _ = tt

module _ {m : Shared} {at : ℕ → Place} (inv : Inv m at) (i : ℕ) where
  open inv use {owned, unique, taken, fresh, bounded, spaced}

  kept : (now : ℕ) → at i ≡ keeping now → IsFresh m (keeping now)
  kept now e = subst (IsFresh m) e (fresh i)

  left : (now : ℕ) → at i ≡ leaving now → IsFresh m (leaving now)
  left now e = subst (IsFresh m) e (fresh i)

  module _ {clock : ℕ → ℕ} where
    Move-owned :
        {p p' : Place} {m' : Shared}
        → Move clock m p m' p'
        → at i ≡ p
        → (j : ℕ) → holds (set at i p' j) ≡ true
        → m'.locked ≡ true
    Move-owned begin_call e j q = ground (arith, owned i, owned j)
    Move-owned mv e j q = ground (arith, guard mv, owned i, owned j, unique i j)

    Move-unique :
        {p p' : Place} {m' : Shared}
        → Move clock m p m' p'
        → at i ≡ p
        → (a b : ℕ) → holds (set at i p' a) ≡ true
        → holds (set at i p' b) ≡ true
        → a ≡ b
    Move-unique begin_call e a b q r = ground (arith, unique a b)
    Move-unique mv e a b q r =
        ground (arith, guard mv, owned a, owned b, unique a b, unique i a, unique i b)

    Move-taken :
        {p p' : Place} {m' : Shared}
        → Move clock m p m' p'
        → at i ≡ p
        → m'.locked ≡ true
        → (j : ℕ) × (holds (set at i p' j) ≡ true)
    Move-taken begin_call e q = let (j, held) = taken q in (j, ground arith)
    Move-taken (lock g) e q = (i, ground arith)
    Move-taken mv e q = let (j, held) = taken (ground arith) in (j, ground (arith, guard mv))

    Move-IsFresh :
        {p p' : Place} {m' : Shared}
        → Move clock m p m' p'
        → at i ≡ p
        → (j : ℕ) → IsFresh m' (set at i p' j)
    Move-IsFresh begin_call e j = ground (arith, fresh j)
    Move-IsFresh (keep {now}) e j =
        set-cases (IsFresh (record m { last_time = now })) at i (leaving now) j
          (λ _. (refl, Before-of_UpTo m.last_time now m.given (kept now e).0 (kept now e).1))
          (λ q. IsFresh-free (record m { last_time = now }) (at j) (ground (arith, unique i j)))
    Move-IsFresh (unlock {now}) e j =
        IsFresh-free (record m { locked = false; given = now ∷ m.given }) (set at i outside j)
          (ground (arith, unique i j))
    Move-IsFresh mv e j = ground (arith, guard mv, fresh j, owned j, bounded)

    Move-UpTo :
        {p p' : Place} {m' : Shared} → Move clock m p m' p' → at i ≡ p → UpTo m'.last_time m'.given
    Move-UpTo (keep {now}) e =
        UpTo-of_Before now m.given
          (Before-of_UpTo m.last_time now m.given (kept now e).0 (kept now e).1)
    Move-UpTo (unlock {now}) e = ground (arith, left now e)
    Move-UpTo mv e = bounded

    Move-IsSpaced :
        {p p' : Place} {m' : Shared} → Move clock m p m' p' → at i ≡ p → IsSpaced m'.given
    Move-IsSpaced (unlock {now}) e = ((left now e).1, spaced)
    Move-IsSpaced mv e = spaced

    pub Move-Inv : {p : Place} {m' : Shared} → Move clock m (at i) m' p → Inv m' (set at i p)
    Move-Inv mv = record {
      owned = Move-owned mv refl;
      unique = Move-unique mv refl;
      taken = Move-taken mv refl;
      fresh = Move-IsFresh mv refl;
      bounded = Move-UpTo mv refl;
      spaced = Move-IsSpaced mv refl;
    }

pub Step-Inv : {clock : ℕ → ℕ} {s t : System} → Step clock s t → Inv s.mem s.at → Inv t.mem t.at
Step-Inv (pick i mv) inv = Move-Inv inv i mv

pub Steps-Inv : {clock : ℕ → ℕ} (w : World) {s : System} → Steps clock (init w) s → Inv s.mem s.at
Steps-Inv w here = Inv-init w
Steps-Inv w (then steps step) = Step-Inv step (Steps-Inv w steps)
