-- ===== src/Go/Keeps.antt =====
-- A property of the world that an action keeps, whatever its result, and the rules for the parts
-- of a `do` block.
use kabanero_events.Prelude.{ℕ, suc, Bool, true, false, ◌⊎◌, inl, inr, Str, if◌then◌else◌}
use kabanero_events.Go.Value.{Val}
use kabanero_events.Go.Exec.{
  Error, Result, ok, err, panic, out_of_fuel, World, Exec, pure, throw, lift, of_sum, reads,
  recover, ◌>>=◌, load, store, alloc,
}

pub record Keeps {ℓ} {A : Type ℓ} (P : World → Type 0) (m : Exec A) : Type 0 where
  pub at : (w : World) → P w → P (m w).1

module _ {ℓ} {A : Type ℓ} {P : World → Type 0} where
  pub Keeps-pure : (a : A) → Keeps P (pure a)
  unfolding ◌>>=◌
  Keeps-pure a = record { at = λ w h. h }

  pub Keeps-throw : (e : Error) → Keeps {A = A} P (throw e)
  unfolding ◌>>=◌
  Keeps-throw e = record { at = λ w h. h }

  pub Keeps-lift : (r : Result A) → Keeps P (lift r)
  unfolding ◌>>=◌
  Keeps-lift r = record { at = λ w h. h }

  pub Keeps-of_sum : (s : Error ⊎ A) → Keeps P (of_sum s)
  unfolding ◌>>=◌
  Keeps-of_sum (inl e) = record { at = λ w h. h }
  Keeps-of_sum (inr a) = record { at = λ w h. h }

  pub Keeps-reads : (f : World → Result A) → Keeps P (reads f)
  unfolding ◌>>=◌
  Keeps-reads f = record { at = λ w h. h }

  pub Keeps-if : (b : Bool) {m n : Exec A} → Keeps P m → Keeps P n → Keeps P (if b then m else n)
  Keeps-if true hm hn = hm
  Keeps-if false hm hn = hn

module _ {ℓ κ} {A : Type ℓ} {B : Type κ} {P : World → Type 0} where
  continue_keeps :
      (r : Result A) (f : A → Exec B) (w : World)
      → ((a : A) → Keeps P (f a))
      → P w
      → P ((lift r >>= f) w).1
  unfolding ◌>>=◌
  continue_keeps (ok a) f w k h = (k a).at w h
  continue_keeps (err e) f w k h = h
  continue_keeps panic f w k h = h
  continue_keeps out_of_fuel f w k h = h

  pub Keeps-bind :
      {m : Exec A} {f : A → Exec B} → Keeps P m → ((a : A) → Keeps P (f a)) → Keeps P (m >>= f)
  unfolding ◌>>=◌
  Keeps-bind {m} {f} hm hf = record { at = λ w h. continue_keeps (m w).0 f (m w).1 hf (hm.at w h) }

  pub Keeps-recover : {m : Exec A} (f : Result A → Result B) → Keeps P m → Keeps P (recover f m)
  unfolding recover
  Keeps-recover f hm = record { at = λ w h. hm.at w h }

pub ruleset keeps_rules = (
  Keeps-pure, Keeps-throw, Keeps-lift, Keeps-of_sum, Keeps-reads, Keeps-bind, Keeps-if,
  Keeps-recover,
)

pub load-Keeps : {P : World → Type 0} (a : ℕ) (k : Str) → Keeps P (load a k)
unfolding load
load-Keeps a k = record { at = λ w h. h }

-- The property survives writes to maps and new maps.
pub record KeptByMaps (P : World → Type 0) : Type 0 where
  pub by_store : (a : ℕ) (k : Str) (v : Val) → Keeps P (store a k v)
  pub by_alloc : Keeps P alloc

-- A property that does not look at the package variables.
pub record KeptByVariables (P : World → Type 0) : Type 0 where
  pub by_namespace : (w : World) (namespace : Str) → P w → P (record w { namespace = namespace })
  pub by_reading : (w : World) → P w → P (record w { readings = suc w.readings })
  pub by_time : (w : World) (time : ℕ) → P w → P (record w { last_time = time })
