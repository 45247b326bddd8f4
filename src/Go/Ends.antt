-- ===== src/Go/Ends.antt =====
-- Actions that come to an end: with a value, an error or a panic.
use kabanero_events.Prelude.{
  ℕ, ◌≡◌, ◌≢◌, refl, Bool, true, false, ◌⊎◌, inl, inr, Str, if◌then◌else◌,
}
use kabanero_events.Go.Value.{Val}
use kabanero_events.Go.Exec.{
  Error, Result, ok, err, panic, out_of_fuel, World, Exec, pure, throw, lift, of_sum, ◌>>=◌, load,
  store, alloc,
}

pub record Ends {ℓ} {A : Type ℓ} (m : Exec A) : Type ℓ where
  pub at : (w : World) → (m w).0 ≢ out_of_fuel

module _ {ℓ} {A : Type ℓ} where
  pub Ends-pure : (a : A) → Ends (pure a)
  unfolding ◌>>=◌
  Ends-pure a = record { at = λ w h. cc h }

  pub Ends-throw : (e : Error) → Ends {A = A} (throw e)
  unfolding ◌>>=◌
  Ends-throw e = record { at = λ w h. cc h }

  pub Ends-lift : (r : Result A) → r ≢ out_of_fuel → Ends (lift r)
  unfolding ◌>>=◌
  Ends-lift r n = record { at = λ w h. n h }

  pub Ends-of_sum : (s : Error ⊎ A) → Ends (of_sum s)
  unfolding ◌>>=◌
  Ends-of_sum (inl e) = record { at = λ w h. cc h }
  Ends-of_sum (inr a) = record { at = λ w h. cc h }

  pub Ends-if : (b : Bool) {m n : Exec A} → Ends m → Ends n → Ends (if b then m else n)
  Ends-if true hm hn = hm
  Ends-if false hm hn = hn

module _ {ℓ κ} {A : Type ℓ} {B : Type κ} where
  lift_ends :
      (r : Result A) (f : A → Exec B) (w : World)
      → r ≢ out_of_fuel
      → ((a : A) → r ≡ ok a → (f a w).0 ≢ out_of_fuel)
      → ((lift r >>= f) w).0 ≢ out_of_fuel
  unfolding ◌>>=◌
  lift_ends (ok a) f w n k h = k a refl h
  lift_ends (err e) f w n k h = cc h
  lift_ends panic f w n k h = cc h
  lift_ends out_of_fuel f w n k h = n refl

  pub Ends-bind : {m : Exec A} {f : A → Exec B} → Ends m → ((a : A) → Ends (f a)) → Ends (m >>= f)
  unfolding ◌>>=◌
  Ends-bind {m} {f} hm hf = record {
    at = λ w. lift_ends (m w).0 f (m w).1 (hm.at w) (λ a _. (hf a).at (m w).1);
  }

-- As for `>>=`, with what the first part returned.
pub Ends-of_sum_bind {ℓ κ} :
    {A : Type ℓ} {B : Type κ} (s : Error ⊎ A) {f : A → Exec B}
    → ((a : A) → s ≡ inr a → Ends (f a))
    → Ends (of_sum s >>= f)
unfolding ◌>>=◌
Ends-of_sum_bind (inl e) k = record { at = λ w h. cc h }
Ends-of_sum_bind (inr a) k = record { at = (k a refl).at }

pub Ends-load : (a : ℕ) (k : Str) → Ends (load a k)
unfolding load
Ends-load a k = record { at = λ w h. cc h }

pub Ends-store : (a : ℕ) (k : Str) (v : Val) → Ends (store a k v)
unfolding store
Ends-store a k v = record { at = λ w h. cc h }

pub Ends-alloc : Ends alloc
unfolding alloc
Ends-alloc = record { at = λ w h. cc h }

pub ruleset ends_rules =
    (Ends-pure, Ends-throw, Ends-lift, Ends-of_sum, Ends-bind, Ends-if, Ends-load, Ends-store)
