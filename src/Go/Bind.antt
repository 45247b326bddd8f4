-- ===== src/Go/Bind.antt =====
-- Inversion of a `do` block that ends in a value.
use kabanero_events.Prelude.{◌≡◌, refl, sym, ap, ◌⊎◌, inl, inr, ℕ, [], ◌∷◌, ◌++◌, Str}
use kabanero_events.Go.Value.{Val}
use kabanero_events.Go.Exec.{
  store, update, Error, Result, ok, err, panic, out_of_fuel, World, Exec, Outside, Effect, act,
  pure, throw, of_sum, lift, reads, ◌>>=◌,
}

module _ {ℓ κ} {A : Type ℓ} {B : Type κ} where
  lift-bind-ok :
      (r : Result A) (f : A → Exec B) {b : B} (w : World) {w' : World}
      → (lift r >>= f) w ≡ (ok b, w')
      → (a : A) × (r ≡ ok a) × (f a w ≡ (ok b, w'))
  unfolding ◌>>=◌
  lift-bind-ok (ok a) f w h = (a, refl, h)
  lift-bind-ok (err e) f w h = cc
  lift-bind-ok panic f w h = cc
  lift-bind-ok out_of_fuel f w h = cc

  pub bind-eq-ok :
      (m : Exec A) (f : A → Exec B) {b : B} (w : World) {w' : World}
      → (m >>= f) w ≡ (ok b, w')
      → (a : A) × (w₁ : World) × (m w ≡ (ok a, w₁)) × (f a w₁ ≡ (ok b, w'))
  unfolding ◌>>=◌
  bind-eq-ok m f w h =
      let (a, e, k) = lift-bind-ok (m w).0 f (m w).1 h in (a, (m w).1, λ i. (e i, (m w).1), k)

  pub bind-of_ok :
      (m : Exec A) (f : A → Exec B) {a : A} (w : World) {w₁ : World}
      → m w ≡ (ok a, w₁)
      → (m >>= f) w ≡ f a w₁
  unfolding ◌>>=◌
  bind-of_ok m f w e = λ i. (lift (e i).0 >>= f) (e i).1

module _ {ℓ} {A : Type ℓ} where
  pub pure-eq-ok :
      (a : A) {b : A} (w : World) {w' : World} → pure a w ≡ (ok b, w') → (a ≡ b) × (w ≡ w')
  unfolding ◌>>=◌
  pure-eq-ok a w h = (ok_injective (λ i. (h i).0), λ i. (h i).1)
    where
      value : Result A → A
      value (ok x) = x
      value _ = a

      ok_injective : {b : A} → ok a ≡ ok b → a ≡ b
      ok_injective e = λ i. value (e i)

  pub pure-eq : (a : A) (w : World) → pure a w ≡ (ok a, w)
  unfolding ◌>>=◌
  pure-eq a w = refl

  pub lift-of_ok : {r : Result A} {a : A} → r ≡ ok a → (w : World) → lift r w ≡ (ok a, w)
  unfolding ◌>>=◌
  lift-of_ok e w = λ i. (e i, w)

  pub throw-ne-ok : (e : Error) {b : A} (w : World) {w' : World} → throw e w ≡ (ok b, w') → ⊥
  unfolding ◌>>=◌
  throw-ne-ok e w h = cc (ap (λ (p : Result A × World). p.0) h)

  pub throw-eq : (e : Error) (w : World) → throw {A = A} e w ≡ (err e, w)
  unfolding ◌>>=◌
  throw-eq e w = refl

  pub of_sum-eq-ok :
      (s : Error ⊎ A) {b : A} (w : World) {w' : World}
      → of_sum s w ≡ (ok b, w')
      → (s ≡ inr b) × (w ≡ w')
  unfolding ◌>>=◌
  of_sum-eq-ok (inl e) w h = absurd (throw-ne-ok e w h)
  of_sum-eq-ok (inr a) w h = let (p, q) = pure-eq-ok a w h in (ap inr p, q)

  pub of_sum-of_inr : {s : Error ⊎ A} {a : A} → s ≡ inr a → (w : World) → of_sum s w ≡ (ok a, w)
  unfolding ◌>>=◌
  of_sum-of_inr e w = ap (λ s. of_sum s w) e

  pub lift-eq-ok :
      (r : Result A) {b : A} (w : World) {w' : World}
      → lift r w ≡ (ok b, w')
      → (w ≡ w') × (r ≡ ok b)
  unfolding ◌>>=◌
  lift-eq-ok r w h = (λ i. (h i).1, λ i. (h i).0)

  pub reads-eq-ok :
      (f : World → Result A) {b : A} (w : World) {w' : World}
      → reads f w ≡ (ok b, w')
      → (w ≡ w') × (f w ≡ ok b)
  unfolding ◌>>=◌
  reads-eq-ok f w h = (λ i. (h i).1, λ i. (h i).0)

  pub reads-of_ok : (f : World → Result A) (w : World) {a : A} → f w ≡ ok a → reads f w ≡ (ok a, w)
  unfolding ◌>>=◌
  reads-of_ok f w e = λ i. (e i, w)

-- The answer of the outside, and the effect on the trace.
pub act-eq-ok :
    (outside : Outside) (e : Effect) (w : World) {n : ℕ} {w' : World}
    → act outside e w ≡ (ok n, w')
    → (outside w.trace e ≡ ok n) × (w'.trace ≡ w.trace ++ e ∷ [])
unfolding act
act-eq-ok outside e w h = (λ i. (h i).0, sym (λ i. (h i).1.trace))

pub act-world :
    (outside : Outside) (e : Effect) (w : World) {r : Result ℕ} {w' : World}
    → act outside e w ≡ (r, w')
    → w' ≡ record w { trace = w.trace ++ e ∷ [] }
unfolding act
act-world outside e w h = sym (λ i. (h i).1)

pub act-of_ok :
    (outside : Outside) (e : Effect) (w : World) {n : ℕ}
    → outside w.trace e ≡ ok n
    → act outside e w ≡ (ok n, record w { trace = w.trace ++ e ∷ [] })
unfolding act
act-of_ok outside e w h = λ i. (h i, record w { trace = w.trace ++ e ∷ [] })

-- A write makes one entry.
pub store-eq-ok :
    (a : ℕ) (k : Str) (v : Val) (w : World) {u : Unit {0}} {w' : World}
    → store a k v w ≡ (ok u, w')
    → w' ≡ record w { heap = update w.heap a k v }
unfolding store
store-eq-ok a k v w h = sym (λ i. (h i).1)
