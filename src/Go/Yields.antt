-- ===== src/Go/Yields.antt =====
-- What a `do` block returns, where it returns a value.
use kabanero_events.Prelude.{◌≡◌, refl, ◌≢◌, Bool, true, false, if◌then◌else◌}
use mathlib.Core.Path.{subst}
use kabanero_events.Go.Exec.{World, Error, Result, ok, Exec, pure, throw, lift, recover, ◌>>=◌}
use kabanero_events.Go.Bind.{bind-eq-ok, pure-eq-ok, throw-ne-ok, lift-eq-ok}

pub record Yields {ℓ} {A : Type ℓ} (Q : A → Type 0) (m : Exec A) : Type ℓ where
  pub at : (w : World) {a : A} {w' : World} → m w ≡ (ok a, w') → Q a

module _ {ℓ} {A : Type ℓ} {Q : A → Type 0} where
  pub Yields-pure : (a : A) → Q a → Yields Q (pure a)
  Yields-pure a q = record { at = λ w h. subst Q (pure-eq-ok a w h).0 q }

  pub Yields-throw : (e : Error) → Yields Q (throw e)
  Yields-throw e = record { at = λ w h. absurd (throw-ne-ok e w h) }

  pub Yields-lift : (r : Result A) → ((a : A) → r ≢ ok a) → Yields Q (lift r)
  Yields-lift r n = record { at = λ w {a} h. absurd (n a (lift-eq-ok r w h).1) }

  pub Yields-if :
      (b : Bool) {m n : Exec A}
      → (b ≡ true → Yields Q m)
      → (b ≡ false → Yields Q n)
      → Yields Q (if b then m else n)
  Yields-if true hm hn = hm refl
  Yields-if false hm hn = hn refl

  pub Yields-bind {κ} :
      {B : Type κ} (m : Exec B) {f : B → Exec A} → ((b : B) → Yields Q (f b)) → Yields Q (m >>= f)
  Yields-bind m {f} h = record {
    at = λ w p. let (b, w₁, _, q) = bind-eq-ok m f w p in (h b).at w₁ q;
  }

  pub Yields-recover {κ} :
      {B : Type κ} (f : Result B → Result A) (m : Exec B)
      → ((r : Result B) (a : A) → f r ≡ ok a → Q a)
      → Yields Q (recover f m)
  unfolding recover
  Yields-recover f m h = record { at = λ w {a} p. h (m w).0 a (λ i. (p i).0) }

  pub Yields-implies :
      {R : A → Type 0} {m : Exec A} → ((a : A) → R a → Q a) → Yields R m → Yields Q m
  Yields-implies h y = record { at = λ w {a} p. h a (y.at w p) }
