-- ===== src/Go/Cases.antt =====
-- The two ways of a `do` block: its first action returns a value and the rest is run from there, or
-- the block ends as its first action does.
use kabanero_events.Prelude.{◌≡◌, ◌≢◌, refl, ap, ◌⊎◌, inl, inr}
use kabanero_events.Go.Exec.{
  World, Result, ok, err, panic, out_of_fuel, Exec, pure, lift, ignore, ◌>>=◌,
}

module _ {ℓ κ} {A : Type ℓ} {B : Type κ} where
  pub record Ended (m : Exec A) (n : Exec B) (w : World) : Type κ where
    pub same : (n w).1 ≡ (m w).1
    pub no_value : (b : B) → (n w).0 ≢ ok b

  pub record WentOn (m : Exec A) (f : A → Exec B) (w : World) : Type (ℓ ⊔ κ) where
    pub value : A
    pub returned : m w ≡ (ok value, (m w).1)
    pub rest : (m >>= f) w ≡ f value (m w).1

  result_cases :
      (r : Result A) (f : A → Exec B) (w : World)
      → Ended (lift r) (lift r >>= f) w ⊎ WentOn (lift r) f w
  unfolding ◌>>=◌
  result_cases (ok a) f w = inr (record { value = a; returned = refl; rest = refl })
  result_cases (err e) f w = inl (record { same = refl; no_value = λ b h. cc h })
  result_cases panic f w = inl (record { same = refl; no_value = λ b h. cc h })
  result_cases out_of_fuel f w = inl (record { same = refl; no_value = λ b h. cc h })

  pub bind-cases : (m : Exec A) (f : A → Exec B) (w : World) → Ended m (m >>= f) w ⊎ WentOn m f w
  unfolding ◌>>=◌
  bind-cases m f w = elim (result_cases (m w).0 f (m w).1) [
    | inl e ↦ inl (record { same = e.same; no_value = e.no_value })
    | inr g ↦
        inr (record { value = g.value; returned = λ i. ((g.returned i).0, (m w).1); rest = g.rest })
  ]

pub ignore-world {ℓ} : {A : Type ℓ} (m : Exec A) (w : World) → (ignore m w).1 ≡ (m w).1
unfolding ◌>>=◌
ignore-world m w = elim (bind-cases m (λ _. pure tt) w) [
  | inl e ↦ e.same
  | inr g ↦ ap (λ p. p.1) g.rest
]
