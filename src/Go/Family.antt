-- ===== src/Go/Family.antt =====
-- The states of goroutines, by the numbers of these.
use mathlib.Core.Logic.{ite}
use native.Mathlib.Decide.{ℕ_discrete}
use kabanero_events.Prelude.{ℕ, ◌≡◌, ◌≢◌}

-- One goroutine gets another state.
abbrev pub set {ℓ} : {A : Type ℓ} → (ℕ → A) → ℕ → A → ℕ → A
set at i a j = ite (ℕ_discrete i j) a (at j)

pub set-cases {ℓ κ} :
    {A : Type ℓ} (P : A → Type κ) (at : ℕ → A) (i : ℕ) (a : A) (j : ℕ)
    → (i ≡ j → P a)
    → (i ≢ j → P (at j))
    → P (set at i a j)
set-cases P at i a j own other = elim (ℕ_discrete i j) as (λ d. P (ite d a (at j))) [
  | yes q ↦ own q
  | no q ↦ other q
]
