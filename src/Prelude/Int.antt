-- ===== src/Prelude/Int.antt =====
-- Go's signed integers as mathematical ones: `negsuc n` is -(n + 1). Also the decimal text that
-- `fmt.Sprintf("%v")` gives.
use Prim.Native.Nat.{ℕ, zero, suc, ◌+◌, ◌*◌, ◌/◌, ◌%◌, ◌≤◌, ◌<◌}
use mathlib.Core.List.{[], ◌∷◌, ◌++◌}
use mathlib.Core.Logic.{inl, inr}
use mathlib.Core.Bool.{true}
use mathlib.Core.Path.{◌≡◌}
use native.Mathlib.Omega.{arith}
use kabanero_events.Prelude.Tests.{ltb, if◌then◌else◌, Bool-cases}
use kabanero_events.Prelude.Lists.{length, length-append}
use kabanero_events.Prelude.Text.{Str}

pub data ℤ : Type 0 where
  pos : ℕ → ℤ
  negsuc : ℕ → ℤ

-- The digits of `n`; `n` itself is fuel enough, as the quotients fall.
digits_fuel : ℕ → ℕ → Str
digits_fuel zero n = (b'0' + n % 10) ∷ []
digits_fuel (suc fuel) n =
    let rest = digits_fuel fuel (n / 10) ++ (b'0' + n % 10) ∷ [] in
    if ltb n 10 then (b'0' + n) ∷ [] else rest

-- A power of ten.
abbrev pub ten_to : ℕ → ℕ
ten_to zero = 1
ten_to (suc k) = 10 * ten_to k

length-digits_fuel : (fuel n k : ℕ) → n < ten_to (suc k) → length (digits_fuel fuel n) ≤ suc k
unfolding digits_fuel
length-digits_fuel zero n k h = omega arith
length-digits_fuel (suc fuel) n zero h = rw (below n h) (omega arith)
  where
    below : (n : ℕ) → n < 10 → ltb n 10 ≡ true
    below n h = ground arith
length-digits_fuel (suc fuel) n (suc k) h = elim (Bool-cases (ltb n 10)) [
  | inl e ↦ rw e (omega arith)
  | inr e ↦
      rw e (longer _ (digits_fuel fuel (n / 10)) (length-digits_fuel fuel (n / 10) k (omega arith)))
]
  where
    longer : (c : ℕ) (s : Str) → length s ≤ suc k → length (s ++ c ∷ []) ≤ suc (suc k)
    longer c s le = omega (arith, length-append s (c ∷ []))

unfoldable pub digits : ℕ → Str
unfolding digits_fuel
digits n = digits_fuel n n

-- The number of digits.
pub length-digits : (n k : ℕ) → n < ten_to (suc k) → length (digits n) ≤ suc k
unfolding digits
length-digits n k h = length-digits_fuel n n k h

unfoldable pub format_int : ℤ → Str
format_int (pos n) = digits n
format_int (negsuc n) = b'-' ∷ digits (suc n)
