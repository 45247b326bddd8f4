-- ===== src/Timestamp/Width.antt =====
-- The length of a timestamp.
use kabanero_events.Prelude.{
  ◌≡◌, refl, arith, ℕ, zero, suc, ◌+◌, ◌-◌, ◌*◌, ◌/◌, ◌%◌, ◌≤◌, ◌<◌, true, false, inl, inr,
  Bool-cases, ◌++◌, Bool, if◌then◌else◌, digits, ten_to, length-digits, length, length-append, ltb,
}
use kabanero_events.Timestamp.{
  Civil, year_of_era, day_of_year, month_from_march, month_of, civil, zeros, pad, format,
}

length-zeros : (n : ℕ) → length (zeros n) ≡ n
unfolding zeros
length-zeros zero = refl
length-zeros (suc n) = omega (arith, length-zeros n)

length-pad : (k n : ℕ) → n < ten_to (suc k) → length (pad (suc k) n) ≡ suc k
unfolding pad
length-pad k n h = omega (
  arith,
  length-append (zeros (suc k - length (digits n))) (digits n),
  length-zeros (suc k - length (digits n)),
  length-digits n k h,
)

day_of_year-le : (day : ℕ) → day < 146097 → day_of_year day ≤ 500
day_of_year-le day h = omega arith

month_of-le : (month : ℕ) → month ≤ 20 → month_of month ≤ 12
month_of-le month h = elim (Bool-cases (ltb month 10)) [
  | inl e ↦ rw e (below e)
  | inr e ↦ rw e (omega arith)
]
  where
    below : ltb month 10 ≡ true → month + 3 ≤ 12
    below e = ground arith

month-le : (day : ℕ) → day < 146097 → month_from_march day ≤ 20
month-le day h = omega (arith, day_of_year-le day h)

day-lt : (doy : ℕ) → doy ≤ 500 → doy - (153 * ((5 * doy + 2) / 153) + 2) / 5 + 1 < 100
day-lt doy h = omega arith

year-lt :
    (z : ℕ) (b : Bool)
    → z < 3400000
    → year_of_era (z % 146097) + z / 146097 * 400 + (if b then 1 else 0) < 10000
year-lt z true h = omega arith
year-lt z false h = omega arith

pub record IsDate (date : Civil) : Type 0 where
  pub year_lt : date.year < 10000
  pub month_le : date.month ≤ 12
  pub day_lt : date.day < 100

civil-IsDate : (days : ℕ) → days < 2680000 → IsDate (civil days)
unfolding civil
civil-IsDate days h =
    let m : (days + 719468) % 146097 < 146097 = omega arith in
    record {
      year_lt = year-lt (days + 719468) _ (omega arith);
      month_le = month_of-le _ (month-le ((days + 719468) % 146097) m);
      day_lt = day-lt _ (day_of_year-le ((days + 719468) % 146097) m);
    }

-- Seven numbers, padded.
length-padded :
    (y mo d h mi s t : ℕ)
    → y < 10000
    → mo < 100
    → d < 100
    → h < 100
    → mi < 100
    → s < 100
    → t < 10
    → length (pad 4 y ++ pad 2 mo ++ pad 2 d ++ pad 2 h ++ pad 2 mi ++ pad 2 s ++ pad 1 t) ≡ 15
length-padded y mo d h mi s t hy hmo hd hh hmi hs ht = simp (
  length-append,
  length-pad 3 y hy,
  length-pad 1 mo hmo,
  length-pad 1 d hd,
  length-pad 1 h hh,
  length-pad 1 mi hmi,
  length-pad 1 s hs,
  length-pad 0 t ht,
)

-- Up to the year 9307, a timestamp has the 15 characters of its documented form.
pub length-format : (now : ℕ) → now < 2680000 * 86400 * 1000000000 → length (format now) ≡ 15
unfolding format
length-format now h =
    let date = civil-IsDate (now / 1000000000 / 86400) (omega arith) in
    length-padded _ _ _ _ _ _ _ date.year_lt (omega (arith, date.month_le)) date.day_lt
      (omega arith) (omega arith) (omega arith) (omega arith)
