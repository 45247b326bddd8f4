-- ===== src/Label/Ends.antt =====
-- The common end of `ToDomainName` and `ToLabelName`, and the loop before it, for any character
-- tests that accept '0'.
use kabanero_events.Prelude.{
  ℕ, ◌-◌, ◌≤◌, ◌<◌, ◌≡◌, refl, Bool, true, false, inl, inr, [], ◌∷◌, ◌++◌, arith, ltb, ◌==◌,
  if◌then◌else◌, Bool-cases, Str, lit, length, get_or, take, All, All-append, All-take,
  length-append, length-take, get_or-take_zero, get_or_last, get_or-append_zero,
}
use kabanero_events.Label.{write_char, write_chars, clip, close, finish}

-- At most `max_length` bytes, all allowed, the first and the last alphanumeric.
pub record IsClosed (is_alnum is_valid : ℕ → Bool) (max_length : ℕ) (s : Str) : Type 0 where
  pub nonempty : 0 < length s
  pub fits : length s ≤ max_length
  pub valid : All (λ c. is_valid c ≡ true) s
  pub starts : is_alnum (get_or s 0 0) ≡ true
  pub ends : is_alnum (get_or s (length s - 1) 0) ≡ true

-- What the proofs need of the two character tests and the limit.
pub record IsTest (is_alnum is_valid : ℕ → Bool) (max_length : ℕ) : Type 0 where
  pub zero_alnum : is_alnum b'0' ≡ true
  pub zero_valid : is_valid b'0' ≡ true
  pub dot_valid : is_valid b'.' ≡ true
  pub alnum_valid : (c : ℕ) → is_alnum c ≡ true → is_valid c ≡ true
  pub room : 3 < max_length

module _ {is_alnum is_valid : ℕ → Bool} {max_length : ℕ}
    (t : IsTest is_alnum is_valid max_length) where
  open t use {zero_alnum, zero_valid, dot_valid, alnum_valid, room}

  append_zero :
      (s : Str)
      → length s < max_length
      → All (λ c. is_valid c ≡ true) s
      → is_alnum (get_or (s ++ lit "0") 0 0) ≡ true
      → IsClosed is_alnum is_valid max_length (s ++ lit "0")
  append_zero s n v f = record {
    nonempty = omega (arith, length-append s (lit "0"));
    fits = omega (arith, length-append s (lit "0"));
    valid = All-append (λ c. is_valid c ≡ true) s (lit "0") v (zero_valid, tt);
    starts = f;
    ends = rw get_or_last zero_alnum;
  }

  append_zero_take :
      (k : ℕ) (s : Str)
      → 0 < k
      → k < length s
      → length s ≤ max_length
      → All (λ c. is_valid c ≡ true) s
      → is_alnum (get_or s 0 0) ≡ true
      → IsClosed is_alnum is_valid max_length (take k s ++ lit "0")
  append_zero_take k s pos small n v f =
      append_zero (take k s) (omega (arith, length-take k s))
        (All-take (λ c. is_valid c ≡ true) k s v)
        (rw (get_or-append_zero (take k s) (lit "0") 0 (omega (arith, length-take k s)))
          (rw (get_or-take_zero k s 0 pos) f))

  close_end :
      (s : Str)
      → 0 < length s
      → length s ≤ max_length
      → All (λ c. is_valid c ≡ true) s
      → is_alnum (get_or s 0 0) ≡ true
      → IsClosed is_alnum is_valid max_length (
          if ltb (length s) (max_length - 1)
          then s ++ lit "0"
          else take (length s - 2) s ++ lit "0")
  close_end s p n v f = elim (Bool-cases (ltb (length s) (max_length - 1))) [
    | inl short ↦
        rw short (append_zero s (ground arith) v (rw (get_or-append_zero s (lit "0") 0 p) f))
    | inr long ↦ rw long (append_zero_take (length s - 2) s (ground arith) (ground arith) n v f)
  ]

  pub close-IsClosed :
      (s : Str)
      → 0 < length s
      → length s ≤ max_length
      → All (λ c. is_valid c ≡ true) s
      → is_alnum (get_or s 0 0) ≡ true
      → IsClosed is_alnum is_valid max_length (close is_alnum max_length s)
  unfolding close
  close-IsClosed s p n v f = elim (Bool-cases (is_alnum (get_or s (length s - 1) 0))) [
    | inl last ↦ rw last (record { nonempty = p; fits = n; valid = v; starts = f; ends = last })
    | inr other ↦ rw other (close_end s p n v f)
  ]

  pub write_char_first :
      (ch : ℕ)
      → All (λ c. is_valid c ≡ true) (write_char is_alnum is_valid true ch)
        × (is_alnum (get_or (write_char is_alnum is_valid true ch) 0 0) ≡ true)
        × (0 < length (write_char is_alnum is_valid true ch))
  unfolding write_char
  write_char_first ch = ground (arith, alnum_valid ch)

  pub write_char_rest :
      (ch : ℕ) → All (λ c. is_valid c ≡ true) (write_char is_alnum is_valid false ch)
  unfolding write_char
  write_char_rest ch = ground arith

  pub write_chars_valid :
      (s : Str) → All (λ c. is_valid c ≡ true) (write_chars is_alnum is_valid false s)
  unfolding write_chars
  write_chars_valid [] = tt
  write_chars_valid (c ∷ s) =
      All-append (λ c. is_valid c ≡ true) (write_char is_alnum is_valid false c)
        (write_chars is_alnum is_valid false s) (write_char_rest c) (write_chars_valid s)

  pub write_chars-first :
      (c : ℕ) (s : Str)
      → All (λ c. is_valid c ≡ true) (write_chars is_alnum is_valid true (c ∷ s))
        × (is_alnum (get_or (write_chars is_alnum is_valid true (c ∷ s)) 0 0) ≡ true)
        × (0 < length (write_chars is_alnum is_valid true (c ∷ s)))
  unfolding write_chars
  write_chars-first c s =
      let (v, f, p) = write_char_first c in
      let rest = write_chars is_alnum is_valid false s in
      let one = write_char is_alnum is_valid true c in
      (
        All-append (λ c. is_valid c ≡ true) one rest v (write_chars_valid s),
        rw (get_or-append_zero one rest 0 p) f,
        omega (arith, length-append one rest),
      )

  pub finish-IsClosed :
      (s : Str)
      → 0 < length s
      → All (λ c. is_valid c ≡ true) s
      → is_alnum (get_or s 0 0) ≡ true
      → IsClosed is_alnum is_valid max_length (finish is_alnum max_length s)
  unfolding finish clip
  finish-IsClosed s p v f =
      let z : (length s == 0) ≡ false = ground arith in
      rw z (elim (Bool-cases (ltb max_length (length s))) [
        | inl long ↦ rw long (
            close-IsClosed (take max_length s) (ground (arith, length-take max_length s))
              (omega (arith, length-take max_length s))
              (All-take (λ c. is_valid c ≡ true) max_length s v)
              (rw (get_or-take_zero max_length s 0 (omega arith)) f))
        | inr short ↦ rw short (close-IsClosed s p (ground arith) v f)
      ])

  -- What is closed already is returned as it is.
  pub finish_of_IsClosed :
      (s : Str) → IsClosed is_alnum is_valid max_length s → finish is_alnum max_length s ≡ s
  unfolding finish clip close
  finish_of_IsClosed s h =
      let z : (length s == 0) ≡ false = ground (arith, h.nonempty) in
      let f : ltb max_length (length s) ≡ false = ground (arith, h.fits) in rw (z, f, h.ends)

  pub write_chars_of_valid :
      (s : Str) → All (λ c. is_valid c ≡ true) s → write_chars is_alnum is_valid false s ≡ s
  unfolding write_chars write_char
  write_chars_of_valid [] v = refl
  write_chars_of_valid (c ∷ s) v = rw (v.0, write_chars_of_valid s v.1)

  pub write_chars_of_IsClosed :
      (s : Str) → IsClosed is_alnum is_valid max_length s → write_chars is_alnum is_valid true s ≡ s
  unfolding write_chars write_char
  write_chars_of_IsClosed [] h = refl
  write_chars_of_IsClosed (c ∷ s) h = rw (h.starts, write_chars_of_valid s h.valid.1)
