-- ===== src/Label/Domain/Dots.antt =====
-- The loop of `ToDomainName` that turns ".." into ".": it ends, and leaves no two dots in a row.
use kabanero_events.Prelude.{
  ℕ, zero, suc, ◌-◌, ◌≤◌, ◌<◌, ◌≡◌, refl, ◌∙◌, Bool, true, false, inl, inr, ◌&&◌, none, some, [],
  ◌∷◌, ◌++◌, arith, ltb, ◌==◌, Bool-cases, Option-cases, Str, lit, length, get_or, take, All,
}
use kabanero_events.Label.{index_dots, replace_dots, has_dots, collapse, clip, close, finish}

-- No two dots stand side by side.
abbrev pub NoDots : Str → Type 0
NoDots [] = Unit
NoDots (c ∷ []) = Unit
NoDots (c ∷ d ∷ s) = ((c == b'.' && d == b'.') ≡ false) × NoDots (d ∷ s)

get_or-replace_dots : (s : Str) → get_or (replace_dots s) 0 0 ≡ get_or s 0 0
unfolding replace_dots
get_or-replace_dots [] = refl
get_or-replace_dots (c ∷ []) = refl
get_or-replace_dots (c ∷ d ∷ s) = ground arith

length-replace_dots : (s : Str) → length (replace_dots s) ≤ length s
unfolding replace_dots
length-replace_dots [] = omega arith
length-replace_dots (c ∷ []) = omega arith
length-replace_dots (c ∷ d ∷ s) = ground (arith, length-replace_dots s, length-replace_dots (d ∷ s))

nonempty-replace_dots : (s : Str) → 0 < length s → 0 < length (replace_dots s)
unfolding replace_dots
nonempty-replace_dots [] h = h
nonempty-replace_dots (c ∷ []) h = h
nonempty-replace_dots (c ∷ d ∷ s) h = ground arith

All-replace_dots : (P : ℕ → Type 0) (s : Str) → P b'.' → All P s → All P (replace_dots s)
unfolding replace_dots
All-replace_dots P [] p h = h
All-replace_dots P (c ∷ []) p h = h
All-replace_dots P (c ∷ d ∷ s) p h = elim (Bool-cases (c == b'.' && d == b'.')) [
  | inl e ↦ rw (e, replace_dots, All) (p, All-replace_dots P s p h.1.1)
  | inr e ↦ rw (e, replace_dots, All) (h.0, All-replace_dots P (d ∷ s) p h.1)
]

shrinks : (s : Str) (i : ℕ) → index_dots s ≡ some i → length (replace_dots s) < length s
unfolding replace_dots index_dots
shrinks [] i h = cc
shrinks (c ∷ []) i h = cc
shrinks (c ∷ d ∷ s) i h = elim (Option-cases (index_dots (d ∷ s))) [
  | inl n ↦ ground (arith, n, length-replace_dots s)
  | inr (j, n) ↦ ground (arith, length-replace_dots s, shrinks (d ∷ s) j n)
]

has_dots-shrinks : (s : Str) → has_dots s ≡ true → length (replace_dots s) < length s
unfolding has_dots
has_dots-shrinks s h = elim (Option-cases (index_dots s)) [
  | inl n ↦ absurd (ground (arith, n))
  | inr (i, n) ↦ shrinks s i n
]

no_dots : (s : Str) → index_dots s ≡ none → NoDots s
unfolding index_dots
no_dots [] h = tt
no_dots (c ∷ []) h = tt
no_dots (c ∷ d ∷ s) h = elim (Option-cases (index_dots (d ∷ s))) [
  | inl n ↦ (ground (arith, n), no_dots (d ∷ s) n)
  | inr (j, n) ↦ absurd (ground (arith, n))
]

starts_zero : (s : Str) → index_dots s ≡ some 0 → (get_or s 0 0 == b'.') ≡ false → ⊥
unfolding index_dots
starts_zero [] n f = cc
starts_zero (c ∷ []) n f = cc
starts_zero (c ∷ d ∷ s) n f = ground arith

-- A string that starts otherwise than by a dot leaves the loop with no two dots in a row.
pub test-NoDots : (s : Str) → has_dots s ≡ false → (get_or s 0 0 == b'.') ≡ false → NoDots s
unfolding has_dots
test-NoDots s h f = elim (Option-cases (index_dots s)) [
  | inl n ↦ no_dots s n
  | inr (zero, n) ↦ absurd (starts_zero s n f)
  | inr (suc j, n) ↦ absurd (ground (arith, n))
]

-- What the loop keeps of the string that it starts from.
pub record Kept (P : ℕ → Type 0) (s t : Str) : Type 0 where
  pub nonempty : 0 < length t
  pub valid : All P t
  pub starts : get_or t 0 0 ≡ get_or s 0 0

pub collapse-Kept :
    (P : ℕ → Type 0) (fuel : ℕ) (s : Str)
    → P b'.'
    → 0 < length s
    → All P s
    → Kept P s (collapse fuel s)
unfolding collapse
collapse-Kept P zero s p n v = record { nonempty = n; valid = v; starts = refl }
collapse-Kept P (suc fuel) s p n v = elim (Bool-cases (has_dots s)) [
  | inl e ↦
      rw (e, collapse)
        (step (
          collapse-Kept P fuel (replace_dots s) p (nonempty-replace_dots s n)
            (All-replace_dots P s p v)))
  | inr e ↦ rw (e, collapse) (record { nonempty = n; valid = v; starts = refl })
]
  where
    step : {u : Str} → Kept P (replace_dots s) u → Kept P s u
    step k = record {
      nonempty = k.nonempty;
      valid = k.valid;
      starts = k.starts ∙ get_or-replace_dots s;
    }

-- With its length for fuel the loop ends by its own test.
pub collapse_ends : (fuel : ℕ) (s : Str) → length s ≤ fuel → has_dots (collapse fuel s) ≡ false
unfolding collapse
collapse_ends zero [] h = unfold has_dots index_dots in refl
collapse_ends zero (c ∷ s) h = absurd (omega arith)
collapse_ends (suc fuel) s h = elim (Bool-cases (has_dots s)) [
  | inl e ↦
      rw (e, collapse) (collapse_ends fuel (replace_dots s) (omega (arith, has_dots-shrinks s e)))
  | inr e ↦ rw (e, collapse) e
]

NoDots-take : (n : ℕ) (s : Str) → NoDots s → NoDots (take n s)
NoDots-take zero s h = tt
NoDots-take (suc n) [] h = tt
NoDots-take (suc zero) (c ∷ []) h = tt
NoDots-take (suc (suc n)) (c ∷ []) h = tt
NoDots-take (suc zero) (c ∷ d ∷ s) h = tt
NoDots-take (suc (suc n)) (c ∷ d ∷ s) h = (h.0, NoDots-take (suc n) (d ∷ s) h.1)

NoDots-append_zero : (s : Str) → NoDots s → NoDots (s ++ lit "0")
NoDots-append_zero [] h = tt
NoDots-append_zero (c ∷ []) h = ground arith
NoDots-append_zero (c ∷ d ∷ s) h = (h.0, NoDots-append_zero (d ∷ s) h.1)

NoDots-close : (is_alnum : ℕ → Bool) (n : ℕ) (s : Str) → NoDots s → NoDots (close is_alnum n s)
unfolding close
NoDots-close is_alnum n s h = elim (Bool-cases (is_alnum (get_or s (length s - 1) 0))) [
  | inl e ↦ rw e h
  | inr e ↦ rw e (elim (Bool-cases (ltb (length s) (n - 1))) [
    | inl f ↦ rw f (NoDots-append_zero s h)
    | inr f ↦ rw f (NoDots-append_zero (take (length s - 2) s) (NoDots-take (length s - 2) s h))
  ])
]

pub NoDots-finish :
    (is_alnum : ℕ → Bool) (n : ℕ) (s : Str) → NoDots s → NoDots (finish is_alnum n s)
unfolding finish clip
NoDots-finish is_alnum n s h = elim (Bool-cases (length s == 0)) [
  | inl e ↦ rw e h
  | inr e ↦ rw e (elim (Bool-cases (ltb n (length s))) [
    | inl f ↦ rw f (NoDots-close is_alnum n (take n s) (NoDots-take n s h))
    | inr f ↦ rw f (NoDots-close is_alnum n s h)
  ])
]

-- Without two dots in a row the loop does nothing.
NoDots-index : (s : Str) → NoDots s → index_dots s ≡ none
unfolding index_dots
NoDots-index [] h = refl
NoDots-index (c ∷ []) h = refl
NoDots-index (c ∷ d ∷ s) h = rw (h.0, NoDots-index (d ∷ s) h.1)

pub collapse_of_NoDots : (fuel : ℕ) (s : Str) → NoDots s → collapse fuel s ≡ s
unfolding collapse has_dots
collapse_of_NoDots zero s h = refl
collapse_of_NoDots (suc fuel) s h = rw (NoDots-index s h, collapse, has_dots)
