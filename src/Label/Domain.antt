-- ===== src/Label/Domain.antt =====
-- `ToDomainName`.
pub mod Dots
use kabanero_events.Prelude.{
  ℕ, ◌+◌, ◌≤◌, ◌<◌, ◌≡◌, ◌≢◌, ◌∙◌, refl, ap, sym, Bool, true, false, ◌&&◌, ◌⊎◌, inl, inr, [], ◌∷◌,
  ◌++◌, arith, Str, length, get_or, All, ◌==◌, ltb, map,
}
use kabanero_events.Label.{
  is_domain_alnum, is_valid_domain_name_char, max_name_length, write_chars, finish, collapse,
  is_ascii, lower, to_lower, to_domain_name, has_dots,
}
use kabanero_events.Label.Ends.{
  IsTest, IsClosed, finish-IsClosed, write_chars-first, finish_of_IsClosed, write_chars_of_IsClosed,
}
use Dots.{
  NoDots, Kept, collapse-Kept, collapse_ends, test-NoDots, NoDots-finish, collapse_of_NoDots,
}

-- A domain name: 1 to 253 bytes of [a-z0-9.-], the ends alphanumeric, no two dots in a row.
pub record IsDomainName (s : Str) : Type 0 where
  pub closed : IsClosed is_domain_alnum is_valid_domain_name_char max_name_length s
  pub no_dots : NoDots s

domain_alnum_valid : (c : ℕ) → is_domain_alnum c ≡ true → is_valid_domain_name_char c ≡ true
unfolding is_domain_alnum is_valid_domain_name_char
domain_alnum_valid c h = ground arith

domain-IsTest : IsTest is_domain_alnum is_valid_domain_name_char max_name_length
unfolding is_domain_alnum is_valid_domain_name_char
domain-IsTest = record {
  zero_alnum = refl;
  zero_valid = refl;
  dot_valid = refl;
  alnum_valid = domain_alnum_valid;
  room = omega arith;
}

alnum_no_dot : (c : ℕ) → is_domain_alnum c ≡ true → (c == b'.') ≡ false
unfolding is_domain_alnum
alnum_no_dot c h = ground arith

finish-collapse :
    (s : Str)
    → 0 < length s
    → All (λ c. is_valid_domain_name_char c ≡ true) s
    → is_domain_alnum (get_or s 0 0) ≡ true
    → IsDomainName (finish is_domain_alnum max_name_length (collapse (length s) s))
finish-collapse s p v f =
    let k : Kept (λ c. is_valid_domain_name_char c ≡ true) s (collapse (length s) s) =
      collapse-Kept _ (length s) s domain-IsTest.dot_valid p v in
    let f' : is_domain_alnum (get_or (collapse (length s) s) 0 0) ≡ true = rw k.starts f in
    record {
      closed = finish-IsClosed domain-IsTest _ k.nonempty k.valid f';
      no_dots =
          NoDots-finish _ _ _
            (test-NoDots _ (collapse_ends (length s) s (omega arith)) (alnum_no_dot _ f'));
    }

valid_ascii : (s : Str) → All (λ c. is_valid_domain_name_char c ≡ true) s → is_ascii s ≡ true
unfolding is_ascii
valid_ascii [] v = refl
valid_ascii (c ∷ s) v = ground (arith, valid_ascii s v.1, code_ascii c v.0)
  where
    code_ascii : (c : ℕ) → is_valid_domain_name_char c ≡ true → ltb c 128 ≡ true
    code_ascii c h = unfold is_valid_domain_name_char in ground arith

lower_of_valid : (c : ℕ) → is_valid_domain_name_char c ≡ true → lower c ≡ c
unfolding lower is_valid_domain_name_char
lower_of_valid c h = ground arith

map-lower_of_valid : (s : Str) → All (λ c. is_valid_domain_name_char c ≡ true) s → map lower s ≡ s
map-lower_of_valid [] v = refl
map-lower_of_valid (c ∷ s) v = cc (lower_of_valid c v.0, map-lower_of_valid s v.1)

module _ (unicode_lower : Str → Str) where
  -- Whatever the Unicode tables do outside ASCII: `ToDomainName` returns the empty string exactly
  -- where the name in lower case is empty, and otherwise a domain name.
  pub to_domain_name-IsDomainName :
      (name : Str)
      → ((to_lower unicode_lower name ≡ []) × (to_domain_name unicode_lower name ≡ []))
        ⊎ ((to_lower unicode_lower name ≢ []) × IsDomainName (to_domain_name unicode_lower name))
  unfolding to_domain_name
  to_domain_name-IsDomainName name = go (to_lower unicode_lower name)
    where
      go :
          (s : Str)
          → ((s ≡ [])
              × (finish is_domain_alnum max_name_length (
                    collapse
                      (length (write_chars is_domain_alnum is_valid_domain_name_char true s))
                      (write_chars is_domain_alnum is_valid_domain_name_char true s))
                  ≡ []))
            ⊎ ((s ≢ [])
                × IsDomainName (
                    finish is_domain_alnum max_name_length (
                      collapse
                        (length (write_chars is_domain_alnum is_valid_domain_name_char true s))
                        (write_chars is_domain_alnum is_valid_domain_name_char true s))))
      go [] = inl (refl, unfold write_chars finish collapse in refl)
      go (c ∷ s) =
          let (v, f, p) = write_chars-first domain-IsTest c s in
          inr (λ e. cc e, finish-collapse _ p v f)

  -- A valid domain name is returned unchanged.
  pub to_domain_name_of_IsDomainName :
      (name : Str) → IsDomainName name → to_domain_name unicode_lower name ≡ name
  unfolding to_domain_name to_lower
  to_domain_name_of_IsDomainName name h = rw (valid_ascii name h.closed.valid) (
      rw (map-lower_of_valid name h.closed.valid) (
        rw (write_chars_of_IsClosed domain-IsTest name h.closed) (
          rw (collapse_of_NoDots (length name) name h.no_dots)
            (finish_of_IsClosed domain-IsTest name h.closed))))
