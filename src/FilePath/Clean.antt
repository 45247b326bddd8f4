-- ===== src/FilePath/Clean.antt =====
-- `filepath.Clean` on rooted paths.
use kabanero_events.Prelude.{
  ◌≡◌, true, false, ◌⊎◌, inl, inr, Bool-cases, List, [], ◌∷◌, Str, lit, str_eq, split, push_byte,
  ◌==◌, All, if◌then◌else◌,
}
use kabanero_events.FilePath.{back, clean_parts}

abbrev pub NoSlash : Str → Type 0
NoSlash = All (λ c. (c == b'/') ≡ false)

-- A component of a clean path: it holds no slash, and is not "", "." or "..".
pub record IsNormal (part : Str) : Type 0 where
  pub nonempty : str_eq part [] ≡ false
  pub not_dot : str_eq part (lit ".") ≡ false
  pub not_dots : str_eq part (lit "..") ≡ false
  pub no_slash : NoSlash part

pub split-NoSlash : (s : Str) → All NoSlash (split b'/' s)
unfolding split
split-NoSlash [] = (tt, tt)
split-NoSlash (c ∷ s) = elim (Bool-cases (c == b'/')) [
  | inl e ↦ rw e (tt, split-NoSlash s)
  | inr e ↦ rw e (push (split b'/' s) e (split-NoSlash s))
]
  where
    push :
        (parts : List Str)
        → (c == b'/') ≡ false
        → All NoSlash parts
        → All NoSlash (push_byte c parts)
    push [] e h = ((e, tt), tt)
    push (part ∷ parts) e h = ((e, h.0), h.1)

back-IsNormal : (kept : List Str) → All IsNormal kept → All IsNormal (back true kept)
unfolding back
back-IsNormal [] h = tt
back-IsNormal (part ∷ parts) h = rw h.0.not_dots h.1

pub clean_parts-IsNormal :
    (parts kept : List Str)
    → All NoSlash parts
    → All IsNormal kept
    → All IsNormal (clean_parts true kept parts)
unfolding clean_parts
clean_parts-IsNormal [] kept hp hk = hk
clean_parts-IsNormal (part ∷ parts) kept hp hk =
    clean_parts-IsNormal parts _ hp.1 (one (Bool-cases (str_eq part [])))
  where
    one :
        (str_eq part [] ≡ true) ⊎ (str_eq part [] ≡ false)
        → All IsNormal (
            if str_eq part []
            then kept
            else if str_eq part (lit ".")
            then kept
            else if str_eq part (lit "..")
            then back true kept
            else part ∷ kept)
    one (inl e) = rw e hk
    one (inr e) = rw e (elim (Bool-cases (str_eq part (lit "."))) [
      | inl f ↦ rw f hk
      | inr f ↦ rw f (elim (Bool-cases (str_eq part (lit ".."))) [
        | inl g ↦ rw g (back-IsNormal kept hk)
        | inr g ↦ rw g (record { nonempty = e; not_dot = f; not_dots = g; no_slash = hp.0 }, hk)
      ])
    ])
