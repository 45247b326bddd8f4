-- ===== src/FilePath/Below.antt =====
-- Relative paths without a ".." are accepted by `MergePathWithErrorCheck`.
use mathlib.Core.List.{
  reverse, reverse-append, reverse-reverse, reverse-cons, append_assoc, append-nil,
}
use kabanero_events.Prelude.{
  ◌≡◌, refl, sym, ap, ◌∙◌, true, false, ◌⊎◌, inl, inr, Bool-cases, List, [], ◌∷◌, ◌++◌, Str, lit,
  str_eq, split, has_prefix, All, All-append, if◌then◌else◌,
}
use kabanero_events.Go.Exec.{Error}
use kabanero_events.FilePath.{
  clean_parts, is_abs, clean, join, abs, contained, merge_path_with_error_check,
}
use kabanero_events.FilePath.Clean.{NoSlash, IsNormal, split-NoSlash}
use kabanero_events.FilePath.Rooted.{
  rooted, parts_of, clean-rooted, parts_of-IsNormal, split-append_slash, clean-of_rooted,
  clean_parts-append, has_prefix-rooted,
}

-- The components that are neither "" nor ".".
unfoldable pub plain : List Str → List Str
plain [] = []
plain (part ∷ parts) =
    if str_eq part []
    then plain parts
    else if str_eq part (lit ".")
    then plain parts
    else part ∷ plain parts

-- No component is "..".
abbrev pub NoDots : List Str → Type 0
NoDots parts = All (λ part. str_eq part (lit "..") ≡ false) parts

clean_parts-plain :
    (parts kept : List Str)
    → NoDots parts
    → clean_parts true kept parts ≡ reverse (plain parts) ++ kept
unfolding clean_parts plain
clean_parts-plain [] kept h = refl
clean_parts-plain (part ∷ parts) kept h = elim (Bool-cases (str_eq part [])) [
  | inl e ↦ rw e (clean_parts-plain parts kept h.1)
  | inr e ↦ elim (Bool-cases (str_eq part (lit "."))) [
    | inl f ↦ rw (e, f) (clean_parts-plain parts kept h.1)
    | inr f ↦
        rw (e, f, h.0, clean_parts-plain parts (part ∷ kept) h.1, reverse-cons part (plain parts))
          (sym (append_assoc (reverse (plain parts)) (part ∷ []) kept))
  ]
]

parts_of-append :
    (a b : Str)
    → NoDots (split b'/' b)
    → parts_of (a ++ b'/' ∷ b) ≡ parts_of a ++ plain (split b'/' b)
parts_of-append a b h =
    rw
      (
        split-append_slash a b,
        clean_parts-append true (split b'/' a) (split b'/' b) [],
        clean_parts-plain (split b'/' b) (clean_parts true [] (split b'/' a)) h,
        reverse-append (reverse (plain (split b'/' b))) (clean_parts true [] (split b'/' a)),
        reverse-reverse (plain (split b'/' b)),
      )
      refl

All-plain : (P : Str → Type 0) (parts : List Str) → All P parts → All P (plain parts)
unfolding plain
All-plain P [] h = tt
All-plain P (part ∷ parts) h = elim (Bool-cases (str_eq part [])) [
  | inl e ↦ rw e (All-plain P parts h.1)
  | inr e ↦ elim (Bool-cases (str_eq part (lit "."))) [
    | inl f ↦ rw (e, f) (All-plain P parts h.1)
    | inr f ↦ rw (e, f) (h.0, All-plain P parts h.1)
  ]
]

-- The kept components, where they have no slash.
plain-IsNormal : (parts : List Str) → NoDots parts → All NoSlash parts → All IsNormal (plain parts)
unfolding plain
plain-IsNormal [] h k = tt
plain-IsNormal (part ∷ parts) h k = elim (Bool-cases (str_eq part [])) [
  | inl e ↦ rw e (plain-IsNormal parts h.1 k.1)
  | inr e ↦ elim (Bool-cases (str_eq part (lit "."))) [
    | inl f ↦ rw (e, f) (plain-IsNormal parts h.1 k.1)
    | inr f ↦
        rw (e, f)
          (
            record { nonempty = e; not_dot = f; not_dots = h.0; no_slash = k.0 },
            plain-IsNormal parts h.1 k.1,
          )
  ]
]

-- Where a relative path leads from a directory.
abbrev pub below : Str → Str → List Str
below dir to_merge = parts_of dir ++ plain (split b'/' to_merge)

below-IsNormal :
    (dir to_merge : Str) → NoDots (split b'/' to_merge) → All IsNormal (below dir to_merge)
below-IsNormal dir to_merge h =
    All-append IsNormal (parts_of dir) (plain (split b'/' to_merge)) (parts_of-IsNormal dir)
      (plain-IsNormal (split b'/' to_merge) h (split-NoSlash to_merge))

join-below :
    (dir to_merge : Str)
    → is_abs dir ≡ true
    → NoDots (split b'/' to_merge)
    → join dir to_merge ≡ rooted (below dir to_merge)
unfolding join is_abs has_prefix str_eq plain split
join-below [] to_merge h k = absurd (cc h)
join-below (c ∷ dir) [] h k =
    clean-rooted (c ∷ dir) h ∙ ap rooted (sym (append-nil (parts_of (c ∷ dir))))
join-below (c ∷ dir) (d ∷ to_merge) h k =
    clean-rooted (c ∷ dir ++ b'/' ∷ d ∷ to_merge) h
    ∙ ap rooted (parts_of-append (c ∷ dir) (d ∷ to_merge) k)

abs-of_is_abs :
    (getwd : Error ⊎ Str) (path : Str) → is_abs path ≡ true → abs getwd path ≡ inr (clean path)
unfolding abs
abs-of_is_abs getwd path h = rw h refl

abs-rooted :
    (getwd : Error ⊎ Str) (parts : List Str)
    → All IsNormal parts
    → abs getwd (rooted parts) ≡ inr (rooted parts)
unfolding is_abs has_prefix
abs-rooted getwd parts h =
    abs-of_is_abs getwd (rooted parts) refl ∙ ap inr (clean-of_rooted parts h)

-- Below an absolute directory, `MergePathWithErrorCheck` accepts every path without a ".."
-- component, whatever the working directory is: the result is the cleaned directory followed by
-- the components of the path that are neither "" nor ".".
pub merge_path_with_error_check-below :
    (getwd : Error ⊎ Str) (dir to_merge : Str)
    → is_abs dir ≡ true
    → NoDots (split b'/' to_merge)
    → merge_path_with_error_check getwd dir to_merge ≡ inr (rooted (below dir to_merge))
unfolding merge_path_with_error_check contained
merge_path_with_error_check-below getwd dir to_merge h k =
    (λ i. contained (abs-dir i) (abs-dest i))
    ∙ rw (has_prefix-rooted (parts_of dir) (plain (split b'/' to_merge))) refl
  where
    abs-dir : abs getwd dir ≡ inr (rooted (parts_of dir))
    abs-dir = abs-of_is_abs getwd dir h ∙ ap inr (clean-rooted dir h)

    abs-dest : abs getwd (join dir to_merge) ≡ inr (rooted (below dir to_merge))
    abs-dest =
        ap (abs getwd) (join-below dir to_merge h k)
        ∙ abs-rooted getwd (below dir to_merge) (below-IsNormal dir to_merge k)
