-- ===== src/FilePath/Merge.antt =====
-- Which paths `MergePathWithErrorCheck` accepts, and what they are.
use mathlib.Core.Path.{subst}
use mathlib.Core.Sum.{inr-injective}
use kabanero_events.Prelude.{
  ◌≡◌, refl, true, ◌⊎◌, inl, inr, Bool-cases, List, [], ◌∷◌, ◌++◌, Str, str_eq, has_prefix, All,
}
use kabanero_events.Go.Exec.{Error, path_outside}
use kabanero_events.FilePath.{
  is_abs, clean, join, abs, from_wd, contained, merge_path_with_error_check,
}
use kabanero_events.FilePath.Clean.{IsNormal}
use kabanero_events.FilePath.Rooted.{rooted, parts_of, clean-rooted, parts_of-IsNormal}

-- A rooted clean path: a slash, and components that are not "", "." or "..".
pub record IsRooted (path : Str) : Type 0 where
  pub parts : List Str
  pub spells : path ≡ rooted parts
  pub normal : All IsNormal parts

clean-IsRooted : (path : Str) → is_abs path ≡ true → IsRooted (clean path)
clean-IsRooted path h = record {
  parts = parts_of path;
  spells = clean-rooted path h;
  normal = parts_of-IsNormal path;
}

-- A path joined to a rooted one is clean and rooted.
join-IsRooted : (a b : Str) → is_abs a ≡ true → IsRooted (join a b)
unfolding join is_abs has_prefix str_eq
join-IsRooted [] b h = absurd (cc h)
join-IsRooted (c ∷ a) [] h = clean-IsRooted (c ∷ a) h
join-IsRooted (c ∷ a) (d ∷ b) h = clean-IsRooted (c ∷ a ++ b'/' ∷ d ∷ b) h

abs-IsRooted :
    (wd path : Str) {path' : Str}
    → is_abs wd ≡ true
    → abs (inr wd) path ≡ inr path'
    → IsRooted path'
unfolding abs from_wd
abs-IsRooted wd path {path'} h e = elim (Bool-cases (is_abs path)) [
  | inl f ↦ subst IsRooted (inr-injective _ _ (rw f at e)) (clean-IsRooted path f)
  | inr f ↦ subst IsRooted (inr-injective _ _ (rw f at e)) (join-IsRooted wd path h)
]

-- A merged path: rooted and clean, as is the directory, whose text it starts with.
pub record IsMerged (wd dir dest : Str) : Type 0 where
  pub directory : Str
  pub absolute : abs (inr wd) dir ≡ inr directory
  pub directory_rooted : IsRooted directory
  pub rooted_path : IsRooted dest
  pub starts : has_prefix dest directory ≡ true

-- Where the working directory is absolute and `MergePathWithErrorCheck` returns a path, this path
-- and the directory's are rooted and clean, so that no ".." is left in them, and the path starts
-- with the directory's.
pub merge_path_with_error_check-IsMerged :
    (wd dir to_merge dest : Str)
    → is_abs wd ≡ true
    → merge_path_with_error_check (inr wd) dir to_merge ≡ inr dest
    → IsMerged wd dir dest
unfolding merge_path_with_error_check contained
merge_path_with_error_check-IsMerged wd dir to_merge dest h e =
    go (abs (inr wd) dir) (abs (inr wd) (join dir to_merge)) refl refl e
  where
    go :
        (a b : Error ⊎ Str)
        → abs (inr wd) dir ≡ a
        → abs (inr wd) (join dir to_merge) ≡ b
        → contained a b ≡ inr dest
        → IsMerged wd dir dest
    go (inl _) b p q e = absurd (cc e)
    go (inr dir') (inl _) p q e = absurd (cc e)
    go (inr dir') (inr dest') p q e = elim (Bool-cases (has_prefix dest' dir')) [
      | inl f ↦ subst (IsMerged wd dir) (inr-injective _ _ (rw f at e)) (record {
        directory = dir';
        absolute = p;
        directory_rooted = abs-IsRooted wd dir h p;
        rooted_path = abs-IsRooted wd (join dir to_merge) h q;
        starts = f;
      })
      | inr f ↦ absurd (wrong (rw f at e))
    ]
      where
        wrong : inl path_outside ≡ inr dest → ⊥
        wrong p = cc p
