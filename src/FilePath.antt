-- ===== src/FilePath.antt =====
-- pkg/utils/webhook_util.go: `MergePathWithErrorCheck`, and what it uses of path/filepath on a
-- system whose separator is '/'.
pub mod Clean
pub mod Rooted
pub mod Merge
pub mod Below
mod Tests
use mathlib.Core.List.{reverse}
use kabanero_events.Prelude.{
  Bool, true, false, ◌⊎◌, inl, inr, List, [], ◌∷◌, ◌++◌, Str, lit, str_eq, split, has_prefix,
  if◌then◌else◌,
}
use kabanero_events.Go.Exec.{Error, path_outside}

-- The components that `filepath.Clean` keeps, the last one first: "" and "." are dropped, and
-- ".." takes the component before it away. At the root of a rooted path it is dropped.
unfoldable pub back : Bool → List Str → List Str
back true [] = []
back false [] = lit ".." ∷ []
back rooted (part ∷ parts) = if str_eq part (lit "..") then lit ".." ∷ part ∷ parts else parts

unfoldable pub clean_parts : Bool → List Str → List Str → List Str
clean_parts rooted kept [] = kept
clean_parts rooted kept (part ∷ parts) =
    clean_parts rooted
      (if str_eq part []
        then kept
        else if str_eq part (lit ".")
        then kept
        else if str_eq part (lit "..")
        then back rooted kept
        else part ∷ kept)
      parts

unfoldable pub join_parts : List Str → Str
join_parts [] = []
join_parts (part ∷ []) = part
join_parts (part ∷ next ∷ parts) = part ++ (b'/' ∷ join_parts (next ∷ parts))

unfoldable pub is_abs : Str → Bool
is_abs path = has_prefix path (lit "/")

relative : List Str → Str
relative [] = lit "."
relative parts = join_parts parts

-- `filepath.Clean`
unfoldable pub clean : Str → Str
unfolding relative
clean path =
    let rooted = is_abs path in
    let parts = reverse (clean_parts rooted [] (split b'/' path)) in
    if rooted then b'/' ∷ join_parts parts else relative parts

-- `filepath.Join` of two elements: the empty ones are left out.
unfoldable pub join : Str → Str → Str
join a b =
    if str_eq a []
    then (if str_eq b [] then [] else clean b)
    else if str_eq b []
    then clean a
    else clean (a ++ (b'/' ∷ b))

from_wd : Error ⊎ Str → Str → Error ⊎ Str
from_wd (inl e) path = inl e
from_wd (inr wd) path = inr (join wd path)

-- `filepath.Abs`; `getwd` is what `os.Getwd` returns.
unfoldable pub abs : Error ⊎ Str → Str → Error ⊎ Str
unfolding from_wd
abs getwd path = if is_abs path then inr (clean path) else from_wd getwd path

-- Of the absolute directory and path.
unfoldable pub contained : Error ⊎ Str → Error ⊎ Str → Error ⊎ Str
contained (inl e) dest = inl e
contained (inr dir) (inl e) = inl e
contained (inr dir) (inr dest) = if has_prefix dest dir then inr dest else inl path_outside

unfoldable pub merge_path_with_error_check : Error ⊎ Str → Str → Str → Error ⊎ Str
unfolding contained
merge_path_with_error_check getwd dir to_merge =
    contained (abs getwd dir) (abs getwd (join dir to_merge))
