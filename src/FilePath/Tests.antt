-- ===== src/FilePath/Tests.antt =====
-- Paths, on concrete directories.
use kabanero_events.Prelude.{◌≡◌, refl, inl, inr, lit, str_eq, split, has_prefix}
use kabanero_events.FilePath.Rooted.{rooted}
use kabanero_events.FilePath.Below.{below, merge_path_with_error_check-below}
use kabanero_events.Go.Exec.{path_outside}
use kabanero_events.FilePath.{
  back, clean_parts, join_parts, is_abs, clean, join, abs, contained, merge_path_with_error_check,
}

cleaned :
    (clean (lit "/a/./b//../c") ≡ lit "/a/c")
    × (clean (lit "../../x/..") ≡ lit "../..")
    × (clean (lit "/..") ≡ lit "/")
    × (clean (lit "a/..") ≡ lit ".")
unfolding clean clean_parts back join_parts is_abs has_prefix split str_eq
cleaned = (refl, refl, refl, refl)

-- A directory below, one above, and a sibling whose name starts with the directory's.
merged :
    (merge_path_with_error_check (inr (lit "/w")) (lit "t") (lit "res") ≡ inr (lit "/w/t/res"))
    × (merge_path_with_error_check (inr (lit "/w")) (lit "t") (lit "../..") ≡ inl path_outside)
    × (merge_path_with_error_check (inr (lit "/w")) (lit "/tmp/a") (lit "../ab")
        ≡ inr (lit "/tmp/ab"))
unfolding merge_path_with_error_check contained abs join clean clean_parts back join_parts is_abs
    has_prefix split str_eq
merged = (refl, refl, refl)

merge_path_with_error_check-below_example :
    merge_path_with_error_check (inl path_outside) (lit "/tmp/a") (lit "b//./c.yaml")
    ≡ inr (rooted (below (lit "/tmp/a") (lit "b//./c.yaml")))
unfolding is_abs has_prefix split str_eq
merge_path_with_error_check-below_example =
    merge_path_with_error_check-below (inl path_outside) (lit "/tmp/a") (lit "b//./c.yaml") refl
      (refl, (refl, (refl, (refl, tt))))
