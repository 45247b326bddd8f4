-- ===== src/Archive/Contained.antt =====
-- What the extraction of an archive does to the file system: it stays in the merged paths.
use mathlib.Core.Path.{subst}
use mathlib.Core.List.{append_assoc, append-nil}
use kabanero_events.Prelude.{
  ◌≡◌, refl, sym, ap, ◌∙◌, true, false, ◌⊎◌, inl, inr, Bool-cases, Option, none, some, List, [],
  ◌∷◌, ◌++◌, Str, str_eq, str_eq_iff, All, All-append,
}
use kabanero_events.Go.Assoc.{lookup, lookup-insert_ne}
use kabanero_events.Go.Exec.{
  World, Exec, Error, Effect, of_sum, act, ignore, ◌>>=◌, create_file, make_directory,
}
use kabanero_events.Go.Keeps.{
  Keeps, Keeps-bind, Keeps-recover, Keeps-of_sum, Keeps-pure, Keeps-throw,
}
use kabanero_events.FilePath.{is_abs, merge_path_with_error_check}
use kabanero_events.FilePath.Merge.{IsMerged, merge_path_with_error_check-IsMerged}
use kabanero_events.Archive.{
  Site, Entry, Kind, regular, directory, other, Next, failed, no_header, entry, fail_if,
  write_bytes, extract_file, extract_kind, extract_entry, extract, decompress_gzip_tar,
}

-- A file created or a directory made at a path with the property.
abbrev pub MakesAt : (Str → Type 0) → Effect → Type 0
MakesAt P (create_file path) = P path
MakesAt P (make_directory path) = P path
MakesAt P _ = ⊥

-- From one world to a later one: the effects in between are made at paths with the property, and
-- no other file has changed.
pub record ChangesAt (P : Str → Type 0) (w w' : World) : Type 0 where
  pub effects : List Effect
  pub extended : w'.trace ≡ w.trace ++ effects
  pub made : All (MakesAt P) effects
  pub kept : (path : Str) → (P path → ⊥) → lookup path w'.files ≡ lookup path w.files

pub fail_if-Keeps : {P : World → Type 0} (e : Option Error) → Keeps P (fail_if e)
unfolding fail_if
fail_if-Keeps none = Keeps-pure tt
fail_if-Keeps (some e) = Keeps-throw e

module _ (site : Site) (P : Str → Type 0) (w₀ : World) where
  act-Keeps : (e : Effect) → MakesAt P e → Keeps (ChangesAt P w₀) (act site.outside e)
  unfolding act
  act-Keeps e h = record {
    at = λ w c. record {
      effects = c.effects ++ e ∷ [];
      extended = ap (λ t. t ++ e ∷ []) c.extended ∙ append_assoc w₀.trace c.effects (e ∷ []);
      made = All-append (MakesAt P) c.effects (e ∷ []) c.made (h, tt);
      kept = c.kept;
    };
  }

  other_of : (path other_path : Str) → P path → (P other_path → ⊥) → str_eq path other_path ≡ false
  other_of path other_path h outside_of = elim (Bool-cases (str_eq path other_path)) [
    | inl e ↦ absurd (outside_of (subst P ((str_eq_iff path other_path).0 e) h))
    | inr e ↦ e
  ]

  write_bytes-Keeps : (path bytes : Str) → P path → Keeps (ChangesAt P w₀) (write_bytes path bytes)
  unfolding write_bytes
  write_bytes-Keeps path bytes h = record {
    at = λ w c. record {
      effects = c.effects;
      extended = c.extended;
      made = c.made;
      kept = λ other_path outside_of.
          lookup-insert_ne path other_path _ w.files (other_of path other_path h outside_of)
          ∙ c.kept other_path outside_of;
    };
  }

  ignored_act-Keeps :
      (e : Effect) → MakesAt P e → Keeps (ChangesAt P w₀) (ignore (act site.outside e))
  ignored_act-Keeps e h = Keeps-bind (act-Keeps e h) (λ n. Keeps-pure tt)

  extract_file-Keeps :
      (e : Entry) (dest : Str) → P dest → Keeps (ChangesAt P w₀) (extract_file site e dest)
  unfolding extract_file
  extract_file-Keeps e dest h =
      Keeps-bind (Keeps-recover _ (ignored_act-Keeps (create_file dest) h)) (λ _.
        Keeps-bind (write_bytes-Keeps dest e.content h) (λ _.
          Keeps-bind (Keeps-recover _ (fail_if-Keeps e.copy_error))
            (λ _. Keeps-recover _ (fail_if-Keeps (site.close_error dest)))))

  extract_kind-Keeps :
      (e : Entry) (kind : Kind) (dest : Str)
      → P dest
      → Keeps (ChangesAt P w₀) (extract_kind site e kind dest)
  unfolding extract_kind
  extract_kind-Keeps e regular dest h = extract_file-Keeps e dest h
  extract_kind-Keeps e directory dest h =
      Keeps-recover _ (ignored_act-Keeps (make_directory dest) h)
  extract_kind-Keeps e other dest h = Keeps-throw _

-- The rule for a call that returns an error or a value, with the equation of the value.
Keeps-of_sum_bind :
    {A B : Type 0} {P : World → Type 0} (s : Error ⊎ A) {f : A → Exec B}
    → ((a : A) → s ≡ inr a → Keeps P (f a))
    → Keeps P (of_sum s >>= f)
unfolding ◌>>=◌
Keeps-of_sum_bind (inl e) h = record { at = λ w k. k }
Keeps-of_sum_bind (inr a) h = record { at = λ w k. (h a refl).at w k }

module _ (site : Site) (wd dir : Str) (w₀ : World) (rooted_wd : is_abs wd ≡ true)
    (in_wd : site.getwd ≡ inr wd) where
  extract_entry-Keeps :
      (next : Next) → Keeps (ChangesAt (IsMerged wd dir) w₀) (extract_entry site dir next)
  unfolding extract_entry
  extract_entry-Keeps (failed e) = Keeps-throw e
  extract_entry-Keeps no_header = Keeps-pure tt
  extract_entry-Keeps (entry e) =
      Keeps-of_sum_bind (merge_path_with_error_check site.getwd dir e.name) (λ dest eq.
        extract_kind-Keeps site (IsMerged wd dir) w₀ e e.kind dest (
          merge_path_with_error_check-IsMerged wd dir e.name dest rooted_wd
            (ap (λ g. merge_path_with_error_check g dir e.name) (sym in_wd) ∙ eq)))

  extract-Keeps :
      (nexts : List Next) → Keeps (ChangesAt (IsMerged wd dir) w₀) (extract site dir nexts)
  unfolding extract
  extract-Keeps [] = Keeps-pure tt
  extract-Keeps (next ∷ nexts) = Keeps-bind (extract_entry-Keeps next) (λ _. extract-Keeps nexts)

  decompress_gzip_tar-Keeps :
      (archive : Str)
      → Keeps (ChangesAt (IsMerged wd dir) w₀) (decompress_gzip_tar site archive dir)
  unfolding decompress_gzip_tar
  decompress_gzip_tar-Keeps archive = Keeps-bind (Keeps-of_sum _) extract-Keeps

-- Whatever an archive holds and however its extraction ends, `DecompressGzipTar` creates files and
-- makes directories only at merged paths, and changes no file at any other path; the working
-- directory is known and absolute.
pub decompress_gzip_tar-ChangesAt :
    (site : Site) (wd dir archive : Str) (w : World)
    → is_abs wd ≡ true
    → site.getwd ≡ inr wd
    → ChangesAt (IsMerged wd dir) w (decompress_gzip_tar site archive dir w).1
decompress_gzip_tar-ChangesAt site wd dir archive w rooted_wd in_wd =
    (decompress_gzip_tar-Keeps site wd dir w rooted_wd in_wd archive).at w (record {
      effects = [];
      extended = sym (append-nil w.trace);
      made = tt;
      kept = λ path outside_of. refl;
    })
