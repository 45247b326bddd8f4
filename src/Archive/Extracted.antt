-- ===== src/Archive/Extracted.antt =====
-- What is in the files after the extraction of an archive without a fault.
use mathlib.Core.List.{append_assoc, append-nil}
use kabanero_events.Prelude.{
  ◌≡◌, refl, sym, ap, ◌∙◌, ℕ, true, inr, Option, none, some, drop, length, List, [], ◌∷◌, ◌++◌, map,
  Str, split, All,
}
use kabanero_events.Go.Assoc.{lookup, insert}
use kabanero_events.Go.Exec.{World, Effect, ok, ◌>>=◌, recover, act, create_file}
use kabanero_events.Go.Bind.{bind-of_ok}
use kabanero_events.Archive.Checksum.{drop-nil}
use kabanero_events.FilePath.{is_abs}
use kabanero_events.FilePath.Rooted.{rooted}
use kabanero_events.FilePath.Below.{NoDots, below, merge_path_with_error_check-below}
use kabanero_events.Archive.{
  Site, Entry, regular, entry, fail_if, wrapped, overwrite, content_of, write_bytes, extract_file,
  extract_kind, extract_entry, extract, decompress_gzip_tar,
}

-- A file that is copied to its end, by a name without "..".
pub record IsFile (e : Entry) : Type 0 where
  pub is_regular : e.kind ≡ regular
  pub copied : e.copy_error ≡ none
  pub inside : NoDots (split b'/' e.name)

-- Every act succeeds, as does every close.
pub record IsSound (site : Site) : Type 0 where
  pub answer : List Effect → Effect → ℕ
  pub acts : (trace : List Effect) (e : Effect) → site.outside trace e ≡ ok (answer trace e)
  pub closes : (path : Str) → site.close_error path ≡ none

abbrev pub path_of : Str → Entry → Str
path_of dir e = rooted (below dir e.name)

-- What a file holds after these bytes are written over what it held, if it was there: the bytes, and
-- behind them what was beyond them.
unfoldable pub over : Str → Option Str → Str
over bytes none = bytes
over bytes (some old) = bytes ++ drop (length bytes) old

-- The files after the entries are written, one after the other.
unfoldable pub unpacked : Str → List Entry → List (Str × Str) → List (Str × Str)
unpacked dir [] files = files
unpacked dir (e ∷ es) files =
    unpacked dir es (insert (path_of dir e) (over e.content (lookup (path_of dir e) files)) files)

abbrev pub extracted : Str → List Entry → World → World
extracted dir es w = record w {
  trace = w.trace ++ map (λ e. create_file (path_of dir e)) es;
  files = unpacked dir es w.files;
}

over-overwrite : (bytes : Str) (o : Option Str) → overwrite bytes (content_of o) ≡ over bytes o
unfolding over overwrite content_of
over-overwrite bytes none =
    ap (λ end_of. bytes ++ end_of) (drop-nil (length bytes)) ∙ append-nil bytes
over-overwrite bytes (some old) = refl

module _ (site : Site) (dir : Str) (is_abs_dir : is_abs dir ≡ true) (sound : IsSound site) where
  extract_file-eq :
      (e : Entry) (w : World)
      → IsFile e
      → extract_file site e (path_of dir e) w ≡ (ok tt, extracted dir (e ∷ []) w)
  unfolding extract_file wrapped recover ◌>>=◌ act write_bytes fail_if unpacked
  extract_file-eq e w h =
      rw
        (
          sound.acts w.trace (create_file (path_of dir e)),
          h.copied,
          sound.closes (path_of dir e),
          over-overwrite e.content (lookup (path_of dir e) w.files),
        )
        refl

  extract_entry-eq :
      (e : Entry) (w : World)
      → IsFile e
      → extract_entry site dir (entry e) w ≡ (ok tt, extracted dir (e ∷ []) w)
  unfolding extract_entry extract_kind ◌>>=◌ extract_file unpacked
  extract_entry-eq e w h =
      rw (merge_path_with_error_check-below site.getwd dir e.name is_abs_dir h.inside, h.is_regular)
        (extract_file-eq e w h)

  extract-eq :
      (es : List Entry) (w : World)
      → All IsFile es
      → extract site dir (map entry es) w ≡ (ok tt, extracted dir es w)
  unfolding extract unpacked ◌>>=◌
  extract-eq [] w h = λ i. (ok tt, record w { trace = sym (append-nil w.trace) i })
  extract-eq (e ∷ es) w h =
      bind-of_ok (extract_entry site dir (entry e)) _ w (extract_entry-eq e w h.0)
      ∙ extract-eq es (extracted dir (e ∷ []) w) h.1
      ∙ (λ i. (
        ok tt,
        record (extracted dir (e ∷ es) w) {
          trace =
              append_assoc w.trace (create_file (path_of dir e) ∷ [])
                (map (λ e. create_file (path_of dir e)) es) i;
        },
      ))

  -- Where every act and close succeeds, `DecompressGzipTar` of an archive of regular files, whose
  -- names have no ".." component, into an absolute directory returns without an error. The files are
  -- created in the order of the archive, each below the directory at the components of its name,
  -- and hold the entries' contents, over what a file that was longer has beyond them; no other
  -- file changes.
  pub decompress_gzip_tar-eq :
      (archive : Str) (es : List Entry) (w : World)
      → site.untar archive ≡ inr (map entry es)
      → All IsFile es
      → decompress_gzip_tar site archive dir w ≡ (ok tt, extracted dir es w)
  unfolding decompress_gzip_tar ◌>>=◌
  decompress_gzip_tar-eq archive es w e h = rw e (extract-eq es w h)
