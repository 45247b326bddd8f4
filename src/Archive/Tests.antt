-- ===== src/Archive/Tests.antt =====
-- Downloads and extractions, on concrete archives.
use kabanero_events.Prelude.{
  ◌≡◌, ◌≢◌, ◌∙◌, sym, false, str_eq_iff, ap, refl, true, inr, none, List, [], ◌∷◌, map, Str, lit,
  str_eq, split, has_prefix, if◌then◌else◌,
}
use kabanero_events.Go.Exec.{World, ok, panic, download, create_file, act, recover, ◌>>=◌}
use kabanero_events.Go.Assoc.{lookup, insert}
use kabanero_events.FilePath.{
  back, clean_parts, join_parts, is_abs, clean, join, abs, contained, merge_path_with_error_check,
}
use kabanero_events.FilePath.Below.{plain}
use kabanero_events.FilePath.Merge.{IsMerged}
use kabanero_events.Archive.{
  Site, content_of, Entry, regular, entry, overwrite, truncate, write_bytes, open_file,
  download_file_to, extract_file, extract_kind, extract_entry, extract, decompress_gzip_tar,
  sha256sum, archive_name, verify, download_trigger,
}
use kabanero_events.Archive.Contained.{ChangesAt, decompress_gzip_tar-ChangesAt}
use kabanero_events.Archive.Checksum.{download_trigger-mismatch}
use kabanero_events.Archive.Downloaded.{download_trigger-eq}
use kabanero_events.Archive.Extracted.{extracted, decompress_gzip_tar-eq}
use kabanero_events.Sample.{no_world}

abbrev file : Str → Str → Entry
file name content = record { name = name; kind = regular; content = content; copy_error = none }

abbrev tree : List Entry
tree = file (lit "a.yaml") (lit "new") ∷ file (lit "d/b.yaml") (lit "b") ∷ []

-- The archive "good" holds a tree, "bad" a name that leads out of the directory.
abbrev site : Site
site = record {
  outside = λ trace e. ok 200;
  response = λ url. record { status = 200; body = url; body_error = none };
  open_error = λ path. none;
  close_error = λ path. none;
  scan = λ text. split b'\n' text;
  sha256 = λ text. text;
  untar = λ archive.
      if str_eq archive (lit "good")
      then inr (map entry tree)
      else inr (entry (file (lit "../../x") []) ∷ []);
  getwd = inr (lit "/w");
  streamed = λ path dir w. content_of (lookup path w.files);
}

abbrev old_world : World
old_world = record no_world { files = (lit "/t/a.yaml", lit "older") ∷ [] }

-- The longer file keeps its end.
unpacked_tree :
    (decompress_gzip_tar site (lit "good") (lit "/t") old_world).1.files
    ≡ (lit "/t/a.yaml", lit "newer") ∷ (lit "/t/d/b.yaml", lit "b") ∷ []
unfolding decompress_gzip_tar extract extract_entry extract_kind extract_file write_bytes overwrite
    recover act ◌>>=◌ lookup insert merge_path_with_error_check contained abs join clean clean_parts
    back join_parts is_abs has_prefix split str_eq
unpacked_tree = refl

decompress_gzip_tar-eq_example :
    decompress_gzip_tar site (lit "good") (lit "/t") old_world
    ≡ (ok tt, extracted (lit "/t") tree old_world)
unfolding is_abs has_prefix split str_eq
decompress_gzip_tar-eq_example =
    decompress_gzip_tar-eq site (lit "/t") refl
      (record { answer = λ trace e. 200; acts = λ trace e. refl; closes = λ path. refl })
      (lit "good") tree old_world refl
      (
        record { is_regular = refl; copied = refl; inside = (refl, tt) },
        (record { is_regular = refl; copied = refl; inside = (refl, (refl, tt)) }, tt),
      )

decompress_gzip_tar-ChangesAt_example :
    ChangesAt
      (IsMerged (lit "/w") (lit "t"))
      no_world
      (decompress_gzip_tar site (lit "bad") (lit "t") no_world).1
unfolding is_abs has_prefix
decompress_gzip_tar-ChangesAt_example =
    decompress_gzip_tar-ChangesAt site (lit "/w") (lit "t") (lit "bad") no_world refl refl

-- The sum of the body is the body itself.
abbrev after_download : World
after_download = record no_world {
  trace =
      download (lit "good")
      ∷ create_file (lit "/t/incubator.trigger.tar.gz")
      ∷ create_file (lit "/t/a.yaml")
      ∷ create_file (lit "/t/d/b.yaml")
      ∷ [];
  files =
      (lit "/t/incubator.trigger.tar.gz", lit "good")
      ∷ (lit "/t/a.yaml", lit "new")
      ∷ (lit "/t/d/b.yaml", lit "b")
      ∷ [];
}

downloaded :
    (download_trigger site (lit "good") (lit "good") (lit "/t") true no_world
      ≡ (ok tt, after_download))
    × ((download_trigger site (lit "good") [] (lit "/t") true no_world).0 ≡ panic)
unfolding download_trigger archive_name download_file_to truncate verify sha256sum open_file
    decompress_gzip_tar extract extract_entry extract_kind extract_file write_bytes overwrite
    recover act ◌>>=◌ lookup insert merge_path_with_error_check contained abs join clean clean_parts
    back join_parts is_abs has_prefix split str_eq
downloaded = (refl, refl)

download_trigger-mismatch_example :
    (download_trigger site (lit "good") [] (lit "/t") true no_world).1
    ≡ (download_file_to site (lit "good") (archive_name site (lit "/t")) no_world).1
download_trigger-mismatch_example =
    download_trigger-mismatch site (lit "good") [] (lit "/t") no_world (λ e. cc e)

different : (a b : Str) → str_eq a b ≡ false → a ≢ b
different a b h e = absurd (cc (sym h ∙ (str_eq_iff a b).1 e))

download_trigger-eq_example :
    (w₁ : World) × (download_file_to site (lit "good") (archive_name site (lit "/t")) no_world
      ≡ (ok tt, w₁))
    × (download_trigger site (lit "good") (lit "good") (lit "/t") true no_world
        ≡ (ok tt, extracted (lit "/t") tree w₁))
unfolding is_abs has_prefix split str_eq content_of archive_name join clean clean_parts back
    join_parts plain
download_trigger-eq_example =
    download_trigger-eq site (lit "good")
      (record { answer = λ trace e. 200; acts = λ trace e. refl; closes = λ path. refl })
      (record {
        opens = λ path. refl;
        read = refl;
        streams = λ path dir content es w h _ _. ap content_of h;
      })
      (lit "/t") tree no_world refl refl
      (
        record { is_regular = refl; copied = refl; inside = (refl, tt) },
        (record { is_regular = refl; copied = refl; inside = (refl, (refl, tt)) }, tt),
      )
      (different _ _ refl, (different _ _ refl, tt))
