-- ===== src/Archive/Downloaded.antt =====
-- A download without a fault, whose checksum is the expected one, is extracted.
use kabanero_events.Prelude.{
  ◌≡◌, ◌≢◌, refl, ap, ◌∙◌, true, inr, none, some, List, [], ◌∷◌, ◌++◌, map, Str, str_eq_refl, All,
}
use kabanero_events.Go.Assoc.{lookup}
use kabanero_events.Go.Exec.{World, ok, reads, recover, act, ◌>>=◌, download, create_file}
use kabanero_events.Go.Bind.{bind-of_ok, reads-of_ok}
use kabanero_events.FilePath.{is_abs}
use kabanero_events.Archive.{
  Site, Entry, entry, fail_if, truncate, write_bytes, opened, open_file, string_wrapped,
  download_file_to, archive_name, sha256sum, verify, download_trigger,
}
use kabanero_events.Archive.Checksum.{download_file_to-files}
use kabanero_events.Archive.Extracted.{IsFile, path_of, IsSound, extracted, decompress_gzip_tar-eq}

-- Every file can be opened, and the body of the URL is read to its end.
pub record IsReadable (site : Site) (url : Str) : Type 0 where
  pub opens : (path : Str) → site.open_error path ≡ none
  pub read : (site.response url).body_error ≡ none
  -- a reader gives what a file holds, while no entry of it is extracted to the file
  pub streams :
      (path dir content : Str) (es : List Entry) (w : World)
      → lookup path w.files ≡ some content
      → site.untar content ≡ inr (map entry es)
      → All (λ e. path_of dir e ≢ path) es
      → site.streamed path dir w ≡ content

module _ (site : Site) (url : Str) (sound : IsSound site) (readable : IsReadable site url) where
  -- The world with the body in the file.
  downloaded : Str → World → World
  downloaded path w =
      (write_bytes path (site.response url).body
        (truncate path
          (record w { trace = (w.trace ++ download url ∷ []) ++ create_file path ∷ [] })).1).1

  download_file_to-eq :
      (path : Str) (w : World) → download_file_to site url path w ≡ (ok tt, downloaded path w)
  unfolding download_file_to downloaded fail_if truncate write_bytes act ◌>>=◌
  download_file_to-eq path w =
      rw
        (
          sound.acts w.trace (download url),
          sound.acts (w.trace ++ download url ∷ []) (create_file path),
          readable.read,
        )
        refl

  open_file-eq :
      (path : Str) (w : World) {content : Str}
      → lookup path w.files ≡ some content
      → open_file site path w ≡ (ok content, w)
  unfolding open_file fail_if opened ◌>>=◌
  open_file-eq path w h = rw (readable.opens path, h) refl

  verify-eq :
      (path : Str) (w : World) {content : Str}
      → lookup path w.files ≡ some content
      → verify site true (site.sha256 content) path w ≡ (ok tt, w)
  unfolding verify sha256sum string_wrapped recover ◌>>=◌
  verify-eq path w {content} h = rw (open_file-eq path w h, str_eq_refl (site.sha256 content)) refl

  -- Where every act, opening and reading succeeds, the checksum of the body is the expected one and
  -- the body is an archive of regular files, whose names have no ".." component and none of which
  -- is extracted to the place of the archive itself, `DownloadTrigger` into an absolute directory
  -- downloads the archive and returns without an error, with every file of it extracted below the
  -- directory.
  pub download_trigger-eq :
      (dir : Str) (es : List Entry) (w : World)
      → is_abs dir ≡ true
      → site.untar (site.response url).body ≡ inr (map entry es)
      → All IsFile es
      → All (λ e. path_of dir e ≢ archive_name site dir) es
      → (w₁ : World) × (download_file_to site url (archive_name site dir) w ≡ (ok tt, w₁))
        × (download_trigger site url (site.sha256 (site.response url).body) dir true w
            ≡ (ok tt, extracted dir es w₁))
  unfolding download_trigger
  download_trigger-eq dir es w is_abs_dir e h apart =
      let path = archive_name site dir in
      let w₁ = downloaded path w in
      let got = download_file_to-eq path w in
      let held = download_file_to-files site url path w got in
      (
        w₁,
        got,
        bind-of_ok (download_file_to site url path) _ w got
            ∙ bind-of_ok (verify site true (site.sha256 (site.response url).body) path) _ w₁
                (verify-eq path w₁ held)
            ∙ bind-of_ok (open_file site path) _ w₁ (open_file-eq path w₁ held)
            ∙ bind-of_ok (reads (λ v. ok (site.streamed path dir v))) _ w₁ (
                reads-of_ok _ w₁
                  (ap ok (readable.streams path dir (site.response url).body es w₁ held e apart)))
            ∙ decompress_gzip_tar-eq site dir is_abs_dir sound (site.response url).body es w₁ e h,
      )
