-- ===== src/Archive.antt =====
-- pkg/utils/webhook_util.go: downloads, files read, and the extraction of trigger archives.
-- net/http, os, bufio, crypto/sha256, compress/gzip and archive/tar are parameters.
pub mod Contained
pub mod Checksum
pub mod Extracted
pub mod Downloaded
mod Tests
use kabanero_events.Prelude.{
  ℕ, Bool, true, false, ◌==◌, ◌⊎◌, inl, inr, Option, none, some, List, [], ◌∷◌, ◌++◌, Str, lit,
  str_eq, length, drop, if◌then◌else◌,
}
use kabanero_events.Go.Assoc.{lookup, insert}
use kabanero_events.Go.Exec.{
  World, Exec, Error, Result, ok, err, panic, out_of_fuel, Outside, pure, throw, lift, of_sum,
  reads, act, ignore, recover, ◌>>=◌, ◌>>◌, download, create_file, make_directory, http_status,
  checksum_failed, file_not_created, file_not_read, file_not_closed, directory_not_made,
  file_type_unsupported,
}
use kabanero_events.FilePath.{join, merge_path_with_error_check}

-- An HTTP response: its status, and what a reader of the body gets, bytes and the error with which they end.
pub record Response : Type 0 where
  pub status : ℕ
  pub body : Str
  pub body_error : Option Error

pub data Kind : Type 0 where
  regular directory other : Kind

-- An entry of a tar archive: the bytes that `io.Copy` copies, and the error with which it ends.
pub record Entry : Type 0 where
  pub name : Str
  pub kind : Kind
  pub content : Str
  pub copy_error : Option Error

-- What `tarReader.Next` returns before `io.EOF`.
pub data Next : Type 0 where
  failed : Error → Next
  no_header : Next
  entry : Entry → Next

pub record Site : Type 0 where
  -- whether a GET is answered, a file opened for writing, a directory made
  pub outside : Outside
  pub response : Str → Response
  pub open_error : Str → Option Error
  pub close_error : Str → Option Error
  -- the lines that `bufio.Scanner` gives
  pub scan : Str → List Str
  -- the checksum in hexadecimal
  pub sha256 : Str → Str
  -- `gzip.NewReader`, and the calls of `Next`
  pub untar : Str → Error ⊎ List Next
  pub getwd : Error ⊎ Str
  -- what a reader of the file at this path gives while it is extracted into this directory, from this
  -- world on: an entry of the archive may overwrite the archive itself
  pub streamed : Str → Str → World → Str

pub fail_if : Option Error → Exec (Unit {0})
fail_if none = pure tt
fail_if (some e) = throw e

-- The error is put in the text of another one.
unfoldable pub wrapped : Error → Result (Unit {0}) → Result (Unit {0})
wrapped e (ok u) = ok u
wrapped e (err _) = err e
wrapped e panic = panic
wrapped e out_of_fuel = out_of_fuel

-- What a file holds; "" for a file that the process has not written.
pub content_of : Option Str → Str
content_of none = []
content_of (some content) = content

-- Bytes are written from the start of a file.
unfoldable pub overwrite : Str → Str → Str
overwrite bytes old = bytes ++ drop (length bytes) old

-- `os.Create`: the file is emptied.
unfoldable pub truncate : Str → Exec (Unit {0})
truncate path w = (ok tt, record w { files = insert path [] w.files })

-- `io.Copy` into a file just opened.
unfoldable pub write_bytes : Str → Str → Exec (Unit {0})
unfolding content_of
write_bytes path bytes w = (
  ok tt,
  record w { files = insert path (overwrite bytes (content_of (lookup path w.files))) w.files },
)

module _ (site : Site) where
  -- `os.Open`, and all that the file holds.
  pub opened : Option Str → Result Str
  opened none = err file_not_read
  opened (some content) = ok content

  unfoldable pub open_file : Str → Exec Str
  unfolding fail_if opened
  open_file path = fail_if (site.open_error path) >> reads (λ w. opened (lookup path w.files))

  concat : List Str → Str
  concat [] = []
  concat (line ∷ lines) = line ++ concat lines

  -- `ReadFile`: the lines are put together without what ended them.
  unfoldable pub read_file : Str → Exec Str
  unfolding concat
  read_file file_name = do content ← open_file file_name; pure (concat (site.scan content))

  -- `ReadJSON`, over `UnmarshalJSON` of an `unstructured.Unstructured`.
  unfoldable pub read_json {ℓ} : {Object : Type ℓ} → (Str → Error ⊎ Object) → Str → Exec Object
  read_json unmarshal_json file_name = do bytes ← read_file file_name; of_sum (unmarshal_json bytes)

  -- `downloadFileTo`
  unfoldable pub download_file_to : Str → Str → Exec (Unit {0})
  unfolding fail_if
  download_file_to url path = do
    _ ← act site.outside (download url)
    _ ← act site.outside (create_file path)
    truncate path
    write_bytes path (site.response url).body
    fail_if (site.response url).body_error

  unfoldable pub get_http_url_reader_closer : Str → Exec Response
  get_http_url_reader_closer url = do
    _ ← act site.outside (download url)
    if (site.response url).status == 200 then pure (site.response url) else throw http_status

  -- The bytes are returned beside an error; no caller reads them then.
  unfoldable pub read_http_url : Str → Exec Str
  unfolding fail_if
  read_http_url url = do
    response ← get_http_url_reader_closer url
    fail_if response.body_error
    pure response.body

  -- An entry that is a file; no O_TRUNC is given, so that a longer file keeps its end.
  unfoldable pub extract_file : Entry → Str → Exec (Unit {0})
  unfolding fail_if wrapped
  extract_file e dest = do
    recover (wrapped file_not_created) (ignore (act site.outside (create_file dest)))
    write_bytes dest e.content
    recover (wrapped file_not_read) (fail_if e.copy_error)
    recover (wrapped file_not_closed) (fail_if (site.close_error dest))

  unfoldable pub extract_kind : Entry → Kind → Str → Exec (Unit {0})
  unfolding wrapped
  extract_kind e regular dest = extract_file e dest
  extract_kind e directory dest =
      recover (wrapped directory_not_made) (ignore (act site.outside (make_directory dest)))
  extract_kind e other dest = throw file_type_unsupported

  -- The body of the loop of `DecompressGzipTar`.
  unfoldable pub extract_entry : Str → Next → Exec (Unit {0})
  extract_entry dir (failed e) = throw e
  extract_entry dir no_header = pure tt
  extract_entry dir (entry e) =
      of_sum (merge_path_with_error_check site.getwd dir e.name) >>= extract_kind e e.kind

  unfoldable pub extract : Str → List Next → Exec (Unit {0})
  extract dir [] = pure tt
  extract dir (next ∷ nexts) = extract_entry dir next >> extract dir nexts

  unfoldable pub decompress_gzip_tar : Str → Str → Exec (Unit {0})
  decompress_gzip_tar archive dir = of_sum (site.untar archive) >>= extract dir

  unfoldable pub sha256sum : Str → Exec Str
  sha256sum file_path = do content ← open_file file_path; pure (site.sha256 content)

  unfoldable pub archive_name : Str → Str
  archive_name dir = join dir (lit "incubator.trigger.tar.gz")

  pub string_wrapped : Result Str → Result Str
  string_wrapped (ok s) = ok s
  string_wrapped (err _) = err checksum_failed
  string_wrapped panic = panic
  string_wrapped out_of_fuel = out_of_fuel

  -- `klog.Fatalf` ends the process where the checksum is another one.
  unfoldable pub verify : Bool → Str → Str → Exec (Unit {0})
  unfolding string_wrapped
  verify false trigger_chk_sum archive = pure tt
  verify true trigger_chk_sum archive = do
    chk_sum ← recover string_wrapped (sha256sum archive)
    if str_eq chk_sum trigger_chk_sum then pure tt else lift panic

  unfoldable pub download_trigger : Str → Str → Str → Bool → Exec (Unit {0})
  download_trigger trigger_url trigger_chk_sum dir verify_chk_sum = do
    download_file_to trigger_url (archive_name dir)
    verify verify_chk_sum trigger_chk_sum (archive_name dir)
    _ ← open_file (archive_name dir)
    archive ← reads (λ w. ok (site.streamed (archive_name dir) dir w))
    decompress_gzip_tar archive dir
