-- ===== src/Kabanero/Tests.antt =====
-- Namespaces, secrets and triggers, on concrete values.
use mathlib.Core.List.{reverse}
use kabanero_events.Prelude.{
  ◌≡◌, ◌≢◌, refl, ◌⊎◌, inr, true, false, none, some, List, [], ◌∷◌, Str, lit, str_eq, has_prefix,
  split,
}
use kabanero_events.Go.Assoc.{lookup, insert}
use kabanero_events.Go.Exec.{World, ok, Error, Result, recover, act, ◌>>=◌}
use kabanero_events.Kabanero.{
  Secret, is_tekton, is_kabanero, scan_annotations, scan_secrets, get_git_hub_secret_for_repo,
  get_git_hub_secret, get_kabanero_namespace, match_prefix, Url, TriggerSpec, first_url,
  first_trigger, get_trigger_info, Source, fatal, is_local, trigger_url, fetch_files,
  get_trigger_files,
}
use kabanero_events.Kabanero.Chosen.{
  or, find_first, find_last, has_kabanero, has_tekton, get_git_hub_secret_for_repo-eq,
}
use kabanero_events.Kabanero.Files.{
  Provided, get_trigger_files-verified, get_trigger_files-given_url,
}
use kabanero_events.FilePath.{back, clean_parts, join_parts, is_abs, clean, join}
use kabanero_events.Archive.{
  Site, content_of, wrapped, archive_name, download_file_to, truncate, verify, sha256sum, open_file,
  decompress_gzip_tar, extract, write_bytes, overwrite, download_trigger,
}
use kabanero_events.Sample.{no_world}

abbrev login : List (Str × Str)
login = (lit "username", lit "u") ∷ (lit "password", lit "p") ∷ []

abbrev secret_of : Str → List (Str × Str) → Secret
secret_of name annotations = record { name = name; annotations = annotations; data_fields = login }

abbrev tekton : Secret
tekton = secret_of (lit "t") ((lit "tekton.dev/git-0", lit "https://github.com") ∷ [])

abbrev kabanero : Secret
kabanero =
    secret_of (lit "k")
      ((lit "other", lit "") ∷ (lit "kabanero.io/git-0", lit "https://github.com") ∷ [])

abbrev url : Str
url = lit "https://github.com/o/r"

chosen :
    (get_git_hub_secret_for_repo (tekton ∷ kabanero ∷ tekton ∷ []) url ≡ some kabanero)
    × (get_git_hub_secret_for_repo (tekton ∷ []) url ≡ some tekton)
    × (get_git_hub_secret_for_repo (kabanero ∷ []) (lit "http://x") ≡ none)
    × (get_git_hub_secret (λ namespace. inr (kabanero ∷ [])) (lit "n") url ≡ inr (lit "u", lit "p"))
unfolding get_git_hub_secret_for_repo get_git_hub_secret scan_secrets scan_annotations is_tekton
    is_kabanero has_prefix lookup str_eq
chosen = (refl, refl, refl, refl)

get_git_hub_secret_for_repo-eq_example :
    get_git_hub_secret_for_repo (tekton ∷ kabanero ∷ []) url
    ≡ or
        (find_first (has_kabanero url) (tekton ∷ kabanero ∷ []))
        (find_last (has_tekton url) (tekton ∷ kabanero ∷ []))
get_git_hub_secret_for_repo-eq_example = get_git_hub_secret_for_repo-eq (tekton ∷ kabanero ∷ []) url

abbrev backwards : Secret → Secret
backwards s = record s { annotations = reverse s.annotations }

-- The first trigger has no URL.
abbrev spec : Str → TriggerSpec
spec text = record { id = lit "i"; sha256 = lit "s"; url = text }

abbrev parse_any : Str → Error ⊎ Url
parse_any text = inr (record { scheme = lit "https"; path = []; text = text })

trigger_found :
    get_trigger_info
      (λ namespace. inr ((spec [] ∷ []) ∷ (spec (lit "u") ∷ []) ∷ []))
      parse_any
      (lit "n")
    ≡ inr (record { scheme = lit "https"; path = []; text = lit "u" }, lit "s")
unfolding get_trigger_info first_trigger first_url str_eq
trigger_found = refl

matched : match_prefix (lit "abc") (lit "b" ∷ lit "ab" ∷ lit "a" ∷ []) ≡ (true, lit "ab")
unfolding match_prefix has_prefix
matched = refl

abbrev remote : Url
remote = record { scheme = lit "https"; path = lit "/a"; text = lit "https://h/a" }

-- An empty archive, whose checksum is "sum".
abbrev site : Site
site = record {
  outside = λ trace e. ok 200;
  response = λ url. record { status = 200; body = url; body_error = none };
  open_error = λ path. none;
  close_error = λ path. none;
  scan = λ text. text ∷ [];
  sha256 = λ text. lit "sum";
  untar = λ archive. inr [];
  getwd = inr (lit "/w");
  streamed = λ path dir w. content_of (lookup path w.files);
}

abbrev source : Source
source = record {
  trigger_info = λ namespace. inr (remote, lit "sum");
  temp_dir = λ trace. inr (lit "/tmp/w");
}

abbrev run : Result Str × World
run = get_trigger_files (λ name. []) source site none false no_world

run-ok : run ≡ (ok (lit "/tmp/w"), run.1)
unfolding get_trigger_files get_kabanero_namespace trigger_url is_local fetch_files download_trigger
    archive_name download_file_to truncate verify sha256sum open_file decompress_gzip_tar extract
    write_bytes overwrite recover act ◌>>=◌ wrapped fatal lookup insert join clean clean_parts back
    join_parts is_abs has_prefix split str_eq
run-ok = refl

get_trigger_files-verified_example :
    (namespace : Str) × (w₁ : World) × (url : Url) × (chk_sum : Str) × (get_kabanero_namespace
        (λ name. [])
        no_world
      ≡ (ok namespace, w₁))
    × (source.trigger_info namespace ≡ inr (url, chk_sum))
    × Provided (λ name. []) source site url chk_sum w₁ (lit "/tmp/w") run.1
get_trigger_files-verified_example =
    get_trigger_files-verified (λ name. []) source site no_world run-ok

get_trigger_files-given_url_example :
    get_trigger_files (λ name. []) source site (some remote) false no_world
    ≢ (ok (lit "/tmp/w"), no_world)
unfolding is_local str_eq
get_trigger_files-given_url_example =
    get_trigger_files-given_url (λ name. []) source site remote no_world (lit "/tmp/w") no_world
      refl (λ text e. cc e)
