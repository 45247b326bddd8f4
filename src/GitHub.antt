-- ===== src/GitHub.antt =====
-- pkg/utils/github_util.go: the repository of a webhook message, and files read from GitHub.
-- go-github and the YAML parser are parameters.
pub mod Info
pub mod Keeps
pub mod Fresh
mod Tests
use kabanero_events.Prelude.{
  ℕ, Bool, true, false, ◌==◌, ◌⊎◌, inl, inr, Option, none, some, List, [], ◌∷◌, ◌++◌, Str, lit,
  str_eq, if◌then◌else◌,
}
use kabanero_events.Go.Assoc.{lookup}
use kabanero_events.Go.Value.{Val}
use kabanero_events.Go.Exec.{
  World, Exec, Effect, Error, Result, ok, err, panic, out_of_fuel, pure, throw, lift, of_sum, reads,
  recover, load, store, alloc, ◌>>=◌, ◌>>◌, no_after, after_not_string, no_pull_request,
  pull_request_not_map, no_head, head_not_map, no_sha, sha_not_string, no_repository,
  repository_not_map, no_repository_name, repository_name_not_string, no_owner, owner_not_map,
  no_login, login_not_string, no_html_url, html_url_not_string, no_repository_info, no_credentials,
  content_missing, not_a_file, github_status,
}
use kabanero_events.Kabanero.{Secret, get_kabanero_namespace, get_git_hub_secret}

pub record Repository : Type 0 where
  pub owner : Str
  pub name : Str
  pub html_url : Str
  pub ref : Str

-- `v, ok := m[key]`, with the error where it is missing.
pub present : Error → Option Val → Exec Val
present missing none = throw missing
present missing (some v) = pure v

-- `v.(string)` and `v.(map[string]interface{})`
pub as_string : Error → Val → Exec Str
as_string not_string (Val.string s) = pure s
as_string not_string _ = throw not_string

pub as_map : Error → Val → Exec ℕ
as_map not_map (Val.object a) = pure a
as_map not_map _ = throw not_map

unfoldable pub string_under : Error → Error → ℕ → Str → Exec Str
unfolding present as_string
string_under missing not_string a key = load a key >>= present missing >>= as_string not_string

unfoldable pub map_under : Error → Error → ℕ → Str → Exec ℕ
unfolding present as_map
map_under missing not_map a key = load a key >>= present missing >>= as_map not_map

-- The commit: "" for an event that is neither a push nor a pull request.
unfoldable pub ref_of : ℕ → Str → Exec Str
ref_of body repository_event =
    if str_eq repository_event (lit "push")
    then string_under no_after after_not_string body (lit "after")
    else if str_eq repository_event (lit "pull_request")
    then (do
      pr ← map_under no_pull_request pull_request_not_map body (lit "pull_request")
      head ← map_under no_head head_not_map pr (lit "head")
      string_under no_sha sha_not_string head (lit "sha"))
    else pure []

-- The part of `getRepositoryInfo` after the commit; the body is the address of a map.
unfoldable pub repository_of : ℕ → Str → Exec Repository
repository_of body ref = do
  repository ← map_under no_repository repository_not_map body (lit "repository")
  name ← string_under no_repository_name repository_name_not_string repository (lit "name")
  owner_map ← map_under no_owner owner_not_map repository (lit "owner")
  owner ← string_under no_login login_not_string owner_map (lit "login")
  html_url ← string_under no_html_url html_url_not_string repository (lit "html_url")
  pure (record { owner = owner; name = name; html_url = html_url; ref = ref })

-- `getRepositoryInfo`
unfoldable pub get_repository_info : ℕ → Str → Exec Repository
get_repository_info body repository_event = ref_of body repository_event >>= repository_of body

-- A call of `GetContents`: the URL of an enterprise client, the credentials, what is asked for.
pub record ContentsRequest : Type 0 where
  pub enterprise_url : Option Str
  pub user : Str
  pub token : Str
  pub owner : Str
  pub repository : Str
  pub file_name : Str
  pub ref : Option Str

-- A file as `GetContents` returns it, with what `GetContent` decodes.
pub data FileContent : Type 0 where
  no_file no_content : FileContent
  content : Error ⊎ Str → FileContent

pub data Reply : Type 0 where
  no_response : Reply
  response : ℕ → FileContent → Reply

pub record GitHub : Type 0 where
  pub new_enterprise_client : Str → Option Error
  pub get_contents : List Effect → ContentsRequest → Reply
  -- `yaml.Unmarshal` into a `map[string]interface{}`
  pub unmarshal : Str → Error ⊎ List (Str × Val)
  -- The Kubernetes client's listing of the secrets of a namespace.
  pub list_secrets : Str → Error ⊎ List Secret
  pub getenv : Str → Str

-- Whether the file exists, and what was read or the error.
abbrev pub Download : Type 0 → Type 0
Download A = Bool × (Error ⊎ A)

-- The last part of `DownloadFileFromGithub`: without a response its status cannot be read.
unfoldable pub of_reply : Reply → Result (Download Str)
of_reply no_response = panic
of_reply (response status file) =
    if status == 200
    then elim file [
      | no_file ↦ ok (false, inl not_a_file)
      | no_content ↦ ok (true, inl content_missing)
      | content c ↦ ok (true, c)
    ]
    else if status == 400
    then ok (false, inr [])
    else ok (false, inl github_status)

-- An error as a value.
unfoldable pub attempt {ℓ} : {A : Type ℓ} → Result A → Result (Error ⊎ A)
attempt (ok a) = ok (inr a)
attempt (err e) = ok (inl e)
attempt panic = panic
attempt out_of_fuel = out_of_fuel

-- `header[key][0]`: a key that is missing has no values.
unfoldable pub first_value : List (Str × List Str) → Str → Result Str
first_value header key = elim (lookup key header) [
  | none ↦ panic
  | some values ↦ elim values [ [] ↦ panic | value ∷ _ ↦ ok value ]
]

module _ (github : GitHub) where
  asked : ContentsRequest → Exec (Download Str)
  asked request = reads (λ w. of_reply (github.get_contents w.trace request))

  -- An error of `NewEnterpriseClient` is returned.
  by_client : Option Error → Exec (Download Str) → Exec (Download Str)
  by_client (some e) m = pure (false, inl e)
  by_client none m = m

  -- `DownloadFileFromGithub`
  unfoldable pub download_file_from_github :
      Str → Str → Str → Str → Str → Str → Str → Bool → Exec (Download Str)
  unfolding asked by_client
  download_file_from_github owner repository file_name ref github_url user token is_enterprise =
      let api = github_url ++ lit "/api/v3" in
      let request : ContentsRequest = record {
        enterprise_url = none;
        user = user;
        token = token;
        owner = owner;
        repository = repository;
        file_name = file_name;
        ref = if str_eq ref [] then none else some ref;
      } in
      if is_enterprise
      then by_client (github.new_enterprise_client api)
          (asked (record request { enterprise_url = some api }))
      else asked request

  store_fields : ℕ → List (Str × Val) → Exec (Unit {0})
  store_fields a [] = pure tt
  store_fields a ((key, value) ∷ fields) = store a key value >> store_fields a fields

  -- `YAMLToMap`. Of bytes that hold no map the result is nil in Go, which reads as the empty map made
  -- here; a write to it would panic.
  unfoldable pub yaml_to_map : Str → Exec ℕ
  unfolding store_fields
  yaml_to_map bytes = do
    fields ← of_sum (github.unmarshal bytes)
    a ← alloc
    store_fields a fields
    pure a

  -- The end of `DownloadYAML`.
  unfoldable pub parse_download : Download Str → Exec (Download ℕ)
  parse_download (exists, inl e) = pure (exists, inl e)
  parse_download (exists, inr bytes) = do
    parsed ← recover attempt (yaml_to_map bytes)
    pure (exists, parsed)

  unfoldable pub with_credentials :
      Repository → Str → Str → Bool → Error ⊎ (Str × Str) → Exec (Download ℕ)
  with_credentials r file_name host is_enterprise (inl e) = pure (false, inl no_credentials)
  with_credentials r file_name host is_enterprise (inr (user, token)) =
      download_file_from_github r.owner r.name file_name r.ref (lit "https://" ++ host) user token
        is_enterprise
      >>= parse_download

  unfoldable pub with_repository : Str → Str → Bool → Error ⊎ Repository → Exec (Download ℕ)
  with_repository file_name host is_enterprise (inl e) = pure (false, inl no_repository_info)
  with_repository file_name host is_enterprise (inr r) = do
    namespace ← get_kabanero_namespace github.getenv
    with_credentials r file_name host is_enterprise
        (get_git_hub_secret github.list_secrets namespace r.html_url)

  unfoldable pub host_of : List (Str × List Str) → Result (Str × Bool)
  host_of header = elim (lookup (lit "X-Github-Enterprise-Host") header) [
    | none ↦ ok (lit "github.com", false)
    | some values ↦ elim values [ [] ↦ panic | value ∷ _ ↦ ok (value, true) ]
  ]

  -- `DownloadYAML`
  unfoldable pub download_yaml : List (Str × List Str) → ℕ → Str → Exec (Download ℕ)
  download_yaml header body_map file_name = do
    (host, is_enterprise) ← lift (host_of header)
    repository_event ← lift (first_value header (lit "X-Github-Event"))
    info ← recover attempt (get_repository_info body_map repository_event)
    with_repository file_name host is_enterprise info
