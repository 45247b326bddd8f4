-- ===== src/Kabanero.antt =====
-- pkg/utils/kabanero_util.go: the namespace, the trigger URL of a Kabanero definition, and the
-- secret for a repository, and the directory of the trigger files. The Kubernetes clients,
-- `url.Parse` and `ioutil.TempDir` are parameters.
pub mod Chosen
pub mod Cached
pub mod Keeps
pub mod Files
mod Tests
use kabanero_events.Prelude.{
  Bool, true, false, not, ◌&&◌, ◌||◌, ◌⊎◌, inl, inr, Option, none, some, List, [], ◌∷◌, Str, lit,
  str_eq, has_prefix, if◌then◌else◌,
}
use kabanero_events.Go.Assoc.{lookup}
use kabanero_events.Go.Exec.{
  World, Exec, Effect, Error, Result, ok, err, panic, out_of_fuel, pure, throw, of_sum, recover,
  ◌>>=◌, ◌>>◌, no_secret, no_username, no_password, no_trigger_url, temporary_directory,
  download_failed,
}
use kabanero_events.Archive.{Site, wrapped, download_trigger}

-- `GetKabaneroNamespace`: the package variable, set at the first call.
default_namespace : Str
default_namespace = lit "kabanero"

of_env : Str → Str
unfolding default_namespace
of_env value = if str_eq value [] then default_namespace else value

unfoldable pub get_kabanero_namespace : (Str → Str) → Exec Str
unfolding of_env
get_kabanero_namespace getenv w =
    if str_eq w.namespace []
    then (let value = of_env (getenv (lit "KUBE_NAMESPACE")) in
        pure value (record w { namespace = value }))
    else pure w.namespace w

-- A `v1.Secret`: its annotations and data in the order in which `range` visits them.
pub record Secret : Type 0 where
  pub name : Str
  pub annotations : List (Str × Str)
  pub data_fields : List (Str × Str)

unfoldable pub is_tekton : Str → Str × Str → Bool
is_tekton repo_url (key, val) = has_prefix key (lit "tekton.dev/git-") && has_prefix repo_url val

unfoldable pub is_kabanero : Str → Str × Str → Bool
is_kabanero repo_url (key, val) = has_prefix key (lit "kabanero.io/git-") && has_prefix repo_url val

-- The loop over the annotations of a secret: it returns at once with the secret, or goes on with
-- the secret remembered so far.
unfoldable pub scan_annotations :
    Str → Secret → List (Str × Str) → Option Secret → Secret ⊎ Option Secret
scan_annotations repo_url secret [] tkn_secret = inr tkn_secret
scan_annotations repo_url secret (annotation ∷ annotations) tkn_secret =
    if is_tekton repo_url annotation
    then scan_annotations repo_url secret annotations (some secret)
    else (if is_kabanero repo_url annotation
        then inl secret
        else scan_annotations repo_url secret annotations tkn_secret)

-- The loop over the secrets.
unfoldable pub scan_secrets : Str → List Secret → Option Secret → Option Secret
scan_secrets repo_url [] tkn_secret = tkn_secret
scan_secrets repo_url (secret ∷ secrets) tkn_secret =
    elim (scan_annotations repo_url secret secret.annotations tkn_secret) [
      | inl found ↦ some found
      | inr tkn_secret' ↦ scan_secrets repo_url secrets tkn_secret'
    ]

unfoldable pub get_git_hub_secret_for_repo : List Secret → Str → Option Secret
get_git_hub_secret_for_repo secrets repo_url = scan_secrets repo_url secrets none

field_of : Error → Str → Secret → Error ⊎ Str
field_of missing key secret = elim (lookup key secret.data_fields) [
  | none ↦ inl missing
  | some value ↦ inr value
]

both_fields : Error ⊎ Str → Error ⊎ Str → Error ⊎ (Str × Str)
both_fields (inl e) _ = inl e
both_fields (inr a) (inl e) = inl e
both_fields (inr a) (inr b) = inr (a, b)

-- `GetGitHubSecret`, on the secret that was found.
credentials_of : Option Secret → Error ⊎ (Str × Str)
unfolding field_of both_fields
credentials_of none = inl no_secret
credentials_of (some secret) =
    both_fields (field_of no_username (lit "username") secret)
      (field_of no_password (lit "password") secret)

-- `GetGitHubSecret`; `list_secrets` is the client's listing of a namespace.
unfoldable pub get_git_hub_secret : (Str → Error ⊎ List Secret) → Str → Str → Error ⊎ (Str × Str)
unfolding credentials_of
get_git_hub_secret list_secrets namespace repo_url = elim (list_secrets namespace) [
  | inl e ↦ inl e
  | inr secrets ↦ credentials_of (get_git_hub_secret_for_repo secrets repo_url)
]

-- The first of the strings that is a prefix.
unfoldable pub match_prefix : Str → List Str → Bool × Str
match_prefix str [] = (false, [])
match_prefix str (val ∷ vals) = if has_prefix str val then (true, val) else match_prefix str vals

-- A `url.URL`, as far as the program reads it.
pub record Url : Type 0 where
  pub scheme : Str
  pub path : Str
  pub text : Str

pub record TriggerSpec : Type 0 where
  pub id : Str
  pub sha256 : Str
  pub url : Str

-- The first URL of a trigger that is not empty, with its checksum.
unfoldable pub first_url : List TriggerSpec → Option TriggerSpec
first_url [] = none
first_url (spec ∷ specs) = if str_eq spec.url [] then first_url specs else some spec

-- The loop over the Kabanero definitions, each by its triggers.
unfoldable pub first_trigger : List (List TriggerSpec) → Option TriggerSpec
first_trigger [] = none
first_trigger (triggers ∷ kabaneros) = elim (first_url triggers) [
  | some spec ↦ some spec
  | none ↦ first_trigger kabaneros
]

parsed : (Str → Error ⊎ Url) → Option TriggerSpec → Error ⊎ (Url × Str)
parsed parse none = inl no_trigger_url
parsed parse (some spec) = elim (parse spec.url) [
  | inl e ↦ inl e
  | inr url ↦ inr (url, spec.sha256)
]

-- `GetTriggerInfo`; `list_kabaneros` is the client's listing of a namespace, `parse` is `url.Parse`.
unfoldable pub get_trigger_info :
    (Str → Error ⊎ List (List TriggerSpec)) → (Str → Error ⊎ Url) → Str → Error ⊎ (Url × Str)
unfolding parsed
get_trigger_info list_kabaneros parse namespace = elim (list_kabaneros namespace) [
  | inl e ↦ inl e
  | inr kabaneros ↦ parsed parse (first_trigger kabaneros)
]

-- `klog.Fatal` at an error.
unfoldable pub fatal : {A : Type 0} → Result A → Result A
fatal (ok a) = ok a
fatal (err e) = panic
fatal panic = panic
fatal out_of_fuel = out_of_fuel

-- What `GetTriggerFiles` calls: `GetTriggerInfo` at a namespace, and `ioutil.TempDir`.
pub record Source : Type 0 where
  pub trigger_info : Str → Error ⊎ (Url × Str)
  pub temp_dir : List Effect → Error ⊎ Str

unfoldable pub is_local : Url → Bool
is_local url = str_eq url.scheme [] || str_eq url.scheme (lit "file")

module _ (getenv : Str → Str) (source : Source) (site : Site) where
  -- An error of `GetTriggerInfo` ends the process. No checksum comes with a URL that is given.
  unfoldable pub trigger_url : Option Url → Str → Exec (Url × Str)
  trigger_url (some url) namespace = pure (url, [])
  trigger_url none namespace = recover fatal (of_sum (source.trigger_info namespace))

  pub temp_directory : Exec Str
  temp_directory w =
      of_sum
        (elim (source.temp_dir w.trace) [ inl e ↦ inl temporary_directory | inr dir ↦ inr dir ]) w

  unfoldable pub fetch_files : Url → Str → Bool → Exec Str
  unfolding temp_directory
  fetch_files url trigger_chk_sum skip_chk_sum_verify = do
    trigger_dir ← temp_directory
    recover (wrapped download_failed)
        (download_trigger site url.text trigger_chk_sum trigger_dir (not skip_chk_sum_verify))
    pure trigger_dir

  unfoldable pub get_trigger_files : Option Url → Bool → Exec Str
  get_trigger_files url skip_chk_sum_verify = do
    namespace ← get_kabanero_namespace getenv
    (found, trigger_chk_sum) ← trigger_url url namespace
    if is_local found
        then pure found.path
        else fetch_files found trigger_chk_sum skip_chk_sum_verify
