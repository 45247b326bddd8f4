-- ===== src/Go/Exec.antt =====
-- Code that reads and writes maps, acts on the outside and may fail. What was done before an
-- error stays done, so the state comes back beside every result.
use kabanero_events.Prelude.{
  ℕ, ◌⊎◌, inl, inr, zero, suc, Bool, Option, List, [], ◌∷◌, ◌++◌, Str, length, get_or,
}
use kabanero_events.Go.Assoc.{lookup, insert}
use kabanero_events.Go.Value.{Val}

-- One constructor for each place where the program makes an error, and `library` for the errors
-- that it passes on.
pub data Error : Type 0 where
  library : Str → Error
  -- pkg/messages
  no_node no_provider unknown_provider_type header_not_map http_status : Error
  -- pkg/trigger, evaluation
  not_an_object switch_keywords switch_assignment body_keywords body_assignment : Error
  default_outside_switch multiple_assignments name_not_string value_not_primitive : Error
  body_not_list if_keywords if_other_keyword if_mixed condition_not_string : Error
  no_switch switch_not_list case_not_object default_not_alone two_defaults : Error
  default_not_list case_unsupported component_not_map cast_failed type_unusable : Error
  condition_not_bool : Error
  -- pkg/trigger, trigger objects and definitions
  no_event_source event_source_not_string no_input input_not_string no_body : Error
  no_trigger trigger_not_object triggers_not_list no_output output_not_string : Error
  redeclared functions_not_list no_files : Error
  -- pkg/trigger, functions called from CEL
  bad_argument no_function output_not_set unsupported_type not_header_map not_filterable : Error
  -- pkg/trigger, resources
  no_api_version api_version_not_string bad_api_version no_kind kind_not_string : Error
  no_metadata metadata_not_map labels_not_map no_name resource_name_not_string : Error
  no_namespace namespace_not_string namespace_empty gvr_failed : Error
  -- pkg/utils
  path_outside no_secret no_username no_password no_trigger_url temporary_directory
        download_failed :
      Error
  checksum_failed file_not_created file_not_read file_not_closed directory_not_made
        file_type_unsupported :
      Error
  no_after after_not_string no_pull_request pull_request_not_map no_head head_not_map no_sha : Error
  sha_not_string no_repository repository_not_map no_repository_name repository_name_not_string :
      Error
  no_owner owner_not_map no_login login_not_string no_html_url html_url_not_string : Error
  no_repository_info no_credentials content_missing not_a_file github_status : Error
  -- pkg/trigger, downloadYAML
  no_body_parameter body_parameter_not_map no_header_parameter header_parameter_not_map : Error

-- `panic` is a Go run-time panic, or the end of the process by `klog.Fatal`; `out_of_fuel` stands for a run that goes on past its fuel.
pub data Result {ℓ} (A : Type ℓ) : Type ℓ where
  ok : A → Result A
  err : Error → Result A
  panic : Result A
  out_of_fuel : Result A

-- An HTTP POST: the client's TLS check and timeout, the headers in the order in which they are
-- added.
pub record Request : Type 0 where
  pub url : Str
  pub insecure_skip_verify : Bool
  pub timeout : ℕ
  pub headers : List (Str × Str)
  pub payload : Str

-- What the process does to the outside.
pub data Effect : Type 0 where
  post : Request → Effect
  -- a NATS publish: URL, topic, payload; and a NATS flush: URL
  publish : Str → Str → Str → Effect
  flush : Str → Effect
  -- a NATS subscription: URL, topic
  subscribe : Str → Str → Effect
  -- a file downloaded, a file created or opened for writing, a directory made
  download create_file make_directory : Str → Effect
  -- a resource created in the cluster: group, version, resource, namespace, text
  create : Str → Str → Str → Str → Str → Effect

-- The maps by address; the effects so far, the first one first; the package variables
-- `kabaneroNamespace` ("" before it is set) and `lastTime`; and how often the clock was read.
pub record World : Type 0 where
  pub heap : List (List (Str × Val))
  pub trace : List Effect
  pub namespace : Str
  pub last_time : ℕ
  pub readings : ℕ
  -- the files that the process has written, by path
  pub files : List (Str × Str)

abbrev pub Exec {ℓ} : Type ℓ → Type ℓ
Exec A = World → Result A × World

module _ {ℓ} {A : Type ℓ} where
  pub pure : A → Exec A
  pure a w = (ok a, w)

  pub throw : Error → Exec A
  throw e w = (err e, w)

  pub lift : Result A → Exec A
  lift r w = (r, w)

  -- The result of a call that returns an error or a value.
  pub of_sum : Error ⊎ A → Exec A
  of_sum (inl e) w = (err e, w)
  of_sum (inr a) w = (ok a, w)

  -- A call that only reads the maps.
  pub reads : (World → Result A) → Exec A
  reads f w = (f w, w)

module _ {ℓ κ} {A : Type ℓ} {B : Type κ} where
  pub continue : Result A → (A → Exec B) → Exec B
  continue (ok a) f w = f a w
  continue (err e) f w = (err e, w)
  continue panic f w = (panic, w)
  continue out_of_fuel f w = (out_of_fuel, w)

  infixl 10 ◌>>=◌
  -- Opening this opens what stands above, too.
  unfoldable pub ◌>>=◌ : Exec A → (A → Exec B) → Exec B
  unfolding continue pure throw lift of_sum reads
  ◌>>=◌ m f w = continue (m w).0 f (m w).1

  -- The result is made into another one, errors included.
  unfoldable pub recover : (Result A → Result B) → Exec A → Exec B
  recover f m w = (f (m w).0, (m w).1)

infixl 10 ◌>>◌
abbrev pub ◌>>◌ {ℓ} : {B : Type ℓ} → Exec (Unit {0}) → Exec B → Exec B
m >> k = m >>= λ _. k

-- A write at an address that is not there changes nothing; addresses come from `alloc` only.
unfoldable pub update : List (List (Str × Val)) → ℕ → Str → Val → List (List (Str × Val))
update [] i k v = []
update (m ∷ ms) zero k v = insert k v m ∷ ms
update (m ∷ ms) (suc i) k v = m ∷ update ms i k v

-- `v, ok := m[k]`
unfoldable pub load : ℕ → Str → Exec (Option Val)
load a k w = (ok (lookup k (get_or w.heap a [])), w)

-- `m[k] = v`
unfoldable pub store : ℕ → Str → Val → Exec (Unit {0})
store a k v w = (ok tt, record w { heap = update w.heap a k v })

-- `make(map[string]interface{})`
unfoldable pub alloc : Exec ℕ
alloc w = (ok (length w.heap), record w { heap = w.heap ++ [] ∷ [] })

-- The outside: its answer to an act after a history of acts, an error or a number (an HTTP
-- status; nothing is read of the number for the other acts).
abbrev pub Outside : Type 0
Outside = List Effect → Effect → Result ℕ

unfoldable pub act : Outside → Effect → Exec ℕ
act outside e w = (outside w.trace e, record w { trace = w.trace ++ e ∷ [] })

-- The result is not used.
abbrev pub ignore {ℓ} : {A : Type ℓ} → Exec A → Exec (Unit {0})
ignore m = m >>= λ _. pure tt
