-- ===== src/Trigger/Library.antt =====
-- pkg/trigger/trigger.go: `splitCEL`, `jobIDCEL`, `kabaneroConfigCEL` and `downloadYAMLCEL`, the functions
-- that expressions call for text, time, configuration and files of a repository.
pub mod Split
pub mod Quiet
pub mod Content
pub mod Typed
mod Tests
use kabanero_events.Prelude.{
  ℕ, zero, suc, ◌-◌, Bool, true, false, ◌⊎◌, inl, inr, Option, none, some, List, [], ◌∷◌, Str, lit,
  str_eq, length, has_prefix, push_byte, if◌then◌else◌,
}
use kabanero_events.Go.Value.{Val}
use kabanero_events.Go.Exec.{
  World, Exec, Error, Result, ok, err, pure, throw, reads, recover, load, store, alloc, ◌>>=◌, ◌>>◌,
  bad_argument, no_body_parameter, body_parameter_not_map, no_header_parameter,
  header_parameter_not_map,
}
use kabanero_events.Trigger.Engine.{Out, Calls}
use kabanero_events.Trigger.Convert.{text, convert_to_header_map, array_of}
use kabanero_events.Trigger.Function.{binary}
use kabanero_events.Kabanero.{get_kabanero_namespace}
use kabanero_events.Timestamp.{get_timestamp}
use kabanero_events.GitHub.{GitHub, Download, present, as_map, download_yaml}

-- The surroundings of these functions.
pub record Library : Type 0 where
  pub github : GitHub
  -- the clock, and how often it is read at most
  pub clock : ℕ → ℕ
  pub clock_fuel : ℕ
  -- `strings.Split(s, "")`: the characters
  pub explode : Str → List Str
  -- `fmt.Sprintf("%v", err)`
  pub error_text : Error → Str

-- `strings.Split` at a separator that is not empty; the number counts the bytes of a separator
-- that are still to be left out.
unfoldable pub split_at : Str → ℕ → Str → List Str
split_at sep skip [] = [] ∷ []
split_at sep (suc skip) (c ∷ s) = split_at sep skip s
split_at sep zero (c ∷ s) =
    let found = split_at sep (length sep - 1) s in
    let other = split_at sep 0 s in if has_prefix (c ∷ s) sep then [] ∷ found else push_byte c other

unfoldable pub strings_split : (Str → List Str) → Str → Str → List Str
strings_split explode s [] = explode s
strings_split explode s (c ∷ sep) = split_at (c ∷ sep) 0 s

-- The argument is a Go map.
map_argument : Val → Exec ℕ
map_argument (Val.object a) = pure a
map_argument _ = throw bad_argument

file_argument : Val → Exec Str
file_argument (Val.string s) = pure s
file_argument _ = throw bad_argument

-- An error of `convertToHeaderMap` becomes the error of the parameter.
header_error : Result (List (Str × List Str)) → Result (List (Str × List Str))
header_error (err _) = err header_parameter_not_map
header_error r = r

module _ (lib : Library) where
  -- `splitCEL`
  unfoldable pub split_cel : Val → Val → Exec Out
  split_cel (Val.string s) (Val.string sep) = pure (record {
    type_name = lit "list";
    value = Val.array (array_of (strings_split lib.explode s sep));
  })
  split_cel _ _ = throw bad_argument

  -- `jobIDCEL`
  unfoldable pub job_id_cel : Exec Out
  job_id_cel = do s ← get_timestamp lib.clock lib.clock_fuel; pure (text s)

  -- `kabaneroConfigCEL`
  unfoldable pub kabanero_config_cel : Exec Out
  kabanero_config_cel = do
    ret ← alloc
    namespace ← get_kabanero_namespace lib.github.getenv
    store ret (lit "namespace") (Val.string namespace)
    pure (record { type_name = lit "map"; value = Val.object ret })

  -- The entries of the result of `downloadYAMLCEL`.
  unfoldable pub store_download : ℕ → Download ℕ → Exec (Unit {0})
  store_download ret (exists, inl e) = do
    store ret (lit "exists") (Val.bool exists)
    store ret (lit "error") (Val.string (lib.error_text e))
  store_download ret (exists, inr content) = do
    store ret (lit "exists") (Val.bool exists)
    store ret (lit "content") (Val.object content)

  unfoldable pub download_into : List (Str × List Str) → ℕ → Str → Exec Out
  download_into header body file_name = do
    ret ← alloc
    downloaded ← download_yaml lib.github header body file_name
    store_download ret downloaded
    pure (record { type_name = lit "map"; value = Val.object ret })

  -- `downloadYAMLCEL`
  unfoldable pub download_yaml_cel : Val → Val → Exec Out
  unfolding map_argument file_argument header_error
  download_yaml_cel webhook_message file_name_val = do
    message ← map_argument webhook_message
    body_obj ← load message (lit "body") >>= present no_body_parameter
    body ← as_map body_parameter_not_map body_obj
    header_obj ← load message (lit "header") >>= present no_header_parameter
    header ← recover header_error (reads (λ w. convert_to_header_map w header_obj))
    file_name ← file_argument file_name_val
    download_into header body file_name

  -- The table of `initCELFuncs`, as far as these functions stand in it.
  unfoldable pub library_calls : Calls
  library_calls name args =
      if str_eq name (lit "split")
      then binary (λ a b. split_cel a.value b.value) args
      else if str_eq name (lit "jobID")
      then job_id_cel
      else if str_eq name (lit "kabaneroConfig")
      then kabanero_config_cel
      else if str_eq name (lit "downloadYAML")
      then binary (λ a b. download_yaml_cel a.value b.value) args
      else throw bad_argument
