-- ===== src/Trigger/Function.antt =====
-- pkg/trigger/trigger.go: the functions that trigger expressions call, and `initCELFuncs`.
pub mod DryRun
pub mod Overloads
pub mod Typed
pub mod Applied
mod Tests
use kabanero_events.Prelude.{
  ℕ, zero, suc, ◌-◌, Bool, true, false, ◌⊎◌, inl, inr, Option, none, some, List, [], ◌∷◌, ◌++◌, Str,
  lit, str_eq, length, take, leb, get_or, ℤ, pos, negsuc, if◌then◌else◌,
}
use kabanero_events.Go.Assoc.{lookup}
use kabanero_events.Go.Value.{Yaml, Seq, Object, get, Val, Array, Dict}
use kabanero_events.Go.Exec.{
  Exec, Error, Result, ok, err, panic, out_of_fuel, World, pure, throw, lift, of_sum, reads,
  recover, ◌>>=◌, ◌>>◌, load, store, alloc, bad_argument, no_function, no_input, input_not_string,
  no_output, output_not_string, no_body, body_not_list, output_not_set, unsupported_type,
  not_header_map, not_filterable,
}
use kabanero_events.Label.{to_domain_name, to_label}
use kabanero_events.Messages.{Network, Service, send}
use kabanero_events.FilePath.{merge_path_with_error_check}
use kabanero_events.Resource.{Cluster, create_resource}
use kabanero_events.Trigger.Engine.{Engine, Out, Calls, string_type, any_type}
use kabanero_events.Trigger.Convert.{text, convert_to_ref_val, convert_to_header_map, array_of}
use kabanero_events.Trigger.Definition.{TriggerDefinition, is_dry_run, Files, find_files}
use kabanero_events.Trigger.Variable.{initialize_empty_cel_env, create_one_variable, eval_condition}
use kabanero_events.Trigger.Eval.{eval_array_object}
use kabanero_events.Trigger.Filter.{check_some, string_of, filter}

-- What surrounds the processor: its clients, its files and the code that it does not hold.
pub record Host : Type 1 where
  pub network : Network
  pub service : Service
  pub cluster : Cluster
  pub files : Files
  pub getwd : Error ⊎ Str
  -- `ioutil.ReadFile` as text
  pub read_file : Str → Error ⊎ Str
  -- text/template: `Parse`, and `Execute` into a buffer, on the maps of a world
  pub Template : Type 0
  pub parse_template : Str → Error ⊎ Template
  pub execute_template : World → Template → Val → Result Str
  -- `json.Marshal`
  pub marshal : World → Val → Result Str
  pub unicode_lower : Str → Str
  pub to_lower : Str → Str

-- `valToString` and `valToInt`
val_to_string : Val → Exec Str
val_to_string (Val.string s) = pure s
val_to_string _ = throw bad_argument

val_to_int : Val → Exec ℤ
val_to_int (Val.int64 n) = pure n
val_to_int _ = throw bad_argument

-- `str[:index]`: a negative index panics, and one past the end gives the string back.
up_to : Str → ℤ → Exec Out
up_to s (pos index) = pure (text (if leb (length s) index then s else take index s))
up_to s (negsuc index) = lift panic

-- `substringCEL`
unfoldable pub substring : Val → Val → Exec Out
unfolding val_to_string val_to_int up_to
substring str_val index_val = do
  str ← val_to_string str_val
  index ← val_to_int index_val
  up_to str index

-- `functionDecl[key]` as a string, with the error of each check.
declared_string : Error → Error → Option Yaml → Exec Str
declared_string missing not_string none = throw missing
declared_string missing not_string (some (Yaml.string s)) = pure s
declared_string missing not_string (some _) = throw not_string

declared_body : Option Yaml → Exec Seq
declared_body none = throw no_body
declared_body (some (Yaml.seq body)) = pure body
declared_body (some _) = throw body_not_list

found : Option Object → Exec Object
found none = throw no_function
found (some f) = pure f

output_value : Option Val → Exec Out
output_value none = throw output_not_set
output_value (some v) = lift (convert_to_ref_val v)

-- The registered overloads take these numbers of arguments.
abbrev unary : (Out → Exec Out) → List Out → Exec Out
unary f (a ∷ []) = f a
unary f _ = throw bad_argument

abbrev pub binary : (Out → Out → Exec Out) → List Out → Exec Out
binary f (a ∷ b ∷ []) = f a b
binary f _ = throw bad_argument

module _ (E : Engine) (host : Host) (td : TriggerDefinition) (trigger_dir : Str) where
  open E use {Env, new_env, extend}

  module _ (calls : Calls) where
    -- `callCEL`
    unfoldable pub call : Val → Out → Exec Out
    unfolding declared_string declared_body found output_value
    call function_val param = do
      check_some param.value
      check_some function_val
      function ← string_of function_val
      decl ← found (lookup function td.functions)
      input ← declared_string no_input input_not_string (get (lit "input") decl)
      output ← declared_string no_output output_not_string (get (lit "output") decl)
      body ← declared_body (get (lit "body") decl)
      variables ← alloc
      env ← initialize_empty_cel_env E
      env' ← create_one_variable E env input param variables
      _ ← eval_array_object E calls env' variables body
      result ← load variables output
      output_value result

  -- `sendEventCEL`
  unfoldable pub send_event : List Out → Exec Out
  send_event (destination ∷ message ∷ context ∷ []) = do
    check_some message.value
    check_some destination.value
    dest ← string_of destination.value
    buf ← reads (λ w. host.marshal w message.value)
    header ← reads (λ w. convert_to_header_map w context.value)
    if is_dry_run td
        then pure (text [])
        else do send host.network host.service dest buf (Val.headers header); pure (text [])
  send_event _ = throw bad_argument

  -- `SubstituteTemplate`
  unfoldable pub substitute_template : Str → Val → Exec Str
  substitute_template template_str variables = do
    t ← of_sum (host.parse_template template_str)
    reads (λ w. host.execute_template w t variables)

  unfoldable pub substitute_template_file : Str → Val → Exec Str
  substitute_template_file file_name variables = do
    str ← of_sum (host.read_file file_name)
    substitute_template str variables

  substitute_all : Val → List Str → Exec (List Str)
  substitute_all variables [] = pure []
  substitute_all variables (path ∷ paths) = do
    after ← substitute_template_file path variables
    rest ← substitute_all variables paths
    pure (after ∷ rest)

  create_all : List Str → Exec (Unit {0})
  create_all [] = pure tt
  create_all (resource ∷ resources) = do
    create_resource host.to_lower host.cluster resource
    create_all resources

  -- `applyResourcesHelper`
  unfoldable pub apply_resources_helper : Str → Val → Bool → Exec (Unit {0})
  unfolding substitute_all create_all
  apply_resources_helper directory variables dry_run = do
    resource_dir ← of_sum (merge_path_with_error_check host.getwd trigger_dir directory)
    files ← of_sum (find_files host.files resource_dir (lit "yaml" ∷ lit "yml" ∷ []))
    substituted ← substitute_all variables files
    if dry_run then pure tt else create_all substituted

  -- An error becomes the text of the result.
  error_text : Result (Unit {0}) → Result Out
  error_text (ok _) = ok (text [])
  error_text (err _) = ok (text (lit "applyResources error  applying template "))
  error_text panic = panic
  error_text out_of_fuel = out_of_fuel

  -- `applyResourcesCEL`
  unfoldable pub apply_resources : Val → Val → Exec Out
  unfolding error_text
  apply_resources dir variables = do
    check_some variables
    check_some dir
    dir_str ← string_of dir
    recover error_text (apply_resources_helper dir_str variables (is_dry_run td))

  -- `toDomainNameCEL` and `toLabelCEL`
  convert : (Str → Str) → Val → Exec Out
  convert f (Val.string s) = pure (text (f s))
  convert f _ = throw bad_argument

  -- `remaining` holds the registered functions that stand elsewhere (Trigger/Library).
  module _ (remaining : Calls) where
    -- The table of `initCELFuncs`: the implementation by the operator's name.
    unfoldable pub dispatch : Calls → Str → List Out → Exec Out
    unfolding convert
    dispatch calls name args =
        if str_eq name (lit "filter")
        then binary (λ a b. filter E calls a.value b.value) args
        else if str_eq name (lit "call")
        then binary (λ a b. call calls a.value b) args
        else if str_eq name (lit "sendEvent")
        then send_event args
        else if str_eq name (lit "applyResources")
        then binary (λ a b. apply_resources a.value b.value) args
        else if str_eq name (lit "toDomainName")
        then unary (λ a. convert (to_domain_name host.unicode_lower) a.value) args
        else if str_eq name (lit "toLabel")
        then unary (λ a. convert (to_label host.unicode_lower) a.value) args
        else if str_eq name (lit "substring")
        then binary (λ a b. substring a.value b.value) args
        else remaining name args

    -- The functions as an expression calls them. A called function evaluates expressions that
    -- call functions in turn: fuel bounds how deep.
    unfoldable pub functions : ℕ → Calls
    functions zero name args w = (out_of_fuel, w)
    functions (suc fuel) name args w = dispatch (functions fuel) name args w
