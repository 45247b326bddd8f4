-- ===== src/Trigger/Definition.antt =====
-- pkg/trigger/trigger.go: the trigger definition, `isDryRun`, `ReadTriggerDefinition`, `findFiles`
-- and `Initialize`. An error leaves the definition as far as it was read, so it comes back too.
pub mod Gains
pub mod Whole
pub mod Loaded
pub mod Order
use kabanero_events.Prelude.{
  ◌⊎◌, inl, inr, Bool, true, false, Option, none, some, List, [], ◌∷◌, ◌++◌, Str, lit,
}
use kabanero_events.Go.Assoc.{lookup, insert}
use kabanero_events.Go.Value.{Yaml, Seq, Object, get}
use kabanero_events.Go.Exec.{
  Error, trigger_not_object, triggers_not_list, no_input, input_not_string, no_output,
  output_not_string, redeclared, functions_not_list, no_files,
}

pub record TriggerDefinition : Type 0 where
  pub setting : List Object
  pub event_triggers : List (Str × List Object)
  pub functions : List (Str × Object)

-- The first setting named "dryrun" that is a Boolean.
unfoldable pub dry_run_of : List Object → Bool
dry_run_of [] = false
dry_run_of (setting ∷ settings) = elim (get (lit "dryrun") setting) [
  | some value ↦ elim value [ Yaml.bool b ↦ b | _ ↦ dry_run_of settings ]
  | none ↦ dry_run_of settings
]

unfoldable pub is_dry_run : TriggerDefinition → Bool
is_dry_run td = dry_run_of td.setting

-- The definition as read so far, and the error that stopped the reading, if one did.
abbrev pub Read : Type 0
Read = TriggerDefinition × Option Error

abbrev pub and_then : Read → (TriggerDefinition → Read) → Read
and_then (td, none) next = next td
and_then (td, some e) next = (td, some e)

unfoldable pub read_settings : Option Yaml → TriggerDefinition → Read
read_settings (some (Yaml.mapping settings)) td =
    (record td { setting = td.setting ++ settings ∷ [] }, none)
read_settings _ td = (td, none)

-- The triggers of an event source, none if it has no entry yet.
unfoldable pub triggers_of : Str → List (Str × List Object) → List Object
triggers_of source triggers = elim (lookup source triggers) [ some existing ↦ existing | none ↦ [] ]

add_to : Option Yaml → Object → TriggerDefinition → TriggerDefinition
add_to (some (Yaml.string source)) trigger td = record td {
  event_triggers =
      insert source (triggers_of source td.event_triggers ++ trigger ∷ []) td.event_triggers;
}
add_to _ trigger td = td

-- One round of the loop over the event triggers.
unfoldable pub add_trigger : Yaml → TriggerDefinition → Read
unfolding add_to
add_trigger (Yaml.mapping trigger) td = (add_to (get (lit "eventSource") trigger) trigger td, none)
add_trigger _ td = (td, some trigger_not_object)

unfoldable pub add_triggers : Seq → TriggerDefinition → Read
add_triggers Seq.end td = (td, none)
add_triggers (Seq.item value rest) td = and_then (add_trigger value td) (add_triggers rest)

unfoldable pub read_triggers : Option Yaml → TriggerDefinition → Read
read_triggers none td = (td, none)
read_triggers (some (Yaml.seq triggers)) td = add_triggers triggers td
read_triggers (some _) td = (td, some triggers_not_list)

-- The checks on the input and the output of a function, in their order.
check_string : Error → Error → Option Yaml → Option Error
check_string missing not_string none = some missing
check_string missing not_string (some (Yaml.string _)) = none
check_string missing not_string (some _) = some not_string

unfoldable pub function_error : Object → Option Error
unfolding check_string
function_error function =
    elim (check_string no_input input_not_string (get (lit "input") function)) [
      | some e ↦ some e
      | none ↦ check_string no_output output_not_string (get (lit "output") function)
    ]

declare : Str → Object → TriggerDefinition → Read
declare name function td = elim (function_error function) [
  | some e ↦ (td, some e)
  | none ↦ elim (lookup name td.functions) [
    | some _ ↦ (td, some redeclared)
    | none ↦ (record td { functions = insert name function td.functions }, none)
  ]
]

add_named : Option Yaml → Object → TriggerDefinition → Read
unfolding declare
add_named (some (Yaml.string name)) function td = declare name function td
add_named _ function td = (td, none)

-- One round of the loop over the functions: what is no map or has no name is passed over.
unfoldable pub add_function : Yaml → TriggerDefinition → Read
unfolding add_named
add_function (Yaml.mapping function) td = add_named (get (lit "name") function) function td
add_function _ td = (td, none)

unfoldable pub add_functions : Seq → TriggerDefinition → Read
add_functions Seq.end td = (td, none)
add_functions (Seq.item value rest) td = and_then (add_function value td) (add_functions rest)

unfoldable pub read_functions : Option Yaml → TriggerDefinition → Read
read_functions none td = (td, none)
read_functions (some (Yaml.seq functions)) td = add_functions functions td
read_functions (some _) td = (td, some functions_not_list)

-- `ReadTriggerDefinition`, on the map that the file holds.
unfoldable pub read_trigger_definition : List (Str × Yaml) → TriggerDefinition → Read
read_trigger_definition yaml_map td =
    and_then (read_settings (lookup (lit "settings") yaml_map) td) (λ td₁.
      and_then (read_triggers (lookup (lit "eventTriggers") yaml_map) td₁)
        (λ td₂. read_functions (lookup (lit "functions") yaml_map) td₂))

abbrev pub empty_definition : TriggerDefinition
empty_definition = record { setting = []; event_triggers = []; functions = [] }

-- `filepath.Glob`, and `ioutil.ReadFile` with `yaml.Unmarshal` into a map: an error or a value.
pub record Files : Type 0 where
  pub glob : Str → Error ⊎ List Str
  pub read_yaml : Str → Error ⊎ List (Str × Yaml)

module _ (files : Files) where
  open files use {glob, read_yaml}

  unfoldable pub find_files : Str → List Str → Error ⊎ List Str
  find_files resource_dir [] = inr []
  find_files resource_dir (suffix ∷ suffixes) =
      elim (glob (resource_dir ++ lit "/" ++ lit "*" ++ suffix)) [
        | inl e ↦ inl e
        | inr names ↦ elim (find_files resource_dir suffixes) [
          | inl e ↦ inl e
          | inr rest ↦ inr (names ++ rest)
        ]
      ]

  read_file : Str → TriggerDefinition → Read
  read_file name td = elim (read_yaml name) [
    | inl e ↦ (td, some e)
    | inr yaml_map ↦ read_trigger_definition yaml_map td
  ]

  unfoldable pub read_files : List Str → TriggerDefinition → Read
  unfolding read_file
  read_files [] td = (td, none)
  read_files (name ∷ names) td = and_then (read_file name td) (read_files names)

  -- `Initialize`: the trigger definition of a directory.
  unfoldable pub initialize : Str → Read
  initialize dir = elim (find_files dir (lit ".yaml" ∷ lit ".yml" ∷ [])) [
    | inl e ↦ (empty_definition, some e)
    | inr [] ↦ (empty_definition, some no_files)
    | inr (name ∷ names) ↦ read_files (name ∷ names) empty_definition
  ]
