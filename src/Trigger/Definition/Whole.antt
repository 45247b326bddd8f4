-- ===== src/Trigger/Definition/Whole.antt =====
-- What a trigger definition that is read without an error holds.
use mathlib.Core.Path.{subst}
use mathlib.Core.List.{append-nil}
use kabanero_events.Prelude.{
  ◌≡◌, refl, ap, ◌∙◌, ◌⊎◌, inl, inr, Option, none, some, List, [], ◌∷◌, ◌++◌, Str, lit,
}
use kabanero_events.Go.Assoc.{lookup}
use kabanero_events.Go.Value.{Yaml, Seq, Object}
use kabanero_events.Go.Exec.{Error, no_files}
use kabanero_events.Trigger.Definition.{
  TriggerDefinition, Read, read_settings, triggers_of, read_triggers, read_functions,
  read_trigger_definition, Files, find_files, read_file, read_files, initialize, empty_definition,
}
use kabanero_events.Trigger.Definition.Order.{named}
use kabanero_events.Trigger.Definition.Loaded.{IsLoaded, initialize-IsLoaded}
use kabanero_events.Trigger.Definition.Gains.{
  or_else, seq_under, function_named, Gains, Gains-nothing, Gains-same, Gains-trans, and_then-none,
  read_settings-Gains, add_triggers-Gains,
}
use kabanero_events.Trigger.Definition.Gains.Functions.{add_functions-Gains}

read_triggers-Gains :
    (yaml_map : List (Str × Yaml)) (td td' : TriggerDefinition)
    → read_triggers (lookup (lit "eventTriggers") yaml_map) td ≡ (td', none)
    → Gains td td' (λ source. named source (seq_under (lit "eventTriggers") yaml_map)) (λ _. none)
unfolding seq_under read_triggers named
read_triggers-Gains yaml_map td td' h = go (lookup (lit "eventTriggers") yaml_map) h
  where
    go :
        (o : Option Yaml)
        → read_triggers o td ≡ (td', none)
        → Gains td td'
            (λ source. named source (elim o as (λ _. Seq) [
              | some value ↦ elim value as (λ _. Seq) [ Yaml.seq s ↦ s | _ ↦ Seq.end ]
              | none ↦ Seq.end
            ]))
            (λ _. none)
    go none e =
        subst (λ x. Gains td x (λ _. []) (λ _. none)) (ap (λ (r : Read). r.0) e) (Gains-nothing td)
    go (some (Yaml.seq triggers)) e =
        subst (λ x. Gains td x (λ source. named source triggers) (λ _. none))
          (ap (λ (r : Read). r.0) e) (add_triggers-Gains triggers td)
    go (some _) e = absurd (cc (ap (λ (r : Read). r.1) e))

read_functions-Gains :
    (yaml_map : List (Str × Yaml)) (td td' : TriggerDefinition)
    → read_functions (lookup (lit "functions") yaml_map) td ≡ (td', none)
    → Gains td td' (λ _. []) (λ name. function_named name (seq_under (lit "functions") yaml_map))
unfolding seq_under read_functions function_named
read_functions-Gains yaml_map td td' h = go (lookup (lit "functions") yaml_map) h
  where
    go :
        (o : Option Yaml)
        → read_functions o td ≡ (td', none)
        → Gains td td'
            (λ _. [])
            (λ name. function_named name (elim o as (λ _. Seq) [
              | some value ↦ elim value as (λ _. Seq) [ Yaml.seq s ↦ s | _ ↦ Seq.end ]
              | none ↦ Seq.end
            ]))
    go none e =
        subst (λ x. Gains td x (λ _. []) (λ _. none)) (ap (λ (r : Read). r.0) e) (Gains-nothing td)
    go (some (Yaml.seq functions)) e = add_functions-Gains functions td td' e
    go (some _) e = absurd (cc (ap (λ (r : Read). r.1) e))

-- The triggers of an event source in one file, and the function of a name in it.
unfoldable pub file_triggers : Str → Error ⊎ List (Str × Yaml) → List Object
file_triggers source (inl e) = []
file_triggers source (inr yaml_map) = named source (seq_under (lit "eventTriggers") yaml_map)

unfoldable pub file_function : Str → Error ⊎ List (Str × Yaml) → Option Object
file_function name (inl e) = none
file_function name (inr yaml_map) = function_named name (seq_under (lit "functions") yaml_map)

read_trigger_definition-Gains :
    (yaml_map : List (Str × Yaml)) (td td' : TriggerDefinition)
    → read_trigger_definition yaml_map td ≡ (td', none)
    → Gains td td'
        (λ source. file_triggers source (inr yaml_map))
        (λ name. file_function name (inr yaml_map))
unfolding read_trigger_definition file_triggers file_function or_else
read_trigger_definition-Gains yaml_map td td' h =
    let r = read_settings (lookup (lit "settings") yaml_map) td in
    let (e, k) = and_then-none r _ h in
    let r₁ = read_triggers (lookup (lit "eventTriggers") yaml_map) r.0 in
    let (f, l) = and_then-none r₁ _ k in
    Gains-same
      (Gains-trans (read_settings-Gains (lookup (lit "settings") yaml_map) td) (
        Gains-trans (read_triggers-Gains yaml_map r.0 r₁.0 f)
          (read_functions-Gains yaml_map r₁.0 td' l)))
      (λ source. append-nil (named source (seq_under (lit "eventTriggers") yaml_map)))
      (λ name. refl)

module _ (files : Files) where
  -- The triggers of an event source in these files, in their order, and the function of a name.
  unfoldable pub triggers_in : Str → List Str → List Object
  triggers_in source [] = []
  triggers_in source (name ∷ names) =
      file_triggers source (files.read_yaml name) ++ triggers_in source names

  unfoldable pub function_in : Str → List Str → Option Object
  function_in name [] = none
  function_in name (file ∷ rest) =
      or_else (file_function name (files.read_yaml file)) (function_in name rest)

  read_file-Gains :
      (file : Str) (td td' : TriggerDefinition)
      → read_file files file td ≡ (td', none)
      → Gains td td'
          (λ source. file_triggers source (files.read_yaml file))
          (λ name. file_function name (files.read_yaml file))
  unfolding read_file
  read_file-Gains file td td' h = go (files.read_yaml file) h
    where
      go :
          (r : Error ⊎ List (Str × Yaml))
          → (elim r as (λ _. Read) [
            | inl e ↦ (td, some e)
            | inr yaml_map ↦ read_trigger_definition yaml_map td
          ])
            ≡ (td', none)
          → Gains td td' (λ source. file_triggers source r) (λ name. file_function name r)
      go (inl e) k = absurd (cc (ap (λ (r : Read). r.1) k))
      go (inr yaml_map) k = read_trigger_definition-Gains yaml_map td td' k

  read_files-Gains :
      (names : List Str) (td td' : TriggerDefinition)
      → read_files files names td ≡ (td', none)
      → Gains td td' (λ source. triggers_in source names) (λ name. function_in name names)
  unfolding read_files triggers_in function_in
  read_files-Gains [] td td' h =
      subst (λ x. Gains td x (λ _. []) (λ _. none)) (ap (λ (r : Read). r.0) h) (Gains-nothing td)
  read_files-Gains (file ∷ names) td td' h =
      let r = read_file files file td in
      let (e, k) = and_then-none r (read_files files names) h in
      Gains-trans (read_file-Gains file td r.0 e) (read_files-Gains names r.0 td' k)

  -- A definition has the triggers and the functions of the files of a directory: each event source
  -- the triggers that name it, each name the first function of this name.
  pub record IsWhole (dir : Str) (td : TriggerDefinition) : Type 0 where
    pub names : List Str
    pub found : find_files files dir (lit ".yaml" ∷ lit ".yml" ∷ []) ≡ inr names
    pub triggers : (source : Str) → triggers_of source td.event_triggers ≡ triggers_in source names
    pub functions : (name : Str) → lookup name td.functions ≡ function_in name names
    pub loaded : IsLoaded td

  -- Where `Initialize` returns no error, each event source has exactly the triggers of the files that
  -- name it, in the order of the files, each name has the function of this name in the files, and
  -- each function has an input and an output that are strings.
  pub initialize-IsWhole :
      (dir : Str) (td : TriggerDefinition) → initialize files dir ≡ (td, none) → IsWhole dir td
  unfolding initialize triggers_of lookup or_else
  initialize-IsWhole dir td h =
      let (names, found, read) = go (find_files files dir (lit ".yaml" ∷ lit ".yml" ∷ [])) refl h in
      let gains = read_files-Gains names empty_definition td read in
      record {
        names = names;
        found = found;
        triggers = λ source. gains.in_order source ∙ nothing source names;
        functions = gains.by_name;
        loaded = subst IsLoaded (ap (λ (r : Read). r.0) h) (initialize-IsLoaded files dir);
      }
    where
      nothing :
          (source : Str) (names : List Str)
          → triggers_of source empty_definition.event_triggers ++ triggers_in source names
            ≡ triggers_in source names
      nothing source names = refl

      go :
          (r : Error ⊎ List Str)
          → find_files files dir (lit ".yaml" ∷ lit ".yml" ∷ []) ≡ r
          → (elim r as (λ _. Read) [
            | inl e ↦ (empty_definition, some e)
            | inr [] ↦ (empty_definition, some no_files)
            | inr (name ∷ names) ↦ read_files files (name ∷ names) empty_definition
          ])
            ≡ (td, none)
          → (names : List Str) × (find_files files dir (lit ".yaml" ∷ lit ".yml" ∷ []) ≡ inr names)
            × (read_files files names empty_definition ≡ (td, none))
      go (inl e) f k = absurd (cc (ap (λ (r : Read). r.1) k))
      go (inr []) f k = absurd (cc (ap (λ (r : Read). r.1) k))
      go (inr (name ∷ names)) f k = (name ∷ names, f, k)
