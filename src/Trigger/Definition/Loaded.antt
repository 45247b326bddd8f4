-- ===== src/Trigger/Definition/Loaded.antt =====
-- What holds of a trigger definition that was read from files, also where an error stopped the
-- reading.
use kabanero_events.Prelude.{
  ◌≡◌, refl, inl, inr, ◌⊎◌, Bool, true, false, Bool-cases, Option, none, some, Option-cases, List,
  [], ◌∷◌, Str, lit, All, All-append, str_eq, str_eq_iff, if◌then◌else◌,
}
use kabanero_events.Go.Assoc.{lookup, insert}
use kabanero_events.Go.Value.{Yaml, Seq, Object, get}
use kabanero_events.Go.Exec.{Error, no_files, no_input, input_not_string}
use kabanero_events.Trigger.Definition.{
  TriggerDefinition, Read, and_then, read_settings, triggers_of, add_to, add_trigger, add_triggers,
  read_triggers, check_string, function_error, declare, add_named, add_function, add_functions,
  read_functions, read_trigger_definition, Files, find_files, read_file, read_files, initialize,
  empty_definition,
}

All-insert {ℓ κ} :
    {V : Type ℓ} (P : Str × V → Type κ) (k : Str) (v : V) (m : List (Str × V))
    → P (k, v)
    → All P m
    → All P (insert k v m)
unfolding insert
All-insert P k v [] h hs = (h, tt)
All-insert P k v ((j, w) ∷ m) h hs = go (str_eq j k) (All-insert P k v m h hs.1)
  where
    go : (b : Bool) → All P (insert k v m) → All P (if b then (k, v) ∷ m else (j, w) ∷ insert k v m)
    go true ih = (h, hs.1)
    go false ih = (hs.0, ih)

-- A trigger stands in the list of the event source that it names.
abbrev pub IsFiled : Str × List Object → Type 0
IsFiled (source, triggers) =
    All (λ trigger. get (lit "eventSource") trigger ≡ some (Yaml.string source)) triggers

-- A function stands under the name that it has, with an input and an output that are strings.
abbrev pub IsDeclared : Str × Object → Type 0
IsDeclared (name, function) =
    (get (lit "name") function ≡ some (Yaml.string name))
    × ((input : Str) × (get (lit "input") function ≡ some (Yaml.string input)))
    × ((output : Str) × (get (lit "output") function ≡ some (Yaml.string output)))

check_string-none :
    (missing not_string : Error) (o : Option Yaml)
    → check_string missing not_string o ≡ none
    → (s : Str) × (o ≡ some (Yaml.string s))
unfolding check_string
check_string-none missing not_string none h = absurd (cc h)
check_string-none missing not_string (some (Yaml.string s)) h = (s, refl)
check_string-none missing not_string (some _) h = absurd (cc h)

-- The code's checks find no error only where both are strings.
function_error-none :
    (function : Object)
    → function_error function ≡ none
    → ((input : Str) × (get (lit "input") function ≡ some (Yaml.string input)))
      × ((output : Str) × (get (lit "output") function ≡ some (Yaml.string output)))
unfolding function_error
function_error-none function h =
    let (p, q) = both (check_string no_input input_not_string (get (lit "input") function)) h in
    (check_string-none _ _ _ p, check_string-none _ _ _ q)
  where
    both :
        (o : Option Error) {p : Option Error}
        → (elim o as (λ _. Option Error) [ some e ↦ some e | none ↦ p ]) ≡ none
        → (o ≡ none) × (p ≡ none)
    both none h = (refl, h)
    both (some e) h = absurd (cc h)

pub record IsLoaded (td : TriggerDefinition) : Type 0 where
  pub filed : All IsFiled td.event_triggers
  pub declared : All IsDeclared td.functions

-- The triggers found under a source are filed under it.
triggers_of-IsFiled :
    (source : Str) (m : List (Str × List Object))
    → All IsFiled m
    → IsFiled (source, triggers_of source m)
unfolding triggers_of lookup
triggers_of-IsFiled source [] h = tt
triggers_of-IsFiled source ((j, triggers) ∷ m) h = elim (Bool-cases (str_eq j source)) [
  | inl f ↦ rw (triggers_of, lookup, f) (rw ((str_eq_iff j source).0 f) at h.0)
  | inr f ↦ rw (triggers_of, lookup, f) (triggers_of-IsFiled source m h.1)
]

and_then-IsLoaded :
    (r : Read) (next : TriggerDefinition → Read)
    → IsLoaded r.0
    → ((td : TriggerDefinition) → IsLoaded td → IsLoaded (next td).0)
    → IsLoaded (and_then r next).0
and_then-IsLoaded (td, none) next h k = k td h
and_then-IsLoaded (td, some e) next h k = h

read_settings-IsLoaded :
    (o : Option Yaml) (td : TriggerDefinition) → IsLoaded td → IsLoaded (read_settings o td).0
unfolding read_settings
read_settings-IsLoaded (some (Yaml.mapping settings)) td h = record {
  filed = h.filed;
  declared = h.declared;
}
read_settings-IsLoaded _ td h = h

add_to-IsLoaded :
    (o : Option Yaml) (trigger : Object) (td : TriggerDefinition)
    → get (lit "eventSource") trigger ≡ o
    → IsLoaded td
    → IsLoaded (add_to o trigger td)
unfolding add_to
add_to-IsLoaded (some (Yaml.string source)) trigger td e h = record {
  filed =
      All-insert IsFiled source _ td.event_triggers
        (All-append (λ t. get (lit "eventSource") t ≡ some (Yaml.string source))
          (triggers_of source td.event_triggers) (trigger ∷ [])
          (triggers_of-IsFiled source td.event_triggers h.filed) (e, tt))
        h.filed;
  declared = h.declared;
}
add_to-IsLoaded _ trigger td e h = h

add_triggers-IsLoaded :
    (triggers : Seq) (td : TriggerDefinition) → IsLoaded td → IsLoaded (add_triggers triggers td).0
unfolding add_triggers add_trigger
add_triggers-IsLoaded Seq.end td h = h
add_triggers-IsLoaded (Seq.item (Yaml.mapping trigger) rest) td h =
    add_triggers-IsLoaded rest _
      (add_to-IsLoaded (get (lit "eventSource") trigger) trigger td refl h)
add_triggers-IsLoaded (Seq.item _ rest) td h = h

read_triggers-IsLoaded :
    (o : Option Yaml) (td : TriggerDefinition) → IsLoaded td → IsLoaded (read_triggers o td).0
unfolding read_triggers
read_triggers-IsLoaded none td h = h
read_triggers-IsLoaded (some (Yaml.seq triggers)) td h = add_triggers-IsLoaded triggers td h
read_triggers-IsLoaded (some _) td h = h

declare-IsLoaded :
    (name : Str) (function : Object) (td : TriggerDefinition)
    → get (lit "name") function ≡ some (Yaml.string name)
    → IsLoaded td
    → IsLoaded (declare name function td).0
unfolding declare
declare-IsLoaded name function td e h = elim (Option-cases (function_error function)) [
  | inr (error, f) ↦ rw (declare, f) h
  | inl f ↦ elim (Option-cases (lookup name td.functions)) [
    | inr (other, g) ↦ rw (declare, f, g) h
    | inl g ↦
        rw (declare, f, g)
          (record {
            filed = h.filed;
            declared =
                All-insert IsDeclared name function td.functions
                  (e, (function_error-none function f).0, (function_error-none function f).1)
                  h.declared;
          })
  ]
]

add_named-IsLoaded :
    (o : Option Yaml) (function : Object) (td : TriggerDefinition)
    → get (lit "name") function ≡ o
    → IsLoaded td
    → IsLoaded (add_named o function td).0
unfolding add_named
add_named-IsLoaded (some (Yaml.string name)) function td e h = declare-IsLoaded name function td e h
add_named-IsLoaded _ function td e h = h

add_function-IsLoaded :
    (value : Yaml) (td : TriggerDefinition) → IsLoaded td → IsLoaded (add_function value td).0
unfolding add_function
add_function-IsLoaded (Yaml.mapping function) td h =
    add_named-IsLoaded (get (lit "name") function) function td refl h
add_function-IsLoaded _ td h = h

add_functions-IsLoaded :
    (functions : Seq) (td : TriggerDefinition)
    → IsLoaded td
    → IsLoaded (add_functions functions td).0
unfolding add_functions
add_functions-IsLoaded Seq.end td h = h
add_functions-IsLoaded (Seq.item value rest) td h =
    and_then-IsLoaded (add_function value td) (add_functions rest)
      (add_function-IsLoaded value td h) (add_functions-IsLoaded rest)

read_functions-IsLoaded :
    (o : Option Yaml) (td : TriggerDefinition) → IsLoaded td → IsLoaded (read_functions o td).0
unfolding read_functions
read_functions-IsLoaded none td h = h
read_functions-IsLoaded (some (Yaml.seq functions)) td h = add_functions-IsLoaded functions td h
read_functions-IsLoaded (some _) td h = h

-- Reading one more file keeps the definition well formed, whatever the file holds and also
-- where it ends in an error.
pub read_trigger_definition-IsLoaded :
    (yaml_map : List (Str × Yaml)) (td : TriggerDefinition)
    → IsLoaded td
    → IsLoaded (read_trigger_definition yaml_map td).0
unfolding read_trigger_definition
read_trigger_definition-IsLoaded yaml_map td h =
    and_then-IsLoaded (read_settings _ td) _ (read_settings-IsLoaded _ td h) (λ td₁ h₁.
      and_then-IsLoaded (read_triggers _ td₁) _ (read_triggers-IsLoaded _ td₁ h₁)
        (λ td₂. read_functions-IsLoaded _ td₂))

module _ (files : Files) where
  read_file-IsLoaded :
      (name : Str) (td : TriggerDefinition) → IsLoaded td → IsLoaded (read_file files name td).0
  unfolding read_file
  read_file-IsLoaded name td h = go (files.read_yaml name)
    where
      go :
          (r : Error ⊎ List (Str × Yaml))
          → IsLoaded
              (elim r as (λ _. Read) [
                | inl e ↦ (td, some e)
                | inr m ↦ read_trigger_definition m td
              ]).0
      go (inl e) = h
      go (inr m) = read_trigger_definition-IsLoaded m td h

  read_files-IsLoaded :
      (names : List Str) (td : TriggerDefinition)
      → IsLoaded td
      → IsLoaded (read_files files names td).0
  unfolding read_files
  read_files-IsLoaded [] td h = h
  read_files-IsLoaded (name ∷ names) td h =
      and_then-IsLoaded (read_file files name td) (read_files files names)
        (read_file-IsLoaded name td h) (read_files-IsLoaded names)

  -- Whatever the files hold, and also where an error stops it, `Initialize` files each trigger
  -- under the event source that it names, and each function under its name, with an input and
  -- an output that are strings.
  pub initialize-IsLoaded : (dir : Str) → IsLoaded (initialize files dir).0
  unfolding initialize
  initialize-IsLoaded dir = go (find_files files dir (lit ".yaml" ∷ lit ".yml" ∷ []))
    where
      go :
          (r : Error ⊎ List Str)
          → IsLoaded
              (elim r as (λ _. Read) [
                | inl e ↦ (empty_definition, some e)
                | inr [] ↦ (empty_definition, some no_files)
                | inr (name ∷ names) ↦ read_files files (name ∷ names) empty_definition
              ]).0
      go (inl e) = record { filed = tt; declared = tt }
      go (inr []) = record { filed = tt; declared = tt }
      go (inr (name ∷ names)) =
          read_files-IsLoaded (name ∷ names) empty_definition (record { filed = tt; declared = tt })
