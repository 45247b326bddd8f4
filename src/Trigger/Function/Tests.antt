-- ===== src/Trigger/Function/Tests.antt =====
-- Functions of expressions and variables, on concrete values.
use kabanero_events.Prelude.{
  ◌≡◌, ◌↔◌, refl, true, none, some, if◌then◌else◌, List, [], ◌∷◌, ◌++◌, Str, lit, str_eq,
}
use kabanero_events.Go.Assoc.{lookup, insert}
use kabanero_events.Go.Value.{Val, Array, Seq, Yaml, get}
use kabanero_events.Go.Exec.{World, trigger_not_object, ok, ◌>>=◌, store, update, alloc}
use kabanero_events.Trigger.Definition.{
  triggers_of, add_triggers, add_trigger, empty_definition, TriggerDefinition,
}
use kabanero_events.Trigger.Definition.Order.{named, all_mappings, triggers_of-add_triggers}
use kabanero_events.Trigger.Variable.{create_one_variable_helper, eval_condition, eval_text}
use kabanero_events.Trigger.Engine.{CelType}
use kabanero_events.Trigger.Variable.Declared.{HasType, create_one_variable_helper_iff}
use kabanero_events.Trigger.Convert.{array_of, convert_to_header_map}
use kabanero_events.Trigger.Filter.{filter_array, keeps_item}
use kabanero_events.Trigger.Filter.Rules.{Filtered, filter_array_iff}
use kabanero_events.Trigger.Convert.Headers.{entries_of, dict_of, convert_to_header_map-entries_of}
use kabanero_events.Sample.{engine, remaining, no_world, seq_of, sender, text_out}

-- One variable in an empty map.
abbrev before : World
before = record no_world { heap = [] ∷ []; trace = [] }

create_one_variable_helper_iff_example :
    ((w' : World) × (create_one_variable_helper engine []
          (lit "x")
          (text_out (lit "a"))
          0
          true
          before
        ≡ (ok (lit "x" ∷ []), w')))
    ↔ ((t : CelType) × HasType (lit "string") (Val.string (lit "a")) t
        × (engine.extend [] (lit "x") t ≡ ok (lit "x" ∷ [])))
create_one_variable_helper_iff_example =
    create_one_variable_helper_iff engine [] (lit "x" ∷ []) (lit "x") 0 (text_out (lit "a")) before

-- Two triggers of one event source, and what is none before a third.
abbrev two : Seq
two =
    seq_of
      (Yaml.mapping sender ∷ Yaml.mapping sender ∷ Yaml.string (lit "a") ∷ Yaml.mapping sender ∷ [])

abbrev loaded : TriggerDefinition
loaded = record {
  setting = [];
  event_triggers = (lit "github", sender ∷ sender ∷ []) ∷ [];
  functions = [];
}

adds_two : add_triggers two empty_definition ≡ (loaded, some trigger_not_object)
unfolding add_triggers add_trigger get triggers_of lookup insert str_eq
adds_two = refl

triggers_of-add_triggers_example :
    (triggers_of (lit "github") (add_triggers two empty_definition).0.event_triggers
      ≡ triggers_of (lit "github") empty_definition.event_triggers ++ named (lit "github") two)
    × ((add_triggers two empty_definition).1
        ≡ (if all_mappings two then none else some trigger_not_object))
triggers_of-add_triggers_example = triggers_of-add_triggers two empty_definition (lit "github")

abbrev letters : Array
letters = array_of (lit "a" ∷ lit "b" ∷ [])

-- The condition of each item has its own map.
abbrev filtered_world : World
filtered_world = record no_world {
  heap =
      ((lit "value", Val.string (lit "a")) ∷ []) ∷ ((lit "value", Val.string (lit "b")) ∷ []) ∷ [];
  trace = [];
}

filters_letters :
    filter_array engine remaining (lit "true") letters no_world ≡ (ok letters, filtered_world)
unfolding filter_array keeps_item eval_condition eval_text alloc store update insert str_eq ◌>>=◌
filters_letters = refl

filter_array_iff_example :
    (filter_array engine remaining (lit "true") letters no_world ≡ (ok letters, filtered_world))
    ↔ Filtered engine remaining (lit "true") letters no_world letters (filtered_world)
filter_array_iff_example =
    filter_array_iff engine remaining (lit "true") letters letters no_world filtered_world

abbrev header : List (Str × List Str)
header = (lit "X-Event", lit "push" ∷ lit "tag" ∷ []) ∷ []

abbrev with_header : World
with_header = record no_world { heap = entries_of header ∷ []; trace = [] }

convert_to_header_map-entries_of_example :
    (convert_to_header_map with_header (Val.object 0) ≡ ok header)
    × (convert_to_header_map with_header (Val.dict (dict_of header)) ≡ ok header)
    × (convert_to_header_map with_header (Val.headers header) ≡ ok header)
convert_to_header_map-entries_of_example =
    convert_to_header_map-entries_of header with_header 0 refl
