-- ===== src/Trigger/Process/Ends.antt =====
-- Processing a message comes to an end.
use kabanero_events.Prelude.{Option, none, some, List, [], ◌∷◌, Str, ◌≢◌}
use kabanero_events.Go.Assoc.{lookup}
use kabanero_events.Go.Value.{Yaml, Object, Val}
use kabanero_events.Go.Exec.{Error, out_of_fuel}
use kabanero_events.Go.Ends.{Ends, ends_rules, Ends-bind, Ends-alloc, Ends-lift}
use kabanero_events.Trigger.Engine.{Engine, Out, Calls}
use kabanero_events.Trigger.Definition.{TriggerDefinition}
use kabanero_events.Trigger.Variable.{initialize_cel_env}
use kabanero_events.Trigger.Variable.Ends.{EngineEnds}
use kabanero_events.Trigger.Eval.Fuel.{eval_array_object-Ends}
use kabanero_events.Trigger.Process.{
  string_field, list_field, parse_trigger, run_trigger, run_triggers, triggers_for, process_with,
}

string_field-Ends : (e f : Error) (o : Option Yaml) → Ends (string_field e f o)
unfolding string_field
string_field-Ends e f none = search ends_rules
string_field-Ends e f (some (Yaml.string s)) = search ends_rules
string_field-Ends e f (some _) = search ends_rules

list_field-Ends : (o : Option Yaml) → Ends (list_field o)
unfolding list_field
list_field-Ends none = search ends_rules
list_field-Ends (some (Yaml.seq s)) = search ends_rules
list_field-Ends (some _) = search ends_rules

parse_trigger-Ends : (trigger : Object) → Ends (parse_trigger trigger)
unfolding parse_trigger
parse_trigger-Ends trigger = Ends-bind (string_field-Ends _ _ _) (λ _.
    Ends-bind (string_field-Ends _ _ _)
      (λ _. Ends-bind (list_field-Ends _) (λ _. search ends_rules)))

module _ (E : Engine) (ends : EngineEnds E) (made : E.new_env ≢ out_of_fuel) (calls : Calls)
    (called : (name : Str) (args : List Out) → Ends (calls name args)) where
  initialize_cel_env-Ends :
      (message : Val) (input : Str) → Ends (initialize_cel_env E message input)
  unfolding initialize_cel_env
  initialize_cel_env-Ends message input = Ends-bind (Ends-lift _ made) (λ env.
      Ends-bind (Ends-lift _ (ends.extend_ends env input _))
        (λ _. Ends-bind Ends-alloc (λ _. search ends_rules)))

  run_trigger-Ends : (message : Val) (trigger : Object) → Ends (run_trigger E calls message trigger)
  unfolding run_trigger
  run_trigger-Ends message trigger = Ends-bind (parse_trigger-Ends trigger) (λ _.
      Ends-bind (initialize_cel_env-Ends message _) (λ _.
        Ends-bind (eval_array_object-Ends E ends calls called _ _ _) (λ _. search ends_rules)))

  run_triggers-Ends :
      (message : Val) (triggers : List Object) → Ends (run_triggers E calls message triggers)
  unfolding run_triggers
  run_triggers-Ends message [] = search ends_rules
  run_triggers-Ends message (trigger ∷ triggers) =
      Ends-bind (run_trigger-Ends message trigger)
        (λ _. Ends-bind (run_triggers-Ends message triggers) (λ _. search ends_rules))

  -- Whatever the trigger definition, the message and the event source, `ProcessMessage` ends with
  -- the variables, an error or a panic. Provided that the calls of CEL return, and the functions
  -- that expressions call.
  pub process_with-Ends :
      (td : TriggerDefinition) (message : Val) (event_source : Str)
      → Ends (process_with E calls td message event_source)
  unfolding process_with
  process_with-Ends td message event_source =
      Ends-bind (by_triggers (lookup event_source td.event_triggers))
        (λ _. run_triggers-Ends message _)
    where
      by_triggers : (o : Option (List Object)) → Ends (triggers_for E calls o)
      by_triggers none = unfold triggers_for in search ends_rules
      by_triggers (some l) = unfold triggers_for in search ends_rules
