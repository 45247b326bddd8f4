-- ===== src/Trigger/Process.antt =====
-- pkg/trigger/trigger.go: `parseTrigger` and `ProcessMessage`.
pub mod Quiet
pub mod Ends
mod Tests
use kabanero_events.Prelude.{ℕ, Option, none, some, List, [], ◌∷◌, Str, lit}
use kabanero_events.Go.Assoc.{lookup}
use kabanero_events.Go.Value.{Yaml, Seq, Object, get, Val}
use kabanero_events.Go.Exec.{
  Exec, Error, pure, throw, ◌>>=◌, no_event_source, event_source_not_string, no_input,
  input_not_string, no_body, body_not_list, no_trigger,
}
use kabanero_events.Trigger.Engine.{Engine, Calls}
use kabanero_events.Trigger.Definition.{TriggerDefinition}
use kabanero_events.Trigger.Variable.{initialize_cel_env}
use kabanero_events.Trigger.Eval.{eval_array_object}
use kabanero_events.Trigger.Function.{Host, functions}

-- The event source, the input variable and the body of a trigger.
pub record Parsed : Type 0 where
  pub event_source : Str
  pub input : Str
  pub body : Seq

string_field : Error → Error → Option Yaml → Exec Str
string_field missing not_string none = throw missing
string_field missing not_string (some (Yaml.string s)) = pure s
string_field missing not_string (some _) = throw not_string

list_field : Option Yaml → Exec Seq
list_field none = throw no_body
list_field (some (Yaml.seq body)) = pure body
list_field (some _) = throw body_not_list

-- `parseTrigger`
unfoldable pub parse_trigger : Object → Exec Parsed
unfolding string_field list_field
parse_trigger trigger = do
  event_source ←
      string_field no_event_source event_source_not_string (get (lit "eventSource") trigger)
  input ← string_field no_input input_not_string (get (lit "input") trigger)
  body ← list_field (get (lit "body") trigger)
  pure (record { event_source = event_source; input = input; body = body })

module _ (E : Engine) (calls : Calls) where
  -- One round of the loop over the triggers: the address of the variables.
  unfoldable pub run_trigger : Val → Object → Exec ℕ
  run_trigger message trigger = do
    parsed ← parse_trigger trigger
    (env, variables) ← initialize_cel_env E message parsed.input
    _ ← eval_array_object E calls env variables parsed.body
    pure variables

  unfoldable pub run_triggers : Val → List Object → Exec (List ℕ)
  run_triggers message [] = pure []
  run_triggers message (trigger ∷ triggers) = do
    variables ← run_trigger message trigger
    rest ← run_triggers message triggers
    pure (variables ∷ rest)

  triggers_for : Option (List Object) → Exec (List Object)
  triggers_for none = throw no_trigger
  triggers_for (some triggers) = pure triggers

  -- `ProcessMessage`, which runs each trigger of the event source in its order.
  unfoldable pub process_with : TriggerDefinition → Val → Str → Exec (List ℕ)
  unfolding triggers_for
  process_with td message event_source = do
    triggers ← triggers_for (lookup event_source td.event_triggers)
    run_triggers message triggers

-- `ProcessMessage` of a processor, whose expressions call its functions.
unfoldable pub process_message :
    (E : Engine) → Host → TriggerDefinition → Str → Calls → ℕ → Val → Str → Exec (List ℕ)
process_message E host td trigger_dir remaining fuel message event_source =
    process_with E (functions E host td trigger_dir remaining fuel) td message event_source
