-- ===== src/Trigger/Process/Quiet.antt =====
-- A dry run has no effect on the outside.
use kabanero_events.Prelude.{ℕ, true, ◌≡◌, refl, Option, none, some, List, [], ◌∷◌, Str}
use kabanero_events.Go.Assoc.{lookup}
use kabanero_events.Go.Value.{Yaml, Object, Val}
use kabanero_events.Go.Exec.{World, Effect, store, alloc, Error}
use kabanero_events.Go.Keeps.{Keeps, keeps_rules, KeptByMaps, Keeps-bind}
use kabanero_events.Trigger.Engine.{Engine, Out, Calls}
use kabanero_events.Trigger.Definition.{TriggerDefinition, is_dry_run}
use kabanero_events.Trigger.Variable.Keeps.{EvalKeeps, initialize_cel_env-Keeps}
use kabanero_events.Trigger.Eval.Keeps.{eval_array_object-Keeps}
use kabanero_events.Trigger.Function.{Host, functions}
use kabanero_events.Trigger.Function.DryRun.{functions-Keeps}
use kabanero_events.Trigger.Process.{
  string_field, list_field, parse_trigger, run_trigger, run_triggers, triggers_for, process_with,
  process_message,
}

module _ {P : World → Type 0} where
  string_field-Keeps : (e f : Error) (o : Option Yaml) → Keeps P (string_field e f o)
  unfolding string_field
  string_field-Keeps e f none = search keeps_rules
  string_field-Keeps e f (some (Yaml.string s)) = search keeps_rules
  string_field-Keeps e f (some _) = search keeps_rules

  list_field-Keeps : (o : Option Yaml) → Keeps P (list_field o)
  unfolding list_field
  list_field-Keeps none = search keeps_rules
  list_field-Keeps (some (Yaml.seq s)) = search keeps_rules
  list_field-Keeps (some _) = search keeps_rules

  parse_trigger-Keeps : (trigger : Object) → Keeps P (parse_trigger trigger)
  unfolding parse_trigger
  parse_trigger-Keeps trigger = Keeps-bind (string_field-Keeps _ _ _) (λ _.
      Keeps-bind (string_field-Keeps _ _ _)
        (λ _. Keeps-bind (list_field-Keeps _) (λ _. search keeps_rules)))

module _ {P : World → Type 0} (maps : KeptByMaps P) (E : Engine) (evals : EvalKeeps E P)
    (calls : Calls) (called : (name : Str) (args : List Out) → Keeps P (calls name args)) where
  run_trigger-Keeps :
      (message : Val) (trigger : Object) → Keeps P (run_trigger E calls message trigger)
  unfolding run_trigger
  run_trigger-Keeps message trigger = Keeps-bind (parse_trigger-Keeps trigger) (λ _.
      Keeps-bind (initialize_cel_env-Keeps maps E message _) (λ _.
        Keeps-bind (eval_array_object-Keeps maps E evals calls called _ _ _)
          (λ _. search keeps_rules)))

  run_triggers-Keeps :
      (message : Val) (triggers : List Object) → Keeps P (run_triggers E calls message triggers)
  unfolding run_triggers
  run_triggers-Keeps message [] = search keeps_rules
  run_triggers-Keeps message (trigger ∷ triggers) =
      Keeps-bind (run_trigger-Keeps message trigger)
        (λ _. Keeps-bind (run_triggers-Keeps message triggers) (λ _. search keeps_rules))

  -- Processing a message keeps what expressions, their functions and writes to maps keep.
  pub process_with-Keeps :
      (td : TriggerDefinition) (message : Val) (event_source : Str)
      → Keeps P (process_with E calls td message event_source)
  unfolding process_with
  process_with-Keeps td message event_source =
      Keeps-bind (by_triggers (lookup event_source td.event_triggers))
        (λ _. run_triggers-Keeps message _)
    where
      by_triggers : (o : Option (List Object)) → Keeps P (triggers_for E calls o)
      by_triggers none = unfold triggers_for in search keeps_rules
      by_triggers (some l) = unfold triggers_for in search keeps_rules

-- The effects so far are these.
abbrev pub HasTrace : List Effect → World → Type 0
HasTrace t w = w.trace ≡ t

pub HasTrace-maps : (t : List Effect) → KeptByMaps (HasTrace t)
unfolding store alloc
HasTrace-maps t = record {
  by_store = λ a k v. record { at = λ w h. h };
  by_alloc = record { at = λ w h. h };
}

module _ (E : Engine) (host : Host) (td : TriggerDefinition) (dir : Str) (remaining : Calls)
    (evals : (t : List Effect) → EvalKeeps E (HasTrace t))
    (rest : (t : List Effect) (name : Str) (args : List Out)
      → Keeps (HasTrace t) (remaining name args)) where
  -- In a dry run, whatever the triggers, the message and the result (an error or a panic
  -- included), processing a message sends nothing and creates nothing: the trace stays as it
  -- was. Provided that CEL acts only through the functions it calls, and that the functions of
  -- `remaining` do not act.
  pub trace-process_message :
      (fuel : ℕ) (message : Val) (event_source : Str) (w : World)
      → is_dry_run td ≡ true
      → (process_message E host td dir remaining fuel message event_source w).1.trace ≡ w.trace
  unfolding process_message
  trace-process_message fuel message event_source w dry =
      (process_with-Keeps (HasTrace-maps w.trace) E (evals w.trace)
          (functions E host td dir remaining fuel)
          (functions-Keeps (HasTrace-maps w.trace) E (evals w.trace) host td dir dry remaining
            (rest w.trace) fuel)
          td message event_source).at
        w refl
