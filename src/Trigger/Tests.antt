-- ===== src/Trigger/Tests.antt =====
-- Trigger definitions and trigger bodies, on concrete values.
use kabanero_events.Prelude.{
  ◌≡◌, ◌↔◌, refl, ap, if◌then◌else◌, inl, inr, true, none, List, [], ◌∷◌, Str, lit, str_eq, split,
}
use kabanero_events.Go.Assoc.{lookup, insert}
use kabanero_events.Go.Value.{Yaml, Seq, Object, get, has_key, size, Val}
use kabanero_events.Go.Exec.{World, Exec, Result, ok, ◌>>=◌, load, store, update}
use kabanero_events.Go.Ends.{Ends}
use kabanero_events.Trigger.Keyword.{count_keywords, count_from, count_key, is_keyword, has_flag}
use kabanero_events.Trigger.Definition.{
  Files, TriggerDefinition, initialize, find_files, read_files, read_trigger_definition,
  read_settings, read_triggers, add_triggers, add_trigger, read_functions, add_functions,
  add_function, function_error, triggers_of,
}
use kabanero_events.Trigger.Definition.Whole.{IsWhole, initialize-IsWhole}
use kabanero_events.Trigger.Variable.{
  trim, set_one_variable, create_one_variable, create_at, eval_text, create_one_variable_helper,
  eval_condition,
}
use kabanero_events.Trigger.Eval.{
  eval_array_object, eval_array, eval_case, eval_object, eval_assignment, assign_field, value_text,
  eval_cases, eval_if_with_syntax_check, if_syntax, eval_branch, default_case,
}
use kabanero_events.Trigger.Eval.Choice.{Chosen, eval_cases_iff}
use kabanero_events.Trigger.Eval.Scope.{eval_object-env}
use kabanero_events.Trigger.Eval.Fuel.{eval_array_object-Ends}
use kabanero_events.Sample.{
  no_world, engine, engine-Ends, remaining, remaining-Ends, object_of, seq_of, str, sender,
}

-- `if: true`, `x: a`
abbrev if_true : Object
if_true = object_of ((lit "if", str (lit "true")) ∷ (lit "x", str (lit "a")) ∷ [])

abbrev if_false : Object
if_false = object_of ((lit "if", str (lit "false")) ∷ (lit "x", str (lit "a")) ∷ [])

-- Two files: one trigger in the first, one function in the second.
abbrev files : Files
files = record {
  glob = λ pattern. inr (pattern ∷ []);
  read_yaml = λ file.
      if str_eq file (lit "dir/*.yaml")
      then inr ((lit "eventTriggers", Yaml.seq (seq_of (Yaml.mapping sender ∷ []))) ∷ [])
      else inr (
          (
            lit "functions",
            Yaml.seq (
                seq_of (
                  Yaml.mapping (
                    object_of (
                      (lit "name", str (lit "f"))
                      ∷ (lit "input", str (lit "i"))
                      ∷ (lit "output", str (lit "o"))
                      ∷ []))
                  ∷ [])),
          )
          ∷ []);
}

-- The definition that they hold.
abbrev read : TriggerDefinition
read = (initialize files (lit "dir")).0

initialize-read : initialize files (lit "dir") ≡ (read, none)
unfolding initialize find_files read_files read_trigger_definition read_settings read_triggers
    add_triggers add_trigger read_functions add_functions add_function function_error get lookup
    insert triggers_of str_eq
initialize-read = refl

initialize-IsWhole_example : IsWhole files (lit "dir") read
initialize-IsWhole_example = initialize-IsWhole files (lit "dir") read initialize-read

-- The variables of a message are empty.
abbrev empty_variables : World
empty_variables = record no_world { heap = [] ∷ []; trace = [] }

abbrev x_is_a : World
x_is_a = record no_world { heap = ((lit "x", Val.string (lit "a")) ∷ []) ∷ []; trace = [] }

-- The declaration of `x` in the branch is gone, its value stays.
abbrev after_if : Exec (List Str)
after_if =
    eval_object engine remaining (eval_array engine remaining 2) (eval_case engine remaining 2) [] 0
      if_true

if_keeps_value : after_if empty_variables ≡ (ok [], x_is_a)
unfolding eval_object eval_if_with_syntax_check if_syntax eval_branch eval_assignment assign_field
    value_text set_one_variable create_one_variable create_at eval_text create_one_variable_helper
    eval_condition count_keywords count_from count_key is_keyword has_flag has_key get lookup insert
    str_eq size trim split store load update ◌>>=◌
if_keeps_value = refl

has_if : has_key (lit "if") if_true ≡ true
unfolding has_key get str_eq
has_if = refl

eval_object-env_example : ◌≡◌ {A = List Str} [] []
eval_object-env_example =
    eval_object-env engine remaining (eval_array engine remaining 2) (eval_case engine remaining 2)
      [] [] 0 if_true empty_variables (inl has_if)
      (ap (λ (p : Result (List Str) × World). p.0) if_keeps_value)

abbrev cases : Seq
cases = seq_of (
    Yaml.mapping (object_of ((lit "default", Yaml.seq Seq.end) ∷ []))
    ∷ Yaml.mapping if_false
    ∷ Yaml.mapping if_true
    ∷ [])

-- The default and a case whose condition is false stand before the case that is run.
eval_cases_runs_if :
    eval_cases engine remaining
      (eval_array engine remaining 2)
      (eval_case engine remaining 2)
      []
      0
      none
      cases
      empty_variables
    ≡ (ok (lit "x" ∷ []), x_is_a)
unfolding eval_cases default_case eval_array eval_object eval_if_with_syntax_check if_syntax
    eval_branch eval_assignment assign_field value_text set_one_variable create_one_variable
    create_at eval_text create_one_variable_helper eval_condition count_keywords count_from
    count_key is_keyword has_flag has_key get lookup insert str_eq size trim split store load update
    ◌>>=◌
eval_cases_runs_if = refl

eval_cases_iff_example :
    (eval_cases engine remaining
        (eval_array engine remaining 2)
        (eval_case engine remaining 2)
        []
        0
        none
        cases
        empty_variables
      ≡ (ok (lit "x" ∷ []), x_is_a))
    ↔ Chosen engine remaining
        (eval_array engine remaining 2)
        (eval_case engine remaining 2)
        []
        0
        none
        cases
        empty_variables
        (lit "x" ∷ [])
        x_is_a
eval_cases_iff_example =
    eval_cases_iff engine remaining (eval_array engine remaining 2) (eval_case engine remaining 2)
      [] 0 cases empty_variables x_is_a (lit "x" ∷ [])

abbrev body : Seq
body =
    seq_of
      (Yaml.mapping if_true ∷ Yaml.mapping (object_of ((lit "switch", Yaml.seq cases) ∷ [])) ∷ [])

eval_array_object-Ends_example : Ends (eval_array_object engine remaining [] 0 body)
eval_array_object-Ends_example =
    eval_array_object-Ends engine engine-Ends remaining remaining-Ends [] 0 body
