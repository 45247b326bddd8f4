-- ===== src/Trigger/Eval/Keeps.antt =====
-- What evaluating a trigger body keeps.
use kabanero_events.Prelude.{ℕ, zero, suc, Bool, Option, none, some, List, Str, lit}
use kabanero_events.Go.Value.{Yaml, Seq, Object, empty, field, get, has_key}
use kabanero_events.Go.Exec.{World, Exec, Error}
use kabanero_events.Go.Keeps.{Keeps, keeps_rules, KeptByMaps, Keeps-bind, Keeps-if}
use kabanero_events.Trigger.Engine.{Engine, Out, Calls}
use kabanero_events.Trigger.Variable.Keeps.{EvalKeeps, set_one_variable-Keeps, eval_condition-Keeps}
use kabanero_events.Trigger.Eval.{
  set_value, assign_field, eval_assignment, refuse, eval_nested, eval_body, eval_cases,
  eval_switch_value, eval_switch, eval_branch, eval_if_condition, eval_if_with_syntax_check,
  eval_object, eval_items, eval_array, eval_case, eval_array_object, nesting_seq,
}

refuse-Keeps : {P : World → Type 0} (e : Option Error) → Keeps P (refuse e)
unfolding refuse
refuse-Keeps none = search keeps_rules
refuse-Keeps (some e) = search keeps_rules

module _ {P : World → Type 0} (maps : KeptByMaps P) (E : Engine) (evals : EvalKeeps E P)
    (calls : Calls) (called : (name : Str) (args : List Out) → Keeps P (calls name args)) where
  open E use {Env}

  set_value-Keeps :
      (env : Env) (variables : ℕ) (name : Str) (text : Option Str)
      → Keeps P (set_value E calls env variables name text)
  unfolding set_value
  set_value-Keeps env variables name none = search keeps_rules
  set_value-Keeps env variables name (some text) =
      set_one_variable-Keeps maps E evals calls called env name text variables

  assign_field-Keeps :
      (env : Env) (variables : ℕ) (name value : Yaml)
      → Keeps P (assign_field E calls env variables name value)
  unfolding assign_field
  assign_field-Keeps env variables (Yaml.string name) value = search (keeps_rules, set_value-Keeps)
  assign_field-Keeps env variables _ value = search keeps_rules

  eval_assignment-Keeps :
      (object : Object) (env : Env) (variables : ℕ)
      → Keeps P (eval_assignment E calls env variables object)
  unfolding eval_assignment
  eval_assignment-Keeps empty env variables = search keeps_rules
  eval_assignment-Keeps (field name value rest) env variables =
      Keeps-bind (assign_field-Keeps env variables name value)
        (λ env'. eval_assignment-Keeps rest env' variables)

  module _ (again : Env → ℕ → Seq → Exec Env)
      (again-Keeps : (env : Env) (variables : ℕ) (body : Seq)
        → Keeps P (again env variables body)) where
    eval_nested-Keeps :
        (env : Env) (variables : ℕ) (value : Option Yaml)
        → Keeps P (eval_nested E calls again env variables value)
    unfolding eval_nested
    eval_nested-Keeps env variables none = search keeps_rules
    eval_nested-Keeps env variables (some (Yaml.seq body)) = again-Keeps env variables body
    eval_nested-Keeps env variables (some _) = search keeps_rules

    module _ (run_case : Env → ℕ → Object → Exec (Env × Bool))
        (run_case-Keeps : (env : Env) (variables : ℕ) (object : Object)
          → Keeps P (run_case env variables object)) where
      eval_cases-Keeps :
          (cases : Seq) (env : Env) (variables : ℕ) (default_array : Option Seq)
          → Keeps P (eval_cases E calls again run_case env variables default_array cases)
      unfolding eval_cases
      eval_cases-Keeps Seq.end env variables none = search keeps_rules
      eval_cases-Keeps Seq.end env variables (some body) = again-Keeps env variables body
      eval_cases-Keeps (Seq.item (Yaml.mapping element) rest) env variables default_array =
          Keeps-if (has_key (lit "if") element)
            (Keeps-bind (run_case-Keeps env variables element) (λ found.
              Keeps-if found.1 (search keeps_rules)
                (eval_cases-Keeps rest env variables default_array)))
            (Keeps-bind (search keeps_rules)
              (λ array. eval_cases-Keeps rest env variables (some array)))
      eval_cases-Keeps (Seq.item _ rest) env variables default_array = search keeps_rules

      eval_switch-Keeps :
          (env : Env) (variables : ℕ) (object : Object)
          → Keeps P (eval_switch E calls again run_case env variables object)
      unfolding eval_switch
      eval_switch-Keeps env variables object = by_value (get (lit "switch") object)
        where
          by_value :
              (value : Option Yaml)
              → Keeps P (eval_switch_value E calls again run_case env variables value)
          by_value none = search keeps_rules
          by_value (some (Yaml.seq cases)) = eval_cases-Keeps cases env variables none
          by_value (some _) = search keeps_rules

      eval_body-Keeps :
          (env : Env) (variables : ℕ) (object : Object)
          → Keeps P (eval_body E calls again env variables object)
      unfolding eval_body
      eval_body-Keeps env variables object =
          eval_nested-Keeps env variables (get (lit "body") object)

      eval_branch-Keeps :
          (env : Env) (variables : ℕ) (object : Object)
          → Keeps P (eval_branch E calls again run_case env variables object)
      unfolding eval_branch
      eval_branch-Keeps env variables object =
          search (keeps_rules, eval_body-Keeps, eval_switch-Keeps, eval_assignment-Keeps)

      eval_if-Keeps :
          (env : Env) (variables : ℕ) (object : Object)
          → Keeps P (eval_if_with_syntax_check E calls again run_case env variables object)
      unfolding eval_if_with_syntax_check
      eval_if-Keeps env variables object =
          Keeps-bind (refuse-Keeps _) (λ _. by_condition (get (lit "if") object))
        where
          by_condition :
              (value : Option Yaml)
              → Keeps P (eval_if_condition E calls again run_case env variables object value)
          by_condition none = search keeps_rules
          by_condition (some (Yaml.string condition)) =
              Keeps-bind (eval_condition-Keeps maps E evals calls called env condition variables)
                (λ b. search (keeps_rules, eval_branch-Keeps))
          by_condition (some _) = search keeps_rules

      eval_object-Keeps :
          (env : Env) (variables : ℕ) (object : Object)
          → Keeps P (eval_object E calls again run_case env variables object)
      unfolding eval_object
      eval_object-Keeps env variables object =
          search
            (keeps_rules, eval_if-Keeps, eval_switch-Keeps, eval_body-Keeps, eval_assignment-Keeps)
            depth 9

      eval_items-Keeps :
          (items : Seq) (env : Env) (variables : ℕ)
          → Keeps P (eval_items E calls again run_case env variables items)
      unfolding eval_items
      eval_items-Keeps Seq.end env variables = search keeps_rules
      eval_items-Keeps (Seq.item (Yaml.mapping object) rest) env variables =
          Keeps-bind (eval_object-Keeps env variables object)
            (λ env'. eval_items-Keeps rest env' variables)
      eval_items-Keeps (Seq.item _ rest) env variables = search keeps_rules

  mutual
    unfolding eval_array

    eval_array-Keeps :
        (fuel : ℕ) (env : Env) (variables : ℕ) (body : Seq)
        → Keeps P (eval_array E calls fuel env variables body)
    eval_array-Keeps zero env variables body = record { at = λ w h. h }
    eval_array-Keeps (suc fuel) env variables body = record {
      at =
          (eval_items-Keeps (eval_array E calls fuel) (eval_array-Keeps fuel)
            (eval_case E calls fuel) (eval_case-Keeps fuel) body env variables).at;
    }

    eval_case-Keeps :
        (fuel : ℕ) (env : Env) (variables : ℕ) (object : Object)
        → Keeps P (eval_case E calls fuel env variables object)
    eval_case-Keeps zero env variables object = record { at = λ w h. h }
    eval_case-Keeps (suc fuel) env variables object = record {
      at =
          (eval_if-Keeps (eval_array E calls fuel) (eval_array-Keeps fuel) (eval_case E calls fuel)
            (eval_case-Keeps fuel) env variables object).at;
    }

  pub eval_array_object-Keeps :
      (env : Env) (variables : ℕ) (body : Seq)
      → Keeps P (eval_array_object E calls env variables body)
  unfolding eval_array_object
  eval_array_object-Keeps env variables body =
      eval_array-Keeps (suc (nesting_seq body)) env variables body
