-- ===== src/Trigger/Eval/Fuel.antt =====
-- The nesting of a trigger body is fuel enough to evaluate it.
use mathlib.Core.Option.{some-injective}
use mathlib.Core.Sum.{inr-injective}
use kabanero_events.Prelude.{
  ℕ, zero, suc, ◌≤◌, ◌<◌, ◌≡◌, refl, ap, inl, inr, arith, Bool, Bool-cases, Option, none, some,
  List, Str, lit, str_eq, ltb,
}
use kabanero_events.Go.Value.{Yaml, Seq, Object, empty, field, get, has_key, size}
use kabanero_events.Go.Exec.{Exec, Error}
use kabanero_events.Go.Ends.{Ends, ends_rules, Ends-bind, Ends-if, Ends-pure, Ends-of_sum_bind}
use kabanero_events.Trigger.Keyword.{is_keyword}
use kabanero_events.Trigger.Engine.{Engine, Out, Calls}
use kabanero_events.Trigger.Variable.Ends.{EngineEnds, set_one_variable-Ends, eval_condition-Ends}
use kabanero_events.Trigger.Eval.{
  nesting, nesting_seq, nesting_object, default_case, default_object, default_body, set_value,
  assign_field, eval_assignment, refuse, eval_nested, eval_body, eval_cases, eval_switch_value,
  eval_switch, eval_branch, eval_if_condition, eval_if_with_syntax_check, eval_object, eval_items,
  eval_array, eval_case, eval_array_object, value_text,
}

-- The value of a key is nested no deeper than the object.
nesting-get :
    (name : Str) (object : Object) {value : Yaml}
    → get name object ≡ some value
    → nesting value ≤ nesting_object object
unfolding get nesting
nesting-get name empty h = absurd (cc h)
nesting-get name (field (Yaml.string key) v rest) {value} h = elim (Bool-cases (str_eq key name)) [
  | inl e ↦ omega (arith, ap nesting (some-injective _ _ (rw e at h)))
  | inr e ↦ omega (arith, nesting-get name rest (rw e at h))
]
nesting-get name (field key v rest) h = omega (arith, nesting-get name rest h)

-- What a default case holds is the array under its key.
default_object-inr :
    (d : Option Seq) (len : ℕ) (o : Option Yaml) {array : Seq}
    → default_object d len o ≡ inr array
    → o ≡ some (Yaml.seq array)
unfolding default_object default_body
default_object-inr d len none h = absurd (cc h)
default_object-inr d len (some value) h = elim (Bool-cases (ltb 1 len)) [
  | inl e ↦ absurd (wrong (rw e at h))
  | inr e ↦ of_body d value (rw e at h)
]
  where
    wrong : {e : Error} {a : Seq} → inl e ≡ inr a → ⊥
    wrong p = cc p

    of_body :
        (d : Option Seq) (value : Yaml) {array : Seq}
        → default_body d value ≡ inr array
        → some value ≡ some (Yaml.seq array)
    of_body (some _) value p = absurd (wrong p)
    of_body none (Yaml.seq array) p = ap (λ a. some (Yaml.seq a)) (inr-injective _ _ p)
    of_body none _ p = absurd (wrong p)

-- The array of a default case is nested less deep than the case.
default_case-nesting :
    (d : Option Seq) (element : Object) {array : Seq}
    → default_case d element ≡ inr array
    → suc (nesting_seq array) ≤ nesting_object element
unfolding default_case nesting
default_case-nesting d element h =
    nesting-get (lit "default") element
      (default_object-inr d (size element) (get (lit "default") element) h)

refuse-Ends : (e : Option Error) → Ends (refuse e)
unfolding refuse
refuse-Ends none = search ends_rules
refuse-Ends (some e) = search ends_rules

module _ (E : Engine) (ends : EngineEnds E) (calls : Calls)
    (called : (name : Str) (args : List Out) → Ends (calls name args)) where
  open E use {Env}

  assign_field-Ends :
      (env : Env) (variables : ℕ) (name value : Yaml)
      → Ends (assign_field E calls env variables name value)
  unfolding assign_field
  assign_field-Ends env variables (Yaml.string name) value =
      Ends-if (is_keyword name) (search ends_rules) (by_text (value_text E calls value))
    where
      by_text : (text : Option Str) → Ends (set_value E calls env variables name text)
      by_text none = unfold set_value in search ends_rules
      by_text (some text) =
          unfold set_value in set_one_variable-Ends E ends calls called env name text variables
  assign_field-Ends env variables _ value = search ends_rules

  eval_assignment-Ends :
      (object : Object) (env : Env) (variables : ℕ)
      → Ends (eval_assignment E calls env variables object)
  unfolding eval_assignment
  eval_assignment-Ends empty env variables = search ends_rules
  eval_assignment-Ends (field name value rest) env variables =
      Ends-bind (assign_field-Ends env variables name value)
        (λ env'. eval_assignment-Ends rest env' variables)

  -- What is nested less deep than `n` levels is known to end.
  module _ (n : ℕ) (again : Env → ℕ → Seq → Exec Env)
      (again-Ends : (env : Env) (variables : ℕ) (body : Seq)
        → nesting_seq body < n
        → Ends (again env variables body))
      (run_case : Env → ℕ → Object → Exec (Env × Bool))
      (run_case-Ends : (env : Env) (variables : ℕ) (object : Object)
        → nesting_object object < n
        → Ends (run_case env variables object)) where
    eval_cases-Ends :
        (cases : Seq) (env : Env) (variables : ℕ) (d : Option Seq)
        → nesting_seq cases < n
        → ((array : Seq) → d ≡ some array → nesting_seq array < n)
        → Ends (eval_cases E calls again run_case env variables d cases)
    unfolding eval_cases nesting
    eval_cases-Ends Seq.end env variables none h k = search ends_rules
    eval_cases-Ends Seq.end env variables (some body) h k =
        again-Ends env variables body (k body refl)
    eval_cases-Ends (Seq.item (Yaml.mapping element) rest) env variables d h k =
        Ends-if (has_key (lit "if") element)
          (Ends-bind (run_case-Ends env variables element (omega arith)) (λ found.
            Ends-if found.1 (Ends-pure found.0)
              (eval_cases-Ends rest env variables d (omega arith) k)))
          (Ends-of_sum_bind (default_case d element) (λ array e.
            eval_cases-Ends rest env variables (some array) (omega arith) (λ array' p.
              omega
                (arith, default_case-nesting d element e, ap nesting_seq (some-injective _ _ p)))))
    eval_cases-Ends (Seq.item _ rest) env variables d h k = search ends_rules

    module _ (env : Env) (variables : ℕ) (object : Object) (bound : nesting_object object ≤ n) where
      eval_body-Ends : Ends (eval_body E calls again env variables object)
      unfolding eval_body eval_nested nesting
      eval_body-Ends = by_value (get (lit "body") object) (λ v e. nesting-get (lit "body") object e)
        where
          by_value :
              (o : Option Yaml)
              → ((v : Yaml) → o ≡ some v → nesting v ≤ nesting_object object)
              → Ends (eval_nested E calls again env variables o)
          by_value none k = search ends_rules
          by_value (some (Yaml.seq body)) k =
              again-Ends env variables body (omega (arith, k (Yaml.seq body) refl))
          by_value (some _) k = search ends_rules

      eval_switch-Ends : Ends (eval_switch E calls again run_case env variables object)
      unfolding eval_switch eval_switch_value nesting
      eval_switch-Ends =
          by_value (get (lit "switch") object) (λ v e. nesting-get (lit "switch") object e)
        where
          by_value :
              (o : Option Yaml)
              → ((v : Yaml) → o ≡ some v → nesting v ≤ nesting_object object)
              → Ends (eval_switch_value E calls again run_case env variables o)
          by_value none k = search ends_rules
          by_value (some (Yaml.seq cases)) k =
              eval_cases-Ends cases env variables none (omega (arith, k (Yaml.seq cases) refl))
                (λ array p. absurd (cc p))
          by_value (some _) k = search ends_rules

      eval_if-Ends : Ends (eval_if_with_syntax_check E calls again run_case env variables object)
      unfolding eval_if_with_syntax_check eval_branch
      eval_if-Ends = Ends-bind (refuse-Ends _) (λ _. by_condition (get (lit "if") object))
        where
          by_condition :
              (value : Option Yaml)
              → Ends (eval_if_condition E calls again run_case env variables object value)
          by_condition none = search ends_rules
          by_condition (some (Yaml.string condition)) =
              Ends-bind (eval_condition-Ends E ends calls called env condition variables)
                (λ b. search (ends_rules, eval_body-Ends, eval_switch-Ends, eval_assignment-Ends))
          by_condition (some _) = search ends_rules

      eval_object-Ends : Ends (eval_object E calls again run_case env variables object)
      unfolding eval_object
      eval_object-Ends =
          search (ends_rules, eval_if-Ends, eval_switch-Ends, eval_body-Ends, eval_assignment-Ends)
            depth 9

    eval_items-Ends :
        (items : Seq) (env : Env) (variables : ℕ)
        → nesting_seq items ≤ n
        → Ends (eval_items E calls again run_case env variables items)
    unfolding eval_items nesting
    eval_items-Ends Seq.end env variables h = search ends_rules
    eval_items-Ends (Seq.item (Yaml.mapping object) rest) env variables h =
        Ends-bind (eval_object-Ends env variables object (omega arith))
          (λ env'. eval_items-Ends rest env' variables (omega arith))
    eval_items-Ends (Seq.item _ rest) env variables h = search ends_rules

  mutual
    unfolding eval_array

    eval_array-Ends :
        (fuel : ℕ) (env : Env) (variables : ℕ) (body : Seq)
        → nesting_seq body < fuel
        → Ends (eval_array E calls fuel env variables body)
    eval_array-Ends zero env variables body h = absurd (omega arith)
    eval_array-Ends (suc fuel) env variables body h = record {
      at =
          (eval_items-Ends fuel (eval_array E calls fuel) (eval_array-Ends fuel)
            (eval_case E calls fuel) (eval_case-Ends fuel) body env variables (omega arith)).at;
    }

    eval_case-Ends :
        (fuel : ℕ) (env : Env) (variables : ℕ) (object : Object)
        → nesting_object object < fuel
        → Ends (eval_case E calls fuel env variables object)
    eval_case-Ends zero env variables object h = absurd (omega arith)
    eval_case-Ends (suc fuel) env variables object h = record {
      at =
          (eval_if-Ends fuel (eval_array E calls fuel) (eval_array-Ends fuel)
            (eval_case E calls fuel) (eval_case-Ends fuel) env variables object (omega arith)).at;
    }

  -- Whatever the body of a trigger, its evaluation ends with an environment, an error or a panic,
  -- and never for lack of fuel: the fuel that its nesting gives is enough. Provided that the
  -- calls of CEL return, and the functions that expressions call.
  pub eval_array_object-Ends :
      (env : Env) (variables : ℕ) (body : Seq) → Ends (eval_array_object E calls env variables body)
  unfolding eval_array_object
  eval_array_object-Ends env variables body =
      eval_array-Ends (suc (nesting_seq body)) env variables body (omega arith)
