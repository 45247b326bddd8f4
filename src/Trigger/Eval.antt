-- ===== src/Trigger/Eval.antt =====
-- pkg/trigger/trigger.go: the evaluation of a trigger body, from `evalArrayObject` down.
-- An evaluation of a nested array is a parameter, `again`, of the functions that make one;
-- `eval_array` ties the knot on fuel, which falls by one at each level of nesting.
pub mod Keeps
pub mod Fuel
pub mod Scope
pub mod Choice
use Prim.Native.Nat.{max}
use kabanero_events.Prelude.{
  ◌⊎◌, inl, inr, ℕ, zero, suc, ◌+◌, Bool, true, false, not, ◌&&◌, ◌||◌, Option, none, some, Str,
  lit, str_eq, ltb, ◌==◌, if◌then◌else◌, format_int,
}
use kabanero_events.Go.Value.{Yaml, Seq, Object, get, has_key, size, empty, field}
use kabanero_events.Go.Exec.{
  Exec, Error, Result, pure, throw, of_sum, ◌>>=◌, ◌>>◌, not_an_object, switch_keywords,
  switch_assignment, body_keywords, body_assignment, default_outside_switch, multiple_assignments,
  name_not_string, value_not_primitive, body_not_list, if_keywords, if_other_keyword, if_mixed,
  condition_not_string, no_switch, switch_not_list, case_not_object, default_not_alone,
  two_defaults, default_not_list, case_unsupported, out_of_fuel, lift,
}
use kabanero_events.Trigger.Keyword.{
  is_keyword, count_keywords, has_flag, if_flag, switch_flag, default_flag, body_flag,
}
use kabanero_events.Trigger.Engine.{Engine, Calls}
use kabanero_events.Trigger.Variable.{set_one_variable, eval_condition}

-- How deep arrays and maps are nested: the fuel that an evaluation needs.
unfoldable mutual
  pub nesting : Yaml → ℕ
  nesting (Yaml.seq items) = suc (nesting_seq items)
  nesting (Yaml.mapping object) = suc (nesting_object object)
  nesting Yaml.null = 0
  nesting _ = 0

  pub nesting_seq : Seq → ℕ
  nesting_seq Seq.end = 0
  nesting_seq (Seq.item value rest) = max (nesting value) (nesting_seq rest)

  pub nesting_object : Object → ℕ
  nesting_object empty = 0
  nesting_object (field key value rest) = max (nesting value) (nesting_object rest)

-- What a case of a switch that is no if holds: `default_array` is that of an earlier default.
default_body : Option Seq → Yaml → Error ⊎ Seq
default_body (some _) default_obj = inl two_defaults
default_body none (Yaml.seq array) = inr array
default_body none _ = inl default_not_list

default_object : Option Seq → ℕ → Option Yaml → Error ⊎ Seq
default_object default_array len none = inl case_unsupported
default_object default_array len (some default_obj) =
    if ltb 1 len then inl default_not_alone else default_body default_array default_obj

unfoldable pub default_case : Option Seq → Object → Error ⊎ Seq
unfolding default_object default_body
default_case default_array element =
    default_object default_array (size element) (get (lit "default") element)

-- The keywords that an if object may not have.
unfoldable pub if_syntax : ℕ → ℕ → ℕ → Option Error
if_syntax num_keywords flags len =
    if ltb 2 num_keywords
    then some if_keywords
    else if num_keywords == 2 && not (has_flag flags body_flag) && not (has_flag flags switch_flag)
    then some if_other_keyword
    else if num_keywords == 2 && ltb 2 len
    then some if_mixed
    else none

-- `env, err := …; if err != nil { return env, err }; continue`: the `env` that a compound statement
-- declares is gone after it, and the loop goes on with its own.
abbrev pub keep {ℓ} : {A B : Type ℓ} → A → Exec B → Exec A
keep env m = m >>= λ _. pure env

refuse : Option Error → Exec (Unit {0})
refuse none = pure tt
refuse (some e) = throw e

module _ (E : Engine) (calls : Calls) where
  open E use {Env, format_float32, format_float64}

  -- The value as text for CEL to parse.
  unfoldable pub value_text : Yaml → Option Str
  value_text (Yaml.int n) = some (format_int n)
  value_text (Yaml.int64 n) = some (format_int n)
  value_text (Yaml.int32 n) = some (format_int n)
  value_text (Yaml.float32 x) = some (format_float32 x)
  value_text (Yaml.float64 x) = some (format_float64 x)
  value_text (Yaml.bool true) = some (lit "true")
  value_text (Yaml.bool false) = some (lit "false")
  value_text (Yaml.string s) = some s
  value_text _ = none

  set_value : Env → ℕ → Str → Option Str → Exec Env
  set_value env variables name none = throw value_not_primitive
  set_value env variables name (some text) = set_one_variable E env calls name text variables

  -- One round of the loop of `evalAssignment`.
  unfoldable pub assign_field : Env → ℕ → Yaml → Yaml → Exec Env
  unfolding set_value
  assign_field env variables (Yaml.string name) value =
      if is_keyword name then pure env else set_value env variables name (value_text value)
  assign_field env variables _ value = throw name_not_string

  unfoldable pub eval_assignment : Env → ℕ → Object → Exec Env
  eval_assignment env variables empty = pure env
  eval_assignment env variables (field name value rest) = do
    env' ← assign_field env variables name value
    eval_assignment env' variables rest

  module _ (again : Env → ℕ → Seq → Exec Env) where
    eval_nested : Env → ℕ → Option Yaml → Exec Env
    eval_nested env variables (some (Yaml.seq nested_body)) = again env variables nested_body
    eval_nested env variables _ = throw body_not_list

    unfoldable pub eval_body : Env → ℕ → Object → Exec Env
    unfolding eval_nested
    eval_body env variables object = eval_nested env variables (get (lit "body") object)

    -- The loop over the cases of a switch. `run_case` is `evalIfWithSyntaxCheck`, and
    -- `default_array` is what the default case holds, if one has been met.
    unfoldable pub eval_cases :
        (Env → ℕ → Object → Exec (Env × Bool)) → Env → ℕ → Option Seq → Seq → Exec Env
    unfolding default_case
    eval_cases run_case env variables none Seq.end = pure env
    eval_cases run_case env variables (some default_array) Seq.end =
        again env variables default_array
    eval_cases run_case env variables default_array (Seq.item (Yaml.mapping element) rest) =
        if has_key (lit "if") element
        then (do
          (env', condition_true) ← run_case env variables element
          if condition_true
              then pure env'
              else eval_cases run_case env variables default_array rest)
        else (do
          array ← of_sum (default_case default_array element)
          eval_cases run_case env variables (some array) rest)
    eval_cases run_case env variables default_array (Seq.item _ rest) = throw case_not_object

    eval_switch_value : (Env → ℕ → Object → Exec (Env × Bool)) → Env → ℕ → Option Yaml → Exec Env
    eval_switch_value run_case env variables none = throw no_switch
    eval_switch_value run_case env variables (some (Yaml.seq switch_array)) =
        eval_cases run_case env variables none switch_array
    eval_switch_value run_case env variables (some _) = throw switch_not_list

    -- `run_case` is `evalIfWithSyntaxCheck` on the cases of a nested switch.
    module _ (run_case : Env → ℕ → Object → Exec (Env × Bool)) where
      unfoldable pub eval_switch : Env → ℕ → Object → Exec Env
      unfolding eval_switch_value
      eval_switch env variables object =
          eval_switch_value run_case env variables (get (lit "switch") object)

      -- What an if object runs when its condition holds.
      unfoldable pub eval_branch : Env → ℕ → Object → Exec Env
      eval_branch env variables object =
          if has_key (lit "body") object
          then eval_body env variables object
          else if has_key (lit "switch") object
          then eval_switch env variables object
          else eval_assignment env variables object

      eval_if_condition : Env → ℕ → Object → Option Yaml → Exec (Env × Bool)
      eval_if_condition env variables object (some (Yaml.string condition)) = do
        bool_val ← eval_condition E env calls condition variables
        if bool_val
            then (do env' ← eval_branch env variables object; pure (env', true))
            else pure (env, false)
      eval_if_condition env variables object _ = throw condition_not_string

      unfoldable pub eval_if_with_syntax_check : Env → ℕ → Object → Exec (Env × Bool)
      unfolding eval_if_condition refuse
      eval_if_with_syntax_check env variables object =
          let (num_keywords, flags) = count_keywords object in
          do
            refuse (if_syntax num_keywords flags (size object))
            eval_if_condition env variables object (get (lit "if") object)

      -- One round of the loop of `evalArrayObject`, on a map: the switch on the flags.
      unfoldable pub eval_object : Env → ℕ → Object → Exec Env
      eval_object env variables object =
          let (num_keywords, flags) = count_keywords object in
          if has_flag flags if_flag
          then keep env (eval_if_with_syntax_check env variables object)
          else if has_flag flags switch_flag
          then (if ltb 1 num_keywords
              then throw switch_keywords
              else if ltb 1 (size object)
              then throw switch_assignment
              else keep env (eval_switch env variables object))
          else if has_flag flags body_flag
          then (if ltb 1 num_keywords
              then throw body_keywords
              else if ltb 1 (size object)
              then throw body_assignment
              else keep env (eval_body env variables object))
          else if has_flag flags default_flag
          then throw default_outside_switch
          else if ltb 1 (size object)
          then throw multiple_assignments
          else eval_assignment env variables object

      unfoldable pub eval_items : Env → ℕ → Seq → Exec Env
      eval_items env variables Seq.end = pure env
      eval_items env variables (Seq.item (Yaml.mapping object) rest) = do
        env' ← eval_object env variables object
        eval_items env' variables rest
      eval_items env variables (Seq.item _ rest) = throw not_an_object

  unfoldable mutual
    pub eval_array : ℕ → Env → ℕ → Seq → Exec Env
    eval_array zero env variables body_array w = (out_of_fuel, w)
    eval_array (suc fuel) env variables body_array w =
        eval_items (eval_array fuel) (eval_case fuel) env variables body_array w

    pub eval_case : ℕ → Env → ℕ → Object → Exec (Env × Bool)
    eval_case zero env variables object w = (out_of_fuel, w)
    eval_case (suc fuel) env variables object w =
        eval_if_with_syntax_check (eval_array fuel) (eval_case fuel) env variables object w

  -- `evalArrayObject`, with the fuel that its nesting needs.
  unfoldable pub eval_array_object : Env → ℕ → Seq → Exec Env
  eval_array_object env variables body_array =
      eval_array (suc (nesting_seq body_array)) env variables body_array
