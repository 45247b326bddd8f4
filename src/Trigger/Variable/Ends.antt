-- ===== src/Trigger/Variable/Ends.antt =====
-- Setting a variable and evaluating a text come to an end where expressions do.
use kabanero_events.Prelude.{ℕ, ◌≢◌, Bool, true, false, Option, none, some, List, [], ◌∷◌, Str}
use kabanero_events.Go.Value.{Val}
use kabanero_events.Go.Exec.{panic, out_of_fuel}
use kabanero_events.Go.Ends.{Ends, ends_rules, Ends-if, Ends-bind, Ends-alloc, Ends-load, Ends-lift}
use kabanero_events.Trigger.Engine.{Engine, Out, Calls, CelType, map_type}
use kabanero_events.Trigger.Variable.{
  is_nil, is_map, as_bool, assign, assign_map, assign_other, create_one_variable_helper, make_map,
  enter, create_at, create_one_variable, eval_text, set_one_variable, eval_condition,
}

-- The calls of CEL return.
pub record EngineEnds (E : Engine) : Type 0 where
  pub extend_ends : (env : E.Env) (name : Str) (t : CelType) → E.extend env name t ≢ out_of_fuel
  pub parse_ends : (env : E.Env) (text : Str) → E.parse env text ≢ out_of_fuel
  pub check_ends : (env : E.Env) (ast : E.Ast) → E.check env ast ≢ out_of_fuel
  pub program_ends : (env : E.Env) (ast : E.Ast) → E.program env ast ≢ out_of_fuel
  -- an expression, where the functions that it calls return
  pub eval_ends :
      (prg : E.Program) (calls : Calls) (variables : ℕ)
      → ((name : Str) (args : List Out) → Ends (calls name args))
      → Ends (E.eval prg calls variables)

module _ (E : Engine) (ends : EngineEnds E) where
  open E use {Env, Program, eval}
  open ends use {extend_ends, parse_ends, check_ends, program_ends, eval_ends}

  assign-Ends :
      (env : Env) (name : Str) (value : Val) (variables : ℕ) (create castable : Bool) (t : CelType)
      → Ends (assign E env name value variables create castable t)
  unfolding assign
  assign-Ends env name value variables create castable t = search (ends_rules, extend_ends) depth 9

  assign_map-Ends :
      (env : Env) (name : Str) (value : Val) (variables : ℕ) (create : Bool)
      → Ends (assign_map E env name value variables create)
  unfolding assign_map
  assign_map-Ends env name value variables create =
      Ends-if (is_nil value) (Ends-lift panic (λ h. cc h))
        (assign-Ends env name value variables create (is_map value) map_type)

  assign_other-Ends :
      (env : Env) (name : Str) (value : Val) (variables : ℕ) (create : Bool)
      → Ends (assign_other E env name value variables create)
  unfolding assign_other
  assign_other-Ends env name value variables create = search ends_rules depth 8

  create_one_variable_helper-Ends :
      (env : Env) (name : Str) (out : Out) (variables : ℕ) (create : Bool)
      → Ends (create_one_variable_helper E env name out variables create)
  unfolding create_one_variable_helper
  create_one_variable_helper-Ends env name out variables create =
      search (ends_rules, assign-Ends, assign_map-Ends, assign_other-Ends) depth 10

  enter-Ends :
      (env : Env) (top : Bool) (name : Str) (variables : ℕ) (entry : Option Val)
      → Ends (enter E env top name variables entry)
  unfolding enter make_map
  enter-Ends env top name variables none =
      Ends-bind (search (ends_rules, extend_ends))
        (λ _. Ends-bind Ends-alloc (λ _. search ends_rules))
  enter-Ends env top name variables (some (Val.object a)) = search ends_rules
  enter-Ends env top name variables (some _) = search ends_rules

  create_at-Ends :
      (names : List Str) (env : Env) (top : Bool) (out : Out) (variables : ℕ)
      → Ends (create_at E env top names out variables)
  unfolding create_at
  create_at-Ends [] env top out variables = search ends_rules
  create_at-Ends (name ∷ []) env top out variables =
      create_one_variable_helper-Ends env name out variables top
  create_at-Ends (name ∷ next ∷ rest) env top out variables =
      Ends-bind (Ends-load variables name) (λ entry.
        Ends-bind (enter-Ends env top name variables entry)
          (λ found. create_at-Ends (next ∷ rest) found.0 false out found.1))

  pub create_one_variable-Ends :
      (env : Env) (name : Str) (out : Out) (variables : ℕ)
      → Ends (create_one_variable E env name out variables)
  unfolding create_one_variable
  create_one_variable-Ends env name out variables = create_at-Ends _ env true out variables

  module _ (calls : Calls) (called : (name : Str) (args : List Out) → Ends (calls name args)) where
    eval_text-Ends :
        (env : Env) (text : Str) (variables : ℕ) → Ends (eval_text E env calls text variables)
    unfolding eval_text
    eval_text-Ends env text variables = Ends-bind (Ends-lift _ (parse_ends env text)) (λ parsed.
        Ends-bind (Ends-lift _ (check_ends env parsed)) (λ checked.
          Ends-bind (Ends-lift _ (program_ends env checked))
            (λ prg. eval_ends prg calls variables called)))

    pub set_one_variable-Ends :
        (env : Env) (name val : Str) (variables : ℕ)
        → Ends (set_one_variable E env calls name val variables)
    unfolding set_one_variable
    set_one_variable-Ends env name val variables =
        search (ends_rules, eval_text-Ends, create_one_variable-Ends) depth 10

    as_bool-Ends : (v : Val) → Ends (as_bool E v)
    as_bool-Ends (Val.bool b) = search ends_rules
    as_bool-Ends _ = search ends_rules

    pub eval_condition-Ends :
        (env : Env) (text : Str) (variables : ℕ) → Ends (eval_condition E env calls text variables)
    unfolding eval_condition
    eval_condition-Ends env text variables =
        search (ends_rules, eval_text-Ends, as_bool-Ends) depth 10
