-- ===== src/Trigger/Variable/Keeps.antt =====
-- What setting variables and evaluating texts keeps: any property that survives writes to maps,
-- provided that evaluating an expression keeps it.
use kabanero_events.Prelude.{ℕ, Bool, true, false, Option, none, some, List, [], ◌∷◌, Str}
use kabanero_events.Go.Value.{Val}
use kabanero_events.Go.Exec.{World}
use kabanero_events.Go.Keeps.{Keeps, keeps_rules, KeptByMaps, Keeps-bind, load-Keeps}
use kabanero_events.Trigger.Engine.{Engine, Out, Calls, CelType}
use kabanero_events.Trigger.Variable.{
  as_bool, assign, assign_map, assign_other, create_one_variable_helper, make_map, enter, create_at,
  create_one_variable, eval_text, set_one_variable, eval_condition, initialize_cel_env,
}

-- CEL expressions act only through the functions that they call.
abbrev pub EvalKeeps : Engine → (World → Type 0) → Type 0
EvalKeeps E P =
    (prg : E.Program) (calls : Calls) (variables : ℕ)
    → ((name : Str) (args : List Out) → Keeps P (calls name args))
    → Keeps P (E.eval prg calls variables)

module _ {P : World → Type 0} (maps : KeptByMaps P) (E : Engine) where
  open E use {Env, Program, eval}
  open maps use {by_store, by_alloc}

  assign-Keeps :
      (env : Env) (name : Str) (value : Val) (variables : ℕ) (create castable : Bool) (t : CelType)
      → Keeps P (assign E env name value variables create castable t)
  unfolding assign
  assign-Keeps env name value variables create castable t = search (keeps_rules, by_store) depth 8

  assign_map-Keeps :
      (env : Env) (name : Str) (value : Val) (variables : ℕ) (create : Bool)
      → Keeps P (assign_map E env name value variables create)
  unfolding assign_map
  assign_map-Keeps env name value variables create = search (keeps_rules, assign-Keeps) depth 8

  assign_other-Keeps :
      (env : Env) (name : Str) (value : Val) (variables : ℕ) (create : Bool)
      → Keeps P (assign_other E env name value variables create)
  unfolding assign_other
  assign_other-Keeps env name value variables create = search (keeps_rules, by_store) depth 8

  create_one_variable_helper-Keeps :
      (env : Env) (name : Str) (out : Out) (variables : ℕ) (create : Bool)
      → Keeps P (create_one_variable_helper E env name out variables create)
  unfolding create_one_variable_helper
  create_one_variable_helper-Keeps env name out variables create =
      search (keeps_rules, assign-Keeps, assign_map-Keeps, assign_other-Keeps) depth 10

  make_map-Keeps :
      (env : Env) (top : Bool) (name : Str) (variables : ℕ)
      → Keeps P (make_map E env top name variables)
  unfolding make_map
  make_map-Keeps env top name variables =
      Keeps-bind (search keeps_rules)
        (λ _. Keeps-bind by_alloc (λ _. search (keeps_rules, by_store)))

  enter-Keeps :
      (env : Env) (top : Bool) (name : Str) (variables : ℕ) (entry : Option Val)
      → Keeps P (enter E env top name variables entry)
  unfolding enter
  enter-Keeps env top name variables none = make_map-Keeps env top name variables
  enter-Keeps env top name variables (some (Val.object a)) = search keeps_rules
  enter-Keeps env top name variables (some _) = search keeps_rules

  create_at-Keeps :
      (names : List Str) (env : Env) (top : Bool) (out : Out) (variables : ℕ)
      → Keeps P (create_at E env top names out variables)
  unfolding create_at
  create_at-Keeps [] env top out variables = search keeps_rules
  create_at-Keeps (name ∷ []) env top out variables =
      create_one_variable_helper-Keeps env name out variables top
  create_at-Keeps (name ∷ next ∷ rest) env top out variables =
      Keeps-bind (load-Keeps variables name) (λ entry.
        Keeps-bind (enter-Keeps env top name variables entry)
          (λ found. create_at-Keeps (next ∷ rest) found.0 false out found.1))

  pub create_one_variable-Keeps :
      (env : Env) (name : Str) (out : Out) (variables : ℕ)
      → Keeps P (create_one_variable E env name out variables)
  unfolding create_one_variable
  create_one_variable-Keeps env name out variables = create_at-Keeps _ env true out variables

  pub initialize_cel_env-Keeps :
      (message : Val) (input : Str) → Keeps P (initialize_cel_env E message input)
  unfolding initialize_cel_env
  initialize_cel_env-Keeps message input = Keeps-bind (search keeps_rules) (λ _.
      Keeps-bind (search keeps_rules)
        (λ _. Keeps-bind by_alloc (λ _. search (keeps_rules, by_store))))

  module _ (evals : EvalKeeps E P) (calls : Calls)
      (called : (name : Str) (args : List Out) → Keeps P (calls name args)) where
    eval_text-Keeps :
        (env : Env) (text : Str) (variables : ℕ) → Keeps P (eval_text E env calls text variables)
    unfolding eval_text
    eval_text-Keeps env text variables = search (keeps_rules, evals, called) depth 10

    pub set_one_variable-Keeps :
        (env : Env) (name val : Str) (variables : ℕ)
        → Keeps P (set_one_variable E env calls name val variables)
    unfolding set_one_variable
    set_one_variable-Keeps env name val variables =
        search (keeps_rules, eval_text-Keeps, create_one_variable-Keeps) depth 10

    as_bool-Keeps : (v : Val) → Keeps P (as_bool E v)
    as_bool-Keeps (Val.bool b) = search keeps_rules
    as_bool-Keeps _ = search keeps_rules

    pub eval_condition-Keeps :
        (env : Env) (text : Str) (variables : ℕ)
        → Keeps P (eval_condition E env calls text variables)
    unfolding eval_condition
    eval_condition-Keeps env text variables =
        search (keeps_rules, eval_text-Keeps, as_bool-Keeps) depth 10
