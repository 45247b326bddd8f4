-- ===== src/Trigger/Variable.antt =====
-- pkg/trigger/trigger.go: `setOneVariable`, `createOneVariable`, `createOneVariableHelper`,
-- `evalCondition` and `initializeCELEnv`. The variables are a Go map, given by its address.
pub mod Keeps
pub mod Place
pub mod Ends
pub mod Declared
pub mod Nested
use mathlib.Core.List.{reverse}
use kabanero_events.Prelude.{
  ℕ, Bool, true, false, ◌||◌, Option, none, some, List, [], ◌∷◌, Str, lit, str_eq, split, ◌==◌,
  if◌then◌else◌,
}
use kabanero_events.Go.Value.{Val}
use kabanero_events.Go.Exec.{
  Exec, Result, panic, pure, throw, lift, ◌>>=◌, ◌>>◌, load, store, alloc, component_not_map,
  cast_failed, type_unusable, condition_not_bool,
}
use kabanero_events.Trigger.Engine.{
  Engine, Out, Calls, CelType, int_type, bool_type, double_type, string_type, list_type, map_type,
}

-- `strings.Trim(s, " ")`
trim_left : Str → Str
trim_left [] = []
trim_left (c ∷ s) = if c == b' ' then trim_left s else c ∷ s

unfoldable pub trim : Str → Str
unfolding trim_left
trim s = reverse (trim_left (reverse (trim_left s)))

-- The type switches on `out.Value()`.
abbrev is_int64 : Val → Bool
is_int64 (Val.int64 _) = true
is_int64 _ = false

abbrev is_bool : Val → Bool
is_bool (Val.bool _) = true
is_bool _ = false

abbrev is_float64 : Val → Bool
is_float64 (Val.float64 _) = true
is_float64 _ = false

abbrev is_string : Val → Bool
is_string (Val.string _) = true
is_string _ = false

-- `reflect.ValueOf(v).Kind() == reflect.Map`
abbrev pub is_map : Val → Bool
is_map (Val.object _) = true
is_map (Val.headers _) = true
is_map (Val.dict _) = true
is_map _ = false

abbrev is_nil : Val → Bool
is_nil Val.nil = true
is_nil _ = false

module _ (E : Engine) where
  open E use {Env, new_env, extend, parse, check, program, eval}

  -- `initializeEmptyCELEnv`
  abbrev pub initialize_empty_cel_env : Exec Env
  initialize_empty_cel_env = lift new_env

  -- One case of the switch: the cast, the new identifier, the entry.
  assign : Env → Str → Val → ℕ → Bool → Bool → CelType → Exec Env
  assign env name value variables create_new_ident castable t = do
    if castable then pure tt else throw cast_failed
    env' ← if create_new_ident then lift (extend env name t) else pure env
    store variables name value
    pure env'

  -- `reflect.ValueOf(nil).Type()` panics.
  assign_map : Env → Str → Val → ℕ → Bool → Exec Env
  unfolding assign
  assign_map env name value variables create_new_ident =
      if is_nil value
      then lift panic
      else assign env name value variables create_new_ident (is_map value) map_type

  -- The `default` case.
  assign_other : Env → Str → Val → ℕ → Bool → Exec Env
  assign_other env name value variables create_new_ident =
      if create_new_ident then throw type_unusable else (do store variables name value; pure env)

  unfoldable pub create_one_variable_helper : Env → Str → Out → ℕ → Bool → Exec Env
  unfolding assign assign_map assign_other
  create_one_variable_helper env name out variables create_new_ident =
      let value = out.value in
      let is_type = str_eq out.type_name in
      if is_type (lit "int")
      then assign env name value variables create_new_ident (is_int64 value) int_type
      else if is_type (lit "bool")
      then assign env name value variables create_new_ident (is_bool value) bool_type
      else if is_type (lit "double")
      then assign env name value variables create_new_ident (is_float64 value) double_type
      else if is_type (lit "string")
      then assign env name value variables create_new_ident (is_string value) string_type
      else if is_type (lit "list")
      then assign env name value variables create_new_ident true list_type
      else if is_type (lit "map")
      then assign_map env name value variables create_new_ident
      else assign_other env name value variables create_new_ident

  -- A component that has no entry yet: an identifier at the top level, and a new map.
  make_map : Env → Bool → Str → ℕ → Exec (Env × ℕ)
  make_map env top name variables = do
    env' ← if top then lift (extend env name map_type) else pure env
    new_map ← alloc
    store variables name (Val.object new_map)
    pure (env', new_map)

  -- One round of the loop of `createOneVariable`: the map for the next component.
  unfoldable pub enter : Env → Bool → Str → ℕ → Option Val → Exec (Env × ℕ)
  unfolding make_map
  enter env top name variables none = make_map env top name variables
  enter env top name variables (some (Val.object a)) = pure (env, a)
  enter env top name variables (some _) = throw component_not_map

  -- The loop, on the components that are left; `top` is `index == 0`.
  unfoldable pub create_at : Env → Bool → List Str → Out → ℕ → Exec Env
  create_at env top [] out variables = pure env
  create_at env top (name ∷ []) out variables =
      create_one_variable_helper env name out variables top
  create_at env top (name ∷ next ∷ rest) out variables = do
    entry ← load variables name
    (env', a) ← enter env top name variables entry
    create_at env' false (next ∷ rest) out a

  unfoldable pub create_one_variable : Env → Str → Out → ℕ → Exec Env
  create_one_variable env entire_name out variables =
      create_at env true (split b'.' entire_name) out variables

  unfoldable pub eval_text : Env → Calls → Str → ℕ → Exec Out
  eval_text env calls text variables = do
    parsed ← lift (parse env text)
    checked ← lift (check env parsed)
    prg ← lift (program env checked)
    eval prg calls variables

  unfoldable pub set_one_variable : Env → Calls → Str → Str → ℕ → Exec Env
  unfolding eval_text
  set_one_variable env calls name val variables = if str_eq name [] then pure env else (do
    out ← eval_text env calls (trim val) variables
    create_one_variable env name out variables)

  abbrev as_bool : Val → Exec Bool
  as_bool (Val.bool b) = pure b
  as_bool _ = throw condition_not_bool

  unfoldable pub eval_condition : Env → Calls → Str → ℕ → Exec Bool
  unfolding eval_text
  eval_condition env calls text variables =
      if str_eq text []
      then pure true
      else (do out ← eval_text env calls text variables; as_bool out.value)

  -- A new environment and a new map, with the message as the one variable.
  unfoldable pub initialize_cel_env : Val → Str → Exec (Env × ℕ)
  initialize_cel_env message input = do
    env ← initialize_empty_cel_env
    env' ← lift (extend env input map_type)
    variables ← alloc
    store variables input message
    pure (env', variables)
