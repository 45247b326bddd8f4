-- ===== src/Trigger/Engine.antt =====
-- github.com/google/cel-go as the program calls it, and the other code that it does not hold.
use kabanero_events.Prelude.{ℕ, List, Str}
use kabanero_events.Go.Value.{Val}
use kabanero_events.Go.Exec.{Result, Exec}

-- A `ref.Val` that is no error: `Type().TypeName()` and `Value()`.
pub record Out : Type 0 where
  pub type_name : Str
  pub value : Val

-- The types of `decls.NewIdent`: `list_type` is NewListType(Any), `map_type` NewMapType(String, Any).
pub data CelType : Type 0 where
  int_type bool_type double_type string_type list_type map_type any_type : CelType

-- A function called from an expression: its name and its arguments. An error is the `types.Err`
-- that the function returns.
abbrev pub Calls : Type 0
Calls = Str → List Out → Exec Out

pub record Engine : Type 1 where
  pub Env : Type 0
  pub Ast : Type 0
  pub Program : Type 0
  -- `cel.NewEnv` with the declarations of `initCELFuncs`
  pub new_env : Result Env
  -- `env.Extend(cel.Declarations(decls.NewIdent(name, type, nil)))`
  pub extend : Env → Str → CelType → Result Env
  pub parse : Env → Str → Result Ast
  pub check : Env → Ast → Result Ast
  pub program : Env → Ast → Result Program
  -- `prg.Eval(variables)`, with the functions that `initCELFuncs` registers
  pub eval : Program → Calls → ℕ → Exec Out
  -- `fmt.Sprintf("%v")` of a float32 and of a float64
  pub format_float32 : ℕ → Str
  pub format_float64 : ℕ → Str
