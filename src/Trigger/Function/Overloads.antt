-- ===== src/Trigger/Function/Overloads.antt =====
-- pkg/trigger/trigger.go: the declarations of `initCELFuncs`.
use kabanero_events.Prelude.{
  ℕ, ◌≡◌, Option, none, some, List, [], ◌∷◌, Str, lit, str_eq, if◌then◌else◌,
}
use kabanero_events.Go.Value.{Val}
use kabanero_events.Trigger.Engine.{Out}
use kabanero_events.Trigger.Convert.{text, array_of}

-- `decls.Any`, `decls.String`, `decls.Int`, `decls.NewListType(decls.String)` and
-- `decls.NewMapType(decls.String, decls.Any)`.
pub data ParamType : Type 0 where
  takes_any takes_string takes_int takes_strings takes_map : ParamType

-- `decls.NewOverload`
pub record Overload : Type 0 where
  pub id : Str
  pub arguments : List ParamType
  pub result : ParamType

abbrev overloaded : Str → List ParamType → ParamType → Overload
overloaded id arguments result = record { id = id; arguments = arguments; result = result }

-- The overload that `initCELFuncs` declares of a name.
unfoldable pub overload : Str → Option Overload
overload name =
    if str_eq name (lit "filter")
    then some (overloaded (lit "filter_any_string") (takes_any ∷ takes_string ∷ []) takes_any)
    else if str_eq name (lit "call")
    then some (overloaded (lit "call_string_any_string") (takes_string ∷ takes_any ∷ []) takes_any)
    else if str_eq name (lit "sendEvent")
    then some (
        overloaded (lit "sendEvent_string_any_any") (takes_string ∷ takes_any ∷ takes_any ∷ [])
          takes_string)
    else if str_eq name (lit "applyResources")
    then some
        (overloaded (lit "applyResources_string_any") (takes_string ∷ takes_any ∷ []) takes_string)
    else if str_eq name (lit "kabaneroConfig")
    then some (overloaded (lit "kabaneroConfig") [] takes_map)
    else if str_eq name (lit "jobID")
    then some (overloaded (lit "jobID") [] takes_string)
    else if str_eq name (lit "downloadYAML")
    then some (overloaded (lit "downloadYAML_map_string") (takes_map ∷ takes_string ∷ []) takes_map)
    else if str_eq name (lit "toDomainName")
    then some (overloaded (lit "toDomainName_string") (takes_string ∷ []) takes_string)
    else if str_eq name (lit "toLabel")
    then some (overloaded (lit "toLabel_string") (takes_string ∷ []) takes_string)
    else if str_eq name (lit "split")
    then some (overloaded (lit "split_string") (takes_string ∷ takes_string ∷ []) takes_strings)
    else if str_eq name (lit "substring")
    then some (overloaded (lit "substring") (takes_string ∷ takes_int ∷ []) takes_string)
    else none

-- The values of a type, with CEL's name for it.
pub data IsOf (out : Out) : ParamType → Type 0 where
  is_any : IsOf out takes_any
  is_text : (s : Str) → text s ≡ out → IsOf out takes_string
  is_strings :
      (ss : List Str)
      → record { type_name = lit "list"; value = Val.array (array_of ss) } ≡ out
      → IsOf out takes_strings
  is_address :
      (a : ℕ) → record { type_name = lit "map"; value = Val.object a } ≡ out → IsOf out takes_map

-- The name is declared, with a result of the type of this value.
pub record IsDeclared (name : Str) (out : Out) : Type 0 where
  pub declared : Overload
  pub by_name : overload name ≡ some declared
  pub result_type : IsOf out declared.result
