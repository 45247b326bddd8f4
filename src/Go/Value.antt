-- ===== src/Go/Value.antt =====
-- The values behind `interface{}`. `Yaml` is what gopkg.in/yaml.v2 decodes a trigger file to:
-- those values are never written. `Val` is what CEL expressions and events hold: there a
-- `map[string]interface{}` is a reference, since the program writes through it.
use kabanero_events.Prelude.{
  ℕ, Bool, true, false, Option, none, some, List, Str, str_eq, ℤ, if◌then◌else◌, suc,
}

mutual
  -- The constructors are the dynamic types. A float is its IEEE bit pattern.
  pub data Yaml : Type 0 where
    null : Yaml
    bool : Bool → Yaml
    int : ℤ → Yaml
    int64 : ℤ → Yaml
    int32 : ℤ → Yaml
    float32 : ℕ → Yaml
    float64 : ℕ → Yaml
    string : Str → Yaml
    seq : Seq → Yaml
    mapping : Object → Yaml
    -- any other type: uint64, time.Time, ...
    other : ℕ → Yaml

  -- `[]interface{}`
  pub data Seq : Type 0 where
    end : Seq
    item : Yaml → Seq → Seq

  -- `map[interface{}]interface{}`, in the order in which `range` visits it
  pub data Object : Type 0 where
    empty : Object
    field : Yaml → Yaml → Object → Object

-- `object[name]` for a string; a key of another type never equals a string.
unfoldable pub get : Str → Object → Option Yaml
get name empty = none
get name (field (string key) value rest) = if str_eq key name then some value else get name rest
get name (field _ value rest) = get name rest

-- `_, ok := object[name]`
unfoldable pub has_key : Str → Object → Bool
has_key name object = elim (get name object) [ some _ ↦ true | none ↦ false ]

-- `len(object)`
unfoldable pub size : Object → ℕ
size empty = 0
size (field key value rest) = suc (size rest)

mutual
  pub data Val : Type 0 where
    nil : Val
    bool : Bool → Val
    int64 : ℤ → Val
    float64 : ℕ → Val
    string : Str → Val
    -- `map[string]interface{}`: the address of its entries
    object : ℕ → Val
    -- `map[string][]string`
    headers : List (Str × List Str) → Val
    -- any other map
    dict : Dict → Val
    -- any array or slice
    array : Array → Val
    other : ℕ → Val

  pub data Array : Type 0 where
    end : Array
    item : Val → Array → Array

  pub data Dict : Type 0 where
    empty : Dict
    field : Val → Val → Dict → Dict
