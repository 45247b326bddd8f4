-- ===== src/Trigger/Filter.antt =====
-- pkg/trigger/trigger.go: `filterCEL` with `filterMapEntry` and `filterArraySlice`.
pub mod Rules
pub mod Keeps
use kabanero_events.Prelude.{ℕ, Bool, true, false, List, [], ◌∷◌, Str, lit, get_or, if◌then◌else◌}
use kabanero_events.Go.Value.{Val, Array, Dict}
use kabanero_events.Go.Exec.{
  Exec, ok, pure, throw, lift, reads, ◌>>=◌, ◌>>◌, store, alloc, bad_argument, not_filterable,
}
use kabanero_events.Trigger.Engine.{Engine, Out, Calls, string_type, any_type}
use kabanero_events.Trigger.Convert.{convert_to_ref_val, array_of}
use kabanero_events.Trigger.Variable.{initialize_empty_cel_env, eval_condition}

-- `v.Value() == nil`
abbrev pub is_nil : Val → Bool
is_nil Val.nil = true
is_nil _ = false

abbrev pub string_of : Val → Exec Str
string_of (Val.string s) = pure s
string_of _ = throw bad_argument

abbrev pub check_some : Val → Exec (Unit {0})
check_some v = if is_nil v then throw bad_argument else pure tt

-- A map of the same type that keeps an entry.
keep_field : Bool → Val → Val → Dict → Dict
keep_field true key value d = Dict.field key value d
keep_field false key value d = d

pub keep_item : Bool → Val → Array → Array
keep_item true v a = Array.item v a
keep_item false v a = a

keep_entry {ℓ} : {A : Type ℓ} → Bool → A → List A → List A
keep_entry true x xs = x ∷ xs
keep_entry false x xs = xs

abbrev pub store_all : ℕ → List (Str × Val) → Exec (Unit {0})
store_all a [] = pure tt
store_all a ((key, value) ∷ rest) = do store a key value; store_all a rest

module _ (E : Engine) (calls : Calls) where
  open E use {Env, new_env, extend}

  -- The condition of `filterMapEntry`, on a fresh environment that holds the key and the value.
  unfoldable pub keeps_entry : Str → Val → Val → Exec Bool
  keeps_entry expression key value = do
    env ← initialize_empty_cel_env E
    variables ← alloc
    store variables (lit "key") key
    env₁ ← lift (extend env (lit "key") string_type)
    store variables (lit "value") value
    env₂ ← lift (extend env₁ (lit "value") any_type)
    eval_condition E env₂ calls expression variables

  -- The condition of `filterArraySlice`.
  unfoldable pub keeps_item : Str → Val → Exec Bool
  keeps_item expression value = do
    env ← initialize_empty_cel_env E
    variables ← alloc
    store variables (lit "value") value
    env' ← lift (extend env (lit "value") any_type)
    eval_condition E env' calls expression variables

  unfoldable pub filter_dict : Str → Dict → Exec Dict
  unfolding keep_field
  filter_dict expression Dict.empty = pure Dict.empty
  filter_dict expression (Dict.field key value rest) = do
    keep ← keeps_entry expression key value
    rest' ← filter_dict expression rest
    pure (keep_field keep key value rest')

  unfoldable pub filter_array : Str → Array → Exec Array
  unfolding keep_item
  filter_array expression Array.end = pure Array.end
  filter_array expression (Array.item value rest) = do
    keep ← keeps_item expression value
    rest' ← filter_array expression rest
    pure (keep_item keep value rest')

  unfoldable pub filter_entries : Str → List (Str × Val) → Exec (List (Str × Val))
  unfolding keep_entry
  filter_entries expression [] = pure []
  filter_entries expression ((key, value) ∷ rest) = do
    keep ← keeps_entry expression (Val.string key) value
    rest' ← filter_entries expression rest
    pure (keep_entry keep (key, value) rest')

  unfoldable pub filter_headers : Str → List (Str × List Str) → Exec (List (Str × List Str))
  unfolding keep_entry
  filter_headers expression [] = pure []
  filter_headers expression ((key, values) ∷ rest) = do
    keep ← keeps_entry expression (Val.string key) (Val.array (array_of values))
    rest' ← filter_headers expression rest
    pure (keep_entry keep (key, values) rest')

  -- A new `map[string]interface{}` with the entries that were kept.
  filter_object : Str → ℕ → Exec Val
  filter_object expression a = do
    entries ← reads (λ w. ok (get_or w.heap a []))
    kept ← filter_entries expression entries
    new_map ← alloc
    store_all new_map kept
    pure (Val.object new_map)

  filter_value : Str → Val → Exec Val
  unfolding filter_object
  filter_value expression (Val.object a) = filter_object expression a
  filter_value expression (Val.headers h) = do
    h' ← filter_headers expression h
    pure (Val.headers h')
  filter_value expression (Val.dict d) = do d' ← filter_dict expression d; pure (Val.dict d')
  filter_value expression (Val.array a) = do a' ← filter_array expression a; pure (Val.array a')
  filter_value expression _ = throw not_filterable

  -- `filterCEL`
  unfoldable pub filter : Val → Val → Exec Out
  unfolding filter_value
  filter message expression = do
    check_some message
    check_some expression
    expression_str ← string_of expression
    kept ← filter_value expression_str message
    lift (convert_to_ref_val kept)
