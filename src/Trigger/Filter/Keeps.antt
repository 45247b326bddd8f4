-- ===== src/Trigger/Filter/Keeps.antt =====
-- `filter` keeps what its conditions and writes to maps keep.
use kabanero_events.Prelude.{ℕ, List, [], ◌∷◌, Str}
use kabanero_events.Go.Value.{Val, Array, Dict}
use kabanero_events.Go.Exec.{World}
use kabanero_events.Go.Keeps.{Keeps, keeps_rules, KeptByMaps, Keeps-bind}
use kabanero_events.Trigger.Engine.{Engine, Out, Calls}
use kabanero_events.Trigger.Variable.Keeps.{EvalKeeps, eval_condition-Keeps}
use kabanero_events.Trigger.Filter.{
  check_some, string_of, store_all, keeps_entry, keeps_item, filter_dict, filter_array,
  filter_entries, filter_headers, filter_value, filter,
}

module _ {P : World → Type 0} where
  pub check_some-Keeps : (v : Val) → Keeps P (check_some v)
  check_some-Keeps v = search keeps_rules

  pub string_of-Keeps : (v : Val) → Keeps P (string_of v)
  string_of-Keeps (Val.string s) = search keeps_rules
  string_of-Keeps _ = search keeps_rules

module _ {P : World → Type 0} (maps : KeptByMaps P) (E : Engine) (evals : EvalKeeps E P)
    (calls : Calls) (called : (name : Str) (args : List Out) → Keeps P (calls name args)) where
  open maps use {by_store, by_alloc}

  store_all-Keeps : (a : ℕ) (m : List (Str × Val)) → Keeps P (store_all a m)
  store_all-Keeps a [] = search keeps_rules
  store_all-Keeps a ((k, v) ∷ m) = Keeps-bind (by_store a k v) (λ _. store_all-Keeps a m)

  keeps_entry-Keeps : (e : Str) (k v : Val) → Keeps P (keeps_entry E calls e k v)
  unfolding keeps_entry
  keeps_entry-Keeps e k v = Keeps-bind (search keeps_rules) (λ _. Keeps-bind by_alloc (λ _.
      Keeps-bind (by_store _ _ _) (λ _. Keeps-bind (search keeps_rules) (λ _.
        Keeps-bind (by_store _ _ _) (λ _.
          Keeps-bind (search keeps_rules)
            (λ _. eval_condition-Keeps maps E evals calls called _ _ _))))))

  keeps_item-Keeps : (e : Str) (v : Val) → Keeps P (keeps_item E calls e v)
  unfolding keeps_item
  keeps_item-Keeps e v = Keeps-bind (search keeps_rules) (λ _. Keeps-bind by_alloc (λ _.
      Keeps-bind (by_store _ _ _) (λ _.
        Keeps-bind (search keeps_rules)
          (λ _. eval_condition-Keeps maps E evals calls called _ _ _))))

  filter_dict-Keeps : (d : Dict) (e : Str) → Keeps P (filter_dict E calls e d)
  unfolding filter_dict
  filter_dict-Keeps Dict.empty e = search keeps_rules
  filter_dict-Keeps (Dict.field k v rest) e =
      Keeps-bind (keeps_entry-Keeps e k v)
        (λ _. Keeps-bind (filter_dict-Keeps rest e) (λ _. search keeps_rules))

  filter_array-Keeps : (a : Array) (e : Str) → Keeps P (filter_array E calls e a)
  unfolding filter_array
  filter_array-Keeps Array.end e = search keeps_rules
  filter_array-Keeps (Array.item v rest) e =
      Keeps-bind (keeps_item-Keeps e v)
        (λ _. Keeps-bind (filter_array-Keeps rest e) (λ _. search keeps_rules))

  filter_entries-Keeps : (m : List (Str × Val)) (e : Str) → Keeps P (filter_entries E calls e m)
  unfolding filter_entries
  filter_entries-Keeps [] e = search keeps_rules
  filter_entries-Keeps ((k, v) ∷ rest) e =
      Keeps-bind (keeps_entry-Keeps e _ v)
        (λ _. Keeps-bind (filter_entries-Keeps rest e) (λ _. search keeps_rules))

  filter_headers-Keeps :
      (m : List (Str × List Str)) (e : Str) → Keeps P (filter_headers E calls e m)
  unfolding filter_headers
  filter_headers-Keeps [] e = search keeps_rules
  filter_headers-Keeps ((k, v) ∷ rest) e =
      Keeps-bind (keeps_entry-Keeps e _ _)
        (λ _. Keeps-bind (filter_headers-Keeps rest e) (λ _. search keeps_rules))

  filter_value-Keeps : (e : Str) (v : Val) → Keeps P (filter_value E calls e v)
  unfolding filter_value
  filter_value-Keeps e (Val.object a) = Keeps-bind (search keeps_rules) (λ m.
      Keeps-bind (filter_entries-Keeps m e) (λ _.
        Keeps-bind by_alloc (λ _. Keeps-bind (store_all-Keeps _ _) (λ _. search keeps_rules))))
  filter_value-Keeps e (Val.headers h) =
      Keeps-bind (filter_headers-Keeps h e) (λ _. search keeps_rules)
  filter_value-Keeps e (Val.dict d) = Keeps-bind (filter_dict-Keeps d e) (λ _. search keeps_rules)
  filter_value-Keeps e (Val.array a) = Keeps-bind (filter_array-Keeps a e) (λ _. search keeps_rules)
  filter_value-Keeps e _ = search keeps_rules

  pub filter-Keeps : (m e : Val) → Keeps P (filter E calls m e)
  unfolding filter
  filter-Keeps m e = Keeps-bind (check_some-Keeps m) (λ _. Keeps-bind (check_some-Keeps e) (λ _.
      Keeps-bind (string_of-Keeps e)
        (λ s. Keeps-bind (filter_value-Keeps s m) (λ _. search keeps_rules))))
