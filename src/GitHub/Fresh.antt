-- ===== src/GitHub/Fresh.antt =====
-- A download from GitHub leaves the maps alone that were there before.
use kabanero_events.Prelude.{
  ◌≡◌, ◌∙◌, arith, ℕ, ◌<◌, List, [], ◌∷◌, ◌++◌, Str, length, get_or, length-append,
}
use kabanero_events.Go.Value.{Val}
use kabanero_events.Go.Exec.{World, alloc, store, pure, ◌>>=◌, ◌>>◌}
use kabanero_events.Go.Heap.{length-update, get_or-update_ne, get_or-append_lt}
use kabanero_events.Go.Keeps.{Keeps, KeptByVariables, Keeps-bind, Keeps-of_sum, Keeps-pure}
use kabanero_events.GitHub.{GitHub, yaml_to_map, store_fields, download_yaml}
use kabanero_events.GitHub.Keeps.{download_yaml-Keeps}

-- The map at an address is still empty.
pub record IsFresh (a : ℕ) (w : World) : Type 0 where
  pub here : a < length w.heap
  pub empty : get_or w.heap a [] ≡ []

IsFresh-variables : (a : ℕ) → KeptByVariables (IsFresh a)
IsFresh-variables a = record {
  by_namespace = λ w n h. record { here = h.here; empty = h.empty };
  by_reading = λ w h. record { here = h.here; empty = h.empty };
  by_time = λ w t h. record { here = h.here; empty = h.empty };
}

store_ne-IsFresh : (a b : ℕ) (k : Str) (v : Val) → a < b → Keeps (IsFresh a) (store b k v)
unfolding store
store_ne-IsFresh a b k v lt = record {
  at = λ w h. record {
    here = omega (arith, h.here, length-update w.heap b k v);
    empty = get_or-update_ne w.heap b a k v lt ∙ h.empty;
  };
}

module _ (github : GitHub) (a : ℕ) where
  store_fields-IsFresh :
      (b : ℕ) (fields : List (Str × Val)) → a < b → Keeps (IsFresh a) (store_fields github b fields)
  unfolding store_fields
  store_fields-IsFresh b [] lt = Keeps-pure tt
  store_fields-IsFresh b ((k, v) ∷ fields) lt =
      Keeps-bind (store_ne-IsFresh a b k v lt) (λ _. store_fields-IsFresh b fields lt)

  -- The new map stands after it.
  filled-IsFresh :
      (fields : List (Str × Val))
      → Keeps (IsFresh a) (do b ← alloc; store_fields github b fields; pure b)
  unfolding alloc ◌>>=◌
  filled-IsFresh fields = record {
    at = λ w h.
        (Keeps-bind (store_fields-IsFresh (length w.heap) fields h.here)
            (λ _. Keeps-pure (length w.heap))).at
          (record w { heap = w.heap ++ [] ∷ [] })
          (record {
            here = omega (arith, h.here, length-append w.heap ([] ∷ []));
            empty = get_or-append_lt w.heap ([] ∷ []) a h.here ∙ h.empty;
          });
  }

  yaml_to_map-IsFresh : (bytes : Str) → Keeps (IsFresh a) (yaml_to_map github bytes)
  unfolding yaml_to_map
  yaml_to_map-IsFresh bytes = Keeps-bind (Keeps-of_sum _) filled-IsFresh

  pub download_yaml-IsFresh :
      (header : List (Str × List Str)) (body : ℕ) (file_name : Str)
      → Keeps (IsFresh a) (download_yaml github header body file_name)
  download_yaml-IsFresh = download_yaml-Keeps (IsFresh-variables a) github yaml_to_map-IsFresh
