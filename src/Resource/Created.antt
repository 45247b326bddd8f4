-- ===== src/Resource/Created.antt =====
-- What `createResource` asks of the cluster.
use kabanero_events.Prelude.{
  ◌≡◌, ◌≢◌, refl, ◌⊎◌, ap, inl, inr, false, Bool-cases, [], ◌∷◌, ◌++◌, Str, str_eq,
}
use kabanero_events.Go.Exec.{
  World, Effect, Error, Result, ok, create, Exec, act, throw, namespace_empty,
}
use kabanero_events.Go.Bind.{throw-eq, throw-ne-ok}
use kabanero_events.Go.Cases.{ignore-world}
use kabanero_events.Resource.Names.{IsNamed, get_names-IsNamed}
use kabanero_events.Resource.{
  Fields, ResourceNames, get_names, Cluster, namespace_of, create_named, create_checked,
  create_decoded, create_resource,
}

module _ (to_lower : Str → Str) (cluster : Cluster) where
  -- The call of the cluster for a text: what the text decodes to has names, and a namespace.
  pub record IsCreate (text : Str) (effect : Effect) : Type 0 where
    pub obj_map : Fields
    pub names : ResourceNames
    pub decoded : cluster.decode text ≡ inr obj_map
    pub named : IsNamed to_lower obj_map names
    pub in_namespace : str_eq names.namespace [] ≡ false
    pub called : effect ≡ create names.group names.version names.resource names.namespace text

  -- Nothing is done and an error comes back, or one call is made.
  pub record Nothing (w : World) (r : Result (Unit {0})) (w' : World) : Type 0 where
    pub same : w' ≡ w
    pub failed : r ≢ ok tt

  pub record OneCall (text : Str) (w w' : World) : Type 0 where
    pub effect : Effect
    pub is_create : IsCreate text effect
    pub after : w' ≡ record w { trace = w.trace ++ effect ∷ [] }

  Outcome : Str → World → Exec (Unit {0}) → Type 0
  Outcome text w m = Nothing w (m w).0 (m w).1 ⊎ OneCall text w (m w).1

  thrown : (text : Str) (w : World) (e : Error) → Outcome text w (throw e)
  unfolding Outcome
  thrown text w e = inl (record {
    same = ap (λ p. p.1) (throw-eq {A = Unit {0}} e w);
    failed = λ h. throw-ne-ok e w (λ i. (h i, (throw {A = Unit {0}} e w).1));
  })

  create_checked-Outcome :
      (text : Str) (w : World) (obj_map : Fields) (names : Error ⊎ ResourceNames)
      → cluster.decode text ≡ inr obj_map
      → get_names to_lower obj_map ≡ names
      → Outcome text w (create_checked to_lower cluster text names)
  unfolding create_checked namespace_of create_named str_eq Outcome act
  create_checked-Outcome text w obj_map (inl e) d n = thrown text w namespace_empty
  create_checked-Outcome text w obj_map (inr names) d n =
      elim (Bool-cases (str_eq names.namespace [])) [
        | inl e ↦ rw e (thrown text w namespace_empty)
        | inr e ↦ rw e (
            inr (record {
              effect = create names.group names.version names.resource names.namespace text;
              is_create = record {
                obj_map = obj_map;
                names = names;
                decoded = d;
                named = get_names-IsNamed to_lower obj_map n;
                in_namespace = e;
                called = refl;
              };
              after =
                  ignore-world
                    (act cluster.outside
                      (create names.group names.version names.resource names.namespace text))
                    w;
            }))
      ]

  create_decoded-Outcome :
      (text : Str) (w : World) (decoded : Error ⊎ Fields)
      → cluster.decode text ≡ decoded
      → Outcome text w (create_decoded to_lower cluster text decoded)
  unfolding create_decoded
  create_decoded-Outcome text w (inl e) d = thrown text w e
  create_decoded-Outcome text w (inr obj_map) d =
      create_checked-Outcome text w obj_map (get_names to_lower obj_map) d refl

  -- `createResource` either fails and does nothing, or calls the cluster once, with the names of
  -- what the text decodes to.
  pub create_resource-cases :
      (text : Str) (w : World)
      → Nothing w
          (create_resource to_lower cluster text w).0
          (create_resource to_lower cluster text w).1
        ⊎ OneCall text w (create_resource to_lower cluster text w).1
  unfolding create_resource Outcome
  create_resource-cases text w = create_decoded-Outcome text w (cluster.decode text) refl
