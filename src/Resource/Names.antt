-- ===== src/Resource/Names.antt =====
-- The names of a resource: what a job label leaves, and the errors that `createResource` hides.
use mathlib.Core.Sum.{inr-injective}
use mathlib.Core.Path.{subst}
use kabanero_events.Resource.Plural.{Plural, kind_to_plural-Plural}
use kabanero_events.Prelude.{
  List, [], ◌∷◌, split, ◌≡◌, refl, ap, inl, inr, ◌⊎◌, Option, none, some, Str, lit, str_eq,
}
use kabanero_events.Go.Exec.{Error, World, err, namespace_empty}
use kabanero_events.Go.Bind.{throw-eq}
use kabanero_events.Resource.{
  ◌>>=◌, ResourceNames, group_version, Json, Fields, get, get_names, Cluster, create_resource,
  create_decoded, create_checked, namespace_of, fields_of, text_of,
}

bind-eq-inr :
    {A B : Type 0} (s : Error ⊎ A) (f : A → Error ⊎ B) {b : B}
    → (s >>= f) ≡ inr b
    → (a : A) × (s ≡ inr a) × (f a ≡ inr b)
bind-eq-inr (inl e) f h = absurd (cc h)
bind-eq-inr (inr a) f h = (a, refl, h)

fields_of-eq-inr :
    (missing not_map : Error) (o : Option Json) {m : Fields}
    → fields_of missing not_map o ≡ inr m
    → o ≡ some (Json.object m)
unfolding fields_of
fields_of-eq-inr missing not_map none h = absurd (cc h)
fields_of-eq-inr missing not_map (some (Json.object m)) h =
    ap (λ x. some (Json.object x)) (inr-injective _ _ h)
fields_of-eq-inr missing not_map (some _) h = absurd (cc h)

text_of-eq-inr :
    (missing not_string : Error) (o : Option Json) {s : Str}
    → text_of missing not_string o ≡ inr s
    → o ≡ some (Json.string s)
unfolding text_of
text_of-eq-inr missing not_string none h = absurd (cc h)
text_of-eq-inr missing not_string (some (Json.string s)) h =
    ap (λ x. some (Json.string x)) (inr-injective _ _ h)
text_of-eq-inr missing not_string (some _) h = absurd (cc h)

-- The pieces of an apiVersion: a version in the group "", or a group and a version.
pub data IsGroupVersion : List Str → Str → Str → Type 0 where
  core : {version : Str} → IsGroupVersion (version ∷ []) [] version
  in_group : {group version : Str} → IsGroupVersion (group ∷ version ∷ []) group version

group_version-eq-inr :
    (parts : List Str) {group version : Str}
    → group_version parts ≡ inr (group, version)
    → IsGroupVersion parts group version
unfolding group_version
group_version-eq-inr (version ∷ []) h =
    subst (λ (p : Str × Str). IsGroupVersion (version ∷ []) p.0 p.1) (inr-injective _ _ h) core
group_version-eq-inr (group ∷ version ∷ []) h =
    subst (λ (p : Str × Str). IsGroupVersion (group ∷ version ∷ []) p.0 p.1) (inr-injective _ _ h)
      in_group
group_version-eq-inr _ h = absurd (cc h)

-- The names that the fields of a resource give.
pub record IsNamed (to_lower : Str → Str) (obj_map : Fields) (names : ResourceNames) : Type 0 where
  pub api : Str
  pub kind : Str
  pub metadata : Fields
  pub api_version : get (lit "apiVersion") obj_map ≡ some (Json.string api)
  pub pieces : IsGroupVersion (split b'/' api) names.group names.version
  pub kind_field : get (lit "kind") obj_map ≡ some (Json.string kind)
  pub plural : Plural (to_lower kind) names.resource
  pub metadata_field : get (lit "metadata") obj_map ≡ some (Json.object metadata)
  pub name_field : get (lit "name") metadata ≡ some (Json.string names.name)
  pub namespace_field : get (lit "namespace") metadata ≡ some (Json.string names.namespace)

pub get_names-IsNamed :
    (to_lower : Str → Str) (obj_map : Fields) {names : ResourceNames}
    → get_names to_lower obj_map ≡ inr names
    → IsNamed to_lower obj_map names
unfolding get_names
get_names-IsNamed to_lower obj_map h =
    let (api, a, h₁) = bind-eq-inr (text_of _ _ (get (lit "apiVersion") obj_map)) _ h in
    let ((group, version), b, h₂) = bind-eq-inr (group_version (split b'/' api)) _ h₁ in
    let (kind, c, h₃) = bind-eq-inr (text_of _ _ (get (lit "kind") obj_map)) _ h₂ in
    let (metadata, d, h₄) = bind-eq-inr (fields_of _ _ (get (lit "metadata") obj_map)) _ h₃ in
    let (name, e, h₅) = bind-eq-inr (text_of _ _ (get (lit "name") metadata)) _ h₄ in
    let (namespace, f, h₆) = bind-eq-inr (text_of _ _ (get (lit "namespace") metadata)) _ h₅ in
    subst (IsNamed to_lower obj_map) (inr-injective _ _ h₆) (record {
      api = api;
      kind = kind;
      metadata = metadata;
      api_version = text_of-eq-inr _ _ _ a;
      pieces = group_version-eq-inr _ b;
      kind_field = text_of-eq-inr _ _ _ c;
      plural = kind_to_plural-Plural to_lower kind;
      metadata_field = fields_of-eq-inr _ _ _ d;
      name_field = text_of-eq-inr _ _ _ e;
      namespace_field = text_of-eq-inr _ _ _ f;
    })

module _ (to_lower : Str → Str) where
  -- An error of the names of a resource never comes out of `createResource`: the namespace is
  -- empty beside it and is tested first, so the error is that of an empty namespace. Nothing is
  -- created.
  pub create_resource_of_no_names :
      (cluster : Cluster) (text : Str) (obj_map : Fields) (e : Error) (w : World)
      → cluster.decode text ≡ inr obj_map
      → get_names to_lower obj_map ≡ inl e
      → create_resource to_lower cluster text w ≡ (err namespace_empty, w)
  unfolding create_resource create_decoded create_checked namespace_of str_eq
  create_resource_of_no_names cluster text obj_map e w h k =
      rw (h, create_decoded, k) (throw-eq namespace_empty w)
