-- ===== src/Resource.antt =====
-- pkg/trigger/trigger.go: the resources that a trigger creates, from their text to the call of the
-- cluster: `createResource`, `setJobID`, `getGroupVersionResourceNamespaceName`, `kindToPlural`.
pub mod Plural
pub mod Names
pub mod Created
mod Tests
use kabanero_events.Prelude.{
  ℕ, zero, suc, ◌+◌, ◌-◌, Bool, true, false, not, ◌&&◌, ◌⊎◌, inl, inr, Option, none, some, List, [],
  ◌∷◌, ◌++◌, Str, lit, str_eq, split, length, take, ◌==◌, if◌then◌else◌,
}
use kabanero_events.Go.Assoc.{lookup, insert}
use kabanero_events.Go.Exec.{
  Exec, Error, Outside, create, act, throw, ignore, no_api_version, api_version_not_string,
  bad_api_version, no_kind, kind_not_string, no_metadata, metadata_not_map, labels_not_map, no_name,
  resource_name_not_string, no_namespace, namespace_not_string, namespace_empty, gvr_failed,
}

-- The values of an `unstructured.Unstructured`: decoded JSON.
mutual
  pub data Json : Type 0 where
    null : Json
    bool : Bool → Json
    number : ℕ → Json
    string : Str → Json
    array : Items → Json
    object : Fields → Json

  pub data Items : Type 0 where
    end : Items
    item : Json → Items → Items

  -- `map[string]interface{}`
  pub data Fields : Type 0 where
    empty : Fields
    field : Str → Json → Fields → Fields

unfoldable pub get : Str → Fields → Option Json
get name empty = none
get name (field key value rest) = if str_eq key name then some value else get name rest

unfoldable pub put : Str → Json → Fields → Fields
put name value empty = field name value empty
put name value (field key old rest) =
    if str_eq key name then field name value rest else field key old (put name value rest)

-- `v, ok := m[name]` and `s, ok := v.(string)`, with the error of each.
text_of : Error → Error → Option Json → Error ⊎ Str
text_of missing not_string none = inl missing
text_of missing not_string (some (Json.string s)) = inr s
text_of missing not_string (some _) = inl not_string

fields_of : Error → Error → Option Json → Error ⊎ Fields
fields_of missing not_map none = inl missing
fields_of missing not_map (some (Json.object m)) = inr m
fields_of missing not_map (some _) = inl not_map

infixl 10 ◌>>=◌
abbrev pub ◌>>=◌ : {A B : Type 0} → Error ⊎ A → (A → Error ⊎ B) → Error ⊎ B
inl e >>= f = inl e
inr a >>= f = f a

-- The group and the version.
unfoldable pub group_version : List Str → Error ⊎ (Str × Str)
group_version (version ∷ []) = inr ([], version)
group_version (group ∷ version ∷ []) = inr (group, version)
group_version _ = inl bad_api_version

-- `strings.LastIndex(s, suffix)` for a suffix of two bytes; `none` is -1.
unfoldable pub last_index : ℕ → ℕ → Str → Option ℕ
last_index a b [] = none
last_index a b (c ∷ []) = none
last_index a b (c ∷ d ∷ s) = elim (last_index a b (d ∷ s)) [
  | some i ↦ some (suc i)
  | none ↦ if c == a && d == b then some 0 else none
]

-- `index == len - 2` on integers: -1 is the length of a one-byte string less 2.
unfoldable pub is_end : Option ℕ → ℕ → Bool
is_end (some i) len = i + 2 == len
is_end none len = len == 1

index_of : Option ℕ → ℕ
index_of (some i) = i
index_of none = 0

-- Group, version, resource, namespace and name of a resource.
pub record ResourceNames : Type 0 where
  pub group : Str
  pub version : Str
  pub resource : Str
  pub namespace : Str
  pub name : Str

module _ (to_lower : Str → Str) where
  unfoldable pub kind_to_plural : Str → Str
  unfolding index_of
  kind_to_plural kind =
      let lower_kind = to_lower kind in
      let cy = last_index b'c' b'y' lower_kind in
      if is_end (last_index b's' b's' lower_kind) (length lower_kind)
      then lower_kind ++ lit "es"
      else if is_end cy (length lower_kind)
      then take (index_of cy) lower_kind ++ lit "cies"
      else lower_kind ++ lit "s"

  -- `getGroupVersionResourceNamespaceName`: each lookup and each cast in its order.
  unfoldable pub get_names : Fields → Error ⊎ ResourceNames
  unfolding text_of fields_of
  get_names obj_map =
      text_of no_api_version api_version_not_string (get (lit "apiVersion") obj_map) >>= λ api.
      group_version (split b'/' api) >>= λ (group, version).
      text_of no_kind kind_not_string (get (lit "kind") obj_map) >>= λ kind.
      fields_of no_metadata metadata_not_map (get (lit "metadata") obj_map) >>= λ metadata.
      text_of no_name resource_name_not_string (get (lit "name") metadata) >>= λ name.
      text_of no_namespace namespace_not_string (get (lit "namespace") metadata) >>= λ namespace.
      inr (record {
        group = group;
        version = version;
        resource = kind_to_plural kind;
        namespace = namespace;
        name = name;
      })

-- `setJobID`: a label in the metadata. What is no map is refused.
set_label : Str → Error ⊎ Fields → Error ⊎ Fields
set_label jobid (inl e) = inl e
set_label jobid (inr labels) = inr (put (lit "kabanero.io/jobid") (Json.string jobid) labels)

labels_of : Option Json → Error ⊎ Fields
labels_of none = inr empty
labels_of (some (Json.object labels)) = inr labels
labels_of (some _) = inl labels_not_map

unfoldable pub set_job_id : Str → Fields → Error ⊎ Fields
unfolding fields_of set_label labels_of
set_job_id jobid obj_map =
    fields_of no_metadata metadata_not_map (get (lit "metadata") obj_map) >>= λ metadata.
    set_label jobid (labels_of (get (lit "labels") metadata)) >>= λ labels.
    inr (
      put (lit "metadata") (Json.object (put (lit "labels") (Json.object labels) metadata)) obj_map)

-- `k8syaml.ToJSON` with `UnmarshalJSON`, and the cluster behind the dynamic client.
pub record Cluster : Type 0 where
  pub outside : Outside
  pub decode : Str → Error ⊎ Fields

-- The namespace that `getGroupVersionResourceNamespaceName` returns: "" beside an error.
namespace_of : Error ⊎ ResourceNames → Str
namespace_of (inl _) = []
namespace_of (inr names) = names.namespace

module _ (to_lower : Str → Str) (cluster : Cluster) where
  create_named : Str → Error ⊎ ResourceNames → Exec (Unit {0})
  create_named text (inl _) = throw gvr_failed
  create_named text (inr n) =
      ignore (act cluster.outside (create n.group n.version n.resource n.namespace text))

  create_checked : Str → Error ⊎ ResourceNames → Exec (Unit {0})
  unfolding create_named namespace_of
  create_checked text names =
      if str_eq (namespace_of names) [] then throw namespace_empty else create_named text names

  create_decoded : Str → Error ⊎ Fields → Exec (Unit {0})
  unfolding create_checked
  create_decoded text (inl e) = throw e
  create_decoded text (inr obj_map) = create_checked text (get_names to_lower obj_map)

  -- `createResource`. The namespace is tested before the error is.
  unfoldable pub create_resource : Str → Exec (Unit {0})
  unfolding create_decoded
  create_resource text = create_decoded text (cluster.decode text)
