-- ===== src/Resource/Tests.antt =====
-- Resources, on concrete texts.
use kabanero_events.Prelude.{◌≡◌, refl, inl, inr, Str, lit, str_eq, split}
use kabanero_events.Go.Exec.{no_api_version}
use kabanero_events.Resource.{
  Json, Fields, get, group_version, last_index, is_end, kind_to_plural, get_names,
}

abbrev same : Str → Str
same s = s

plurals :
    (kind_to_plural same (lit "policy") ≡ lit "policies")
    × (kind_to_plural same (lit "class") ≡ lit "classes")
    × (kind_to_plural same (lit "pod") ≡ lit "pods")
    × (kind_to_plural same (lit "x") ≡ lit "xes")
unfolding kind_to_plural last_index is_end
plurals = (refl, refl, refl, refl)

names_of_nothing : get_names same Fields.empty ≡ inl no_api_version
unfolding get_names get
names_of_nothing = refl

abbrev metadata : Fields
metadata =
    Fields.field (lit "name") (Json.string (lit "run"))
      (Fields.field (lit "namespace") (Json.string (lit "kabanero")) Fields.empty)

abbrev resource_with : Fields → Fields
resource_with m = Fields.field (lit "apiVersion") (Json.string (lit "tekton.dev/v1alpha1")) (
    Fields.field (lit "kind") (Json.string (lit "pipelinerun"))
      (Fields.field (lit "metadata") (Json.object m) Fields.empty))

abbrev labelled : Fields
labelled = resource_with (
    Fields.field (lit "name") (Json.string (lit "run")) (
      Fields.field (lit "namespace") (Json.string (lit "kabanero")) (
        Fields.field (lit "labels")
          (Json.object
            (Fields.field (lit "kabanero.io/jobid") (Json.string (lit "j1")) Fields.empty))
          Fields.empty)))

names :
    get_names same (resource_with metadata)
    ≡ inr (record {
      group = lit "tekton.dev";
      version = lit "v1alpha1";
      resource = lit "pipelineruns";
      namespace = lit "kabanero";
      name = lit "run";
    })
unfolding get_names get str_eq group_version split kind_to_plural last_index is_end
names = refl
