-- ===== src/Trigger/Function/Applied/Tests.antt =====
-- A directory with one template.
use kabanero_events.Prelude.{
  ◌≡◌, refl, inr, false, [], ◌∷◌, lit, str_eq, split, has_prefix, if◌then◌else◌,
}
use kabanero_events.Go.Value.{Val}
use kabanero_events.Go.Exec.{World, Result, create, act, ◌>>=◌}
use kabanero_events.FilePath.{
  merge_path_with_error_check, abs, join, clean, clean_parts, back, join_parts, is_abs,
}
use kabanero_events.Resource.{
  Json, Fields, get, group_version, last_index, is_end, kind_to_plural, get_names, create_resource,
}
use kabanero_events.Trigger.Definition.{find_files}
use kabanero_events.Trigger.Function.{
  Host, substitute_template, substitute_template_file, apply_resources_helper,
}
use kabanero_events.Trigger.Function.Applied.Outcome.{Applied}
use kabanero_events.Sample.{engine, host, cluster, definition, no_world}

abbrev pipeline_run : Fields
pipeline_run = Fields.field (lit "apiVersion") (Json.string (lit "tekton.dev/v1")) (
    Fields.field (lit "kind") (Json.string (lit "PipelineRun")) (
      Fields.field (lit "metadata")
        (Json.object (
          Fields.field (lit "name") (Json.string (lit "run"))
            (Fields.field (lit "namespace") (Json.string (lit "kabanero")) Fields.empty)))
        Fields.empty))

abbrev applying : Host
applying = record host {
  files = record {
    glob =
        λ pattern. if str_eq pattern (lit "/t/res/*yaml") then inr (lit "a.yaml" ∷ []) else inr [];
    read_yaml = λ name. inr [];
  };
  read_file = λ name. inr (lit "text");
  cluster = record cluster { decode = λ text. inr pipeline_run };
}

abbrev run : Result (Unit {0}) × World
run =
    apply_resources_helper engine applying (definition false) (lit "/t") (lit "res") (Val.object 0)
      false no_world

run-trace :
    run.1.trace
    ≡ create (lit "tekton.dev") (lit "v1") (lit "PipelineRuns") (lit "kabanero") (lit "text") ∷ []
unfolding apply_resources_helper merge_path_with_error_check abs join clean clean_parts back
    join_parts is_abs has_prefix split str_eq find_files substitute_template_file
    substitute_template create_resource get_names get group_version kind_to_plural last_index is_end
    act ◌>>=◌
run-trace = refl
