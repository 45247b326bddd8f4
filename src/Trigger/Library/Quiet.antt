-- ===== src/Trigger/Library/Quiet.antt =====
-- The functions for text, time, configuration and files only read the outside: none of them
-- sends or creates anything.
use kabanero_events.Prelude.{ℕ, true, ◌≡◌, inl, inr, List, Str, lit, str_eq}
use kabanero_events.Go.Value.{Val}
use kabanero_events.Go.Exec.{World, Effect, bad_argument}
use kabanero_events.Go.Keeps.{
  Keeps, keeps_rules, KeptByMaps, KeptByVariables, Keeps-bind, Keeps-if, Keeps-pure, Keeps-throw,
  Keeps-reads, Keeps-recover, load-Keeps,
}
use kabanero_events.Kabanero.Keeps.{get_kabanero_namespace-Keeps}
use kabanero_events.Timestamp.Keeps.{get_timestamp-Keeps}
use kabanero_events.GitHub.{Download}
use kabanero_events.GitHub.Keeps.{
  present-Keeps, as_map-Keeps, yaml_to_map-Keeps, download_yaml-Keeps,
}
use kabanero_events.Trigger.Engine.{Engine, Out}
use kabanero_events.Trigger.Definition.{TriggerDefinition, is_dry_run}
use kabanero_events.Trigger.Variable.Keeps.{EvalKeeps}
use kabanero_events.Trigger.Function.{Host}
use kabanero_events.Trigger.Function.DryRun.{binary-Keeps}
use kabanero_events.Trigger.Process.{process_message}
use kabanero_events.Trigger.Process.Quiet.{HasTrace, HasTrace-maps, trace-process_message}
use kabanero_events.Trigger.Library.{
  Library, map_argument, file_argument, split_cel, job_id_cel, kabanero_config_cel, store_download,
  download_into, download_yaml_cel, library_calls,
}

module _ {P : World → Type 0} (maps : KeptByMaps P) (variables : KeptByVariables P)
    (lib : Library) where
  open maps use {by_store, by_alloc}

  map_argument-Keeps : (v : Val) → Keeps P (map_argument v)
  unfolding map_argument
  map_argument-Keeps (Val.object a) = search keeps_rules
  map_argument-Keeps _ = search keeps_rules

  file_argument-Keeps : (v : Val) → Keeps P (file_argument v)
  unfolding file_argument
  file_argument-Keeps (Val.string s) = search keeps_rules
  file_argument-Keeps _ = search keeps_rules

  split_cel-Keeps : (a b : Val) → Keeps P (split_cel lib a b)
  unfolding split_cel
  split_cel-Keeps (Val.string s) (Val.string sep) = search keeps_rules
  split_cel-Keeps _ _ = search keeps_rules

  job_id_cel-Keeps : Keeps P (job_id_cel lib)
  unfolding job_id_cel
  job_id_cel-Keeps =
      Keeps-bind (get_timestamp-Keeps variables lib.clock lib.clock_fuel) (λ s. Keeps-pure _)

  kabanero_config_cel-Keeps : Keeps P (kabanero_config_cel lib)
  unfolding kabanero_config_cel
  kabanero_config_cel-Keeps = Keeps-bind by_alloc (λ ret.
      Keeps-bind (get_kabanero_namespace-Keeps variables lib.github.getenv)
        (λ namespace. Keeps-bind (by_store ret _ _) (λ _. Keeps-pure _)))

  store_download-Keeps : (ret : ℕ) (d : Download ℕ) → Keeps P (store_download lib ret d)
  unfolding store_download
  store_download-Keeps ret (exists, inl e) = Keeps-bind (by_store ret _ _) (λ _. by_store ret _ _)
  store_download-Keeps ret (exists, inr content) =
      Keeps-bind (by_store ret _ _) (λ _. by_store ret _ _)

  download_into-Keeps :
      (header : List (Str × List Str)) (body : ℕ) (file_name : Str)
      → Keeps P (download_into lib header body file_name)
  unfolding download_into
  download_into-Keeps header body file_name = Keeps-bind by_alloc (λ ret.
      Keeps-bind
        (download_yaml-Keeps variables lib.github (yaml_to_map-Keeps maps lib.github) header body
          file_name)
        (λ d. Keeps-bind (store_download-Keeps ret d) (λ _. Keeps-pure _)))

  download_yaml_cel-Keeps :
      (message file_name : Val) → Keeps P (download_yaml_cel lib message file_name)
  unfolding download_yaml_cel
  download_yaml_cel-Keeps message file_name = Keeps-bind (map_argument-Keeps message) (λ a.
      Keeps-bind (Keeps-bind (load-Keeps a _) (λ o. present-Keeps _ o)) (λ body_obj.
        Keeps-bind (as_map-Keeps _ body_obj) (λ body.
          Keeps-bind (Keeps-bind (load-Keeps a _) (λ o. present-Keeps _ o)) (λ header_obj.
            Keeps-bind (Keeps-recover _ (Keeps-reads _)) (λ header.
              Keeps-bind (file_argument-Keeps file_name)
                (λ name. download_into-Keeps header body name))))))

  pub library_calls-Keeps : (name : Str) (args : List Out) → Keeps P (library_calls lib name args)
  unfolding library_calls
  library_calls-Keeps name args =
      Keeps-if (str_eq name (lit "split"))
        (binary-Keeps args (λ a b. split_cel-Keeps a.value b.value))
        (Keeps-if (str_eq name (lit "jobID")) job_id_cel-Keeps (
          Keeps-if (str_eq name (lit "kabaneroConfig")) kabanero_config_cel-Keeps (
            Keeps-if (str_eq name (lit "downloadYAML"))
              (binary-Keeps args (λ a b. download_yaml_cel-Keeps a.value b.value))
              (Keeps-throw bad_argument))))

HasTrace-variables : (t : List Effect) → KeptByVariables (HasTrace t)
HasTrace-variables t = record {
  by_namespace = λ w n h. h;
  by_reading = λ w h. h;
  by_time = λ w time h. h;
}

-- In a dry run, whatever the triggers, the message and the result (an error or a panic included),
-- processing a message with all the functions of `initCELFuncs` makes no POST, publishes nothing and
-- creates nothing: the trace stays as it was. Provided that CEL acts only through the functions it calls.
pub trace-process_message_library :
    (E : Engine) (host : Host) (td : TriggerDefinition) (dir : Str) (lib : Library)
    → ((t : List Effect) → EvalKeeps E (HasTrace t))
    → (fuel : ℕ) (message : Val) (event_source : Str) (w : World) → is_dry_run td ≡ true
    → (process_message E host td dir (library_calls lib) fuel message event_source w).1.trace
      ≡ w.trace
trace-process_message_library E host td dir lib evals =
    trace-process_message E host td dir (library_calls lib) evals
      (λ t. library_calls-Keeps (HasTrace-maps t) (HasTrace-variables t) lib)
