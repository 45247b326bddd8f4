-- ===== src/Command.antt =====
-- cmd/kabanero-events/kabanero-events.go: `main` and the flag for the trigger URL, and the starting
-- of the HTTP server in pkg/endpoints/listener.go. The flags are arguments; the making of clients,
-- the decoding of eventDefinitions.yaml, `os.Stat` and the HTTP server are parameters.
pub mod Prepared
mod Tests
use kabanero_events.Prelude.{
  Bool, true, false, not, ◌&&◌, ◌⊎◌, inl, inr, Option, none, some, List, [], Str, str_eq, lit,
  if◌then◌else◌,
}
use kabanero_events.Go.Exec.{
  Exec, Error, Result, ok, err, panic, lift, of_sum, recover, pure, ◌>>=◌, ◌>>◌,
}
use kabanero_events.FilePath.{join}
use kabanero_events.Archive.{Site}
use kabanero_events.Kabanero.{Url, Source, fatal, get_trigger_files}
use kabanero_events.Messages.{
  Network, EventFiles, EventNode, Provider, Service, read_event_definition, new_service,
}
use kabanero_events.Trigger.Definition.{Files, TriggerDefinition, initialize}
use kabanero_events.Trigger.Listeners.{start_listeners}

-- `urlFlag.Set`, by `url.Parse`, and `urlFlag.String`.
unfoldable pub set_flag : (Str → Error ⊎ Url) → Str → Error ⊎ Option Url
set_flag parse val = elim (parse val) [ inl e ↦ inl e | inr url ↦ inr (some url) ]

unfoldable pub flag_text : Option Url → Str
flag_text none = lit ""
flag_text (some url) = url.text

-- client-go: a `rest.Config` from the flags or from the cluster, and whether each client can be
-- made of one.
pub record KubeApi : Type 1 where
  pub Config : Type 0
  pub build_config_from_flags : Str → Str → Error ⊎ Config
  pub in_cluster_config : Error ⊎ Config
  pub kube_client : Config → Error ⊎ Unit {0}
  pub dynamic_client : Config → Error ⊎ Unit {0}
  -- the configuration with another group, version and path of an API, and client-go's codecs and
  -- user agent
  pub with_api : Config → Str → Str → Str → Config
  pub rest_client : Config → Error ⊎ Unit {0}

module _ (api : KubeApi) where
  open api use {
    Config, build_config_from_flags, in_cluster_config, kube_client, dynamic_client, with_api,
    rest_client,
  }

  -- `NewKubeConfig`
  unfoldable pub new_kube_config : Str → Str → Error ⊎ Config
  new_kube_config master_url kubeconfig_path =
      if not (str_eq master_url []) && not (str_eq kubeconfig_path [])
      then build_config_from_flags master_url kubeconfig_path
      else in_cluster_config

  -- `NewKabConfig`
  unfoldable pub new_kab_config : Str → Str → Error ⊎ Config
  new_kab_config master_url kubeconfig_path = elim (new_kube_config master_url kubeconfig_path) [
    | inl e ↦ inl e
    | inr config ↦ inr (with_api config (lit "kabanero.io") (lit "v1alpha2") (lit "/apis"))
  ]

  abbrev new_kube_client : Config → Error ⊎ Unit {0}
  new_kube_client config = kube_client config

  abbrev new_dynamic_client : Config → Error ⊎ Unit {0}
  new_dynamic_client config = dynamic_client config

  -- The clients that `main` makes.
  unfoldable pub make_clients : Str → Str → Exec (Unit {0})
  make_clients master_url kube_config = do
    cfg ← of_sum (new_kube_config master_url kube_config)
    of_sum (new_kube_client cfg)
    kab_cfg ← of_sum (new_kab_config master_url kube_config)
    of_sum (rest_client kab_cfg)
    of_sum (new_dynamic_client cfg)

-- The default of the flag `kubeconfig`, of the home directory.
unfoldable pub kube_config_path : Str → Str
kube_config_path home =
    if not (str_eq home []) then join (join home (lit ".kube")) (lit "config") else []

pub record Surroundings : Type 1 where
  pub api : KubeApi
  pub master_url : Str
  pub kube_config : Str
  pub getenv : Str → Str
  pub source : Source
  pub site : Site
  pub event_files : EventFiles
  pub network : Network
  pub files : Files
  -- `os.Stat`, and whether the server ends with an error: with TLS or without
  pub exists : Str → Bool
  pub listen_and_serve : Bool → Error ⊎ Unit {0}

-- What `main` has when it starts to listen.
pub record Running : Type 0 where
  pub trigger_dir : Str
  pub service : Service
  pub definition : TriggerDefinition
  pub listeners : List (Provider × EventNode)

-- The definition of `Initialize`, or its error.
unfoldable pub of_read : TriggerDefinition × Option Error → Result TriggerDefinition
of_read (td, none) = ok td
of_read (td, some e) = err e

abbrev pub event_definitions : Str → Str
event_definitions trigger_dir = join trigger_dir (lit "eventDefinitions.yaml")

module _ (s : Surroundings) where
  open s use {
    api, master_url, kube_config, getenv, source, site, event_files, network, files, exists,
    listen_and_serve,
  }

  -- `main` up to its HTTP server. Every error ends the process.
  unfoldable pub prepare : Option Url → Bool → Exec Running
  prepare trigger_url skip_chk_sum_verify = do
    recover fatal (make_clients api master_url kube_config)
    trigger_dir ←
        recover fatal (get_trigger_files getenv source site trigger_url skip_chk_sum_verify)
    ed ← recover fatal (of_sum (read_event_definition event_files (event_definitions trigger_dir)))
    service ← recover fatal (lift (new_service network ed))
    td ← recover fatal (lift (of_read (initialize files trigger_dir)))
    listeners ← recover fatal (start_listeners network service td)
    pure (record {
      trigger_dir = trigger_dir;
      service = service;
      definition = td;
      listeners = listeners;
    })

  -- `NewListener` and `NewListenerTLS`
  unfoldable pub listen : Bool → Exec (Unit {0})
  listen true = of_sum (listen_and_serve false)
  listen false =
      if exists (lit "/etc/tls/tls.crt") && exists (lit "/etc/tls/tls.key")
      then of_sum (listen_and_serve true)
      else lift panic

  -- Where the server ends without an error, `main` waits on without an end.
  unfoldable pub main : Option Url → Bool → Bool → Exec (Unit {0})
  main trigger_url skip_chk_sum_verify disable_tls = do
    _ ← prepare trigger_url skip_chk_sum_verify
    recover fatal (listen disable_tls)
