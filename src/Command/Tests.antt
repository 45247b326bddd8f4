-- ===== src/Command/Tests.antt =====
-- A start with local trigger files.
use kabanero_events.Prelude.{false, true, inr, none, [], ◌∷◌, lit, str_eq, Str, if◌then◌else◌}
use kabanero_events.Go.Exec.{World, Result, ok}
use kabanero_events.Go.Assoc.{lookup}
use kabanero_events.Go.Value.{Yaml}
use kabanero_events.Archive.{Site, content_of}
use kabanero_events.Kabanero.{Url, Source}
use kabanero_events.Messages.{ProviderDefinition, EventNode, EventDefinition, nats}
use kabanero_events.Command.{Surroundings, Running, prepare}
use kabanero_events.Sample.{no_world, network, sender, seq_of}

abbrev local_url : Url
local_url = record { scheme = lit "file"; path = lit "/triggers"; text = lit "file:///triggers" }

abbrev source : Source
source = record {
  trigger_info = λ namespace. inr (local_url, lit "sum");
  temp_dir = λ trace. inr (lit "/tmp/w");
}

abbrev site : Site
site = record {
  outside = λ trace e. ok 200;
  response = λ url. record { status = 200; body = url; body_error = none };
  open_error = λ path. none;
  close_error = λ path. none;
  scan = λ text. text ∷ [];
  sha256 = λ text. lit "sum";
  untar = λ archive. inr [];
  getwd = inr (lit "/w");
  streamed = λ path dir w. content_of (lookup path w.files);
}

abbrev bus : ProviderDefinition
bus = record {
  name = lit "bus";
  provider_type = lit "nats";
  url = lit "nats://bus";
  timeout = 1;
  skip_tls_verify = false;
}

abbrev node : EventNode
node = record { name = lit "github"; topic = lit "events"; provider_ref = lit "bus" }

abbrev events : EventDefinition
events = record { providers = bus ∷ []; event_destinations = node ∷ [] }

-- One file with one trigger, of events that come by NATS.
abbrev surroundings : Surroundings
surroundings = record {
  api = record {
    Config = Str;
    build_config_from_flags = λ url path. inr url;
    in_cluster_config = inr [];
    kube_client = λ config. inr tt;
    dynamic_client = λ config. inr tt;
    with_api = λ config group version path. config;
    rest_client = λ config. inr tt;
  };
  master_url = [];
  kube_config = [];
  getenv = λ name. [];
  source = source;
  site = site;
  event_files = record { read_file = λ path. inr path; unmarshal = λ text. inr events };
  network = network;
  files = record {
    glob =
        λ pattern. if str_eq pattern (lit "/triggers/*.yaml") then inr (pattern ∷ []) else inr [];
    read_yaml =
        λ name. inr ((lit "eventTriggers", Yaml.seq (seq_of (Yaml.mapping sender ∷ []))) ∷ []);
  };
  exists = λ path. true;
  listen_and_serve = λ tls. inr tt;
}

abbrev run : Result Running × World
run = prepare surroundings none false no_world

abbrev found : Running
found = record {
  trigger_dir = lit "/triggers";
  service = record { event_definition = events; providers = (lit "bus", nats bus) ∷ [] };
  definition = record {
    setting = [];
    event_triggers = (lit "github", sender ∷ []) ∷ [];
    functions = [];
  };
  listeners = (nats bus, node) ∷ [];
}
