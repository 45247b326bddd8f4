-- ===== src/Sample.antt =====
-- Concrete surroundings for tests: a CEL whose expressions are constants or one call, a network
-- whose every POST is answered with 200, and a cluster and files that hold nothing.
use kabanero_events.Prelude.{
  ℕ, Bool, true, false, inr, List, [], ◌∷◌, Str, lit, str_eq, if◌then◌else◌,
}
use kabanero_events.Go.Value.{Yaml, Seq, Object, empty, field, Val}
use kabanero_events.Go.Exec.{World, Exec, ok, Outside, pure, throw, no_function}
use kabanero_events.Go.Keeps.{Keeps, keeps_rules}
use kabanero_events.Go.Ends.{Ends, ends_rules}
use kabanero_events.Messages.{Network, ProviderDefinition, rest, Service}
use kabanero_events.Resource.{Cluster, Fields}
use kabanero_events.Trigger.Engine.{Engine, Out, Calls}
use kabanero_events.Trigger.Definition.{TriggerDefinition, Files}
use kabanero_events.Trigger.Variable.Keeps.{EvalKeeps}
use kabanero_events.Trigger.Variable.Ends.{EngineEnds}
use kabanero_events.Trigger.Function.{Host}

abbrev pub text_out : Str → Out
text_out s = record { type_name = lit "string"; value = Val.string s }

abbrev pub bool_out : Bool → Out
bool_out b = record { type_name = lit "bool"; value = Val.bool b }

-- "true" and "false" are Booleans, "send" calls `sendEvent`, and all else is a string.
abbrev pub eval_sample : Str → Calls → ℕ → Exec Out
eval_sample prg calls variables =
    if str_eq prg (lit "true")
    then pure (bool_out true)
    else if str_eq prg (lit "false")
    then pure (bool_out false)
    else if str_eq prg (lit "send")
    then calls (lit "sendEvent") (
        text_out (lit "dest")
        ∷ text_out (lit "hello")
        ∷ record { type_name = lit "null"; value = Val.nil }
        ∷ [])
    else pure (text_out prg)

-- An environment is the list of the identifiers that it declares.
abbrev pub engine : Engine
engine = record {
  Env = List Str;
  Ast = Str;
  Program = Str;
  new_env = ok [];
  extend = λ env name t. ok (name ∷ env);
  parse = λ env text. ok text;
  check = λ env ast. ok ast;
  program = λ env ast. ok ast;
  eval = eval_sample;
  format_float32 = λ x. [];
  format_float64 = λ x. [];
}

pub engine-EvalKeeps : (P : World → Type 0) → EvalKeeps engine P
engine-EvalKeeps P prg calls variables called = search (keeps_rules, called)

pub engine-Ends : EngineEnds engine
engine-Ends = record {
  extend_ends = λ env name t h. cc h;
  parse_ends = λ env text h. cc h;
  check_ends = λ env ast h. cc h;
  program_ends = λ env ast h. cc h;
  eval_ends = λ prg calls variables called. search (ends_rules, called);
}

abbrev pub answers : Outside
answers history effect = ok 200

abbrev pub network : Network
network = record { outside = answers; connect = λ url. ok tt; new_request = λ url. ok tt }

abbrev pub hook : ProviderDefinition
hook = record {
  name = lit "hook";
  provider_type = lit "rest";
  url = lit "http://hook";
  timeout = 1;
  skip_tls_verify = false;
}

abbrev pub bus : ProviderDefinition
bus = record {
  name = lit "bus";
  provider_type = lit "nats";
  url = lit "nats://bus";
  timeout = 1;
  skip_tls_verify = false;
}

abbrev pub service : Service
service = record {
  event_definition = record {
    providers = hook ∷ [];
    event_destinations =
        record { name = lit "dest"; topic = lit "t"; provider_ref = lit "hook" } ∷ [];
  };
  providers = (lit "hook", rest hook) ∷ [];
}

abbrev pub cluster : Cluster
cluster = record { outside = answers; decode = λ text. inr Fields.empty }

abbrev pub files : Files
files = record { glob = λ pattern. inr []; read_yaml = λ name. inr [] }

abbrev pub host : Host
host = record {
  network = network;
  service = service;
  cluster = cluster;
  files = files;
  getwd = inr (lit "/work");
  read_file = λ name. inr [];
  Template = Str;
  parse_template = λ text. inr text;
  execute_template = λ w template variables. ok template;
  marshal = λ w message. ok (lit "\"hello\"");
  unicode_lower = λ s. s;
  to_lower = λ s. s;
}

-- No other function is registered.
abbrev pub remaining : Calls
remaining name args = throw no_function

pub remaining-Keeps :
    (P : World → Type 0) (name : Str) (args : List Out) → Keeps P (remaining name args)
remaining-Keeps P name args = search keeps_rules

pub remaining-Ends : (name : Str) (args : List Out) → Ends (remaining name args)
remaining-Ends name args = search ends_rules

abbrev pub no_world : World
no_world = record { heap = []; trace = []; namespace = []; last_time = 0; readings = 0; files = [] }

-- A mapping with string keys.
abbrev pub object_of : List (Str × Yaml) → Object
object_of [] = empty
object_of ((key, value) ∷ fields) = field (Yaml.string key) value (object_of fields)

abbrev pub seq_of : List Yaml → Seq
seq_of [] = Seq.end
seq_of (value ∷ values) = Seq.item value (seq_of values)

abbrev pub str : Str → Yaml
str s = Yaml.string s

-- A trigger that sends an event.
abbrev pub sender : Object
sender = object_of (
    (lit "eventSource", str (lit "github"))
    ∷ (lit "input", str (lit "message"))
    ∷ (
      lit "body",
      Yaml.seq (seq_of (Yaml.mapping (object_of ((lit "x", str (lit "send")) ∷ [])) ∷ [])),
    )
    ∷ [])

abbrev pub definition : Bool → TriggerDefinition
definition dry = record {
  setting = object_of ((lit "dryrun", Yaml.bool dry) ∷ []) ∷ [];
  event_triggers = (lit "github", sender ∷ []) ∷ [];
  functions = [];
}
