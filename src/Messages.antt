-- ===== src/Messages.antt =====
-- pkg/messages: the message service (service.go), its two providers (nats_provider.go,
-- rest_provider.go) and the types of messages.go. The NATS client and the HTTP client are
-- parameters: what they are told is an effect, and `outside` answers.
pub mod Routing
pub mod Receive
pub mod Register
pub mod Made
mod Tests
use kabanero_events.Prelude.{
  ℕ, zero, suc, ◌*◌, ◌%◌, ◌^◌, Bool, true, false, not, ◌⊎◌, inl, inr, Option, none, some, List, [],
  ◌∷◌, ◌++◌, Str, lit, str_eq, ◌==◌, if◌then◌else◌,
}
use kabanero_events.Go.Assoc.{lookup, insert}
use kabanero_events.Go.Value.{Val}
use kabanero_events.Go.Exec.{
  Exec, Error, Result, ok, err, panic, out_of_fuel, Outside, Request, post, publish, flush,
  subscribe, ignore, act, pure, throw, lift, ◌>>=◌, ◌>>◌, no_node, no_provider,
  unknown_provider_type, header_not_map, http_status,
}

pub record ProviderDefinition : Type 0 where
  pub name : Str
  pub provider_type : Str
  pub url : Str
  pub timeout : ℕ
  pub skip_tls_verify : Bool

pub record EventNode : Type 0 where
  pub name : Str
  pub topic : Str
  pub provider_ref : Str

pub record EventDefinition : Type 0 where
  pub providers : List ProviderDefinition
  pub event_destinations : List EventNode

-- The implementations of the interface `Provider`.
pub data Provider : Type 0 where
  nats rest : ProviderDefinition → Provider

pub record Service : Type 0 where
  pub event_definition : EventDefinition
  pub providers : List (Str × Provider)

-- `ioutil.ReadFile`, and `yaml.Unmarshal` into an `EventDefinition`.
pub record EventFiles : Type 0 where
  pub read_file : Str → Error ⊎ Str
  pub unmarshal : Str → Error ⊎ EventDefinition

-- `readEventDefinition`; what is returned beside an error is not used.
unfoldable pub read_event_definition : EventFiles → Str → Error ⊎ EventDefinition
read_event_definition files file_name = elim (files.read_file file_name) [
  | inl e ↦ inl e
  | inr bytes ↦ files.unmarshal bytes
]

unfoldable pub find_node : Str → List EventNode → Option EventNode
find_node name [] = none
find_node name (node ∷ nodes) = if str_eq node.name name then some node else find_node name nodes

unfoldable pub get_node : Service → Str → Option EventNode
get_node s name = find_node name s.event_definition.event_destinations

unfoldable pub get_provider : Service → Str → Option Provider
get_provider s name = lookup name s.providers

unfoldable pub register : Service → Str → Provider → Service
register s name mp = record s { providers = insert name mp s.providers }

-- `GetEventDefinition` calls itself; fuel counts the calls.
unfoldable pub get_event_definition : ℕ → Service → Result EventDefinition
get_event_definition zero s = out_of_fuel
get_event_definition (suc fuel) s = get_event_definition fuel s

-- The headers that `Send` adds to the request, in the order of the map.
unfoldable pub header_values : Str → List Str → List (Str × Str)
header_values key [] = []
header_values key (value ∷ values) = (key, value) ∷ header_values key values

unfoldable pub request_headers : List (Str × List Str) → List (Str × Str)
request_headers [] = (lit "Content-Type", lit "application/json") ∷ []
request_headers ((key, values) ∷ header) = header_values key values ++ request_headers header

-- `if header != nil { headerMap, ok := header.(map[string][]string) … }`
header_map : Val → Exec (List (Str × List Str))
header_map Val.nil = pure []
header_map (Val.headers h) = pure h
header_map _ = throw header_not_map

-- The duration `provider.Timeout * time.Second`, both in nanoseconds, as its 64-bit word.
unfoldable pub client_timeout : ℕ → ℕ
client_timeout timeout = timeout * 1_000_000_000 % 2 ^ 64

unfoldable pub request : ProviderDefinition → List (Str × List Str) → Str → Request
request mpd header payload = record {
  url = mpd.url;
  insecure_skip_verify = mpd.skip_tls_verify;
  timeout = client_timeout mpd.timeout;
  headers = request_headers header;
  payload = payload;
}

-- `nats.Connect` and `http.NewRequest` on a URL.
pub record Network : Type 0 where
  pub outside : Outside
  pub connect : Str → Result (Unit {0})
  pub new_request : Str → Result (Unit {0})

-- What the constructors make of the result of `initialize`.
initialized : Provider → Result (Unit {0}) → Result Provider
initialized provider (ok _) = ok provider
initialized provider (err e) = err e
initialized provider panic = panic
initialized provider out_of_fuel = out_of_fuel

-- `restProvider.initialize` only keeps the definition.
abbrev rest_initialize : ProviderDefinition → Result (Unit {0})
rest_initialize mpd = ok tt

abbrev new_rest_provider : ProviderDefinition → Result Provider
new_rest_provider mpd = initialized (rest mpd) (rest_initialize mpd)

-- `restProvider.Subscribe`, by `klog.Fatal`
abbrev rest_subscribe : EventNode → Exec (Unit {0})
rest_subscribe node = lift panic

module _ (network : Network) where
  open network use {outside, connect, new_request}

  nats_send : ProviderDefinition → EventNode → Str → Exec (Unit {0})
  nats_send mpd node payload = do
    _ ← act outside (publish mpd.url node.topic payload)
    _ ← act outside (flush mpd.url)
    pure tt

  rest_send : ProviderDefinition → Str → Val → Exec (Unit {0})
  unfolding header_map
  rest_send mpd payload header = do
    lift (new_request mpd.url)
    headers ← header_map header
    status ← act outside (post (request mpd headers payload))
    if status == 200 then pure tt else throw http_status

  -- `provider.Send(node, body, other)`
  unfoldable pub provider_send : Provider → EventNode → Str → Val → Exec (Unit {0})
  unfolding nats_send rest_send
  provider_send (nats mpd) node payload header = nats_send mpd node payload
  provider_send (rest mpd) node payload header = rest_send mpd payload header

  abbrev nats_subscribe : ProviderDefinition → EventNode → Exec (Unit {0})
  nats_subscribe mpd node = ignore (act outside (subscribe mpd.url node.topic))

  -- `provider.Subscribe(node)`
  unfoldable pub provider_subscribe : Provider → EventNode → Exec (Unit {0})
  provider_subscribe (nats mpd) node = nats_subscribe mpd node
  provider_subscribe (rest mpd) node = rest_subscribe node

  send_to : Option Provider → EventNode → Str → Val → Exec (Unit {0})
  send_to none node body header = throw no_provider
  send_to (some provider) node body header = provider_send provider node body header

  send_node : Service → Option EventNode → Str → Val → Exec (Unit {0})
  unfolding send_to
  send_node s none body header = throw no_node
  send_node s (some node) body header = send_to (get_provider s node.provider_ref) node body header

  -- `Service.Send`
  unfoldable pub send : Service → Str → Str → Val → Exec (Unit {0})
  unfolding send_node
  send s dest body header = send_node s (get_node s dest) body header

  abbrev nats_initialize : ProviderDefinition → Result (Unit {0})
  nats_initialize mpd = connect mpd.url

  abbrev new_nats_provider : ProviderDefinition → Result Provider
  new_nats_provider mpd = initialized (nats mpd) (nats_initialize mpd)

  -- The switch of `NewService` on the type of a provider.
  unfoldable pub new_provider : ProviderDefinition → Result Provider
  unfolding initialized
  new_provider mpd =
      if str_eq mpd.provider_type (lit "nats")
      then new_nats_provider mpd
      else if str_eq mpd.provider_type (lit "rest")
      then new_rest_provider mpd
      else err unknown_provider_type

  -- The loop of `NewService`.
  unfoldable pub register_all : Service → List ProviderDefinition → Result Service
  register_all s [] = ok s
  register_all s (mpd ∷ mpds) = elim (new_provider mpd) [
    | ok provider ↦ register_all (register s mpd.name provider) mpds
    | err e ↦ err e
    | panic ↦ panic
    | out_of_fuel ↦ out_of_fuel
  ]

  -- `NewService`, on what `readEventDefinition` returned.
  unfoldable pub new_service : EventDefinition → Result Service
  new_service ed = register_all (record { event_definition = ed; providers = [] }) ed.providers
