-- ===== src/Messages/Tests.antt =====
-- Sending and registering, on a concrete service.
use kabanero_events.Prelude.{◌≡◌, ◌↔◌, All, refl, some, [], ◌∷◌, lit, str_eq}
use kabanero_events.Go.Assoc.{lookup, insert}
use kabanero_events.Go.Value.{Val}
use kabanero_events.Go.Exec.{World, ok, err, act, post, ◌>>=◌, no_node}
use kabanero_events.Messages.{
  EventDefinition, rest, nats, Service, get_node, find_node, get_provider, register, request,
  request_headers, header_values, client_timeout, provider_send, send, new_provider, register_all,
  new_service,
}
use kabanero_events.Messages.Routing.{Sent, send_iff}
use kabanero_events.Messages.Made.{Makes, makes_nats, makes_rest, IsMade, new_service_iff}
use kabanero_events.Messages.Register.{last_named, provider_of, new_service-get_provider}
use kabanero_events.Sample.{network, service, hook, bus, no_world}

abbrev header : Val
header = Val.headers ((lit "X-Event", lit "push" ∷ lit "tag" ∷ []) ∷ [])

-- The world after one POST.
abbrev posted : World
posted = record no_world {
  heap = [];
  trace = post (request hook ((lit "X-Event", lit "push" ∷ lit "tag" ∷ []) ∷ []) (lit "{}")) ∷ [];
}

send-posted : send network service (lit "dest") (lit "{}") header no_world ≡ (ok tt, posted)
unfolding send provider_send get_node find_node get_provider lookup str_eq act request
    request_headers header_values client_timeout ◌>>=◌
send-posted = refl

send-unknown :
    send network service (lit "else") (lit "{}") header no_world ≡ (err no_node, no_world)
unfolding send get_node find_node str_eq ◌>>=◌
send-unknown = refl

send_iff_example :
    (send network service (lit "dest") (lit "{}") header no_world ≡ (ok tt, posted))
    ↔ Sent network service (lit "dest") (lit "{}") header no_world posted
send_iff_example = send_iff network service (lit "dest") (lit "{}") header no_world posted

-- Of the two sides the first holds here, and so does the second.
sent : Sent network service (lit "dest") (lit "{}") header no_world posted
sent = send_iff_example.0 send-posted

-- Two definitions, and the service that they make.
abbrev two : EventDefinition
two = record { providers = bus ∷ hook ∷ []; event_destinations = [] }

abbrev two_service : Service
two_service = record {
  event_definition = two;
  providers = (lit "bus", nats bus) ∷ (lit "hook", rest hook) ∷ [];
}

new_service-two : new_service network two ≡ ok two_service
unfolding new_service register_all register new_provider insert str_eq
new_service-two = refl

new_service_iff_example : ((s : Service) × IsMade network two s) ↔ All (Makes network) two.providers
new_service_iff_example = new_service_iff network two

two-Makes : All (Makes network) two.providers
two-Makes = (makes_nats refl refl, (makes_rest refl, tt))

two-IsMade : (s : Service) × IsMade network two s
two-IsMade = new_service_iff_example.1 two-Makes

hook_found : get_provider two_service (lit "hook") ≡ some (rest hook)
unfolding last_named provider_of str_eq
hook_found = new_service-get_provider network two two_service (lit "hook") new_service-two

-- The timeout of 10 s, as it is read, times a second wraps: as a signed word it is negative.
timeout_wraps : client_timeout 10_000_000_000 ≡ 10_000_000_000_000_000_000
unfolding client_timeout
timeout_wraps = refl
