-- ===== src/Listener/Tests.antt =====
-- Webhooks, on a concrete service.
use kabanero_events.Prelude.{◌≡◌, ◌↔◌, refl, inr, List, [], ◌∷◌, ◌++◌, Str, lit, str_eq}
use kabanero_events.Go.Assoc.{lookup, insert}
use kabanero_events.Go.Exec.{World, ok, act, post, recover, ◌>>=◌}
use kabanero_events.Messages.{
  Service, rest, get_node, find_node, get_provider, provider_send, send, request, request_headers,
  client_timeout,
}
use kabanero_events.Listener.{
  Part, header_part, body_part, message_map, Codec, forward, listener_handler,
}
use kabanero_events.Listener.Accepted.{Forwarded, listener_handler_iff}
use kabanero_events.Sample.{network, hook, service, no_world}

-- A body is its text, and a map is written out key by key.
header_text : List (Str × List Str) → Str
header_text [] = []
header_text ((key, values) ∷ header) = key ++ lit "," ++ header_text header

render : List (Str × Part Str) → Str
unfolding header_text
render [] = []
render ((key, body_part body) ∷ parts) = key ++ lit ":" ++ body ++ render parts
render ((key, header_part header) ∷ parts) = key ++ lit ":" ++ header_text header ++ render parts

abbrev codec : Codec
codec = record {
  Body = Str;
  unmarshal = λ bytes. inr bytes;
  marshal = λ message. inr (render message);
}

abbrev github : Service
github = record {
  event_definition = record {
    providers = hook ∷ [];
    event_destinations =
        record { name = lit "github"; topic = lit "t"; provider_ref = lit "hook" } ∷ [];
  };
  providers = (lit "hook", rest hook) ∷ [];
}

-- The header of a webhook.
abbrev event : List (Str × List Str)
event = (lit "X-Event", lit "push" ∷ []) ∷ []

abbrev posted : World
posted = record no_world {
  heap = [];
  trace = post (request hook [] (lit "header:X-Event,body:{}")) ∷ [];
}

accepts : listener_handler network github codec event (lit "{}") no_world ≡ (ok 202, posted)
unfolding listener_handler message_map insert render forward recover send provider_send get_node
    find_node get_provider lookup str_eq act request request_headers client_timeout ◌>>=◌
accepts = refl

listener_handler_iff_example :
    (listener_handler network github codec event (lit "{}") no_world ≡ (ok 202, posted))
    ↔ Forwarded network github codec event (lit "{}") no_world posted
listener_handler_iff_example =
    listener_handler_iff network github codec event (lit "{}") no_world posted

forwarded : Forwarded network github codec event (lit "{}") no_world posted
forwarded = listener_handler_iff_example.0 accepts

-- Where the sending fails the answer is the status 200.
fails : listener_handler network service codec event (lit "{}") no_world ≡ (ok 200, no_world)
unfolding listener_handler recover forward send get_node find_node str_eq ◌>>=◌
fails = refl
