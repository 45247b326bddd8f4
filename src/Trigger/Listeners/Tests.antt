-- ===== src/Trigger/Listeners/Tests.antt =====
-- Listeners, on concrete services and messages.
use kabanero_events.Prelude.{◌≡◌, ◌↔◌, refl, false, [], ◌∷◌, lit, str_eq}
use kabanero_events.Go.Assoc.{lookup}
use kabanero_events.Go.Exec.{World, subscribe, ok, act, ◌>>=◌}
use kabanero_events.Messages.{
  EventNode, Service, nats, get_node, find_node, get_provider, provider_subscribe,
}
use kabanero_events.Trigger.Listeners.{keys, start_each, start_listeners}
use kabanero_events.Trigger.Listeners.Subscribed.{Subscribes, start_listeners_iff}
use kabanero_events.Sample.{network, bus, definition, no_world}

abbrev node : EventNode
node = record { name = lit "github"; topic = lit "events"; provider_ref = lit "bus" }

abbrev github : Service
github = record {
  event_definition = record { providers = bus ∷ []; event_destinations = node ∷ [] };
  providers = (lit "bus", nats bus) ∷ [];
}

abbrev subscribed : World
subscribed = record no_world { heap = []; trace = subscribe (lit "nats://bus") (lit "events") ∷ [] }

starts :
    start_listeners network github (definition false) no_world
    ≡ (ok ((nats bus, node) ∷ []), subscribed)
unfolding start_listeners keys start_each provider_subscribe get_node find_node get_provider lookup
    str_eq act ◌>>=◌
starts = refl

start_listeners_iff_example :
    (start_listeners network github (definition false) no_world
      ≡ (ok ((nats bus, node) ∷ []), subscribed))
    ↔ Subscribes network github no_world
        (keys (definition false).event_triggers)
        ((nats bus, node) ∷ [])
        subscribed
start_listeners_iff_example =
    start_listeners_iff network github (definition false) no_world subscribed
      ((nats bus, node) ∷ [])

subscribes :
    Subscribes network github no_world
      (keys (definition false).event_triggers)
      ((nats bus, node) ∷ [])
      subscribed
subscribes = start_listeners_iff_example.0 starts
