-- ===== src/Trigger/Listeners/Started.antt =====
-- The listeners that `StartListeners` starts.
use mathlib.Core.List.{append_assoc, append-nil}
use kabanero_events.Prelude.{◌≡◌, sym, ◌∙◌, some, List, [], ◌∷◌, ◌++◌, Str}
use kabanero_events.Go.Exec.{World, Effect, subscribe, ok}
use kabanero_events.Messages.{
  Network, EventNode, Provider, ProviderDefinition, nats, Service, get_node, get_provider,
}
use kabanero_events.Trigger.Definition.{TriggerDefinition}
use kabanero_events.Trigger.Listeners.{keys, start_listeners}
use kabanero_events.Trigger.Listeners.Subscribed.{
  Subscribes, none_left, one_more, start_listeners_iff,
}

-- Every event source has a node, and this a NATS provider; the listener gets both, and the node's
-- topic is subscribed to, in the order of the event sources.
pub data Started (s : Service) : List Str → List (Provider × EventNode) → List Effect → Type 0 where
  done : Started s [] [] []
  next :
      (dest : Str) {node : EventNode} {mpd : ProviderDefinition} {dests : List Str}
      {listeners : List (Provider × EventNode)} {effects : List Effect}
      → get_node s dest ≡ some node
      → get_provider s node.provider_ref ≡ some (nats mpd)
      → Started s dests listeners effects
      → Started s
          (dest ∷ dests)
          ((nats mpd, node) ∷ listeners)
          (subscribe mpd.url node.topic ∷ effects)

module _ (network : Network) (s : Service) where
  Subscribes-Started :
      (dests : List Str) (w : World) {listeners : List (Provider × EventNode)} {w' : World}
      → Subscribes network s w dests listeners w'
      → (effects : List Effect) × Started s dests listeners effects
        × (w'.trace ≡ w.trace ++ effects)
  Subscribes-Started [] w none_left = ([], done, sym (append-nil w.trace))
  Subscribes-Started (dest ∷ dests) w (one_more _ _ {node} {mpd} e f _ more) =
      let (effects, started, t) = Subscribes-Started dests _ more in
      (
        subscribe mpd.url node.topic ∷ effects,
        next dest e f started,
        t ∙ append_assoc w.trace (subscribe mpd.url node.topic ∷ []) effects,
      )

  -- Where `StartListeners` returns no error, every event source of the trigger definition has a
  -- node and this a NATS provider, the listeners are those nodes with their providers, and one
  -- subscription to each node's topic was made, in the order of the event sources, and nothing
  -- else.
  pub start_listeners-Started :
      (td : TriggerDefinition) (w w' : World) (listeners : List (Provider × EventNode))
      → start_listeners network s td w ≡ (ok listeners, w')
      → (effects : List Effect) × Started s (keys td.event_triggers) listeners effects
        × (w'.trace ≡ w.trace ++ effects)
  start_listeners-Started td w w' listeners h =
      Subscribes-Started (keys td.event_triggers) w
        ((start_listeners_iff network s td w w' listeners).0 h)
