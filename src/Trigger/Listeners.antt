-- ===== src/Trigger/Listeners.antt =====
-- pkg/trigger/trigger.go: `StartListeners` and `messageListener`. A goroutine that
-- `StartListeners` starts is the provider and the node that its listener gets, and the loop of a
-- listener is a function of what `Receive` returns, one after the other.
pub mod Subscribed
pub mod Started
pub mod Quiet
mod Tests
use kabanero_events.Prelude.{ℕ, ◌⊎◌, inl, inr, Option, none, some, List, [], ◌∷◌, Str}
use kabanero_events.Go.Value.{Val}
use kabanero_events.Go.Exec.{
  Error, Result, ok, err, panic, out_of_fuel, Exec, pure, throw, recover, ◌>>=◌, ◌>>◌, no_node,
  no_provider,
}
use kabanero_events.Messages.{
  Network, EventNode, Provider, Service, get_node, get_provider, provider_subscribe,
}
use kabanero_events.Trigger.Definition.{TriggerDefinition}

unfoldable pub keys {ℓ} : {V : Type ℓ} → List (Str × V) → List Str
keys [] = []
keys ((key, _) ∷ entries) = key ∷ keys entries

module _ (network : Network) (service : Service) where
  subscribe_to : EventNode → Option Provider → Exec (Provider × EventNode)
  subscribe_to node none = throw no_provider
  subscribe_to node (some provider) = do
    provider_subscribe network provider node
    pure (provider, node)

  start_node : Option EventNode → Exec (Provider × EventNode)
  unfolding subscribe_to
  start_node none = throw no_node
  start_node (some node) = subscribe_to node (get_provider service node.provider_ref)

  -- The loop over the event sources.
  unfoldable pub start_each : List Str → Exec (List (Provider × EventNode))
  unfolding start_node
  start_each [] = pure []
  start_each (dest ∷ dests) = do
    listener ← start_node (get_node service dest)
    listeners ← start_each dests
    pure (listener ∷ listeners)

  unfoldable pub start_listeners : TriggerDefinition → Exec (List (Provider × EventNode))
  unfolding keys
  start_listeners td = start_each (keys td.event_triggers)

-- An error is logged, and the loop goes on.
logged {ℓ} : {A : Type ℓ} → Result A → Result (Unit {0})
logged (ok _) = ok tt
logged (err _) = ok tt
logged panic = panic
logged out_of_fuel = out_of_fuel

-- `json.Unmarshal` into a map, and `ProcessMessage` of the processor.
module _ (unmarshal : Str → Exec Val) (process : Val → Str → Exec (List ℕ)) where
  -- One round of the loop of a listener, on the bytes that were received. This is what its own
  -- goroutine does; what others do to the world in the meantime is not in it.
  unfoldable pub handle : EventNode → Str → Exec (Unit {0})
  unfolding logged
  handle node buf = recover logged (unmarshal buf >>= λ message. process message node.name)

  unfoldable pub message_listener : EventNode → List (Error ⊎ Str) → Exec (Unit {0})
  message_listener node [] = pure tt
  message_listener node (inl e ∷ received) = pure tt
  message_listener node (inr buf ∷ received) = do handle node buf; message_listener node received
