-- ===== src/Trigger/Listeners/Subscribed.antt =====
-- What `StartListeners` does where it returns no error.
use kabanero_events.Prelude.{
  ◌≡◌, ◌↔◌, sym, ap, ◌∙◌, inl, inr, some, Option-cases, ℕ, List, [], ◌∷◌, ◌++◌, Str,
}
use mathlib.Core.Path.{subst}
use kabanero_events.Go.Exec.{
  World, subscribe, ok, panic, pure, lift, act, ignore, ◌>>◌, no_node, no_provider,
}
use kabanero_events.Go.Bind.{
  bind-eq-ok, bind-of_ok, pure-eq, pure-eq-ok, throw-ne-ok, lift-eq-ok, act-eq-ok, act-of_ok,
  act-world,
}
use kabanero_events.Messages.{
  Network, EventNode, Provider, ProviderDefinition, nats, rest, Service, get_node, get_provider,
  provider_subscribe,
}
use kabanero_events.Trigger.Definition.{TriggerDefinition}
use kabanero_events.Trigger.Listeners.{keys, subscribe_to, start_node, start_each, start_listeners}

module _ (network : Network) (s : Service) where
  -- The world after a subscription.
  abbrev pub subscribed_to : ProviderDefinition → EventNode → World → World
  subscribed_to mpd node w = record w { trace = w.trace ++ subscribe mpd.url node.topic ∷ [] }

  -- From one world to another, in the order of the event sources: each has a node, this a NATS
  -- provider, and the subscription to the topic of the node is accepted.
  pub data Subscribes : World → List Str → List (Provider × EventNode) → World → Type 0 where
    none_left : {w : World} → Subscribes w [] [] w
    one_more :
        (dest : Str) (w : World) {w' : World} {node : EventNode} {mpd : ProviderDefinition}
        {answer : ℕ} {dests : List Str} {listeners : List (Provider × EventNode)}
        → get_node s dest ≡ some node
        → get_provider s node.provider_ref ≡ some (nats mpd)
        → network.outside w.trace (subscribe mpd.url node.topic) ≡ ok answer
        → Subscribes (subscribed_to mpd node w) dests listeners w'
        → Subscribes w (dest ∷ dests) ((nats mpd, node) ∷ listeners) w'

  -- What one listener needs and does.
  abbrev One : Str → Provider × EventNode → World → World → Type 0
  One dest listener w w' =
      (node : EventNode) × (mpd : ProviderDefinition) × (answer : ℕ) × (get_node s dest ≡ some node)
      × (get_provider s node.provider_ref ≡ some (nats mpd))
      × (network.outside w.trace (subscribe mpd.url node.topic) ≡ ok answer)
      × (listener ≡ (nats mpd, node))
      × (w' ≡ subscribed_to mpd node w)

  with_provider :
      (dest : Str) (node : EventNode) (provider : Provider) (w : World)
      {listener : Provider × EventNode} {w' : World}
      → get_node s dest ≡ some node
      → get_provider s node.provider_ref ≡ some provider
      → (provider_subscribe network provider node >> pure (provider, node)) w ≡ (ok listener, w')
      → One dest listener w w'
  unfolding provider_subscribe
  with_provider dest node (rest mpd) w e f h = absurd (never h)
    where
      never :
          {l : Provider × EventNode} {w' : World}
          → (lift panic >> pure (rest mpd, node)) w ≡ (ok l, w')
          → ⊥
      never p = let (_, w₁, a, k) = bind-eq-ok (lift panic) _ w p in cc ((lift-eq-ok panic w a).1)
  with_provider dest node (nats mpd) w e f h =
      let subscribing = subscribe mpd.url node.topic in
      let (_, w₁, a, k) = bind-eq-ok (ignore (act network.outside subscribing)) _ w h in
      let (answer, w₂, b, l) = bind-eq-ok (act network.outside subscribing) _ w a in
      let (p, q) = pure-eq-ok (nats mpd, node) w₁ k in
      let (accepted, _) = act-eq-ok network.outside subscribing w b in
      (
        node,
        mpd,
        answer,
        e,
        f,
        accepted,
        sym p,
        sym ((pure-eq-ok tt w₂ l).1 ∙ q) ∙ act-world network.outside subscribing w b,
      )

  start_node-One :
      (dest : Str) (w : World) {listener : Provider × EventNode} {w' : World}
      → start_node network s (get_node s dest) w ≡ (ok listener, w')
      → One dest listener w w'
  unfolding start_node subscribe_to
  start_node-One dest w h = elim (Option-cases (get_node s dest)) [
    | inl e ↦ absurd (throw-ne-ok no_node w (rw (e, start_node) at h))
    | inr (node, e) ↦ elim (Option-cases (get_provider s node.provider_ref)) [
      | inl f ↦ absurd (throw-ne-ok no_provider w (rw (e, start_node, f, subscribe_to) at h))
      | inr (provider, f) ↦
          with_provider dest node provider w e f (rw (e, start_node, f, subscribe_to) at h)
    ]
  ]

  start_each-Subscribes :
      (dests : List Str) (w : World) {listeners : List (Provider × EventNode)} {w' : World}
      → start_each network s dests w ≡ (ok listeners, w')
      → Subscribes w dests listeners w'
  unfolding start_each
  start_each-Subscribes [] w {w' = w'} h =
      let (p, q) = pure-eq-ok [] w h in
      subst (λ l. Subscribes w [] l w') p (subst (λ v. Subscribes w [] [] v) q none_left)
  start_each-Subscribes (dest ∷ dests) w {w' = w'} h =
      let (listener, w₁, a, k) = bind-eq-ok (start_node network s (get_node s dest)) _ w h in
      let (listeners, w₂, b, l) = bind-eq-ok (start_each network s dests) _ w₁ k in
      let (p, q) = pure-eq-ok (listener ∷ listeners) w₂ l in
      let (node, mpd, answer, e, f, accepted, same, after) = start_node-One dest w a in
      subst (λ ls. Subscribes w (dest ∷ dests) ls w') (ap (λ x. x ∷ listeners) (sym same) ∙ p)
        (one_more dest w e f accepted (
          subst (λ v. Subscribes v dests listeners w') after
            (subst (λ v. Subscribes w₁ dests listeners v) q (start_each-Subscribes dests w₁ b))))

  one-start_node :
      (dest : Str) (w : World) {node : EventNode} {mpd : ProviderDefinition} {answer : ℕ}
      → get_node s dest ≡ some node
      → get_provider s node.provider_ref ≡ some (nats mpd)
      → network.outside w.trace (subscribe mpd.url node.topic) ≡ ok answer
      → start_node network s (get_node s dest) w ≡ (ok (nats mpd, node), subscribed_to mpd node w)
  unfolding start_node subscribe_to provider_subscribe
  one-start_node dest w {node} {mpd} e f accepted =
      let subscribing = subscribe mpd.url node.topic in
      rw (e, start_node, f, subscribe_to)
        (bind-of_ok (ignore (act network.outside subscribing)) _ w (
            bind-of_ok (act network.outside subscribing) _ w
              (act-of_ok network.outside subscribing w accepted)
            ∙ pure-eq tt _)
          ∙ pure-eq _ _)

  Subscribes-start_each :
      (dests : List Str) (w : World) {listeners : List (Provider × EventNode)} {w' : World}
      → Subscribes w dests listeners w'
      → start_each network s dests w ≡ (ok listeners, w')
  unfolding start_each
  Subscribes-start_each [] w none_left = pure-eq [] w
  Subscribes-start_each (dest ∷ dests) w (one_more _ _ e f accepted more) =
      bind-of_ok (start_node network s (get_node s dest)) _ w (one-start_node dest w e f accepted)
      ∙ bind-of_ok (start_each network s dests) _ _ (Subscribes-start_each dests _ more)
      ∙ pure-eq _ _

  -- `StartListeners` returns no error exactly when every event source of the trigger definition
  -- has a node, this a NATS provider, and the subscription to the topic of the node is accepted.
  -- It makes these subscriptions in the order of the event sources and does nothing else, and the
  -- listeners that it starts get those providers and nodes.
  pub start_listeners_iff :
      (td : TriggerDefinition) (w w' : World) (listeners : List (Provider × EventNode))
      → (start_listeners network s td w ≡ (ok listeners, w'))
        ↔ Subscribes w (keys td.event_triggers) listeners w'
  unfolding start_listeners
  start_listeners_iff td w w' listeners =
      (start_each-Subscribes (keys td.event_triggers) w, Subscribes-start_each _ w)
