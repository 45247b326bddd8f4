-- ===== src/Messages/Receive.antt =====
-- pkg/messages/nats_provider.go and rest_provider.go: `Subscribe` with the map of subscriptions, `Receive` and
-- `ListenAndServe`. A subscription of the NATS client is its topic.
use kabanero_events.Prelude.{◌≡◌, sym, ap, ◌∙◌, ℕ, ◌⊎◌, Option, some, List, [], ◌∷◌, Str}
use kabanero_events.Go.Assoc.{lookup, insert, lookup-insert_self}
use kabanero_events.Go.Exec.{
  Exec, Error, Effect, Result, ok, err, panic, out_of_fuel, World, pure, lift, recover, act, ignore,
  ◌>>◌, of_sum, subscribe,
}
use kabanero_events.Go.Bind.{bind-eq-ok, pure-eq-ok}
use kabanero_events.Messages.{
  ProviderDefinition, EventNode, Provider, nats, rest, Network, provider_subscribe,
}

-- `provider.subscription`: the topics by the names of nodes.
abbrev pub Subscriptions : Type 0
Subscriptions = List (Str × Str)

-- `sub.NextMsg(timeout)`; a nil subscription is one of no topic.
abbrev pub NextMessage : Type 0
NextMessage = List Effect → Option Str → ℕ → Error ⊎ Str

-- An error of `ChanSubscribe` is logged.
only_logged : Result (Unit {0}) → Result (Unit {0})
only_logged (ok _) = ok tt
only_logged (err _) = ok tt
only_logged panic = panic
only_logged out_of_fuel = out_of_fuel

-- `restProvider.Receive` and `restProvider.ListenAndServe`, by `klog.Fatal`
abbrev rest_receive : EventNode → Exec Str
rest_receive node = lift panic

abbrev rest_listen_and_serve : EventNode → (Str → Exec (Unit {0})) → Exec (Unit {0})
rest_listen_and_serve node receiver = lift panic

module _ (network : Network) where
  -- `natsProvider.Subscribe`
  unfoldable pub subscribe_node : Provider → EventNode → Subscriptions → Exec Subscriptions
  subscribe_node provider node subscriptions = do
    provider_subscribe network provider node
    pure (insert node.name node.topic subscriptions)

  -- `natsProvider.Receive`. That there is no subscription is only logged.
  abbrev nats_receive : NextMessage → ProviderDefinition → Subscriptions → EventNode → Exec Str
  nats_receive next_msg mpd subscriptions node =
      λ w. of_sum (next_msg w.trace (lookup node.name subscriptions) mpd.timeout) w

  unfoldable pub receive : NextMessage → Provider → Subscriptions → EventNode → Exec Str
  receive next_msg (nats mpd) subscriptions node = nats_receive next_msg mpd subscriptions node
  receive next_msg (rest mpd) subscriptions node = rest_receive node

  -- The loop over the channel, on the messages that come out of it.
  unfoldable pub receive_each : (Str → Exec (Unit {0})) → List Str → Exec (Unit {0})
  receive_each receiver [] = pure tt
  receive_each receiver (bytes ∷ messages) = receiver bytes >> receive_each receiver messages

  -- `natsProvider.ListenAndServe`: after an error of the subscription it waits on all the same.
  unfoldable pub nats_listen_and_serve :
      ProviderDefinition → EventNode → (Str → Exec (Unit {0})) → List Str → Exec (Unit {0})
  unfolding only_logged
  nats_listen_and_serve mpd node receiver messages = do
    recover only_logged (ignore (act network.outside (subscribe mpd.url node.topic)))
    receive_each receiver messages

  unfoldable pub listen_and_serve :
      Provider → EventNode → (Str → Exec (Unit {0})) → List Str → Exec (Unit {0})
  unfolding nats_listen_and_serve
  listen_and_serve (nats mpd) node receiver messages =
      nats_listen_and_serve mpd node receiver messages
  listen_and_serve (rest mpd) node receiver messages = rest_listen_and_serve node receiver

-- After `Subscribe`, `Receive` on the node waits at its own topic, for the time of the provider.
pub receive-subscribe_node :
    (network : Network) (next_msg : NextMessage) (mpd : ProviderDefinition) (node : EventNode)
    (subscriptions subscribed : Subscriptions) (w w' : World)
    → subscribe_node network (nats mpd) node subscriptions w ≡ (ok subscribed, w')
    → receive network next_msg (nats mpd) subscribed node w'
      ≡ (of_sum (next_msg w'.trace (some node.topic) mpd.timeout)) w'
unfolding subscribe_node receive
receive-subscribe_node network next_msg mpd node subscriptions subscribed w w' h =
    let (_, w₁, _, q) = bind-eq-ok (provider_subscribe network (nats mpd) node) _ w h in
    let e = (pure-eq-ok (insert node.name node.topic subscriptions) w₁ q).0 in
    ap (λ s. of_sum (next_msg w'.trace (lookup node.name s) mpd.timeout) w') (sym e)
    ∙ ap (λ o. of_sum (next_msg w'.trace o mpd.timeout) w')
        (lookup-insert_self node.name node.topic subscriptions)
