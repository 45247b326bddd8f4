-- ===== src/Listener/Accepted.antt =====
-- What the answer to a webhook says.
use kabanero_events.Prelude.{
  ℕ, ◌≡◌, ◌↔◌, ◌∙◌, refl, ap, inr, List, [], ◌∷◌, lit, str_eq, Str, arith,
}
use kabanero_events.Go.Assoc.{insert}
use kabanero_events.Go.Value.{Val}
use kabanero_events.Go.Exec.{Result, ok, err, panic, out_of_fuel, World, of_sum, recover}
use kabanero_events.Go.Bind.{bind-eq-ok, bind-of_ok, of_sum-eq-ok, of_sum-of_inr}
use kabanero_events.Messages.{Network, Service, send}
use kabanero_events.Messages.Routing.{Sent, send_iff}
use kabanero_events.Listener.{
  header_part, body_part, message_map, Codec, webhook_destination, status, forward,
  listener_handler,
}

status-accepted : (r : Result (Unit {0})) → status r ≡ ok 202 → r ≡ ok tt
unfolding status
status-accepted (ok tt) h = refl
status-accepted (err e) h = absurd (omega (arith, ap (λ r. value r) h))
  where
    value : Result ℕ → ℕ
    value (ok n) = n
    value _ = 0
status-accepted panic h = absurd (cc h)
status-accepted out_of_fuel h = absurd (cc h)

module _ (network : Network) (service : Service) (codec : Codec) where
  open codec use {Body, unmarshal, marshal}

  -- What is behind the answer 202: the body was decoded, and the map of header and body was encoded
  -- and went out as one message to the destination "github".
  pub Forwarded : List (Str × List Str) → Str → World → World → Type 0
  Forwarded header bytes w w' =
      (body_map : Body) × (message : Str) × (unmarshal bytes ≡ inr body_map)
      × (marshal ((lit "header", header_part header) ∷ (lit "body", body_part body_map) ∷ [])
          ≡ inr message)
      × Sent network service webhook_destination message Val.nil w w'

  forward-Forwarded :
      (header : List (Str × List Str)) (bytes : Str) (w w' : World)
      → forward network service codec header bytes w ≡ (ok tt, w')
      → Forwarded header bytes w w'
  unfolding forward Forwarded message_map insert str_eq
  forward-Forwarded header bytes w w' h =
      let (body_map, w₁, a, h₁) = bind-eq-ok (of_sum (unmarshal bytes)) _ w h in
      let (message, w₂, b, h₂) =
        bind-eq-ok (of_sum (marshal (message_map header body_map))) _ w₁ h₁ in
      let (read, same₁) = of_sum-eq-ok (unmarshal bytes) w a in
      let (written, same₂) = of_sum-eq-ok (marshal (message_map header body_map)) w₁ b in
      let sent : send network service webhook_destination message Val.nil w ≡ (ok tt, w') =
        rw (same₁, same₂) h₂ in
      (
        body_map,
        message,
        read,
        written,
        (send_iff network service webhook_destination message Val.nil w w').0 sent,
      )

  Forwarded-forward :
      (header : List (Str × List Str)) (bytes : Str) (w w' : World)
      → Forwarded header bytes w w'
      → forward network service codec header bytes w ≡ (ok tt, w')
  unfolding forward Forwarded message_map insert str_eq
  Forwarded-forward header bytes w w' (body_map, message, read, written, sent) =
      bind-of_ok (of_sum (unmarshal bytes)) _ w (of_sum-of_inr read w)
      ∙ bind-of_ok (of_sum (marshal (message_map header body_map))) _ w (of_sum-of_inr written w)
      ∙ (send_iff network service webhook_destination message Val.nil w w').1 sent

  -- A webhook is answered with the status 202 exactly when its body is decoded, and the encoding of
  -- the map that holds its header under "header" and its body under "body" goes out as the body of
  -- one message to the destination "github", through the provider of this destination and without
  -- headers beside it.
  pub listener_handler_iff :
      (header : List (Str × List Str)) (bytes : Str) (w w' : World)
      → (listener_handler network service codec header bytes w ≡ (ok 202, w'))
        ↔ Forwarded header bytes w w'
  unfolding listener_handler recover status
  listener_handler_iff header bytes w w' = (
    λ h.
        let done =
          status-accepted (forward network service codec header bytes w).0 (λ i. (h i).0) in
        forward-Forwarded header bytes w w' (λ i. (done i, (h i).1)),
    λ forwarded.
        let h = Forwarded-forward header bytes w w' forwarded in λ i. (status (h i).0, (h i).1),
  )
