-- ===== src/Messages/Routing.antt =====
-- What a call of `Send` that returns no error has done.
use kabanero_events.Prelude.{
  ℕ, map, lit, ◌*◌, ◌%◌, ◌^◌, ◌≡◌, refl, ◌↔◌, inl, inr, sym, ap, ◌∙◌, Bool-cases, some,
  Option-cases, List, [], ◌∷◌, ◌++◌, Str, ◌==◌, ==_iff, if◌then◌else◌,
}
use mathlib.Core.List.{append_assoc, flat_map}
use mathlib.Core.Path.{subst}
use kabanero_events.Go.Value.{Val}
use kabanero_events.Go.Exec.{
  World, Request, ok, post, publish, flush, act, pure, throw, lift, http_status, no_node,
  no_provider,
}
use kabanero_events.Go.Bind.{
  bind-eq-ok, bind-of_ok, pure-eq, pure-eq-ok, throw-ne-ok, lift-eq-ok, lift-of_ok, act-eq-ok,
  act-of_ok, act-world,
}
use kabanero_events.Messages.{
  Network, ProviderDefinition, EventNode, Provider, nats, rest, Service, get_node, get_provider,
  header_values, request_headers, client_timeout, request, header_map, nats_send, rest_send,
  provider_send, send_to, send_node, send,
}

-- The headers that a REST provider takes from the last argument of `Send`.
pub data Carries : Val → List (Str × List Str) → Type 0 where
  no_headers : Carries Val.nil []
  its_headers : {headers : List (Str × List Str)} → Carries (Val.headers headers) headers

-- One line for each value of a header, in their order, and then the type of the content.
abbrev header_lines : List (Str × List Str) → List (Str × Str)
header_lines headers =
    flat_map (λ (header : Str × List Str). map (λ value. (header.0, value)) header.1) headers
    ++ (lit "Content-Type", lit "application/json") ∷ []

-- The request for this body and these headers, to the URL of the definition. The timeout is the one of the
-- definition times a second, as a word of 64 bits.
abbrev pub posted_for : ProviderDefinition → List (Str × List Str) → Str → Request
posted_for mpd headers body = record {
  url = mpd.url;
  insecure_skip_verify = mpd.skip_tls_verify;
  timeout = mpd.timeout * 1_000_000_000 % 2 ^ 64;
  headers = header_lines headers;
  payload = body;
}

header_values-map :
    (key : Str) (values : List Str) → header_values key values ≡ map (λ value. (key, value)) values
unfolding header_values
header_values-map key [] = refl
header_values-map key (value ∷ values) = ap (λ l. (key, value) ∷ l) (header_values-map key values)

request_headers-flat_map :
    (headers : List (Str × List Str)) → request_headers headers ≡ header_lines headers
unfolding request_headers flat_map
request_headers-flat_map [] = refl
request_headers-flat_map ((key, values) ∷ headers) =
    ap (λ l. header_values key values ++ l) (request_headers-flat_map headers)
    ∙ ap (λ l. l ++ header_lines headers) (header_values-map key values)
    ∙ sym (append_assoc (map (λ value. (key, value)) values) _ _)

request-eq :
    (mpd : ProviderDefinition) (headers : List (Str × List Str)) (body : Str)
    → request mpd headers body ≡ posted_for mpd headers body
unfolding request client_timeout
request-eq mpd headers body =
    ap
      (λ l. record {
        url = mpd.url;
        insecure_skip_verify = mpd.skip_tls_verify;
        timeout = mpd.timeout * 1_000_000_000 % 2 ^ 64;
        headers = l;
        payload = body;
      })
      (request_headers-flat_map headers)

-- What is sent through a provider between two worlds. By NATS, one message on the topic of the
-- node, and a flush; by REST, one POST whose answer is 200.
pub data Delivered (network : Network) (node : EventNode) (body : Str) (header : Val) (w w' : World)
    : Provider → Type 0 where
  by_nats :
      (mpd : ProviderDefinition) {published flushed : ℕ}
      → network.outside w.trace (publish mpd.url node.topic body) ≡ ok published
      → network.outside (w.trace ++ publish mpd.url node.topic body ∷ []) (flush mpd.url)
        ≡ ok flushed
      → w' ≡ record w { trace = w.trace ++ publish mpd.url node.topic body ∷ flush mpd.url ∷ [] }
      → Delivered network node body header w w' (nats mpd)
  by_rest :
      (mpd : ProviderDefinition) {headers : List (Str × List Str)}
      → network.new_request mpd.url ≡ ok tt
      → Carries header headers
      → network.outside w.trace (post (posted_for mpd headers body)) ≡ ok 200
      → w' ≡ record w { trace = w.trace ++ post (posted_for mpd headers body) ∷ [] }
      → Delivered network node body header w w' (rest mpd)

header_map-eq-ok :
    (header : Val) {h : List (Str × List Str)} (w : World) {w' : World}
    → header_map header w ≡ (ok h, w')
    → Carries header h × (w ≡ w')
unfolding header_map
header_map-eq-ok Val.nil w e =
    let (p, q) = pure-eq-ok [] w e in (subst (Carries Val.nil) p no_headers, q)
header_map-eq-ok (Val.headers h) w e =
    let (p, q) = pure-eq-ok h w e in (subst (Carries (Val.headers h)) p its_headers, q)
header_map-eq-ok _ w e = absurd (throw-ne-ok _ w e)

module _ (network : Network) where
  status_ok :
      (status : ℕ) (w : World) {u : Unit {0}} {w' : World}
      → (if status == 200 then pure tt else throw http_status) w ≡ (ok u, w')
      → (status ≡ 200) × (w ≡ w')
  status_ok status w h = elim (Bool-cases (status == 200)) [
    | inl e ↦ ((==_iff status 200).0 e, (pure-eq-ok tt w (rw e at h)).1)
    | inr e ↦ absurd (throw-ne-ok http_status w (rw e at h))
  ]

  by_rest_request :
      (mpd : ProviderDefinition) {node : EventNode} {body : Str} {header : Val} {w w' : World}
      {headers : List (Str × List Str)}
      → network.new_request mpd.url ≡ ok tt
      → Carries header headers
      → network.outside w.trace (post (request mpd headers body)) ≡ ok 200
      → w' ≡ record w { trace = w.trace ++ post (request mpd headers body) ∷ [] }
      → Delivered network node body header w w' (rest mpd)
  by_rest_request mpd {body = body} {w = w} {w' = w'} {headers = headers} made carries a e =
      let same = request-eq mpd headers body in
      by_rest mpd made carries (subst (λ r. network.outside w.trace (post r) ≡ ok 200) same a)
        (subst (λ r. w' ≡ record w { trace = w.trace ++ post r ∷ [] }) same e)

  rest_send-Delivered :
      (mpd : ProviderDefinition) (node : EventNode) (body : Str) (header : Val) (w : World)
      {u : Unit {0}} {w' : World}
      → rest_send network mpd body header w ≡ (ok u, w')
      → Delivered network node body header w w' (rest mpd)
  unfolding rest_send
  rest_send-Delivered mpd node body header w {u} {w'} h =
      let (_, w₁, a, h₁) = bind-eq-ok (lift (network.new_request mpd.url)) _ w h in
      let (headers, w₂, b, h₂) = bind-eq-ok (header_map header) _ w₁ h₁ in
      let (status, w₃, c, h₃) =
        bind-eq-ok (act network.outside (post (request mpd headers body))) _ w₂ h₂ in
      let (e, f) = status_ok status w₃ h₃ in
      let (answer, _) = act-eq-ok network.outside (post (request mpd headers body)) w₂ c in
      let (left, made) = lift-eq-ok _ w a in
      let (carries, kept) = header_map-eq-ok header w₁ b in
      let same : w₂ ≡ w = sym kept ∙ sym left in
      by_rest_request mpd made carries
        (ap (λ (v : World). network.outside v.trace (post (request mpd headers body))) (sym same)
          ∙ answer
          ∙ ap ok e)
        (sym f
          ∙ act-world network.outside (post (request mpd headers body)) w₂ c
          ∙ ap (λ (v : World). record v { trace = v.trace ++ post (request mpd headers body) ∷ [] })
              same)

  nats_send-Delivered :
      (mpd : ProviderDefinition) (node : EventNode) (body : Str) (header : Val) (w : World)
      {u : Unit {0}} {w' : World}
      → nats_send network mpd node body w ≡ (ok u, w')
      → Delivered network node body header w w' (nats mpd)
  unfolding nats_send
  nats_send-Delivered mpd node body header w {u} {w'} h =
      let sending = publish mpd.url node.topic body in
      let (_, w₁, a, h₁) = bind-eq-ok (act network.outside sending) _ w h in
      let (_, w₂, b, h₂) = bind-eq-ok (act network.outside (flush mpd.url)) _ w₁ h₁ in
      let (published, _) = act-eq-ok network.outside sending w a in
      let (flushed, _) = act-eq-ok network.outside (flush mpd.url) w₁ b in
      let first = act-world network.outside sending w a in
      by_nats mpd published
        (ap (λ (v : World). network.outside v.trace (flush mpd.url)) (sym first) ∙ flushed)
        (sym (pure-eq-ok tt w₂ h₂).1
          ∙ act-world network.outside (flush mpd.url) w₁ b
          ∙ ap (λ (v : World). record v { trace = v.trace ++ flush mpd.url ∷ [] }) first
          ∙ ap (λ t. record w { trace = t })
              (append_assoc w.trace (sending ∷ []) (flush mpd.url ∷ [])))

  provider_send-Delivered :
      (provider : Provider) (node : EventNode) (body : Str) (header : Val) (w : World)
      {u : Unit {0}} {w' : World}
      → provider_send network provider node body header w ≡ (ok u, w')
      → Delivered network node body header w w' provider
  unfolding provider_send
  provider_send-Delivered (nats mpd) node body header w h =
      nats_send-Delivered mpd node body header w h
  provider_send-Delivered (rest mpd) node body header w h =
      rest_send-Delivered mpd node body header w h

  -- What a `Send` without an error found and did.
  pub Sent : Service → Str → Str → Val → World → World → Type 0
  Sent s dest body header w w' =
      (node : EventNode) × (provider : Provider) × (get_node s dest ≡ some node)
      × (get_provider s node.provider_ref ≡ some provider)
      × Delivered network node body header w w' provider

  send-Delivered :
      (s : Service) (dest body : Str) (header : Val) (w w' : World)
      → send network s dest body header w ≡ (ok tt, w')
      → Sent s dest body header w w'
  unfolding send send_node send_to Sent
  send-Delivered s dest body header w w' h = elim (Option-cases (get_node s dest)) [
    | inl e ↦ absurd (throw-ne-ok no_node w (rw (e, send_node) at h))
    | inr (node, e) ↦ elim (Option-cases (get_provider s node.provider_ref)) [
      | inl f ↦ absurd (throw-ne-ok no_provider w (rw (e, send_node, f, send_to) at h))
      | inr (provider, f) ↦ (
        node,
        provider,
        e,
        f,
        provider_send-Delivered provider node body header w (rw (e, send_node, f, send_to) at h),
      )
    ]
  ]

  nats_send-of_ok :
      (mpd : ProviderDefinition) (node : EventNode) (body : Str) (w w' : World)
      {published flushed : ℕ}
      → network.outside w.trace (publish mpd.url node.topic body) ≡ ok published
      → network.outside (w.trace ++ publish mpd.url node.topic body ∷ []) (flush mpd.url)
        ≡ ok flushed
      → w' ≡ record w { trace = w.trace ++ publish mpd.url node.topic body ∷ flush mpd.url ∷ [] }
      → nats_send network mpd node body w ≡ (ok tt, w')
  unfolding nats_send
  nats_send-of_ok mpd node body w w' p f e =
      let sending = publish mpd.url node.topic body in
      bind-of_ok (act network.outside sending) _ w (act-of_ok network.outside sending w p)
      ∙ bind-of_ok (act network.outside (flush mpd.url)) _ _
          (act-of_ok network.outside (flush mpd.url) _ f)
      ∙ ap (λ t. pure tt (record w { trace = t }))
          (append_assoc w.trace (sending ∷ []) (flush mpd.url ∷ []))
      ∙ pure-eq tt _
      ∙ ap (λ (v : World). (ok tt, v)) (sym e)

  rest_send-of_ok :
      (mpd : ProviderDefinition) (body : Str) (header : Val) (w w' : World)
      {headers : List (Str × List Str)}
      → network.new_request mpd.url ≡ ok tt
      → header_map header w ≡ (ok headers, w)
      → network.outside w.trace (post (posted_for mpd headers body)) ≡ ok 200
      → w' ≡ record w { trace = w.trace ++ post (posted_for mpd headers body) ∷ [] }
      → rest_send network mpd body header w ≡ (ok tt, w')
  unfolding rest_send
  rest_send-of_ok mpd body header w w' {headers} r k a e =
      let posting = post (request mpd headers body) in
      let same = request-eq mpd headers body in
      bind-of_ok (lift (network.new_request mpd.url)) _ w (lift-of_ok r w)
      ∙ bind-of_ok (header_map header) _ w k
      ∙ bind-of_ok (act network.outside posting) _ w (
          act-of_ok network.outside posting w (ap (λ r. network.outside w.trace (post r)) same ∙ a))
      ∙ pure-eq tt _
      ∙ ap (λ r. (ok tt, record w { trace = w.trace ++ post r ∷ [] })) same
      ∙ ap (λ (v : World). (ok tt, v)) (sym e)

  Delivered-provider_send :
      (provider : Provider) (node : EventNode) (body : Str) (header : Val) (w w' : World)
      → Delivered network node body header w w' provider
      → provider_send network provider node body header w ≡ (ok tt, w')
  unfolding provider_send header_map
  Delivered-provider_send (nats mpd) node body header w w' (by_nats _ p f e) =
      nats_send-of_ok mpd node body w w' p f e
  Delivered-provider_send (rest mpd) node body header w w' (by_rest _ r no_headers a e) =
      rest_send-of_ok mpd body Val.nil w w' r (pure-eq [] w) a e
  Delivered-provider_send (rest mpd) node body header w w' (by_rest _ r its_headers a e) =
      rest_send-of_ok mpd body header w w' r (pure-eq _ w) a e

  -- `Send` returns no error exactly when it finds the node of that name and the node's provider,
  -- and through this provider one message with this body goes out: by NATS a message on the node's
  -- topic and a flush, both accepted, or by REST a POST with the headers given that is answered with
  -- the status 200. It does nothing else.
  pub send_iff :
      (s : Service) (dest body : Str) (header : Val) (w w' : World)
      → (send network s dest body header w ≡ (ok tt, w')) ↔ Sent s dest body header w w'
  unfolding send send_node send_to Sent
  send_iff s dest body header w w' = (
    send-Delivered s dest body header w w',
    λ (node, provider, e, f, delivered).
        rw (e, send_node, f, send_to)
          (Delivered-provider_send provider node body header w w' delivered),
  )
