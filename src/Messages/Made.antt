-- ===== src/Messages/Made.antt =====
-- When `NewService` returns a service, and which one.
use kabanero_events.Prelude.{
  ◌≡◌, ◌↔◌, refl, ap, inl, inr, Bool-cases, none, some, List, [], ◌∷◌, Str, lit, str_eq, str_eq_iff,
  All,
}
use kabanero_events.Go.Exec.{Error, Result, ok, err, panic, out_of_fuel}
use kabanero_events.Messages.{
  Network, ProviderDefinition, EventDefinition, Provider, nats, Service, get_provider, register,
  initialized, new_provider, register_all, new_service,
}
use kabanero_events.Messages.Register.{
  last_named, provider_of, first_provider, new_service-get_provider,
}

module _ (network : Network) where
  -- A definition of which a provider can be made.
  pub data Makes (mpd : ProviderDefinition) : Type 0 where
    makes_nats : mpd.provider_type ≡ lit "nats" → network.connect mpd.url ≡ ok tt → Makes mpd
    makes_rest : mpd.provider_type ≡ lit "rest" → Makes mpd

  initialized-is-ok :
      (provider : Provider) (r : Result (Unit {0})) {made : Provider}
      → initialized provider r ≡ ok made
      → r ≡ ok tt
  unfolding initialized
  initialized-is-ok provider (ok tt) h = refl
  initialized-is-ok provider (err _) h = absurd (cc h)
  initialized-is-ok provider panic h = absurd (cc h)
  initialized-is-ok provider out_of_fuel h = absurd (cc h)

  new_provider-Makes :
      (mpd : ProviderDefinition) {provider : Provider}
      → new_provider network mpd ≡ ok provider
      → Makes mpd
  unfolding new_provider
  new_provider-Makes mpd h = elim (Bool-cases (str_eq mpd.provider_type (lit "nats"))) [
    | inl e ↦
        makes_nats ((str_eq_iff _ _).0 e)
          (initialized-is-ok (nats mpd) (network.connect mpd.url) (rw e at h))
    | inr e ↦ elim (Bool-cases (str_eq mpd.provider_type (lit "rest"))) [
      | inl f ↦ makes_rest ((str_eq_iff _ _).0 f)
      | inr f ↦ absurd (refused (rw (e, f) at h))
    ]
  ]
    where
      refused : {e : Error} {p : Provider} → err e ≡ ok p → ⊥
      refused h = cc h

  Makes-new_provider :
      (mpd : ProviderDefinition) → Makes mpd → new_provider network mpd ≡ ok (provider_of mpd)
  unfolding new_provider provider_of initialized str_eq
  Makes-new_provider mpd (makes_nats e c) =
      rw ((str_eq_iff mpd.provider_type (lit "nats")).1 e, c) refl
  Makes-new_provider mpd (makes_rest e) =
      rw (ap (λ t. str_eq t (lit "nats")) e, (str_eq_iff mpd.provider_type (lit "rest")).1 e) refl

  register_all-Makes :
      (mpds : List ProviderDefinition) (s : Service) {s' : Service}
      → register_all network s mpds ≡ ok s'
      → All Makes mpds
  unfolding register_all
  register_all-Makes [] s h = tt
  register_all-Makes (mpd ∷ mpds) s h =
      let (p, e, k) =
        first_provider network (new_provider network mpd)
          (λ p. register_all network (register s mpd.name p) mpds) h in
      (new_provider-Makes mpd e, register_all-Makes mpds (register s mpd.name p) k)

  Makes-register_all :
      (mpds : List ProviderDefinition) (s : Service)
      → All Makes mpds
      → (s' : Service) × (register_all network s mpds ≡ ok s')
  unfolding register_all
  Makes-register_all [] s h = (s, refl)
  Makes-register_all (mpd ∷ mpds) s (h, hs) =
      rw (register_all, Makes-new_provider mpd h)
        (Makes-register_all mpds (register s mpd.name (provider_of mpd)) hs)

  -- What `NewService` is to return: under each name the provider of the last definition with it.
  pub IsMade : EventDefinition → Service → Type 0
  IsMade ed s =
      (new_service network ed ≡ ok s)
      × ((name : Str)
          → get_provider s name ≡ elim (last_named name ed.providers) [
            | none ↦ none
            | some mpd ↦ some (provider_of mpd)
          ])

  -- `NewService` returns a service exactly when each provider of the event definitions is of the
  -- type "rest", or of the type "nats" with a connection that is made. In this service a name finds
  -- the provider of the last definition with that name, and nothing where no definition has it.
  pub new_service_iff :
      (ed : EventDefinition) → ((s : Service) × IsMade ed s) ↔ All Makes ed.providers
  unfolding new_service IsMade
  new_service_iff ed = (
    λ (s, (h, _)). register_all-Makes ed.providers _ h,
    λ hs.
        let (s, h) =
          Makes-register_all ed.providers (record { event_definition = ed; providers = [] }) hs in
        (s, (h, λ name. new_service-get_provider network ed s name h)),
  )
