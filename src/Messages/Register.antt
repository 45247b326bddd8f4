-- ===== src/Messages/Register.antt =====
-- The providers that `NewService` registers, and `GetEventDefinition`.
use kabanero_events.Prelude.{
  ℕ, zero, suc, ◌≡◌, refl, sym, ap, ◌∙◌, inl, inr, Bool, true, false, Bool-cases, Option, none,
  some, List, [], ◌∷◌, Str, lit, str_eq, if◌then◌else◌,
}
use kabanero_events.Go.Assoc.{lookup, lookup-insert}
use kabanero_events.Go.Exec.{Error, Result, ok, err, panic, out_of_fuel}
use kabanero_events.Messages.{
  Network, ProviderDefinition, EventDefinition, Provider, nats, rest, Service, get_provider,
  register, get_event_definition, initialized, new_provider, register_all, new_service,
}

-- The last definition of that name.
unfoldable pub last_named : Str → List ProviderDefinition → Option ProviderDefinition
last_named name [] = none
last_named name (mpd ∷ mpds) = elim (last_named name mpds) [
  | some later ↦ some later
  | none ↦ if str_eq mpd.name name then some mpd else none
]

-- The provider that a definition stands for.
unfoldable pub provider_of : ProviderDefinition → Provider
provider_of mpd = if str_eq mpd.provider_type (lit "nats") then nats mpd else rest mpd

-- What is registered under a name: by the definitions, or before them.
registered : Option ProviderDefinition → Option Provider → Option Provider
registered none before = before
registered (some mpd) before = some (provider_of mpd)

value : Result Provider → Provider → Provider
value (ok p) d = p
value _ d = d

registered_head :
    (name : Str) (mpd : ProviderDefinition) (mpds : List ProviderDefinition)
    (before : Option Provider)
    → registered
        (last_named name mpds)
        (if str_eq mpd.name name then some (provider_of mpd) else before)
      ≡ registered (last_named name (mpd ∷ mpds)) before
unfolding registered last_named
registered_head name mpd mpds before = go (last_named name mpds) (str_eq mpd.name name)
  where
    go :
        (o : Option ProviderDefinition) (b : Bool)
        → registered o (if b then some (provider_of mpd) else before)
          ≡ registered
              (elim o [ some later ↦ some later | none ↦ if b then some mpd else none ])
              before
    go none true = refl
    go none false = refl
    go (some _) b = refl

module _ (network : Network) where
  initialized-eq-ok :
      (provider : Provider) (r : Result (Unit {0})) {made : Provider}
      → initialized provider r ≡ ok made
      → provider ≡ made
  unfolding initialized value
  initialized-eq-ok provider (ok _) h = ap (λ r. value r provider) h
  initialized-eq-ok provider (err _) h = absurd (cc h)
  initialized-eq-ok provider panic h = absurd (cc h)
  initialized-eq-ok provider out_of_fuel h = absurd (cc h)

  new_provider-eq-ok :
      (mpd : ProviderDefinition) {provider : Provider}
      → new_provider network mpd ≡ ok provider
      → provider_of mpd ≡ provider
  unfolding new_provider provider_of value
  new_provider-eq-ok mpd h = elim (Bool-cases (str_eq mpd.provider_type (lit "nats"))) [
    | inl e ↦ rw e (initialized-eq-ok (nats mpd) (network.connect mpd.url) (rw e at h))
    | inr e ↦ rw e (elim (Bool-cases (str_eq mpd.provider_type (lit "rest"))) [
      | inl f ↦ initialized-eq-ok (rest mpd) (ok tt) (rw (e, f) at h)
      | inr f ↦ absurd (refused (rw (e, f) at h))
    ])
  ]
    where
      refused : {e : Error} {p : Provider} → err e ≡ ok p → ⊥
      refused h = cc h

  pub first_provider :
      (r : Result Provider) (next : Provider → Result Service) {s' : Service}
      → elim r [ ok p ↦ next p | err e ↦ err e | panic ↦ panic | out_of_fuel ↦ out_of_fuel ] ≡ ok s'
      → (p : Provider) × (r ≡ ok p) × (next p ≡ ok s')
  first_provider (ok p) next h = (p, refl, h)
  first_provider (err e) next h = absurd (cc h)
  first_provider panic next h = absurd (cc h)
  first_provider out_of_fuel next h = absurd (cc h)

  register_all-get_provider :
      (mpds : List ProviderDefinition) (s : Service) {s' : Service} (name : Str)
      → register_all network s mpds ≡ ok s'
      → get_provider s' name ≡ registered (last_named name mpds) (get_provider s name)
  unfolding register_all registered last_named
  register_all-get_provider [] s name h = ap (λ r. get_provider (service r s) name) (sym h)
    where
      service : Result Service → Service → Service
      service (ok s) d = s
      service _ d = d
  register_all-get_provider (mpd ∷ mpds) s name h =
      let (p, e, k) =
        first_provider (new_provider network mpd)
          (λ p. register_all network (register s mpd.name p) mpds) h in
      register_all-get_provider mpds (register s mpd.name p) name k
      ∙ ap (registered (last_named name mpds)) (stored p e)
      ∙ registered_head name mpd mpds (get_provider s name)
    where
      stored :
          (p : Provider)
          → new_provider network mpd ≡ ok p
          → get_provider (register s mpd.name p) name
            ≡ (if str_eq mpd.name name then some (provider_of mpd) else get_provider s name)
      stored p e =
          unfold get_provider register in
          lookup-insert mpd.name name p s.providers
          ∙ ap (λ q. if str_eq mpd.name name then some q else lookup name s.providers)
              (sym (new_provider-eq-ok mpd e))

  -- Where `NewService` returns a service, a name finds the provider of the last definition with
  -- that name: a NATS provider where its type is "nats", a REST provider else; and nothing where
  -- no definition has the name.
  pub new_service-get_provider :
      (ed : EventDefinition) (s : Service) (name : Str)
      → new_service network ed ≡ ok s
      → get_provider s name
        ≡ elim (last_named name ed.providers) [ none ↦ none | some mpd ↦ some (provider_of mpd) ]
  unfolding new_service registered
  new_service-get_provider ed s name h =
      register_all-get_provider ed.providers _ name h ∙ at (last_named name ed.providers)
    where
      at :
          (o : Option ProviderDefinition)
          → registered o (get_provider (record { event_definition = ed; providers = [] }) name)
            ≡ elim o [ none ↦ none | some mpd ↦ some (provider_of mpd) ]
      at none = unfold get_provider lookup in refl
      at (some _) = refl

-- Whatever the fuel, `GetEventDefinition` uses it up: it never returns.
get_event_definition-out_of_fuel :
    (fuel : ℕ) (s : Service) → get_event_definition fuel s ≡ out_of_fuel
unfolding get_event_definition
get_event_definition-out_of_fuel zero s = refl
get_event_definition-out_of_fuel (suc fuel) s = get_event_definition-out_of_fuel fuel s
