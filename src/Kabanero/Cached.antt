-- ===== src/Kabanero/Cached.antt =====
-- The namespace is read from the environment once.
use kabanero_events.Prelude.{
  ◌≡◌, ◌≢◌, refl, false, inl, inr, Bool-cases, [], ◌∷◌, Str, lit, str_eq, str_eq_iff,
}
use kabanero_events.Go.Exec.{World, ok, ◌>>=◌}
use kabanero_events.Kabanero.{default_namespace, of_env, get_kabanero_namespace}

str_eq-false : (s : Str) → str_eq s [] ≡ false → s ≢ []
str_eq-false s h e = cc ((str_eq_iff s []).1 e, h)

of_env_nonempty : (value : Str) → str_eq (of_env value) [] ≡ false
unfolding of_env default_namespace str_eq
of_env_nonempty [] = refl
of_env_nonempty (c ∷ value) = refl

-- `GetKabaneroNamespace` returns a namespace that is not empty, and every later call returns the
-- same, whatever the environment has become.
pub get_kabanero_namespace_again :
    (getenv getenv' : Str → Str) (w : World)
    → (namespace : Str) × (w' : World) × (get_kabanero_namespace getenv w ≡ (ok namespace, w'))
      × (get_kabanero_namespace getenv' w' ≡ (ok namespace, w'))
      × (namespace ≢ [])
unfolding get_kabanero_namespace ◌>>=◌
get_kabanero_namespace_again getenv getenv' w = elim (Bool-cases (str_eq w.namespace [])) [
  | inl e ↦
      let value = of_env (getenv (lit "KUBE_NAMESPACE")) in
      (
        value,
        record w { namespace = value },
        rw e refl,
        rw (of_env_nonempty (getenv (lit "KUBE_NAMESPACE"))) refl,
        str_eq-false value (of_env_nonempty (getenv (lit "KUBE_NAMESPACE"))),
      )
  | inr e ↦ (w.namespace, w, rw e refl, rw e refl, str_eq-false w.namespace e)
]
