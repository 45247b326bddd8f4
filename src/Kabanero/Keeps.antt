-- ===== src/Kabanero/Keeps.antt =====
-- A property of the world that does not look at the namespace is kept by `GetKabaneroNamespace`.
use kabanero_events.Prelude.{inl, inr, Bool-cases, Str, str_eq, []}
use kabanero_events.Go.Exec.{World, ◌>>=◌}
use kabanero_events.Go.Keeps.{Keeps, KeptByVariables}
use kabanero_events.Kabanero.{get_kabanero_namespace}

module _ {P : World → Type 0} (variables : KeptByVariables P) where
  open variables use {by_namespace}

  pub get_kabanero_namespace-Keeps : (getenv : Str → Str) → Keeps P (get_kabanero_namespace getenv)
  unfolding get_kabanero_namespace ◌>>=◌
  get_kabanero_namespace-Keeps getenv = record {
    at = λ w h. elim (Bool-cases (str_eq w.namespace [])) [
      | inl e ↦ rw e (by_namespace w _ h)
      | inr e ↦ rw e h
    ];
  }
