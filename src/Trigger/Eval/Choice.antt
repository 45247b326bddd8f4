-- ===== src/Trigger/Eval/Choice.antt =====
-- Which case of a switch is run.
use kabanero_events.Prelude.{
  ℕ, ◌≤◌, ltb, arith, refl, Bool, true, false, ◌≡◌, ◌∙◌, sym, ap, inl, inr, ◌↔◌, Bool-cases, Option,
  none, some, lit, if◌then◌else◌,
}
use mathlib.Core.Path.{subst}
use mathlib.Core.Sum.{inr-injective}
use kabanero_events.Go.Value.{Yaml, Seq, Object, has_key, get, size}
use kabanero_events.Go.Exec.{World, Exec, ok, pure, of_sum, ◌>>=◌}
use kabanero_events.Go.Bind.{bind-eq-ok, pure-eq-ok, throw-ne-ok, of_sum-eq-ok}
use kabanero_events.Trigger.Engine.{Engine, Calls}
use kabanero_events.Trigger.Eval.{default_body, default_object, default_case, eval_cases}

ltb_of_le : (n : ℕ) → n ≤ 1 → ltb 1 n ≡ false
ltb_of_le n h = ground arith

le_of_ltb : (n : ℕ) → ltb 1 n ≡ false → n ≤ 1
le_of_ltb n h = ground arith

-- The code's test of an element that is no if, by the rule.
default_case-eq :
    (element : Object) {array : Seq}
    → get (lit "default") element ≡ some (Yaml.seq array)
    → size element ≤ 1
    → default_case none element ≡ inr array
unfolding default_case default_object default_body
default_case-eq element g le = rw (g, ltb_of_le (size element) le) refl

default_body-inv :
    (d : Option Seq) (object : Yaml) {array : Seq}
    → default_body d object ≡ inr array
    → (d ≡ none) × (object ≡ Yaml.seq array)
unfolding default_body
default_body-inv (some _) object h = absurd (cc h)
default_body-inv none (Yaml.seq array) h = (refl, ap Yaml.seq (inr-injective _ _ h))
default_body-inv none _ h = absurd (cc h)

default_object-inv :
    (d : Option Seq) (len : ℕ) (o : Option Yaml) {array : Seq}
    → default_object d len o ≡ inr array
    → (d ≡ none) × (o ≡ some (Yaml.seq array)) × (len ≤ 1)
unfolding default_object
default_object-inv d len none h = absurd (cc h)
default_object-inv d len (some object) h = elim (Bool-cases (ltb 1 len)) [
  | inl e ↦ absurd (refused (rw e at h))
  | inr e ↦ let (p, q) = default_body-inv d object (rw e at h) in (p, ap some q, le_of_ltb len e)
]
  where
    refused : {A B : Type 0} {a : A} {b : B} → inl a ≡ inr b → ⊥
    refused h = cc h

module _ (E : Engine) (calls : Calls) (again : E.Env → ℕ → Seq → Exec E.Env)
    (run_case : E.Env → ℕ → Object → Exec (E.Env × Bool)) (env : E.Env) (variables : ℕ) where
  -- `Chosen d cases w e w'`: the switch that has met the default `d` and has `cases` left, in the
  -- world `w`, ends with the environment `e` in the world `w'`. The first if whose condition holds
  -- is run, and what stands behind it is not looked at. A default is the only key of its element and
  -- holds a list, which is kept for the end; there is no second one.
  pub data Chosen : Option Seq → Seq → World → E.Env → World → Type 0 where
    nothing : {w : World} {e : E.Env} {w' : World} → e ≡ env → w' ≡ w → Chosen none Seq.end w e w'
    by_default :
        {body : Seq} {w w' : World} {e : E.Env}
        → again env variables body w ≡ (ok e, w')
        → Chosen (some body) Seq.end w e w'
    if_true :
        {d : Option Seq} {element : Object} {rest : Seq} {w w' : World} {e : E.Env}
        → has_key (lit "if") element ≡ true
        → run_case env variables element w ≡ (ok (e, true), w')
        → Chosen d (Seq.item (Yaml.mapping element) rest) w e w'
    if_false :
        {d : Option Seq} {element : Object} {rest : Seq} {w w₁ w' : World} {e e₁ : E.Env}
        → has_key (lit "if") element ≡ true
        → run_case env variables element w ≡ (ok (e₁, false), w₁)
        → Chosen d rest w₁ e w'
        → Chosen d (Seq.item (Yaml.mapping element) rest) w e w'
    default :
        {element : Object} {rest array : Seq} {w w' : World} {e : E.Env}
        → has_key (lit "if") element ≡ false
        → get (lit "default") element ≡ some (Yaml.seq array)
        → size element ≤ 1
        → Chosen (some array) rest w e w'
        → Chosen none (Seq.item (Yaml.mapping element) rest) w e w'

  eval_cases_sound :
      {d : Option Seq} {cases : Seq} {w w' : World} {e : E.Env}
      → Chosen d cases w e w'
      → eval_cases E calls again run_case env variables d cases w ≡ (ok e, w')
  unfolding eval_cases ◌>>=◌
  eval_cases_sound (nothing p q) = cc
  eval_cases_sound (by_default runs) = runs
  eval_cases_sound (if_true has runs) = rw (has, runs)
  eval_cases_sound (if_false has runs p) = rw (has, runs) (eval_cases_sound p)
  eval_cases_sound (default {element} has g le p) =
      rw (has, default_case-eq element g le) (eval_cases_sound p)

  after_case :
      {d : Option Seq} {element : Object} {rest : Seq} {w w₁ w' : World} {e : E.Env}
      → has_key (lit "if") element ≡ true
      → (e₁ : E.Env) (b : Bool) → run_case env variables element w ≡ (ok (e₁, b), w₁)
      → (if b then pure e₁ else eval_cases E calls again run_case env variables d rest) w₁
        ≡ (ok e, w')
      → (eval_cases E calls again run_case env variables d rest w₁ ≡ (ok e, w')
          → Chosen d rest w₁ e w')
      → Chosen d (Seq.item (Yaml.mapping element) rest) w e w'
  after_case has e₁ true runs k ih =
      let (p, q) = pure-eq-ok e₁ _ k in if_true has (runs ∙ λ i. (ok (p i, true), q i))
  after_case has e₁ false runs k ih = if_false has runs (ih k)

  eval_cases_complete :
      (d : Option Seq) (cases : Seq) (w : World) {w' : World} {e : E.Env}
      → eval_cases E calls again run_case env variables d cases w ≡ (ok e, w')
      → Chosen d cases w e w'
  unfolding eval_cases default_case
  eval_cases_complete none Seq.end w h = let (p, q) = pure-eq-ok env w h in nothing (sym p) (sym q)
  eval_cases_complete (some body) Seq.end w h = by_default h
  eval_cases_complete d (Seq.item (Yaml.mapping element) rest) w {w'} {e} h =
      elim (Bool-cases (has_key (lit "if") element)) [
        | inl has ↦
            let (r, w₁, runs, k) = bind-eq-ok (run_case env variables element) _ w (rw has at h) in
            after_case {d = d} has r.0 r.1 runs k (eval_cases_complete d rest w₁)
        | inr has ↦
            let (array, w₁, holds, k) =
              bind-eq-ok (of_sum (default_case d element)) _ w (rw has at h) in
            let (p, q) = of_sum-eq-ok (default_case d element) w holds in
            let (first, g, le) =
              default_object-inv d (size element) (get (lit "default") element) p in
            subst (λ d. Chosen d (Seq.item (Yaml.mapping element) rest) w e w') (sym first)
              (default has g le (
                eval_cases_complete (some array) rest w
                  (ap (eval_cases E calls again run_case env variables (some array) rest) q ∙ k)))
      ]
  eval_cases_complete d (Seq.item _ rest) w h = absurd (throw-ne-ok _ w h)

  -- A switch ends with an environment in a world exactly where the rules of `Chosen` say so: it
  -- runs the first if whose condition holds, or where none does the default, which holds a list, is
  -- the only key of its element, and comes once.
  pub eval_cases_iff :
      (cases : Seq) (w w' : World) (e : E.Env)
      → (eval_cases E calls again run_case env variables none cases w ≡ (ok e, w'))
        ↔ Chosen none cases w e w'
  eval_cases_iff cases w w' e = (λ h. eval_cases_complete none cases w h, λ c. eval_cases_sound c)
