-- ===== src/Trigger/Eval/Scope.antt =====
-- Which declarations a statement of a trigger body leaves to the statements after it.
use kabanero_events.Prelude.{
  ℕ, Bool, true, false, ◌≡◌, ◌⊎◌, inl, inr, sym, lit, Bool-cases, if◌then◌else◌, ltb,
}
use kabanero_events.Go.Value.{Seq, Object, has_key, size}
use kabanero_events.Go.Exec.{
  Error, World, Exec, ok, throw, pure, ◌>>=◌, switch_keywords, switch_assignment, body_keywords,
  body_assignment,
}
use kabanero_events.Go.Bind.{bind-eq-ok, pure-eq-ok, throw-ne-ok}
use kabanero_events.Trigger.Keyword.{count_keywords, has_flag, if_flag, switch_flag, body_flag}
use kabanero_events.Trigger.Keyword.Count.{
  if_keyword, switch_keyword, body_keyword, flags-count_keywords,
}
use kabanero_events.Trigger.Engine.{Engine, Calls}
use kabanero_events.Trigger.Eval.{
  eval_object, keep, eval_switch, eval_body, eval_if_with_syntax_check,
}

module _ (E : Engine) (calls : Calls) (again : E.Env → ℕ → Seq → Exec E.Env)
    (run_case : E.Env → ℕ → Object → Exec (E.Env × Bool)) where
  keep_env :
      {B : Type 0} (env env' : E.Env) (m : Exec B) (w : World)
      → (keep env m w).0 ≡ ok env'
      → env' ≡ env
  keep_env env env' m w h =
      let (b, w₁, runs, k) =
        bind-eq-ok m (λ _. pure env) w {w' = (keep env m w).1} (λ i. (h i, (keep env m w).1)) in
      sym (pure-eq-ok env w₁ k).0

  checked :
      {B : Type 0} (env env' : E.Env) (a b : Bool) (e f : Error) (m : Exec B) (w : World)
      → ((if a then throw e else if b then throw f else keep env m) w).0 ≡ ok env'
      → env' ≡ env
  unfolding ◌>>=◌
  checked env env' true b e f m w h = absurd (throw-ne-ok e w {w' = w} (λ i. (h i, w)))
  checked env env' false true e f m w h = absurd (throw-ne-ok f w {w' = w} (λ i. (h i, w)))
  checked env env' false false e f m w h = keep_env env env' m w h

  none_of :
      {fi fs fb ki ks kb : Bool}
      → fi ≡ ki
      → fs ≡ ks
      → fb ≡ kb
      → fi ≡ false
      → fs ≡ false
      → fb ≡ false
      → (ki ≡ true) ⊎ (ks ≡ true) ⊎ (kb ≡ true)
      → ⊥
  none_of p q r i s b (inl h) = cc
  none_of p q r i s b (inr (inl h)) = cc
  none_of p q r i s b (inr (inr h)) = cc

  -- A statement with an `if`, `switch` or `body` key that succeeds leaves the environment as it
  -- was: no identifier that it declares is declared after it, although its assignments stay.
  pub eval_object-env :
      (env env' : E.Env) (variables : ℕ) (object : Object) (w : World)
      → (has_key (lit "if") object ≡ true)
        ⊎ (has_key (lit "switch") object ≡ true)
        ⊎ (has_key (lit "body") object ≡ true)
      → (eval_object E calls again run_case env variables object w).0 ≡ ok env'
      → env' ≡ env
  unfolding eval_object
  eval_object-env env env' variables object w has h =
      elim (Bool-cases (has_flag (count_keywords object).1 if_flag)) [
        | inl i ↦
            keep_env env env'
              (eval_if_with_syntax_check E calls again run_case env variables object) w (rw i at h)
        | inr i ↦ elim (Bool-cases (has_flag (count_keywords object).1 switch_flag)) [
          | inl s ↦
              checked env env' (ltb 1 (count_keywords object).0) (ltb 1 (size object))
                switch_keywords switch_assignment
                (eval_switch E calls again run_case env variables object) w (rw (i, s) at h)
          | inr s ↦ elim (Bool-cases (has_flag (count_keywords object).1 body_flag)) [
            | inl b ↦
                checked env env' (ltb 1 (count_keywords object).0) (ltb 1 (size object))
                  body_keywords body_assignment (eval_body E calls again env variables object) w
                  (rw (i, s, b) at h)
            | inr b ↦ absurd (
                none_of (flags-count_keywords object if_keyword)
                  (flags-count_keywords object switch_keyword)
                  (flags-count_keywords object body_keyword) i s b has)
          ]
        ]
      ]
