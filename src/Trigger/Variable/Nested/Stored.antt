-- ===== src/Trigger/Variable/Nested/Stored.antt =====
-- The value that `createOneVariable` stored, read back behind its name.
use mathlib.Core.Path.{subst}
use kabanero_events.Prelude.{
  ◌≡◌, refl, sym, ap, ◌∙◌, arith, ℕ, ◌<◌, ◌⊎◌, inl, inr, Bool, true, false, Option, none, some,
  List, [], ◌∷◌, Str, str_eq_refl, length, if◌then◌else◌, ◌==◌, split,
}
use kabanero_events.Go.Value.{Val}
use kabanero_events.Go.Exec.{
  World, Exec, ok, pure, lift, load, store, alloc, ◌>>=◌, ◌>>◌, component_not_map,
}
use kabanero_events.Go.Bind.{bind-eq-ok, pure-eq-ok, throw-ne-ok, lift-eq-ok}
use kabanero_events.Trigger.Engine.{Engine, Out, map_type}
use kabanero_events.Trigger.Variable.{make_map, enter, create_at, create_one_variable}
use kabanero_events.Trigger.Variable.Place.{lookup-create_one_variable_helper}
use kabanero_events.Trigger.Variable.Nested.{
  entry, follow, Off, Apart, with_map, not_same, length-with_map, entry-with_map_ne,
  entry-with_map_self, new-Off, new-Apart, Off-ne, Off-next, Apart-next,
}

module _ (E : Engine) where
  open E use {Env, extend}

  declared :
      (top : Bool) (env : Env) (name : Str) (w w' : World) (env' : Env)
      → (if top then lift (extend env name map_type) else pure env) w ≡ (ok env', w')
      → w ≡ w'
  declared true env name w w' env' h = (lift-eq-ok (extend env name map_type) w h).0
  declared false env name w w' env' h = (pure-eq-ok env w h).1

  abbrev new_map_at : Env → Str → ℕ → Exec (Env × ℕ)
  new_map_at env₁ name a = do
    new_map ← alloc
    store a name (Val.object new_map)
    pure (env₁, new_map)

  made_map :
      (env₁ : Env) (name : Str) (a : ℕ) (w : World) {env' : Env} {b : ℕ} {w' : World}
      → new_map_at env₁ name a w ≡ (ok (env', b), w')
      → (b ≡ length w.heap) × (w' ≡ with_map w a name)
  unfolding alloc store with_map ◌>>=◌
  made_map env₁ name a w h =
      let (x, y) = pure-eq-ok (env₁, length w.heap) (with_map w a name) h in
      (sym (ap (λ (p : Env × ℕ). p.1) x), sym y)

  -- The map for the next component: the one that is there, or a new one.
  enter-cases :
      (env : Env) (top : Bool) (name : Str) (a : ℕ) (e : Option Val) (w : World) {env' : Env}
      {b : ℕ} {w' : World}
      → enter E env top name a e w ≡ (ok (env', b), w')
      → ((e ≡ some (Val.object b)) × (w' ≡ w))
        ⊎ ((e ≡ none) × (b ≡ length w.heap) × (w' ≡ with_map w a name))
  unfolding enter make_map with_map
  enter-cases env top name a none w h =
      let (env₁, w₁, p, k) =
        bind-eq-ok (if top then lift (extend env name map_type) else pure env) _ w h in
      let (x, y) = made_map env₁ name a w₁ k in
      let same : w₁ ≡ w = sym (declared top env name w w₁ env₁ p) in
      inr (refl, x ∙ ap (λ (v : World). length v.heap) same, y ∙ ap (λ v. with_map v a name) same)
  enter-cases env top name a (some (Val.object d)) w h =
      let (x, y) = pure-eq-ok (env, d) w h in
      inl (ap (λ (p : Env × ℕ). some (Val.object p.1)) x, sym y)
  enter-cases env top name a (some _) w h = absurd (throw-ne-ok component_not_map w h)

  -- One round of the loop of `createOneVariable`.
  round :
      (env : Env) (top : Bool) (name next : Str) (rest : List Str) (out : Out) (a : ℕ) (w : World)
      {env' : Env} {w' : World}
      → create_at E env top (name ∷ next ∷ rest) out a w ≡ (ok env', w')
      → (env₁ : Env) × (b : ℕ) × (w₁ : World) × (create_at E env₁ false (next ∷ rest) out b w₁
          ≡ (ok env', w'))
        × (((entry w a name ≡ some (Val.object b)) × (w₁ ≡ w))
            ⊎ ((entry w a name ≡ none) × (b ≡ length w.heap) × (w₁ ≡ with_map w a name)))
  unfolding create_at load ◌>>=◌
  round env top name next rest out a w h =
      let ((env₁, b), w₁, p, k) = bind-eq-ok (enter E env top name a (entry w a name)) _ w h in
      (env₁, b, w₁, k, enter-cases env top name a (entry w a name) w p)

  -- The run from the map and the world that stand on the other side of the equations.
  moved :
      (env : Env) (next : Str) (rest : List Str) (out : Out) {b b' : ℕ} {w w' : World} {env' : Env}
      {w'' : World}
      → b ≡ b'
      → w ≡ w'
      → create_at E env false (next ∷ rest) out b w ≡ (ok env', w'')
      → create_at E env false (next ∷ rest) out b' w' ≡ (ok env', w'')
  moved env next rest out {b'} {w} {env'} {w''} p q h =
      subst (λ v. create_at E env false (next ∷ rest) out b' v ≡ (ok env', w'')) q
        (subst (λ i. create_at E env false (next ∷ rest) out i w ≡ (ok env', w'')) p h)

  -- A map that the components do not lead through is left as it was.
  create_at-Off :
      (names : List Str) (env : Env) (top : Bool) (out : Out) (a c : ℕ) (w : World) {env' : Env}
      {w' : World}
      → create_at E env top names out a w ≡ (ok env', w')
      → Off w c names a
      → a < length w.heap
      → c < length w.heap
      → (k : Str) → entry w' c k ≡ entry w c k
  unfolding create_at
  create_at-Off [] env top out a c w h off la lc k =
      ap (λ v. entry v c k) (sym (pure-eq-ok env w h).1)
  create_at-Off (name ∷ []) env top out a c w {env'} {w'} h off la lc k =
      lookup-create_one_variable_helper E env env' name out a top w w' c k la h
      ∙ rw (not_same a c (Off-ne off)) refl
  create_at-Off (name ∷ next ∷ rest) env top out a c w {env'} {w'} h off la lc k =
      let (env₁, b, w₁, g, cases) = round env top name next rest out a w h in
      elim cases [
        | inl (e, same) ↦
            let (lb, off') = Off-next off e in
            create_at-Off (next ∷ rest) env₁ false out b c w
              (subst (λ v. create_at E env₁ false (next ∷ rest) out b v ≡ (ok env', w')) same g)
              off' lb lc k
        | inr (e, fresh, made) ↦
            create_at-Off (next ∷ rest) env₁ false out (length w.heap) c (with_map w a name)
              (moved env₁ next rest out fresh made g) (new-Off w a name next rest c la lc)
              (omega (arith, length-with_map w a name)) (omega (arith, length-with_map w a name)) k
            ∙ entry-with_map_ne w a name c k la lc (Off-ne off)
      ]

  -- Behind the components there is the value.
  create_at-follow :
      (names : List Str) (env : Env) (top : Bool) (out : Out) (a : ℕ) (w : World) {env' : Env}
      {w' : World}
      → create_at E env top names out a w ≡ (ok env', w')
      → Apart w names a
      → a < length w.heap
      → follow w' names a ≡ some out.value
  unfolding create_at follow
  create_at-follow [] env top out a w h apart la = elim apart [ ]
  create_at-follow (name ∷ []) env top out a w {env'} {w'} h apart la =
      lookup-create_one_variable_helper E env env' name out a top w w' a name la h
      ∙ rw (same a, str_eq_refl) refl
    where
      same : (i : ℕ) → (i == i) ≡ true
      same i = ground arith
  create_at-follow (name ∷ next ∷ rest) env top out a w {env'} {w'} h apart la =
      let (env₁, b, w₁, g, cases) = round env top name next rest out a w h in
      elim cases [
        | inl (e, same) ↦
            let (lb, off, apart') = Apart-next apart e in
            let k = moved env₁ next rest out refl same g in
            rw (create_at-Off (next ∷ rest) env₁ false out b a w k off lb la name ∙ e)
              (create_at-follow (next ∷ rest) env₁ false out b w k apart' lb)
        | inr (e, fresh, made) ↦
            let k = moved env₁ next rest out fresh made g in
            let long : length w.heap < length (with_map w a name).heap =
              omega (arith, length-with_map w a name) in
            rw
              (create_at-Off (next ∷ rest) env₁ false out (length w.heap) a (with_map w a name) k
                  (new-Off w a name next rest a la la) long
                  (omega (arith, length-with_map w a name)) name
                ∙ entry-with_map_self w a name la)
              (create_at-follow (next ∷ rest) env₁ false out (length w.heap) (with_map w a name) k
                (new-Apart w a name next rest la) long)
      ]

  -- Where `createOneVariable` returns, the components of the name lead from the variables to the
  -- value. Provided that the maps which these components lead through before are there, and none
  -- of them comes twice.
  pub follow-create_one_variable :
      (env : Env) (name : Str) (out : Out) (variables : ℕ) (w : World) (env' : Env) (w' : World)
      → Apart w (split b'.' name) variables
      → variables < length w.heap
      → create_one_variable E env name out variables w ≡ (ok env', w')
      → follow w' (split b'.' name) variables ≡ some out.value
  unfolding create_one_variable
  follow-create_one_variable env name out variables w env' w' apart lt h =
      create_at-follow (split b'.' name) env true out variables w h apart lt
