-- ===== src/Trigger/Variable/Place.antt =====
-- Where a variable is stored.
use kabanero_events.Prelude.{
  ℕ, zero, suc, ◌<◌, ◌≡◌, sym, ap, ◌∙◌, arith, Bool, true, false, ◌&&◌, some, List, [], ◌∷◌, Str,
  str_eq, length, get_or, ◌==◌, if◌then◌else◌,
}
use kabanero_events.Go.Assoc.{lookup, lookup-insert}
use kabanero_events.Go.Value.{Val}
use kabanero_events.Go.Exec.{
  World, Exec, ok, panic, pure, lift, ◌>>=◌, ◌>>◌, store, update, type_unusable, cast_failed,
}
use kabanero_events.Go.Bind.{bind-eq-ok, pure-eq-ok, throw-ne-ok, lift-eq-ok, store-eq-ok}
use kabanero_events.Trigger.Engine.{Engine, Out, CelType, map_type}
use kabanero_events.Trigger.Variable.{
  is_nil, is_map, assign, assign_map, assign_other, create_one_variable_helper,
}

-- The entries of all maps after a write.
pub lookup-update :
    (heap : List (List (Str × Val))) (i : ℕ) (name : Str) (v : Val) (a : ℕ) (k : Str)
    → i < length heap
    → lookup k (get_or (update heap i name v) a [])
      ≡ (if i == a && str_eq name k then some v else lookup k (get_or heap a []))
unfolding update
lookup-update [] i name v a k h = absurd (omega arith)
lookup-update (m ∷ ms) zero name v zero k h = ground (arith, lookup-insert name k v m)
lookup-update (m ∷ ms) zero name v (suc a) k h = ground arith
lookup-update (m ∷ ms) (suc i) name v zero k h = ground arith
lookup-update (m ∷ ms) (suc i) name v (suc a) k h =
    ground (arith, lookup-update ms i name v a k (omega arith))

module _ (E : Engine) (name : Str) (value : Val) (variables : ℕ) where
  open E use {Env}

  -- An action that, where it returns, has made this one entry.
  record Stores (m : Exec Env) : Type 0 where
    at :
        (w : World) {w' : World} {env' : Env}
        → m w ≡ (ok env', w')
        → w' ≡ record w { heap = update w.heap variables name value }

  Stores-if : (b : Bool) {m n : Exec Env} → Stores m → Stores n → Stores (if b then m else n)
  Stores-if true hm hn = hm
  Stores-if false hm hn = hn

  stored :
      (env : Env) (w : World) {w' : World} {env' : Env}
      → (store variables name value >> pure env) w ≡ (ok env', w')
      → w' ≡ record w { heap = update w.heap variables name value }
  stored env w h =
      let (_, w₁, a, k) = bind-eq-ok (store variables name value) (λ _. pure env) w h in
      sym (pure-eq-ok env w₁ k).1 ∙ store-eq-ok variables name value w a

  stored_after :
      (m : Exec Env)
      → ((w w' : World) (env' : Env) → m w ≡ (ok env', w') → w ≡ w')
      → Stores (m >>= λ env'. store variables name value >> pure env')
  stored_after m same = record {
    at = λ w h.
        let (env₁, w₁, a, k) = bind-eq-ok m (λ env'. store variables name value >> pure env') w h in
        stored env₁ w₁ k
        ∙ ap (λ (v : World). record v { heap = update v.heap variables name value })
            (sym (same w w₁ env₁ a));
  }

  declared :
      (create : Bool) (env : Env) (t : CelType) (w w' : World) (env' : Env)
      → (if create then lift (E.extend env name t) else pure env) w ≡ (ok env', w')
      → w ≡ w'
  declared true env t w w' env' h = (lift-eq-ok (E.extend env name t) w h).0
  declared false env t w w' env' h = (pure-eq-ok env w h).1

  assign-Stores :
      (env : Env) (create castable : Bool) (t : CelType)
      → Stores (assign E env name value variables create castable t)
  unfolding assign ◌>>=◌
  assign-Stores env create true t = record {
    at = λ w h.
        (stored_after (if create then lift (E.extend env name t) else pure env)
            (declared create env t)).at
          w h;
  }
  assign-Stores env create false t = record { at = λ w h. absurd (throw-ne-ok cast_failed w h) }

  assign_map-Stores :
      (env : Env) (create : Bool) → Stores (assign_map E env name value variables create)
  unfolding assign_map
  assign_map-Stores env create =
      Stores-if (is_nil value) (record { at = λ w h. absurd (cc ((lift-eq-ok panic w h).1)) })
        (assign-Stores env create (is_map value) map_type)

  assign_other-Stores :
      (env : Env) (create : Bool) → Stores (assign_other E env name value variables create)
  unfolding assign_other
  assign_other-Stores env true = record { at = λ w h. absurd (throw-ne-ok type_unusable w h) }
  assign_other-Stores env false = record { at = λ w h. stored env w h }

module _ (E : Engine) where
  open E use {Env}

  helper-Stores :
      (env : Env) (name : Str) (out : Out) (variables : ℕ) (create : Bool)
      → Stores E name out.value variables
          (create_one_variable_helper E env name out variables create)
  unfolding create_one_variable_helper
  helper-Stores env name out variables create =
      search (Stores-if, assign-Stores, assign_map-Stores, assign_other-Stores) depth 10

  -- Where it returns, `createOneVariableHelper` has made one entry, the value under the name in the
  -- map of the variables, and every other entry of every map is as it was.
  pub lookup-create_one_variable_helper :
      (env env' : Env) (name : Str) (out : Out) (variables : ℕ) (create : Bool) (w w' : World)
      (a : ℕ) (k : Str)
      → variables < length w.heap
      → create_one_variable_helper E env name out variables create w ≡ (ok env', w')
      → lookup k (get_or w'.heap a []) ≡ (
          if variables == a && str_eq name k then some out.value else lookup k (get_or w.heap a []))
  lookup-create_one_variable_helper env env' name out variables create w w' a k small h =
      ap (λ (v : World). lookup k (get_or v.heap a []))
        ((helper-Stores env name out variables create).at w h)
      ∙ lookup-update w.heap variables name out.value a k small
