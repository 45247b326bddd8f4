-- ===== src/Trigger/Filter/Rules.antt =====
-- What `filter` keeps of an array.
use kabanero_events.Trigger.Variable.{eval_condition}
use kabanero_events.Go.Assoc.{insert}
use kabanero_events.Prelude.{
  ap, ◌∙◌, sym, List, [], ◌∷◌, ◌++◌, lit, length, ◌≡◌, refl, ◌↔◌, Bool, true, false, Str,
}
use mathlib.Core.Path.{subst}
use kabanero_events.Go.Value.{Val, Array}
use kabanero_events.Go.Exec.{World, ok, ◌>>=◌, lift, alloc, store, update}
use kabanero_events.Go.Bind.{bind-eq-ok, bind-of_ok, pure-eq-ok, lift-eq-ok, lift-of_ok}
use kabanero_events.Trigger.Engine.{Engine, Calls, any_type}
use kabanero_events.Trigger.Filter.{keep_item, keeps_item, filter_array}

update-append :
    (ms : List (List (Str × Val))) (k : Str) (v : Val)
    → update (ms ++ [] ∷ []) (length ms) k v ≡ ms ++ ((k, v) ∷ []) ∷ []
unfolding update insert
update-append [] k v = refl
update-append (m ∷ ms) k v = ap (λ l. m ∷ l) (update-append ms k v)

module _ (E : Engine) (calls : Calls) (expression : Str) where
  -- The condition is evaluated over a new map that holds the item as the variable `value`, in a new
  -- environment that declares this variable.
  pub record Holds (v : Val) (w : World) (keep : Bool) (w₁ : World) : Type 0 where
    pub empty : E.Env
    pub env : E.Env
    pub new : E.new_env ≡ ok empty
    pub declared : E.extend empty (lit "value") any_type ≡ ok env
    pub evaluated :
        eval_condition E env calls expression
          (length w.heap)
          (record w { heap = w.heap ++ ((lit "value", v) ∷ []) ∷ [] })
        ≡ (ok keep, w₁)

  -- The new map with the item.
  allocated : (v : Val) (w : World) → World
  allocated v w = record w { heap = update (w.heap ++ [] ∷ []) (length w.heap) (lit "value") v }

  allocated-eq :
      (v : Val) (w : World)
      → allocated v w ≡ record w { heap = w.heap ++ ((lit "value", v) ∷ []) ∷ [] }
  unfolding allocated
  allocated-eq v w = ap (λ h. record w { heap = h }) (update-append w.heap (lit "value") v)

  keeps_item-Holds :
      (v : Val) (w : World) {keep : Bool} {w₁ : World}
      → keeps_item E calls expression v w ≡ (ok keep, w₁)
      → Holds v w keep w₁
  unfolding keeps_item alloc store allocated ◌>>=◌
  keeps_item-Holds v w {keep} {w₁} h =
      let (empty, u₁, a, h₁) = bind-eq-ok (lift E.new_env) _ w h in
      let (env, u₂, b, h₂) =
        bind-eq-ok (lift (E.extend empty (lit "value") any_type))
          (λ env'. eval_condition E env' calls expression (length u₁.heap)) (allocated v u₁) h₁ in
      let (left, new) = lift-eq-ok E.new_env w a in
      let (left', declared) =
        lift-eq-ok (E.extend empty (lit "value") any_type) (allocated v u₁) b in
      subst (λ u. Holds v u keep w₁) (sym left)
        (record {
          empty = empty;
          env = env;
          new = new;
          declared = declared;
          evaluated =
              ap (eval_condition E env calls expression (length u₁.heap))
                (sym (allocated-eq v u₁) ∙ left')
              ∙ h₂;
        })

  Holds-keeps_item :
      (v : Val) (w : World) {keep : Bool} {w₁ : World}
      → Holds v w keep w₁
      → keeps_item E calls expression v w ≡ (ok keep, w₁)
  unfolding keeps_item alloc store allocated ◌>>=◌
  Holds-keeps_item v w h =
      bind-of_ok (lift E.new_env) _ w (lift-of_ok h.new w)
      ∙ bind-of_ok (lift (E.extend h.empty (lit "value") any_type))
          (λ env'. eval_condition E env' calls expression (length w.heap)) (allocated v w)
          (lift-of_ok h.declared (allocated v w))
      ∙ ap (eval_condition E h.env calls expression (length w.heap)) (allocated-eq v w)
      ∙ h.evaluated

  -- `Filtered a w b w'`: of the items of `a`, from the world `w`, those whose condition holds are
  -- the items of `b`, in the same order; the condition of each is evaluated once, in turn.
  pub data Filtered : Array → World → Array → World → Type 0 where
    end : (w : World) → Filtered Array.end w Array.end w
    kept :
        (v : Val) {a b : Array} {w w₁ w' : World}
        → Holds v w true w₁
        → Filtered a w₁ b w'
        → Filtered (Array.item v a) w (Array.item v b) w'
    left_out :
        (v : Val) {a b : Array} {w w₁ w' : World}
        → Holds v w false w₁
        → Filtered a w₁ b w'
        → Filtered (Array.item v a) w b w'

  item-Filtered :
      (v : Val) {a b : Array} {w w₁ w' : World} (keep : Bool)
      → Holds v w keep w₁
      → Filtered a w₁ b w'
      → Filtered (Array.item v a) w (keep_item keep v b) w'
  unfolding keep_item
  item-Filtered v true h f = kept v h f
  item-Filtered v false h f = left_out v h f

  filter_array-Filtered :
      (a : Array) (w : World) {b : Array} {w' : World}
      → filter_array E calls expression a w ≡ (ok b, w')
      → Filtered a w b w'
  unfolding filter_array
  filter_array-Filtered Array.end w h =
      let (p, q) = pure-eq-ok Array.end w h in
      subst (λ (s : Array × World). Filtered Array.end w s.0 s.1) (λ i. (p i, q i)) (end w)
  filter_array-Filtered (Array.item v a) w h =
      let (keep, w₁, first, k) = bind-eq-ok (keeps_item E calls expression v) _ w h in
      let (b, w₂, others, l) = bind-eq-ok (filter_array E calls expression a) _ w₁ k in
      let (p, q) = pure-eq-ok (keep_item keep v b) w₂ l in
      subst (λ (s : Array × World). Filtered (Array.item v a) w s.0 s.1) (λ i. (p i, q i))
        (item-Filtered v keep (keeps_item-Holds v w first) (filter_array-Filtered a w₁ others))

  Filtered-sound :
      {a b : Array} {w w' : World}
      → Filtered a w b w'
      → filter_array E calls expression a w ≡ (ok b, w')
  unfolding filter_array keep_item ◌>>=◌
  Filtered-sound (end w) = refl
  Filtered-sound (kept v h f) = rw (Holds-keeps_item v _ h, Filtered-sound f) refl
  Filtered-sound (left_out v h f) = rw (Holds-keeps_item v _ h, Filtered-sound f) refl

  -- `filter` on an array returns an array in a world exactly where that is the one that the rules
  -- of `Filtered` give: the items whose condition holds, in their order, each condition evaluated
  -- once and in turn, over a new map that holds the item as `value`, in a new environment that
  -- declares `value`.
  pub filter_array_iff :
      (a b : Array) (w w' : World)
      → (filter_array E calls expression a w ≡ (ok b, w')) ↔ Filtered a w b w'
  filter_array_iff a b w w' = (λ h. filter_array-Filtered a w h, λ f. Filtered-sound f)
