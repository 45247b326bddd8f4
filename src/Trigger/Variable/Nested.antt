-- ===== src/Trigger/Variable/Nested.antt =====
-- Names with dots: where `createOneVariable` puts a value.
pub mod Stored
mod Tests
use kabanero_events.Prelude.{
  ◌≡◌, ◌≢◌, refl, sym, ap, ◌∙◌, arith, ℕ, zero, suc, ◌<◌, ◌⊎◌, inl, inr, Bool, true, false, ◌&&◌,
  Option, none, some, List, [], ◌∷◌, ◌++◌, Str, str_eq, str_eq_refl, length, length-append, get_or,
  get_or-append, ◌==◌, split, if◌then◌else◌,
}
use mathlib.Core.Path.{subst}
use kabanero_events.Go.Assoc.{lookup}
use kabanero_events.Go.Value.{Val}
use kabanero_events.Go.Exec.{
  World, Result, ok, Exec, pure, lift, load, store, alloc, update, ◌>>=◌, ◌>>◌, component_not_map,
}
use kabanero_events.Go.Heap.{length-update, get_or-append_lt}
use kabanero_events.Go.Bind.{bind-eq-ok, pure-eq-ok, throw-ne-ok, lift-eq-ok, store-eq-ok}
use kabanero_events.Trigger.Engine.{Engine, Out, map_type}
use kabanero_events.Trigger.Variable.{
  make_map, enter, create_at, create_one_variable, create_one_variable_helper,
}
use kabanero_events.Trigger.Variable.Place.{lookup-update, lookup-create_one_variable_helper}

-- The entry of a map.
abbrev pub entry : World → ℕ → Str → Option Val
entry w a name = lookup name (get_or w.heap a [])

abbrev through : (ℕ → Option Val) → Option Val → Option Val
through next (some (Val.object b)) = next b
through next _ = none

-- The value behind the components of a name.
unfoldable pub follow : World → List Str → ℕ → Option Val
follow w [] a = none
follow w (name ∷ []) a = entry w a name
follow w (name ∷ next ∷ rest) a = through (λ b. follow w (next ∷ rest) b) (entry w a name)

-- The maps that the components lead through do not include `c`.
pub data Off (w : World) (c : ℕ) : List Str → ℕ → Type 0 where
  off_last : {name : Str} {b : ℕ} → c ≢ b → Off w c (name ∷ []) b
  off_new :
      {name next : Str} {rest : List Str} {b : ℕ}
      → c ≢ b
      → entry w b name ≡ none
      → Off w c (name ∷ next ∷ rest) b
  off_old :
      {name next : Str} {rest : List Str} {b d : ℕ}
      → c ≢ b
      → entry w b name ≡ some (Val.object d)
      → d < length w.heap
      → Off w c (next ∷ rest) d
      → Off w c (name ∷ next ∷ rest) b

-- The maps that the components lead through are there, and none comes twice.
pub data Apart (w : World) : List Str → ℕ → Type 0 where
  at_last : {name : Str} {a : ℕ} → Apart w (name ∷ []) a
  at_new :
      {name next : Str} {rest : List Str} {a : ℕ}
      → entry w a name ≡ none
      → Apart w (name ∷ next ∷ rest) a
  at_old :
      {name next : Str} {rest : List Str} {a b : ℕ}
      → entry w a name ≡ some (Val.object b)
      → b < length w.heap
      → Off w a (next ∷ rest) b
      → Apart w (next ∷ rest) b
      → Apart w (name ∷ next ∷ rest) a

with_map : World → ℕ → Str → World
with_map w a name = record w {
  heap = update (w.heap ++ [] ∷ []) a name (Val.object (length w.heap));
}

not_same : (a c : ℕ) → c ≢ a → (a == c) ≡ false
not_same a c n = ground arith

-- The maps after a new one was put in an entry.
length-with_map :
    (w : World) (a : ℕ) (name : Str) → length (with_map w a name).heap ≡ suc (length w.heap)
unfolding with_map
length-with_map w a name = omega (
  arith,
  length-update (w.heap ++ [] ∷ []) a name (Val.object (length w.heap)),
  length-append w.heap ([] ∷ []),
)

entry-with_map :
    (w : World) (a : ℕ) (name : Str) (c : ℕ) (k : Str)
    → a < length w.heap
    → entry (with_map w a name) c k ≡ (
        if a == c && str_eq name k
        then some (Val.object (length w.heap))
        else lookup k (get_or (w.heap ++ [] ∷ []) c []))
unfolding with_map
entry-with_map w a name c k la =
    lookup-update (w.heap ++ [] ∷ []) a name (Val.object (length w.heap)) c k
      (omega (arith, length-append w.heap ([] ∷ [])))

entry-with_map_ne :
    (w : World) (a : ℕ) (name : Str) (c : ℕ) (k : Str)
    → a < length w.heap
    → c < length w.heap
    → c ≢ a
    → entry (with_map w a name) c k ≡ entry w c k
entry-with_map_ne w a name c k la lc n =
    entry-with_map w a name c k la
    ∙ rw (not_same a c n) (ap (lookup k) (get_or-append_lt w.heap ([] ∷ []) c lc))

entry-with_map_self :
    (w : World) (a : ℕ) (name : Str)
    → a < length w.heap
    → entry (with_map w a name) a name ≡ some (Val.object (length w.heap))
entry-with_map_self w a name la = entry-with_map w a name a name la ∙ rw (same a, str_eq_refl) refl
  where
    same : (i : ℕ) → (i == i) ≡ true
    same i = ground arith

entry-with_map_new :
    (w : World) (a : ℕ) (name k : Str)
    → a < length w.heap
    → entry (with_map w a name) (length w.heap) k ≡ none
unfolding lookup
entry-with_map_new w a name k la =
    entry-with_map w a name (length w.heap) k la
    ∙ rw (not_same a (length w.heap) (λ e. omega (arith, e)))
        (ap (lookup k) (get_or-append w.heap ([] ∷ []) []))

-- Off and apart at a new map.
new-Off :
    (w : World) (a : ℕ) (name next : Str) (rest : List Str) (c : ℕ)
    → a < length w.heap
    → c < length w.heap
    → Off (with_map w a name) c (next ∷ rest) (length w.heap)
new-Off w a name next [] c la lc = off_last (λ e. omega (arith, e))
new-Off w a name next (x ∷ rest) c la lc =
    off_new (λ e. omega (arith, e)) (entry-with_map_new w a name next la)

new-Apart :
    (w : World) (a : ℕ) (name next : Str) (rest : List Str)
    → a < length w.heap
    → Apart (with_map w a name) (next ∷ rest) (length w.heap)
new-Apart w a name next [] la = at_last
new-Apart w a name next (x ∷ rest) la = at_new (entry-with_map_new w a name next la)

Off-ne : {w : World} {c : ℕ} {names : List Str} {a : ℕ} → Off w c names a → c ≢ a
Off-ne (off_last n) = n
Off-ne (off_new n e) = n
Off-ne (off_old n e l o) = n

address : {b d : ℕ} {o : Option Val} → o ≡ some (Val.object d) → o ≡ some (Val.object b) → d ≡ b
address {b} {d} e f = ap of_object (sym e ∙ f)
  where
    of_object : Option Val → ℕ
    of_object (some (Val.object i)) = i
    of_object _ = 0

Off-next :
    {w : World} {c : ℕ} {name next : Str} {rest : List Str} {a b : ℕ}
    → Off w c (name ∷ next ∷ rest) a
    → entry w a name ≡ some (Val.object b)
    → (b < length w.heap) × Off w c (next ∷ rest) b
Off-next (off_new n e) f = absurd (cc (sym e ∙ f))
Off-next {w} {c} {next} {rest} (off_old n e l o) f =
    let same = address e f in
    (subst (λ d. d < length w.heap) same l, subst (Off w c (next ∷ rest)) same o)

Apart-next :
    {w : World} {name next : Str} {rest : List Str} {a b : ℕ}
    → Apart w (name ∷ next ∷ rest) a
    → entry w a name ≡ some (Val.object b)
    → (b < length w.heap) × Off w a (next ∷ rest) b × Apart w (next ∷ rest) b
Apart-next (at_new e) f = absurd (cc (sym e ∙ f))
Apart-next {w} {next} {rest} {a} (at_old e l o p) f =
    let same = address e f in
    (
      subst (λ d. d < length w.heap) same l,
      subst (Off w a (next ∷ rest)) same o,
      subst (Apart w (next ∷ rest)) same p,
    )
