-- ===== src/Trigger/Definition/Gains/Functions.antt =====
-- What the functions of a file add to a trigger definition.
use mathlib.Core.Path.{subst}
use kabanero_events.Prelude.{
  ◌≡◌, refl, sym, ap, ◌∙◌, inl, inr, Bool, true, false, Bool-cases, Option, none, some,
  Option-cases, [], Str, lit, str_eq, str_eq_iff, if◌then◌else◌,
}
use kabanero_events.Go.Assoc.{lookup, insert, lookup-insert}
use kabanero_events.Go.Value.{Yaml, Seq, Object, get}
use kabanero_events.Go.Exec.{Error}
use kabanero_events.Trigger.Definition.{
  TriggerDefinition, Read, function_error, declare, add_named, add_function, add_functions,
}
use kabanero_events.Trigger.Definition.Gains.{
  or_else, has_name, function_named, Gains, or_else-none, Gains-nothing, Gains-same, Gains-trans,
  and_then-none,
}

-- A function that is declared has a new name.
declare-eq :
    (name : Str) (function : Object) (td : TriggerDefinition) {td' : TriggerDefinition}
    → declare name function td ≡ (td', none)
    → (lookup name td.functions ≡ none)
      × (record td { functions = insert name function td.functions } ≡ td')
unfolding declare
declare-eq name function td {td'} h = elim (Option-cases (function_error function)) [
  | inr (e, f) ↦ absurd (refused (rw (declare, f) at h))
  | inl f ↦ elim (Option-cases (lookup name td.functions)) [
    | inr (other, g) ↦ absurd (refused (rw (declare, f, g) at h))
    | inl g ↦ (g, kept (rw (declare, f, g) at h))
  ]
]
  where
    refused : {u v : TriggerDefinition} {e : Error} → ◌≡◌ {A = Read} (u, some e) (v, none) → ⊥
    refused e = cc (ap (λ (r : Read). r.1) e)

    kept : {u v : TriggerDefinition} → ◌≡◌ {A = Read} (u, none) (v, none) → u ≡ v
    kept e = ap (λ (r : Read). r.0) e

declare-Gains :
    (name : Str) (function : Object) (td : TriggerDefinition) {td' : TriggerDefinition}
    → declare name function td ≡ (td', none)
    → Gains td td' (λ _. []) (λ j. if str_eq name j then some function else none)
unfolding or_else
declare-Gains name function td h =
    let (new, e) = declare-eq name function td h in
    subst (λ x. Gains td x (λ _. []) (λ j. if str_eq name j then some function else none)) e
      (record {
        in_order = (Gains-nothing td).in_order;
        by_name = λ j. lookup-insert name j function td.functions ∙ go new j;
      })
  where
    go :
        lookup name td.functions ≡ none
        → (j : Str)
        → (if str_eq name j then some function else lookup j td.functions)
          ≡ or_else (lookup j td.functions) (if str_eq name j then some function else none)
    go new j = elim (Bool-cases (str_eq name j)) [
      | inl e ↦ rw (e, sym (ap (λ k. lookup k td.functions) ((str_eq_iff name j).0 e)) ∙ new) refl
      | inr e ↦ rw e (sym (or_else-none (lookup j td.functions)))
    ]

add_function-Gains :
    (function : Object) (td : TriggerDefinition) {td' : TriggerDefinition}
    → add_function (Yaml.mapping function) td ≡ (td', none)
    → Gains td td'
        (λ _. [])
        (λ j. if has_name j (get (lit "name") function) then some function else none)
unfolding add_function add_named has_name
add_function-Gains function td {td'} h = go (get (lit "name") function) h
  where
    go :
        (o : Option Yaml)
        → add_named o function td ≡ (td', none)
        → Gains td td' (λ _. []) (λ j. if has_name j o then some function else none)
    go (some (Yaml.string name)) e = declare-Gains name function td e
    go none e =
        subst (λ x. Gains td x (λ _. []) (λ _. none)) (ap (λ (r : Read). r.0) e) (Gains-nothing td)
    go (some _) e =
        subst (λ x. Gains td x (λ _. []) (λ _. none)) (ap (λ (r : Read). r.0) e) (Gains-nothing td)

pub add_functions-Gains :
    (functions : Seq) (td td' : TriggerDefinition)
    → add_functions functions td ≡ (td', none)
    → Gains td td' (λ _. []) (λ name. function_named name functions)
unfolding add_functions function_named or_else add_function
add_functions-Gains Seq.end td td' h =
    subst (λ x. Gains td x (λ _. []) (λ _. none)) (ap (λ (r : Read). r.0) h) (Gains-nothing td)
add_functions-Gains (Seq.item (Yaml.mapping function) rest) td td' h =
    let r = add_function (Yaml.mapping function) td in
    let (e, k) = and_then-none r (add_functions rest) h in
    Gains-same (Gains-trans (add_function-Gains function td e) (add_functions-Gains rest r.0 td' k))
      (λ source. refl)
      (λ name. go (has_name name (get (lit "name") function)) (function_named name rest))
  where
    go :
        (b : Bool) (o : Option Object)
        → or_else (if b then some function else none) o ≡ (if b then some function else o)
    go true o = refl
    go false o = refl
add_functions-Gains (Seq.item _ rest) td td' h = add_functions-Gains rest td td' h
