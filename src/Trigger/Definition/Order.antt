-- ===== src/Trigger/Definition/Order.antt =====
-- The triggers of an event source, in the order in which the files list them.
use kabanero_events.Prelude.{
  ◌≡◌, refl, sym, ap, ◌∙◌, Bool, true, false, Bool-cases, inl, inr, Option, none, some, List, [],
  ◌∷◌, ◌++◌, Str, lit, str_eq, str_eq_iff, if◌then◌else◌,
}
use mathlib.Core.List.{append_assoc, append-nil}
use kabanero_events.Go.Assoc.{lookup, insert, lookup-insert}
use kabanero_events.Go.Value.{Yaml, Seq, Object, get}
use kabanero_events.Go.Exec.{trigger_not_object}
use kabanero_events.Trigger.Definition.{
  TriggerDefinition, triggers_of, add_to, add_trigger, add_triggers,
}

-- Does the trigger name this event source?
unfoldable pub names : Str → Object → Bool
names source trigger = elim (get (lit "eventSource") trigger) [
  | some value ↦ elim value [ Yaml.string s ↦ str_eq s source | _ ↦ false ]
  | none ↦ false
]

-- The triggers of a list that name this event source, in their order, up to the first item that is
-- no mapping.
unfoldable pub named : Str → Seq → List Object
named source Seq.end = []
named source (Seq.item (Yaml.mapping trigger) values) =
    let others = named source values in if names source trigger then trigger ∷ others else others
named source (Seq.item _ values) = []

-- Is every item of the list a mapping?
unfoldable pub all_mappings : Seq → Bool
all_mappings Seq.end = true
all_mappings (Seq.item (Yaml.mapping _) values) = all_mappings values
all_mappings (Seq.item _ values) = false

triggers_of-insert :
    (source j : Str) (l : List Object) (m : List (Str × List Object))
    → triggers_of source (insert j l m) ≡ (if str_eq j source then l else triggers_of source m)
unfolding triggers_of
triggers_of-insert source j l m =
    rw (triggers_of, lookup-insert j source l m) (go (str_eq j source))
  where
    go :
        (b : Bool)
        → elim (if b then some l else lookup source m) [ some existing ↦ existing | none ↦ [] ]
          ≡ (if b then l else triggers_of source m)
    go true = refl
    go false = refl

triggers_of-add_to :
    (source : Str) (o : Option Yaml) (trigger : Object) (td : TriggerDefinition)
    → get (lit "eventSource") trigger ≡ o
    → triggers_of source (add_to o trigger td).event_triggers
      ≡ triggers_of source td.event_triggers ++ (if names source trigger then trigger ∷ [] else [])
unfolding add_to names
triggers_of-add_to source (some (Yaml.string s)) trigger td e =
    rw
      (
        triggers_of-insert source s (triggers_of s td.event_triggers ++ trigger ∷ [])
            td.event_triggers,
        names,
        e,
      )
      (elim (Bool-cases (str_eq s source)) [
        | inl f ↦ rw (f, (str_eq_iff s source).0 f) refl
        | inr f ↦ rw f (sym (append-nil (triggers_of source td.event_triggers)))
      ])
triggers_of-add_to source none trigger td e =
    rw (names, e) (sym (append-nil (triggers_of source td.event_triggers)))
triggers_of-add_to source (some _) trigger td e =
    rw (names, e) (sym (append-nil (triggers_of source td.event_triggers)))

triggers_of-add_triggers_eq :
    (triggers : Seq) (td : TriggerDefinition) (source : Str)
    → triggers_of source (add_triggers triggers td).0.event_triggers
      ≡ triggers_of source td.event_triggers ++ named source triggers
unfolding add_triggers add_trigger named
triggers_of-add_triggers_eq Seq.end td source =
    sym (append-nil (triggers_of source td.event_triggers))
triggers_of-add_triggers_eq (Seq.item (Yaml.mapping trigger) values) td source =
    triggers_of-add_triggers_eq values (add_to (get (lit "eventSource") trigger) trigger td) source
    ∙ ap (λ l. l ++ named source values)
        (triggers_of-add_to source (get (lit "eventSource") trigger) trigger td refl)
    ∙ append_assoc (triggers_of source td.event_triggers)
        (if names source trigger then trigger ∷ [] else []) (named source values)
    ∙ ap (λ l. triggers_of source td.event_triggers ++ l) (one (names source trigger))
  where
    one :
        (b : Bool)
        → (if b then trigger ∷ [] else []) ++ named source values
          ≡ (if b then trigger ∷ named source values else named source values)
    one true = refl
    one false = refl
triggers_of-add_triggers_eq (Seq.item _ values) td source =
    sym (append-nil (triggers_of source td.event_triggers))

add_to-functions :
    (o : Option Yaml) (trigger : Object) (td : TriggerDefinition)
    → (add_to o trigger td).functions ≡ td.functions
unfolding add_to
add_to-functions (some (Yaml.string source)) trigger td = refl
add_to-functions _ trigger td = refl

pub add_triggers-functions :
    (triggers : Seq) (td : TriggerDefinition)
    → (add_triggers triggers td).0.functions ≡ td.functions
unfolding add_triggers add_trigger
add_triggers-functions Seq.end td = refl
add_triggers-functions (Seq.item (Yaml.mapping trigger) values) td =
    add_triggers-functions values (add_to (get (lit "eventSource") trigger) trigger td)
    ∙ add_to-functions (get (lit "eventSource") trigger) trigger td
add_triggers-functions (Seq.item _ values) td = refl

-- The error is that of the first item that is no mapping.
error-add_triggers :
    (triggers : Seq) (td : TriggerDefinition)
    → (add_triggers triggers td).1
      ≡ (if all_mappings triggers then none else some trigger_not_object)
unfolding add_triggers add_trigger all_mappings
error-add_triggers Seq.end td = refl
error-add_triggers (Seq.item (Yaml.mapping trigger) values) td =
    error-add_triggers values (add_to (get (lit "eventSource") trigger) trigger td)
error-add_triggers (Seq.item _ values) td = refl

-- Reading the triggers of a file ends with no error exactly where each item is a mapping. With an
-- error or without, an event source then has the triggers that it had, followed by those of the
-- file that name it, in their order, up to the first item that is no mapping.
pub triggers_of-add_triggers :
    (triggers : Seq) (td : TriggerDefinition) (source : Str)
    → (triggers_of source (add_triggers triggers td).0.event_triggers
        ≡ triggers_of source td.event_triggers ++ named source triggers)
      × ((add_triggers triggers td).1
          ≡ (if all_mappings triggers then none else some trigger_not_object))
triggers_of-add_triggers triggers td source =
    (triggers_of-add_triggers_eq triggers td source, error-add_triggers triggers td)
