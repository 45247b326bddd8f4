-- ===== src/Trigger/Definition/Gains.antt =====
-- What the reading of a file adds to a trigger definition.
pub mod Functions
use mathlib.Core.Path.{subst}
use mathlib.Core.List.{append_assoc, append-nil}
use kabanero_events.Prelude.{
  ◌≡◌, refl, sym, ap, ◌∙◌, ◌⊎◌, inl, inr, Bool, true, false, Bool-cases, Option, none, some,
  Option-cases, List, [], ◌∷◌, ◌++◌, Str, lit, str_eq, str_eq_iff, if◌then◌else◌,
}
use kabanero_events.Go.Assoc.{lookup, insert, lookup-insert}
use kabanero_events.Go.Value.{Yaml, Seq, Object, get}
use kabanero_events.Go.Exec.{Error, no_files}
use kabanero_events.Trigger.Definition.{
  TriggerDefinition, Read, and_then, read_settings, triggers_of, add_triggers, read_triggers,
  function_error, declare, add_named, add_function, add_functions, read_functions,
  read_trigger_definition, Files, find_files, read_file, read_files, initialize, empty_definition,
}
use kabanero_events.Trigger.Definition.Order.{
  named, add_triggers-functions, triggers_of-add_triggers,
}
use kabanero_events.Trigger.Definition.Loaded.{IsLoaded, initialize-IsLoaded}

-- The first of two, or else the second.
unfoldable pub or_else : {A : Type 0} → Option A → Option A → Option A
or_else (some a) _ = some a
or_else none o = o

-- The list under a key of a file.
unfoldable pub seq_under : Str → List (Str × Yaml) → Seq
seq_under key yaml_map = elim (lookup key yaml_map) [
  | some value ↦ elim value [ Yaml.seq s ↦ s | _ ↦ Seq.end ]
  | none ↦ Seq.end
]

-- Has the function this name?
pub has_name : Str → Option Yaml → Bool
has_name name (some (Yaml.string s)) = str_eq s name
has_name name _ = false

-- The first function of a list with this name.
unfoldable pub function_named : Str → Seq → Option Object
function_named name Seq.end = none
function_named name (Seq.item (Yaml.mapping function) rest) =
    if has_name name (get (lit "name") function) then some function else function_named name rest
function_named name (Seq.item _ rest) = function_named name rest

-- A definition has what another one had, and after it these triggers of each event source, and
-- the function of each name that it did not have.
pub record Gains (td td' : TriggerDefinition) (triggers : Str → List Object)
    (functions : Str → Option Object) : Type 0 where
  pub in_order :
      (source : Str)
      → triggers_of source td'.event_triggers
        ≡ triggers_of source td.event_triggers ++ triggers source
  pub by_name :
      (name : Str) → lookup name td'.functions ≡ or_else (lookup name td.functions) (functions name)

pub or_else-none : {A : Type 0} (o : Option A) → or_else o none ≡ o
unfolding or_else
or_else-none (some a) = refl
or_else-none none = refl

or_else_assoc : {A : Type 0} (o p q : Option A) → or_else (or_else o p) q ≡ or_else o (or_else p q)
unfolding or_else
or_else_assoc (some a) p q = refl
or_else_assoc none p q = refl

pub Gains-nothing : (td : TriggerDefinition) → Gains td td (λ _. []) (λ _. none)
Gains-nothing td = record {
  in_order = λ source. sym (append-nil (triggers_of source td.event_triggers));
  by_name = λ name. sym (or_else-none (lookup name td.functions));
}

pub Gains-trans :
    {td td₁ td₂ : TriggerDefinition} {t t₁ : Str → List Object} {f f₁ : Str → Option Object}
    → Gains td td₁ t f
    → Gains td₁ td₂ t₁ f₁
    → Gains td td₂ (λ source. t source ++ t₁ source) (λ name. or_else (f name) (f₁ name))
Gains-trans {td} {t = t} {t₁ = t₁} {f = f} {f₁ = f₁} g h = record {
  in_order = λ source.
      h.in_order source
      ∙ ap (λ l. l ++ t₁ source) (g.in_order source)
      ∙ append_assoc (triggers_of source td.event_triggers) (t source) (t₁ source);
  by_name = λ name.
      h.by_name name
      ∙ ap (λ o. or_else o (f₁ name)) (g.by_name name)
      ∙ or_else_assoc (lookup name td.functions) (f name) (f₁ name);
}

pub Gains-same :
    {td td' : TriggerDefinition} {t u : Str → List Object} {f g : Str → Option Object}
    → Gains td td' t f
    → ((source : Str) → t source ≡ u source)
    → ((name : Str) → f name ≡ g name)
    → Gains td td' u g
Gains-same {td} h e k = record {
  in_order =
      λ source. h.in_order source ∙ ap (λ l. triggers_of source td.event_triggers ++ l) (e source);
  by_name = λ name. h.by_name name ∙ ap (or_else (lookup name td.functions)) (k name);
}

pub and_then-none :
    (r : Read) (next : TriggerDefinition → Read) {td' : TriggerDefinition}
    → and_then r next ≡ (td', none)
    → (r ≡ (r.0, none)) × (next r.0 ≡ (td', none))
and_then-none (td, none) next h = (refl, h)
and_then-none (td, some e) next h = absurd (cc (ap (λ (r : Read). r.1) h))

pub read_settings-Gains :
    (o : Option Yaml) (td : TriggerDefinition)
    → Gains td (read_settings o td).0 (λ _. []) (λ _. none)
unfolding read_settings
read_settings-Gains (some (Yaml.mapping settings)) td = record {
  in_order = (Gains-nothing td).in_order;
  by_name = (Gains-nothing td).by_name;
}
read_settings-Gains _ td = Gains-nothing td

pub add_triggers-Gains :
    (triggers : Seq) (td : TriggerDefinition)
    → Gains td (add_triggers triggers td).0 (λ source. named source triggers) (λ _. none)
add_triggers-Gains triggers td = record {
  in_order = λ source. (triggers_of-add_triggers triggers td source).0;
  by_name = λ name.
      ap (lookup name) (add_triggers-functions triggers td)
      ∙ sym (or_else-none (lookup name td.functions));
}
