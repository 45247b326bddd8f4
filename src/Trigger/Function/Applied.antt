-- ===== src/Trigger/Function/Applied.antt =====
-- What `applyResources` creates.
pub mod Outcome
mod Tests
use kabanero_events.Prelude.{◌≡◌, inr, Bool, true, false, List, [], ◌∷◌, ◌++◌, Str, lit}
use kabanero_events.Go.Value.{Val}
use kabanero_events.Go.Exec.{World, Effect, Result, ok, Exec, pure, of_sum, reads}
use kabanero_events.Go.Bind.{bind-eq-ok, pure-eq-ok, of_sum-eq-ok}
use kabanero_events.Go.Cases.{Ended, WentOn}
use kabanero_events.Go.Keeps.{Keeps, keeps_rules, Keeps-bind}
use kabanero_events.FilePath.{merge_path_with_error_check}
use kabanero_events.Resource.Created.{IsCreate}
use kabanero_events.Trigger.Engine.{Engine}
use kabanero_events.Trigger.Definition.{TriggerDefinition, find_files}
use kabanero_events.Trigger.Function.{
  Host, substitute_template, substitute_template_file, substitute_all, apply_resources_helper,
}

module _ (E : Engine) (host : Host) (td : TriggerDefinition) (dir : Str) where
  -- The calls of the cluster for texts, in their order; `false` where they stop before the last text.
  pub data Creates : List Str → List Effect → Bool → Type 0 where
    all_made : Creates [] [] true
    stopped : {texts : List Str} → Creates texts [] false
    made :
        {text : Str} {effect : Effect} {texts : List Str} {effects : List Effect} {complete : Bool}
        → IsCreate host.to_lower host.cluster text effect
        → Creates texts effects complete
        → Creates (text ∷ texts) (effect ∷ effects) complete

  -- The text of each file after substitution: what the execution of the template in the file writes.
  pub data Substituted (variables : Val) (w : World) : List Str → List Str → Type 0 where
    no_file : Substituted variables w [] []
    one_file :
        {path content text : Str} {template : host.Template} {paths texts : List Str}
        → host.read_file path ≡ inr content
        → host.parse_template content ≡ inr template
        → host.execute_template w template variables ≡ ok text
        → Substituted variables w paths texts
        → Substituted variables w (path ∷ paths) (text ∷ texts)

  record Made (texts : List Str) (w : World) (r : Result (Unit {0})) (w' : World) : Type 0 where
    effects : List Effect
    complete : Bool
    creates : Creates texts effects complete
    after : w' ≡ record w { trace = w.trace ++ effects }
    ok_complete : r ≡ ok tt → complete ≡ true

  traced : World → List Effect → World
  traced w effects = record w { trace = w.trace ++ effects }
