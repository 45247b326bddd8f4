-- ===== src/Trigger/Function/Applied/Outcome.antt =====
-- How a call of `applyResourcesHelper` that is no dry run ends.
use kabanero_events.Prelude.{◌≡◌, ◌≢◌, ◌⊎◌, inr, Bool, true, List, [], ◌∷◌, ◌++◌, Str, lit}
use kabanero_events.Go.Value.{Val}
use kabanero_events.Go.Exec.{World, Effect, Result, ok, Exec}
use kabanero_events.Go.Keeps.{Keeps}
use kabanero_events.FilePath.{merge_path_with_error_check}
use kabanero_events.Trigger.Engine.{Engine}
use kabanero_events.Trigger.Definition.{TriggerDefinition, find_files}
use kabanero_events.Trigger.Function.{Host}
use kabanero_events.Trigger.Function.Applied.{Creates, Substituted}

module _ (E : Engine) (host : Host) (td : TriggerDefinition) (dir : Str) where
  -- Every file of the directory was substituted, and the cluster was called for the texts.
  pub record Applied (directory : Str) (variables : Val) (w : World) (r : Result (Unit {0}))
      (w' : World) : Type 0 where
    pub resource_dir : Str
    pub files : List Str
    pub texts : List Str
    pub effects : List Effect
    pub complete : Bool
    pub merged : merge_path_with_error_check host.getwd dir directory ≡ inr resource_dir
    pub found : find_files host.files resource_dir (lit "yaml" ∷ lit "yml" ∷ []) ≡ inr files
    pub substituted : Substituted E host td dir variables w files texts
    pub creates : Creates E host td dir texts effects complete
    pub after : w' ≡ record w { trace = w.trace ++ effects }
    pub ok_complete : r ≡ ok tt → complete ≡ true

  module _ (directory : Str) (variables : Val) (w : World) where
    abbrev Ends : Result (Unit {0}) × World → Type 0
    Ends p = ((p.1 ≡ w) × (p.0 ≢ ok tt)) ⊎ Applied directory variables w p.0 p.1
