-- ===== src/Command/Prepared.antt =====
-- What stands when `main` starts to listen.
use kabanero_events.Prelude.{◌≡◌, inr, List, ◌++◌, Str}
use kabanero_events.Go.Exec.{World, Effect, Exec, ok}
use kabanero_events.Kabanero.{Url}
use kabanero_events.Kabanero.Files.{Provided}
use kabanero_events.Messages.{EventDefinition, read_event_definition, new_service}
use kabanero_events.Trigger.Definition.Whole.{IsWhole}
use kabanero_events.Trigger.Listeners.{keys}
use kabanero_events.Trigger.Listeners.Started.{Started}
use kabanero_events.Command.{Surroundings, Running, event_definitions}

-- The directory is that of the trigger which the definitions in the namespace name.
pub record IsVerified (s : Surroundings) (trigger_dir : Str) : Type 0 where
  pub found : World
  pub fetched : World
  pub namespace : Str
  pub url : Url
  pub chk_sum : Str
  pub info : s.source.trigger_info namespace ≡ inr (url, chk_sum)
  pub verified : Provided s.getenv s.source s.site url chk_sum found trigger_dir fetched

pub record IsRunning (s : Surroundings) (running : Running) (w' : World) : Type 0 where
  pub files : IsVerified s running.trigger_dir
  pub events : EventDefinition
  pub events_read :
      read_event_definition s.event_files (event_definitions running.trigger_dir) ≡ inr events
  pub service_made : new_service s.network events ≡ ok running.service
  pub loaded : IsWhole s.files running.trigger_dir running.definition
  pub before : List Effect
  pub subscriptions : List Effect
  pub started :
      Started running.service
        (keys running.definition.event_triggers)
        running.listeners
        subscriptions
  pub last_effects : w'.trace ≡ before ++ subscriptions
