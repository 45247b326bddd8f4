-- ===== src/Trigger/Listeners/Quiet.antt =====
-- A listener in a dry run.
use kabanero_events.Prelude.{ℕ, true, ◌≡◌, refl, ◌∙◌, ◌⊎◌, inl, inr, List, [], ◌∷◌, Str}
use kabanero_events.Go.Value.{Val}
use kabanero_events.Go.Exec.{Error, World, Effect, Exec}
use kabanero_events.Go.Keeps.{Keeps, keeps_rules, Keeps-bind, Keeps-recover}
use kabanero_events.Messages.{EventNode}
use kabanero_events.Trigger.Engine.{Engine}
use kabanero_events.Trigger.Definition.{TriggerDefinition, is_dry_run}
use kabanero_events.Trigger.Variable.Keeps.{EvalKeeps}
use kabanero_events.Trigger.Function.{Host}
use kabanero_events.Trigger.Process.{process_message}
use kabanero_events.Trigger.Process.Quiet.{HasTrace}
use kabanero_events.Trigger.Library.{Library, library_calls}
use kabanero_events.Trigger.Library.Quiet.{trace-process_message_library}
use kabanero_events.Trigger.Listeners.{logged, handle, message_listener}

module _ {P : World → Type 0} (unmarshal : Str → Exec Val) (process : Val → Str → Exec (List ℕ))
    (reads : (buf : Str) → Keeps P (unmarshal buf))
    (processes : (message : Val) (event_source : Str)
      → Keeps P (process message event_source)) where
  message_listener-Keeps :
      (received : List (Error ⊎ Str)) (node : EventNode)
      → Keeps P (message_listener unmarshal process node received)
  unfolding message_listener handle
  message_listener-Keeps [] node = search keeps_rules
  message_listener-Keeps (inl e ∷ received) node = search keeps_rules
  message_listener-Keeps (inr buf ∷ received) node =
      Keeps-bind
        (Keeps-recover logged (Keeps-bind (reads buf) (λ message. processes message node.name)))
        (λ _. message_listener-Keeps received node)

module _ (E : Engine) (host : Host) (td : TriggerDefinition) (dir : Str) (lib : Library)
    (evals : (t : List Effect) → EvalKeeps E (HasTrace t)) (unmarshal : Str → Exec Val)
    (reads : (t : List Effect) (buf : Str) → Keeps (HasTrace t) (unmarshal buf)) where
  -- In a dry run a listener, whatever it receives and however often, sends nothing and creates
  -- nothing. Provided that decoding a message does not act and that CEL acts only through the
  -- functions it calls.
  trace-message_listener :
      (fuel : ℕ) (node : EventNode) (received : List (Error ⊎ Str)) (w : World)
      → is_dry_run td ≡ true
      → (message_listener unmarshal
          (process_message E host td dir (library_calls lib) fuel)
          node
          received
          w).1.trace
        ≡ w.trace
  trace-message_listener fuel node received w dry =
      (message_listener-Keeps unmarshal (process_message E host td dir (library_calls lib) fuel)
          (reads w.trace)
          (λ message event_source. record {
            at = λ v h.
                trace-process_message_library E host td dir lib evals fuel message event_source v
                  dry
                ∙ h;
          })
          received node).at
        w refl
