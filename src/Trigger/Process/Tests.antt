-- ===== src/Trigger/Process/Tests.antt =====
-- Runs of `ProcessMessage`, with and without a dry run.
use kabanero_events.Prelude.{◌≡◌, refl, false, [], ◌∷◌, lit, str_eq}
use kabanero_events.Go.Assoc.{lookup}
use kabanero_events.Go.Value.{get, Val}
use kabanero_events.Go.Exec.{◌>>=◌, post, act, store, load, alloc, update}
use kabanero_events.Trigger.Definition.{is_dry_run, dry_run_of}
use kabanero_events.Trigger.Process.{process_message}
use kabanero_events.Go.Value.{size}
use kabanero_events.Go.Assoc.{insert}
use kabanero_events.Prelude.{split}
use kabanero_events.Messages.{
  send, provider_send, get_node, find_node, get_provider, request, request_headers, client_timeout,
}
use kabanero_events.Trigger.Keyword.{count_keywords, count_from, count_key, is_keyword, has_flag}
use kabanero_events.Trigger.Variable.{
  trim, initialize_cel_env, set_one_variable, create_one_variable, create_at, eval_text,
  create_one_variable_helper,
}
use kabanero_events.Trigger.Eval.{
  eval_array_object, eval_array, nesting, eval_object, eval_items, eval_assignment, assign_field,
  value_text,
}
use kabanero_events.Trigger.Convert.{convert_to_header_map}
use kabanero_events.Trigger.Function.{functions, dispatch, send_event}
use kabanero_events.Trigger.Process.{process_with, parse_trigger, run_triggers, run_trigger}
use kabanero_events.Sample.{engine, host, hook, definition, remaining, no_world}

-- Without the dry run the same message makes one POST.
trace-process_message_sends :
    (process_message engine host
      (definition false)
      (lit "/triggers")
      remaining
      3
      (Val.object 0)
      (lit "github")
      no_world).1.trace
    ≡ post (request hook [] (lit "\"hello\"")) ∷ []
unfolding process_message process_with parse_trigger run_triggers run_trigger initialize_cel_env
    eval_array_object eval_array nesting eval_object eval_items eval_assignment assign_field
    value_text set_one_variable create_one_variable create_at eval_text create_one_variable_helper
    functions dispatch send_event send provider_send convert_to_header_map is_dry_run dry_run_of get
    str_eq get_node find_node get_provider lookup request request_headers client_timeout act store
    load alloc update insert count_keywords count_from count_key is_keyword has_flag trim split
    ◌>>=◌ size
trace-process_message_sends = refl
