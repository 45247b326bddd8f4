-- ===== src/Trigger/Library/Tests.antt =====
-- Calls of the library's functions, on concrete arguments.
use kabanero_events.Prelude.{
  ◌≡◌, refl, true, none, inr, List, [], ◌∷◌, Str, lit, str_eq, has_prefix, push_byte,
}
use kabanero_events.Go.Assoc.{lookup, insert}
use kabanero_events.Go.Value.{Val}
use kabanero_events.Go.Exec.{World, Result, ok, update, store, alloc, load, recover, ◌>>=◌}
use kabanero_events.Kabanero.{
  is_tekton, is_kabanero, scan_annotations, scan_secrets, get_kabanero_namespace,
  get_git_hub_secret, get_git_hub_secret_for_repo,
}
use kabanero_events.GitHub.{
  GitHub, response, content, attempt, get_repository_info, ref_of, repository_of, string_under,
  map_under, download_yaml, host_of, first_value, with_repository, with_credentials,
  download_file_from_github, of_reply, parse_download, yaml_to_map,
}
use kabanero_events.Trigger.Engine.{Out}
use kabanero_events.Trigger.Process.{process_message}
use kabanero_events.Trigger.Process.Quiet.{HasTrace}
use kabanero_events.Trigger.Definition.{is_dry_run, dry_run_of}
use kabanero_events.Go.Value.{get}
use kabanero_events.Trigger.Library.{
  Library, split_at, strings_split, split_cel, store_download, download_into, library_calls,
}
use kabanero_events.Trigger.Convert.{text, array_of}
use kabanero_events.Trigger.Function.{functions, dispatch}
use kabanero_events.Trigger.Function.Overloads.{IsDeclared}
use kabanero_events.Trigger.Library.Typed.{functions_library-IsDeclared}
use kabanero_events.Trigger.Library.Content.{Answer, download_into-Answer}
use kabanero_events.Trigger.Library.Quiet.{trace-process_message_library}
use kabanero_events.Sample.{no_world, engine, engine-EvalKeeps, host, definition}

-- A repository whose every file is an empty map, with one secret.
abbrev github : GitHub
github = record {
  new_enterprise_client = λ url. none;
  get_contents = λ trace request. response 200 (content (inr request.token));
  unmarshal = λ bytes. inr ((lit "bytes", Val.string bytes) ∷ []);
  list_secrets = λ namespace. inr (
      record {
        name = lit "s";
        annotations = (lit "kabanero.io/git-0", lit "https://h") ∷ [];
        data_fields = (lit "username", lit "u") ∷ (lit "password", lit "p") ∷ [];
      }
      ∷ []);
  getenv = λ name. [];
}

abbrev lib : Library
lib = record {
  github = github;
  clock = λ reading. 1583020799000000000;
  clock_fuel = 2;
  explode = λ s. s ∷ [];
  error_text = λ e. [];
}

split_text : strings_split lib.explode (lit "a::b:::") (lit "::") ≡ lit "a" ∷ lit "b" ∷ lit ":" ∷ []
unfolding strings_split split_at has_prefix push_byte
split_text = refl

abbrev message : World
message = record no_world {
  heap =
      ((lit "after", Val.string (lit "c0ffee")) ∷ (lit "repository", Val.object 1) ∷ [])
      ∷ ((lit "name", Val.string (lit "r"))
          ∷ (lit "owner", Val.object 2)
          ∷ (lit "html_url", Val.string (lit "https://h/o/r"))
          ∷ [])
      ∷ ((lit "login", Val.string (lit "o")) ∷ [])
      ∷ [];
}

abbrev header : List (Str × List Str)
header = (lit "X-Github-Event", lit "push" ∷ []) ∷ []

abbrev run : Result Out × World
run = download_into lib header 0 (lit "f.yaml") message

abbrev answer : Out
answer = record { type_name = lit "map"; value = Val.object 3 }

run-ok : run ≡ (ok answer, run.1)
unfolding download_into alloc store load update download_yaml host_of first_value with_repository
    with_credentials get_repository_info ref_of repository_of string_under map_under
    get_kabanero_namespace get_git_hub_secret get_git_hub_secret_for_repo scan_secrets
    scan_annotations is_tekton is_kabanero has_prefix download_file_from_github of_reply
    parse_download yaml_to_map attempt recover store_download lookup insert str_eq ◌>>=◌
run-ok = refl

download_into-Answer_example : (answer.value ≡ Val.object 3) × Answer 3 run.1
download_into-Answer_example = download_into-Answer lib header 0 (lit "f.yaml") message run-ok

is_dry_run-definition : is_dry_run (definition true) ≡ true
unfolding is_dry_run dry_run_of get str_eq
is_dry_run-definition = refl

trace-process_message_library_example :
    (process_message engine host
      (definition true)
      (lit "/triggers")
      (library_calls lib)
      3
      (Val.object 0)
      (lit "github")
      no_world).1.trace
    ≡ []
trace-process_message_library_example =
    trace-process_message_library engine host (definition true) (lit "/triggers") lib
      (λ t. engine-EvalKeeps (HasTrace t)) 3 (Val.object 0) (lit "github") no_world
      is_dry_run-definition

abbrev split_args : List Out
split_args = text (lit "a/b") ∷ text (lit "/") ∷ []

abbrev pieces : Out
pieces = record { type_name = lit "list"; value = Val.array (array_of (lit "a" ∷ lit "b" ∷ [])) }

split_call :
    functions engine host
      (definition true)
      []
      (library_calls lib)
      2
      (lit "split")
      split_args
      no_world
    ≡ (ok pieces, no_world)
unfolding functions dispatch library_calls split_cel strings_split split_at has_prefix push_byte
    str_eq ◌>>=◌
split_call = refl

functions_library-IsDeclared_example : IsDeclared (lit "split") pieces
functions_library-IsDeclared_example =
    functions_library-IsDeclared engine host (definition true) [] lib 2 (lit "split") split_args
      no_world pieces no_world split_call
