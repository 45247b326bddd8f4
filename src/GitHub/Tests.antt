-- ===== src/GitHub/Tests.antt =====
-- A push message, read.
use kabanero_events.Prelude.{◌≡◌, refl, false, some, inr, [], ◌∷◌, lit, str_eq}
use kabanero_events.Go.Assoc.{lookup}
use kabanero_events.Go.Value.{Val}
use kabanero_events.Go.Exec.{World, ok}
use kabanero_events.GitHub.{get_repository_info, of_reply, response, no_file}
use kabanero_events.GitHub.Info.{
  Gives, repository_at, get_repository_info-Gives, ref_at, string_at, map_at, value_at, and_then,
  text_in, address_of,
}
use kabanero_events.Sample.{no_world}

abbrev pushed : World
pushed = record no_world {
  heap =
      ((lit "after", Val.string (lit "c0ffee")) ∷ (lit "repository", Val.object 1) ∷ [])
      ∷ ((lit "name", Val.string (lit "r"))
          ∷ (lit "owner", Val.object 2)
          ∷ (lit "html_url", Val.string (lit "https://h/o/r"))
          ∷ [])
      ∷ ((lit "login", Val.string (lit "o")) ∷ [])
      ∷ [];
}

read_push :
    repository_at pushed 0 (lit "push")
    ≡ some (record {
      owner = lit "o";
      name = lit "r";
      html_url = lit "https://h/o/r";
      ref = lit "c0ffee";
    })
unfolding repository_at ref_at string_at map_at value_at and_then text_in address_of lookup str_eq
read_push = refl

get_repository_info-Gives_example :
    Gives (get_repository_info 0 (lit "push")) pushed (repository_at pushed 0 (lit "push"))
get_repository_info-Gives_example = get_repository_info-Gives 0 (lit "push") pushed

-- A file that is missing is an error with 404, and none with 400.
missing : (of_reply (response 400 no_file) ≡ ok (false, inr []))
unfolding of_reply
missing = refl
