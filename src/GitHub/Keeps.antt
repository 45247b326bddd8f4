-- ===== src/GitHub/Keeps.antt =====
-- A property of the world that does not look at the package variables, and survives the new map
-- of a YAML text, is kept by a download from GitHub.
use kabanero_events.Prelude.{
  ℕ, Bool, ◌⊎◌, inl, inr, Option, none, some, List, [], ◌∷◌, Str, str_eq, lit,
}
use kabanero_events.Go.Value.{Val}
use kabanero_events.Go.Exec.{World, Exec, Error}
use kabanero_events.Go.Keeps.{
  Keeps, keeps_rules, KeptByMaps, KeptByVariables, Keeps-bind, Keeps-if, Keeps-recover, Keeps-pure,
  load-Keeps,
}
use kabanero_events.Kabanero.Keeps.{get_kabanero_namespace-Keeps}
use kabanero_events.GitHub.{
  Repository, present, as_string, as_map, string_under, map_under, ref_of, repository_of,
  get_repository_info, Download, GitHub, ContentsRequest, asked, by_client,
  download_file_from_github, store_fields, yaml_to_map, parse_download, with_credentials,
  with_repository, download_yaml,
}

module _ {P : World → Type 0} where
  pub present-Keeps : (e : Error) (o : Option Val) → Keeps P (present e o)
  unfolding present
  present-Keeps e none = search keeps_rules
  present-Keeps e (some v) = search keeps_rules

  as_string-Keeps : (e : Error) (v : Val) → Keeps P (as_string e v)
  unfolding as_string
  as_string-Keeps e (Val.string s) = search keeps_rules
  as_string-Keeps e _ = search keeps_rules

  pub as_map-Keeps : (e : Error) (v : Val) → Keeps P (as_map e v)
  unfolding as_map
  as_map-Keeps e (Val.object a) = search keeps_rules
  as_map-Keeps e _ = search keeps_rules

  string_under-Keeps : (e f : Error) (a : ℕ) (key : Str) → Keeps P (string_under e f a key)
  unfolding string_under
  string_under-Keeps e f a key = search (keeps_rules, load-Keeps, present-Keeps, as_string-Keeps)

  map_under-Keeps : (e f : Error) (a : ℕ) (key : Str) → Keeps P (map_under e f a key)
  unfolding map_under
  map_under-Keeps e f a key = search (keeps_rules, load-Keeps, present-Keeps, as_map-Keeps)

  ref_of-Keeps : (body : ℕ) (event : Str) → Keeps P (ref_of body event)
  unfolding ref_of
  ref_of-Keeps body event = Keeps-if (str_eq event (lit "push")) (string_under-Keeps _ _ _ _) (
      Keeps-if (str_eq event (lit "pull_request"))
        (Keeps-bind (map_under-Keeps _ _ _ _)
          (λ _. Keeps-bind (map_under-Keeps _ _ _ _) (λ _. string_under-Keeps _ _ _ _)))
        (Keeps-pure []))

  repository_of-Keeps : (body : ℕ) (ref : Str) → Keeps P (repository_of body ref)
  unfolding repository_of
  repository_of-Keeps body ref = Keeps-bind (map_under-Keeps _ _ _ _) (λ _.
      Keeps-bind (string_under-Keeps _ _ _ _) (λ _. Keeps-bind (map_under-Keeps _ _ _ _) (λ _.
        Keeps-bind (string_under-Keeps _ _ _ _)
          (λ _. Keeps-bind (string_under-Keeps _ _ _ _) (λ _. search keeps_rules)))))

  get_repository_info-Keeps : (body : ℕ) (event : Str) → Keeps P (get_repository_info body event)
  unfolding get_repository_info
  get_repository_info-Keeps body event =
      Keeps-bind (ref_of-Keeps body event) (repository_of-Keeps body)

module _ {P : World → Type 0} (github : GitHub) where
  asked-Keeps : (request : ContentsRequest) → Keeps P (asked github request)
  unfolding asked
  asked-Keeps request = search keeps_rules

  by_client-Keeps :
      (o : Option Error) {m : Exec (Download Str)} → Keeps P m → Keeps P (by_client github o m)
  unfolding by_client
  by_client-Keeps (some e) h = search keeps_rules
  by_client-Keeps none h = h

  download_file_from_github-Keeps :
      (owner repository file_name ref url user token : Str) (is_enterprise : Bool)
      → Keeps P (
          download_file_from_github github owner repository file_name ref url user token
            is_enterprise)
  unfolding download_file_from_github
  download_file_from_github-Keeps owner repository file_name ref url user token is_enterprise =
      Keeps-if is_enterprise (by_client-Keeps _ (asked-Keeps _)) (asked-Keeps _)

module _ {P : World → Type 0} (maps : KeptByMaps P) (github : GitHub) where
  open maps use {by_store, by_alloc}

  store_fields-Keeps : (a : ℕ) (fields : List (Str × Val)) → Keeps P (store_fields github a fields)
  unfolding store_fields
  store_fields-Keeps a [] = search keeps_rules
  store_fields-Keeps a ((key, value) ∷ fields) =
      Keeps-bind (by_store a key value) (λ _. store_fields-Keeps a fields)

  pub yaml_to_map-Keeps : (bytes : Str) → Keeps P (yaml_to_map github bytes)
  unfolding yaml_to_map
  yaml_to_map-Keeps bytes = Keeps-bind (search keeps_rules) (λ fields.
      Keeps-bind by_alloc (λ a. Keeps-bind (store_fields-Keeps a fields) (λ _. search keeps_rules)))

module _ {P : World → Type 0} (variables : KeptByVariables P) (github : GitHub)
    (parses : (bytes : Str) → Keeps P (yaml_to_map github bytes)) where
  parse_download-Keeps : (d : Download Str) → Keeps P (parse_download github d)
  unfolding parse_download
  parse_download-Keeps (exists, inl e) = search keeps_rules
  parse_download-Keeps (exists, inr bytes) =
      Keeps-bind (Keeps-recover _ (parses bytes)) (λ _. search keeps_rules)

  with_credentials-Keeps :
      (r : Repository) (file_name host : Str) (is_enterprise : Bool) (c : Error ⊎ (Str × Str))
      → Keeps P (with_credentials github r file_name host is_enterprise c)
  unfolding with_credentials
  with_credentials-Keeps r file_name host is_enterprise (inl e) = search keeps_rules
  with_credentials-Keeps r file_name host is_enterprise (inr (user, token)) =
      Keeps-bind (download_file_from_github-Keeps github _ _ _ _ _ _ _ _) parse_download-Keeps

  with_repository-Keeps :
      (file_name host : Str) (is_enterprise : Bool) (info : Error ⊎ Repository)
      → Keeps P (with_repository github file_name host is_enterprise info)
  unfolding with_repository
  with_repository-Keeps file_name host is_enterprise (inl e) = search keeps_rules
  with_repository-Keeps file_name host is_enterprise (inr r) =
      Keeps-bind (get_kabanero_namespace-Keeps variables github.getenv)
        (λ _. with_credentials-Keeps r file_name host is_enterprise _)

  pub download_yaml-Keeps :
      (header : List (Str × List Str)) (body : ℕ) (file_name : Str)
      → Keeps P (download_yaml github header body file_name)
  unfolding download_yaml
  download_yaml-Keeps header body file_name = Keeps-bind (search keeps_rules) (λ host.
      Keeps-bind (search keeps_rules) (λ event.
        Keeps-bind (Keeps-recover _ (get_repository_info-Keeps body event))
          (λ info. with_repository-Keeps file_name _ _ info)))
