-- ===== src/Trigger/Library/Typed.antt =====
-- All functions that expressions call have results of the types with which they are declared.
use kabanero_events.Prelude.{ℕ, ◌≡◌, refl, List, Str, lit, str_eq}
use kabanero_events.Go.Value.{Val}
use kabanero_events.Go.Exec.{
  World, ok, reads, alloc, load, store, recover, ◌>>=◌, bad_argument, no_body_parameter,
  body_parameter_not_map, no_header_parameter,
}
use kabanero_events.Go.Yields.{Yields, Yields-pure, Yields-throw, Yields-if, Yields-bind}
use kabanero_events.Trigger.Engine.{Engine, Out}
use kabanero_events.Trigger.Definition.{TriggerDefinition}
use kabanero_events.Trigger.Convert.{text, convert_to_header_map}
use kabanero_events.Kabanero.{get_kabanero_namespace}
use kabanero_events.Timestamp.{get_timestamp}
use kabanero_events.GitHub.{present, as_map, download_yaml}
use kabanero_events.Trigger.Function.{Host, functions}
use kabanero_events.Trigger.Function.Overloads.{
  takes_string, takes_strings, takes_map, overload, is_text, is_strings, is_address, IsDeclared,
}
use kabanero_events.Trigger.Function.Typed.{OfType, binary-Yields, declared, functions-IsDeclared}
use kabanero_events.Trigger.Library.{
  Library, map_argument, file_argument, header_error, strings_split, split_cel, job_id_cel,
  kabanero_config_cel, store_download, download_into, download_yaml_cel, library_calls,
}

module _ (lib : Library) where
  split_cel-OfType : (s sep : Val) → OfType takes_strings (split_cel lib s sep)
  unfolding split_cel
  split_cel-OfType (Val.string s) (Val.string sep) =
      Yields-pure _ (is_strings (strings_split lib.explode s sep) refl)
  split_cel-OfType _ _ = Yields-throw bad_argument

  job_id_cel-OfType : OfType takes_string (job_id_cel lib)
  unfolding job_id_cel
  job_id_cel-OfType =
      Yields-bind (get_timestamp lib.clock lib.clock_fuel)
        (λ s. Yields-pure (text s) (is_text s refl))

  kabanero_config_cel-OfType : OfType takes_map (kabanero_config_cel lib)
  unfolding kabanero_config_cel
  kabanero_config_cel-OfType = Yields-bind alloc (λ ret.
      Yields-bind (get_kabanero_namespace lib.github.getenv) (λ namespace.
        Yields-bind (store ret (lit "namespace") (Val.string namespace))
          (λ _. Yields-pure _ (is_address ret refl))))

  download_into-OfType :
      (header : List (Str × List Str)) (body : ℕ) (file_name : Str)
      → OfType takes_map (download_into lib header body file_name)
  unfolding download_into
  download_into-OfType header body file_name = Yields-bind alloc (λ ret.
      Yields-bind (download_yaml lib.github header body file_name) (λ downloaded.
        Yields-bind (store_download lib ret downloaded) (λ _. Yields-pure _ (is_address ret refl))))

  download_yaml_cel-OfType :
      (message file_name : Val) → OfType takes_map (download_yaml_cel lib message file_name)
  unfolding download_yaml_cel
  download_yaml_cel-OfType webhook_message file_name_val =
      Yields-bind (map_argument webhook_message) (λ message.
        Yields-bind (load message (lit "body") >>= present no_body_parameter) (λ body_obj.
          Yields-bind (as_map body_parameter_not_map body_obj) (λ body.
            Yields-bind (load message (lit "header") >>= present no_header_parameter) (λ header_obj.
              Yields-bind (recover header_error (reads (λ w. convert_to_header_map w header_obj)))
                (λ header.
                  Yields-bind (file_argument file_name_val)
                    (λ file_name. download_into-OfType header body file_name))))))

  library_calls-IsDeclared :
      (name : Str) (args : List Out) → Yields (IsDeclared name) (library_calls lib name args)
  unfolding library_calls overload str_eq
  library_calls-IsDeclared name args =
      Yields-if (str_eq name (lit "split"))
        (λ e.
          declared name (lit "split") _ _ e refl
            (binary-Yields _ args (λ a b. split_cel-OfType a.value b.value)))
        (λ _.
          Yields-if (str_eq name (lit "jobID"))
            (λ e. declared name (lit "jobID") _ _ e refl job_id_cel-OfType)
            (λ _.
              Yields-if (str_eq name (lit "kabaneroConfig"))
                (λ e. declared name (lit "kabaneroConfig") _ _ e refl kabanero_config_cel-OfType)
                (λ _.
                  Yields-if (str_eq name (lit "downloadYAML"))
                    (λ e.
                      declared name (lit "downloadYAML") _ _ e refl
                        (binary-Yields _ args (λ a b. download_yaml_cel-OfType a.value b.value)))
                    (λ _. Yields-throw bad_argument))))

-- Where a function that an expression calls returns a value, `initCELFuncs` declares it, and the
-- value is of the type of the result that it declares.
pub functions_library-IsDeclared :
    (E : Engine) (host : Host) (td : TriggerDefinition) (dir : Str) (lib : Library) (fuel : ℕ)
    (name : Str) (args : List Out) (w : World) (out : Out) (w' : World)
    → functions E host td dir (library_calls lib) fuel name args w ≡ (ok out, w')
    → IsDeclared name out
functions_library-IsDeclared E host td dir lib fuel name args w out w' h =
    (functions-IsDeclared E host td dir (library_calls lib) (library_calls-IsDeclared lib) fuel name
        args).at
      w h
