-- ===== src/Trigger/Function/DryRun.antt =====
-- In a dry run the functions that expressions call do nothing but write maps.
use kabanero_events.Prelude.{
  ℕ, zero, suc, Bool, true, ◌≡◌, Option, none, some, List, [], ◌∷◌, Str, lit, str_eq, ℤ, pos,
  negsuc,
}
use Prim.Native.String.{String}
use kabanero_events.Label.{to_domain_name, to_label}
use kabanero_events.Go.Value.{Yaml, Object, Val}
use kabanero_events.Go.Exec.{World, Exec, Error}
use kabanero_events.Go.Keeps.{
  Keeps, keeps_rules, KeptByMaps, Keeps-bind, Keeps-if, load-Keeps, Keeps-recover,
}
use kabanero_events.Trigger.Engine.{Engine, Out, Calls}
use kabanero_events.Trigger.Definition.{TriggerDefinition, is_dry_run}
use kabanero_events.Trigger.Variable.Keeps.{EvalKeeps, create_one_variable-Keeps}
use kabanero_events.Trigger.Eval.Keeps.{eval_array_object-Keeps}
use kabanero_events.Trigger.Filter.Keeps.{check_some-Keeps, string_of-Keeps, filter-Keeps}
use kabanero_events.Trigger.Function.{
  Host, unary, binary, declared_string, declared_body, found, output_value, val_to_string,
  val_to_int, up_to, substring, call, send_event, substitute_template, substitute_template_file,
  substitute_all, apply_resources_helper, apply_resources, convert, dispatch, functions,
}

module _ {P : World → Type 0} where
  declared_string-Keeps : (e f : Error) (o : Option Yaml) → Keeps P (declared_string e f o)
  unfolding declared_string
  declared_string-Keeps e f none = search keeps_rules
  declared_string-Keeps e f (some (Yaml.string s)) = search keeps_rules
  declared_string-Keeps e f (some _) = search keeps_rules

  declared_body-Keeps : (o : Option Yaml) → Keeps P (declared_body o)
  unfolding declared_body
  declared_body-Keeps none = search keeps_rules
  declared_body-Keeps (some (Yaml.seq s)) = search keeps_rules
  declared_body-Keeps (some _) = search keeps_rules

  found-Keeps : (o : Option Object) → Keeps P (found o)
  unfolding found
  found-Keeps none = search keeps_rules
  found-Keeps (some f) = search keeps_rules

  output_value-Keeps : (o : Option Val) → Keeps P (output_value o)
  unfolding output_value
  output_value-Keeps none = search keeps_rules
  output_value-Keeps (some v) = search keeps_rules

  val_to_string-Keeps : (v : Val) → Keeps P (val_to_string v)
  unfolding val_to_string
  val_to_string-Keeps (Val.string s) = search keeps_rules
  val_to_string-Keeps _ = search keeps_rules

  val_to_int-Keeps : (v : Val) → Keeps P (val_to_int v)
  unfolding val_to_int
  val_to_int-Keeps (Val.int64 n) = search keeps_rules
  val_to_int-Keeps _ = search keeps_rules

  up_to-Keeps : (s : Str) (index : ℤ) → Keeps P (up_to s index)
  unfolding up_to
  up_to-Keeps s (pos index) = search keeps_rules
  up_to-Keeps s (negsuc index) = search keeps_rules

  substring-Keeps : (a b : Val) → Keeps P (substring a b)
  unfolding substring
  substring-Keeps a b =
      Keeps-bind (val_to_string-Keeps a)
        (λ str. Keeps-bind (val_to_int-Keeps b) (λ index. up_to-Keeps str index))

  unary-Keeps :
      {f : Out → Exec Out} (args : List Out) → ((a : Out) → Keeps P (f a)) → Keeps P (unary f args)
  unary-Keeps [] h = search keeps_rules
  unary-Keeps (a ∷ []) h = h a
  unary-Keeps (a ∷ b ∷ args) h = search keeps_rules

  pub binary-Keeps :
      {f : Out → Out → Exec Out} (args : List Out)
      → ((a b : Out) → Keeps P (f a b))
      → Keeps P (binary f args)
  binary-Keeps [] h = search keeps_rules
  binary-Keeps (a ∷ []) h = search keeps_rules
  binary-Keeps (a ∷ b ∷ []) h = h a b
  binary-Keeps (a ∷ b ∷ c ∷ args) h = search keeps_rules

module _ {P : World → Type 0} (maps : KeptByMaps P) (E : Engine) (evals : EvalKeeps E P)
    (host : Host) (td : TriggerDefinition) (dir : Str) where
  open E use {Env}
  open maps use {by_store, by_alloc}

  convert-Keeps : (f : Str → Str) (v : Val) → Keeps P (convert E host td dir f v)
  unfolding convert
  convert-Keeps f (Val.string s) = search keeps_rules
  convert-Keeps f _ = search keeps_rules

  substitute_template-Keeps :
      (text : Str) (v : Val) → Keeps P (substitute_template E host td dir text v)
  unfolding substitute_template
  substitute_template-Keeps text v = search keeps_rules

  substitute_template_file-Keeps :
      (path : Str) (v : Val) → Keeps P (substitute_template_file E host td dir path v)
  unfolding substitute_template_file
  substitute_template_file-Keeps path v = search (keeps_rules, substitute_template-Keeps)

  substitute_all-Keeps :
      (v : Val) (paths : List Str) → Keeps P (substitute_all E host td dir v paths)
  unfolding substitute_all
  substitute_all-Keeps v [] = search keeps_rules
  substitute_all-Keeps v (path ∷ paths) =
      Keeps-bind (substitute_template_file-Keeps path v)
        (λ after. Keeps-bind (substitute_all-Keeps v paths) (λ rest. search keeps_rules))

  module _ (calls : Calls)
      (called : (name : Str) (args : List Out) → Keeps P (calls name args)) where
    call-Keeps : (function : Val) (param : Out) → Keeps P (call E host td dir calls function param)
    unfolding call
    call-Keeps function param = Keeps-bind (check_some-Keeps _) (λ _.
        Keeps-bind (check_some-Keeps _) (λ _. Keeps-bind (string_of-Keeps _) (λ _.
          Keeps-bind (found-Keeps _) (λ _. Keeps-bind (declared_string-Keeps _ _ _) (λ _.
            Keeps-bind (declared_string-Keeps _ _ _) (λ _. Keeps-bind (declared_body-Keeps _) (λ _.
              Keeps-bind by_alloc (λ _. Keeps-bind (search keeps_rules) (λ _.
                Keeps-bind (create_one_variable-Keeps maps E _ _ _ _) (λ _.
                  Keeps-bind (eval_array_object-Keeps maps E evals calls called _ _ _)
                    (λ _. Keeps-bind (load-Keeps _ _) (λ _. output_value-Keeps _))))))))))))

  module _ (dry : is_dry_run td ≡ true) where
    send_event-Keeps : (args : List Out) → Keeps P (send_event E host td dir args)
    unfolding send_event
    send_event-Keeps (a ∷ b ∷ c ∷ []) = rw dry (
        Keeps-bind (check_some-Keeps _) (λ _.
          Keeps-bind (check_some-Keeps _)
            (λ _. Keeps-bind (string_of-Keeps _) (λ _. search keeps_rules))))
    send_event-Keeps _ = search keeps_rules

    apply_resources-Keeps : (a b : Val) → Keeps P (apply_resources E host td dir a b)
    unfolding apply_resources apply_resources_helper
    apply_resources-Keeps a b = rw dry (
        Keeps-bind (check_some-Keeps _) (λ _. Keeps-bind (check_some-Keeps _) (λ _.
          Keeps-bind (string_of-Keeps _)
            (λ _. Keeps-recover _ (search (keeps_rules, substitute_all-Keeps))))))

    module _ (remaining : Calls)
        (rest : (name : Str) (args : List Out) → Keeps P (remaining name args)) where
      dispatch-Keeps :
          (calls : Calls)
          → ((name : Str) (args : List Out) → Keeps P (calls name args))
          → (name : Str) (args : List Out)
          → Keeps P (dispatch E host td dir remaining calls name args)
      unfolding dispatch
      dispatch-Keeps calls called name args =
          Keeps-if (is "filter")
            (binary-Keeps args (λ a b. filter-Keeps maps E evals calls called a.value b.value))
            (Keeps-if (is "call") (binary-Keeps args (λ a b. call-Keeps calls called a.value b)) (
              Keeps-if (is "sendEvent") (send_event-Keeps args) (
                Keeps-if (is "applyResources")
                  (binary-Keeps args (λ a b. apply_resources-Keeps a.value b.value))
                  (Keeps-if (is "toDomainName")
                    (unary-Keeps args
                      (λ a. convert-Keeps (to_domain_name host.unicode_lower) a.value))
                    (Keeps-if (is "toLabel")
                      (unary-Keeps args (λ a. convert-Keeps (to_label host.unicode_lower) a.value))
                      (Keeps-if (is "substring")
                        (binary-Keeps args (λ a b. substring-Keeps a.value b.value))
                        (rest name args)))))))
        where
          is : String → Bool
          is s = str_eq name (lit s)

      pub functions-Keeps :
          (fuel : ℕ) (name : Str) (args : List Out)
          → Keeps P (functions E host td dir remaining fuel name args)
      unfolding functions
      functions-Keeps zero name args = record { at = λ w h. h }
      functions-Keeps (suc fuel) name args = record {
        at =
            (dispatch-Keeps (functions E host td dir remaining fuel) (functions-Keeps fuel) name
              args).at;
      }
