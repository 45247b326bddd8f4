-- ===== src/Trigger/Function/Typed.antt =====
-- The results of the functions that expressions call have the types with which these are declared.
use mathlib.Core.Path.{subst}
use kabanero_events.Prelude.{
  ℕ, zero, suc, ◌≡◌, refl, sym, ap, some, List, [], ◌∷◌, Str, lit, str_eq, str_eq_iff, ℤ, pos,
  negsuc, true,
}
use kabanero_events.Label.{to_domain_name, to_label}
use kabanero_events.Go.Value.{Val}
use kabanero_events.Go.Exec.{Result, ok, err, panic, out_of_fuel, Exec, pure, reads, bad_argument}
use kabanero_events.Go.Yields.{
  Yields, Yields-pure, Yields-throw, Yields-lift, Yields-if, Yields-bind, Yields-recover,
  Yields-implies,
}
use kabanero_events.Messages.{send}
use kabanero_events.Trigger.Engine.{Engine, Out, Calls}
use kabanero_events.Trigger.Definition.{TriggerDefinition, is_dry_run}
use kabanero_events.Trigger.Convert.{text, convert_to_header_map}
use kabanero_events.Trigger.Filter.{check_some, string_of}
use kabanero_events.Trigger.Function.{
  Host, unary, binary, val_to_string, val_to_int, up_to, substring, send_event, error_text,
  apply_resources, apply_resources_helper, convert, dispatch, functions,
}
use kabanero_events.Trigger.Function.Overloads.{
  ParamType, takes_any, takes_string, Overload, overload, IsOf, is_any, is_text, IsDeclared,
}

-- An action whose result, if any, is of the type.
abbrev pub OfType : ParamType → Exec Out → Type 0
OfType t = Yields (λ out. IsOf out t)

pub binary-Yields :
    {Q : Out → Type 0} (f : Out → Out → Exec Out) (args : List Out)
    → ((a b : Out) → Yields Q (f a b))
    → Yields Q (binary f args)
binary-Yields f [] h = Yields-throw bad_argument
binary-Yields f (a ∷ []) h = Yields-throw bad_argument
binary-Yields f (a ∷ b ∷ []) h = h a b
binary-Yields f (a ∷ b ∷ c ∷ args) h = Yields-throw bad_argument

unary-Yields :
    {Q : Out → Type 0} (f : Out → Exec Out) (args : List Out)
    → ((a : Out) → Yields Q (f a))
    → Yields Q (unary f args)
unary-Yields f [] h = Yields-throw bad_argument
unary-Yields f (a ∷ []) h = h a
unary-Yields f (a ∷ b ∷ args) h = Yields-throw bad_argument

pure_text : (s : Str) → OfType takes_string (pure (text s))
pure_text s = Yields-pure (text s) (is_text s refl)

any-OfType : (m : Exec Out) → OfType takes_any m
any-OfType m = record { at = λ w h. is_any }

up_to-OfType : (s : Str) (index : ℤ) → OfType takes_string (up_to s index)
unfolding up_to
up_to-OfType s (pos index) = pure_text _
up_to-OfType s (negsuc index) = Yields-lift panic (λ a e. cc e)

substring-OfType : (a b : Val) → OfType takes_string (substring a b)
unfolding substring
substring-OfType a b =
    Yields-bind (val_to_string a)
      (λ str. Yields-bind (val_to_int b) (λ index. up_to-OfType str index))

value : {a b : Out} → ok a ≡ ok b → a ≡ b
value {a} h = ap out_of h
  where
    out_of : Result Out → Out
    out_of (ok x) = x
    out_of _ = a

-- One case of the table.
pub declared :
    (name operator : Str) (o : Overload) (m : Exec Out)
    → str_eq name operator ≡ true
    → overload operator ≡ some o
    → OfType o.result m
    → Yields (IsDeclared name) m
declared name operator o m e d h =
    Yields-implies
      (λ out is_of.
        subst (λ n. IsDeclared n out) (sym ((str_eq_iff name operator).0 e))
          (record { declared = o; by_name = d; result_type = is_of }))
      h

module _ (E : Engine) (host : Host) (td : TriggerDefinition) (dir : Str) where
  send_event-OfType : (args : List Out) → OfType takes_string (send_event E host td dir args)
  unfolding send_event
  send_event-OfType [] = Yields-throw bad_argument
  send_event-OfType (a ∷ []) = Yields-throw bad_argument
  send_event-OfType (a ∷ b ∷ []) = Yields-throw bad_argument
  send_event-OfType (destination ∷ message ∷ context ∷ []) =
      Yields-bind (check_some message.value) (λ _. Yields-bind (check_some destination.value) (λ _.
        Yields-bind (string_of destination.value) (λ dest.
          Yields-bind (reads (λ w. host.marshal w message.value)) (λ buf.
            Yields-bind (reads (λ w. convert_to_header_map w context.value)) (λ header.
              Yields-if (is_dry_run td) (λ _. pure_text [])
                (λ _.
                  Yields-bind (send host.network host.service dest buf (Val.headers header))
                    (λ _. pure_text [])))))))
  send_event-OfType (a ∷ b ∷ c ∷ d ∷ args) = Yields-throw bad_argument

  error_text-IsOf :
      (r : Result (Unit {0})) (out : Out)
      → error_text E host td dir r ≡ ok out
      → IsOf out takes_string
  unfolding error_text
  error_text-IsOf (ok tt) out h = is_text [] (value h)
  error_text-IsOf (err e) out h = is_text _ (value h)
  error_text-IsOf panic out h = absurd (cc h)
  error_text-IsOf out_of_fuel out h = absurd (cc h)

  apply_resources-OfType :
      (a variables : Val) → OfType takes_string (apply_resources E host td dir a variables)
  unfolding apply_resources
  apply_resources-OfType a variables = Yields-bind (check_some variables) (λ _.
      Yields-bind (check_some a) (λ _. Yields-bind (string_of a) (λ dir_str.
        Yields-recover (error_text E host td dir)
          (apply_resources_helper E host td dir dir_str variables (is_dry_run td))
          error_text-IsOf)))

  convert-OfType : (f : Str → Str) (v : Val) → OfType takes_string (convert E host td dir f v)
  unfolding convert
  convert-OfType f (Val.string s) = pure_text (f s)
  convert-OfType f _ = Yields-throw bad_argument

  module _ (remaining : Calls)
      (rest : (name : Str) (args : List Out) → Yields (IsDeclared name) (remaining name args)) where
    dispatch-IsDeclared :
        (calls : Calls) (name : Str) (args : List Out)
        → Yields (IsDeclared name) (dispatch E host td dir remaining calls name args)
    unfolding dispatch overload str_eq
    dispatch-IsDeclared calls name args =
        Yields-if (str_eq name (lit "filter"))
          (λ e. declared name (lit "filter") _ _ e refl (any-OfType _))
          (λ _.
            Yields-if (str_eq name (lit "call"))
              (λ e. declared name (lit "call") _ _ e refl (any-OfType _))
              (λ _.
                Yields-if (str_eq name (lit "sendEvent"))
                  (λ e. declared name (lit "sendEvent") _ _ e refl (send_event-OfType args))
                  (λ _.
                    Yields-if (str_eq name (lit "applyResources"))
                      (λ e.
                        declared name (lit "applyResources") _ _ e refl
                          (binary-Yields _ args (λ a b. apply_resources-OfType a.value b.value)))
                      (λ _.
                        Yields-if (str_eq name (lit "toDomainName"))
                          (λ e. declared name (lit "toDomainName") _ _ e refl (
                            unary-Yields _ args
                              (λ a. convert-OfType (to_domain_name host.unicode_lower) a.value)))
                          (λ _.
                            Yields-if (str_eq name (lit "toLabel"))
                              (λ e. declared name (lit "toLabel") _ _ e refl (
                                unary-Yields _ args
                                  (λ a. convert-OfType (to_label host.unicode_lower) a.value)))
                              (λ _.
                                Yields-if (str_eq name (lit "substring"))
                                  (λ e. declared name (lit "substring") _ _ e refl (
                                    binary-Yields _ args (λ a b. substring-OfType a.value b.value)))
                                  (λ _. rest name args)))))))

    pub functions-IsDeclared :
        (fuel : ℕ) (name : Str) (args : List Out)
        → Yields (IsDeclared name) (functions E host td dir remaining fuel name args)
    unfolding functions
    functions-IsDeclared zero name args = record { at = λ w h. absurd (cc h) }
    functions-IsDeclared (suc fuel) name args = record {
      at = (dispatch-IsDeclared (functions E host td dir remaining fuel) name args).at;
    }
