-- ===== src/Trigger/Variable/Declared.antt =====
-- The type with which a variable is declared.
use kabanero_events.Prelude.{
  ℕ, ◌≡◌, refl, ap, ◌∙◌, ◌↔◌, Bool, true, false, Str, lit, str_eq, str_eq_iff, ℤ, if◌then◌else◌,
}
use kabanero_events.Go.Value.{Val}
use kabanero_events.Go.Exec.{
  World, Exec, ok, panic, update, pure, lift, ◌>>=◌, ◌>>◌, store, type_unusable, cast_failed,
}
use kabanero_events.Go.Bind.{bind-eq-ok, pure-eq-ok, throw-ne-ok, lift-eq-ok}
use kabanero_events.Trigger.Engine.{
  Engine, Out, CelType, int_type, bool_type, double_type, string_type, list_type, map_type,
}
use kabanero_events.Trigger.Variable.{
  is_int64, is_bool, is_float64, is_string, is_map, is_nil, assign, assign_map, assign_other,
  create_one_variable_helper,
}

-- A CEL type, its name and the Go values of the variables that are declared with it. The Go type
-- of a list is not looked at.
pub data HasType : Str → Val → CelType → Type 0 where
  an_int : {n : ℤ} → HasType (lit "int") (Val.int64 n) int_type
  a_bool : {b : Bool} → HasType (lit "bool") (Val.bool b) bool_type
  a_double : {x : ℕ} → HasType (lit "double") (Val.float64 x) double_type
  a_string : {s : Str} → HasType (lit "string") (Val.string s) string_type
  a_list : {v : Val} → HasType (lit "list") v list_type
  a_map : {v : Val} → is_map v ≡ true → HasType (lit "map") v map_type

int-HasType : (v : Val) → is_int64 v ≡ true → HasType (lit "int") v int_type
int-HasType (Val.int64 n) h = an_int
int-HasType _ h = absurd (cc h)

bool-HasType : (v : Val) → is_bool v ≡ true → HasType (lit "bool") v bool_type
bool-HasType (Val.bool b) h = a_bool
bool-HasType _ h = absurd (cc h)

double-HasType : (v : Val) → is_float64 v ≡ true → HasType (lit "double") v double_type
double-HasType (Val.float64 x) h = a_double
double-HasType _ h = absurd (cc h)

string-HasType : (v : Val) → is_string v ≡ true → HasType (lit "string") v string_type
string-HasType (Val.string s) h = a_string
string-HasType _ h = absurd (cc h)

module _ (E : Engine) (env : E.Env) (name : Str) (out : Out) (variables : ℕ) where
  open E use {Env, extend}

  -- An action that, where it returns, has declared the name with the type of the value.
  record Declares (m : Exec Env) : Type 0 where
    at :
        (w : World) {w' : World} {env' : Env}
        → m w ≡ (ok env', w')
        → (t : CelType) × HasType out.type_name out.value t × (extend env name t ≡ ok env')

  Declares-if :
      (b : Bool) {m n : Exec Env}
      → (b ≡ true → Declares m)
      → (b ≡ false → Declares n)
      → Declares (if b then m else n)
  Declares-if true hm hn = hm refl
  Declares-if false hm hn = hn refl

  assign-Declares :
      (castable : Bool) (t : CelType)
      → (castable ≡ true → HasType out.type_name out.value t)
      → Declares (assign E env name out.value variables true castable t)
  unfolding assign ◌>>=◌
  assign-Declares false t h = record { at = λ w p. absurd (throw-ne-ok cast_failed w p) }
  assign-Declares true t h = record {
    at = λ w p.
        let (env₁, w₁, a, q) =
          bind-eq-ok (lift (extend env name t))
            (λ env'. store variables name out.value >> pure env') w p in
        let (_, w₂, _, r) = bind-eq-ok (store variables name out.value) (λ _. pure env₁) w₁ q in
        (t, h refl, (lift-eq-ok (extend env name t) w a).1 ∙ ap ok (pure-eq-ok env₁ w₂ r).0);
  }

  assign_map-Declares :
      out.type_name ≡ lit "map" → Declares (assign_map E env name out.value variables true)
  unfolding assign_map
  assign_map-Declares e =
      Declares-if (is_nil out.value)
        (λ _. record { at = λ w h. absurd (cc ((lift-eq-ok panic w h).1)) })
        (λ _. assign-Declares (is_map out.value) map_type (λ h. rw e (a_map h)))

  assign_other-Declares : Declares (assign_other E env name out.value variables true)
  unfolding assign_other
  assign_other-Declares = record { at = λ w h. absurd (throw-ne-ok type_unusable w h) }

  named : (s : Str) → str_eq out.type_name s ≡ true → out.type_name ≡ s
  named s e = (str_eq_iff out.type_name s).0 e

  helper-Declares : Declares (create_one_variable_helper E env name out variables true)
  unfolding create_one_variable_helper
  helper-Declares =
      Declares-if (str_eq out.type_name (lit "int"))
        (λ e.
          assign-Declares (is_int64 out.value) int_type
            (λ h. rw (named (lit "int") e) (int-HasType out.value h)))
        (λ _.
          Declares-if (str_eq out.type_name (lit "bool"))
            (λ e.
              assign-Declares (is_bool out.value) bool_type
                (λ h. rw (named (lit "bool") e) (bool-HasType out.value h)))
            (λ _.
              Declares-if (str_eq out.type_name (lit "double"))
                (λ e.
                  assign-Declares (is_float64 out.value) double_type
                    (λ h. rw (named (lit "double") e) (double-HasType out.value h)))
                (λ _.
                  Declares-if (str_eq out.type_name (lit "string"))
                    (λ e.
                      assign-Declares (is_string out.value) string_type
                        (λ h. rw (named (lit "string") e) (string-HasType out.value h)))
                    (λ _.
                      Declares-if (str_eq out.type_name (lit "list"))
                        (λ e.
                          assign-Declares true list_type (λ h. rw (named (lit "list") e) a_list))
                        (λ _.
                          Declares-if (str_eq out.type_name (lit "map"))
                            (λ e. assign_map-Declares (named (lit "map") e))
                            (λ _. assign_other-Declares))))))

module _ (E : Engine) (env env' : E.Env) (name : Str) (variables : ℕ) where
  abbrev stored : World → Val → World
  stored w v = record w { heap = update w.heap variables name v }

  not_nil : (v : Val) → is_map v ≡ true → is_nil v ≡ false
  not_nil Val.nil h = absurd (cc h)
  not_nil (Val.object _) h = refl
  not_nil (Val.headers _) h = refl
  not_nil (Val.dict _) h = refl
  not_nil _ h = refl

  HasType-ok :
      {s : Str} {v : Val} {t : CelType} (w : World)
      → HasType s v t
      → E.extend env name t ≡ ok env'
      → create_one_variable_helper E env name (record { type_name = s; value = v }) variables true w
        ≡ (ok env', stored w v)
  unfolding create_one_variable_helper assign assign_map ◌>>=◌ store str_eq
  HasType-ok w an_int e = rw e refl
  HasType-ok w a_bool e = rw e refl
  HasType-ok w a_double e = rw e refl
  HasType-ok w a_string e = rw e refl
  HasType-ok w a_list e = rw e refl
  HasType-ok w (a_map {v} h) e = rw (not_nil v h, h, e) refl

  -- `createOneVariableHelper` declares a new identifier exactly when CEL's name of the value's type
  -- is one of the six that it knows, the value is of the Go type that belongs to it (for a list,
  -- any), and the environment can be extended by the name with this type: then it returns this
  -- environment.
  pub create_one_variable_helper_iff :
      (out : Out) (w : World)
      → ((w' : World) × (create_one_variable_helper E env name out variables true w
            ≡ (ok env', w')))
        ↔ ((t : CelType) × HasType out.type_name out.value t × (E.extend env name t ≡ ok env'))
  create_one_variable_helper_iff out w = (
    λ (w', h). (helper-Declares E env name out variables).at w h,
    λ (t, h, e). (stored w out.value, HasType-ok w h e),
  )
