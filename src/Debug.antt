-- ===== src/Debug.antt =====
-- pkg/utils/debug_util.go: what is logged of an event, of a decoded object and of pods. The verbs
-- of fmt on values of any type and `json.MarshalIndent` are parameters.
pub mod Lines
mod Tests
use kabanero_events.Prelude.{
  ◌≡◌, refl, ap, ◌∙◌, arith, ℕ, suc, ◌+◌, ◌⊎◌, inl, inr, Bool, List, [], ◌∷◌, ◌++◌, Str, lit,
  digits, length, length-append, ℤ, if◌then◌else◌,
}
use kabanero_events.Go.Exec.{Error, Result, ok, panic}

-- The values that `printObject` tells apart; a type that it does not know stands by its `%T` and `%s`.
mutual
  pub data Printed : Type 0 where
    an_int : ℤ → Printed
    a_bool : Bool → Printed
    a_float64 : ℕ → Printed
    a_string : Str → Printed
    an_array : Elements → Printed
    a_map : Labels → Printed
    of_other_type : Str → Str → Printed

  pub data Elements : Type 0 where
    no_element : Elements
    element : Printed → Elements → Elements

  pub data Labels : Type 0 where
    no_label : Labels
    label : Str → Printed → Labels → Labels

-- `%d`, `%f` and `%T`, and `json.MarshalIndent` with no prefix.
pub record Fmt : Type 0 where
  pub int : ℤ → Str
  pub float64 : ℕ → Str
  pub type_name : Printed → Str
  pub marshal_indent : Printed → Str → Error ⊎ Str

-- The object of a watch event: an `*unstructured.Unstructured`, or another type by its `%T` and `%s`.
pub data EventObject : Type 0 where
  unstructured : Printed → EventObject
  not_unstructured : Str → Str → EventObject

module _ (fmt : Fmt) where
  -- The lines that are logged.
  mutual
    pub print_object : Printed → Str → List Str
    print_object (an_int n) indent = fmt.int n ∷ []
    print_object (a_bool b) indent = (if b then lit "true" else lit "false") ∷ []
    print_object (a_float64 x) indent = fmt.float64 x ∷ []
    print_object (a_string s) indent = s ∷ []
    print_object (an_array elements) indent = print_elements elements 0 indent
    print_object (a_map labels) indent = print_labels labels indent
    print_object (of_other_type t val) indent =
        (lit "\n" ++ indent ++ lit "type: " ++ t ++ lit " val: " ++ val) ∷ []

    pub print_elements : Elements → ℕ → Str → List Str
    print_elements no_element index indent = []
    print_elements (element elem elements) index indent =
        (lit "\n"
            ++ indent
            ++ lit "index:"
            ++ digits index
            ++ lit ", type "
            ++ fmt.type_name elem
            ++ lit ", ")
          ∷ print_object elem (indent ++ lit "    ")
        ++ print_elements elements (suc index) indent

    pub print_labels : Labels → Str → List Str
    print_labels no_label indent = []
    print_labels (label key val labels) indent =
        (lit "\n" ++ indent ++ lit "key: " ++ key ++ lit " type: " ++ fmt.type_name val ++ lit "| ")
          ∷ print_object val (indent ++ lit "    ")
        ++ print_labels labels indent

  -- `klog.Fatalf` where the object cannot be marshalled.
  unfoldable pub print_unstructured_json : Printed → Str → Result (List Str)
  print_unstructured_json obj indent = elim (fmt.marshal_indent obj indent) [
    | inl e ↦ panic
    | inr text ↦ ok ((text ++ lit "\n") ∷ [])
  ]

  between : List Str → Result (List Str) → List Str → Result (List Str)
  between before (ok lines) after = ok (before ++ lines ++ after)
  between before r after = r

  unfoldable pub print_event_object : EventObject → Str → Result (List Str)
  unfolding between
  print_event_object (unstructured obj) indent =
      between [] (print_unstructured_json obj indent) (lit "\n" ∷ [])
  print_event_object (not_unstructured t val) indent =
      ok ((indent ++ lit "not Unstructured: type: " ++ t ++ lit " val: " ++ val ++ lit "\n") ∷ [])

  -- The type of the event, and its object with the `%T` of it.
  unfoldable pub print_event : Str → Str → EventObject → Result (List Str)
  unfolding between
  print_event event_type object_type obj =
      between
        ((lit "event type " ++ event_type ++ lit ", object type is " ++ object_type ++ lit "\n")
          ∷ [])
        (print_event_object obj (lit "    ")) []

-- The names of pods.
unfoldable pub print_pods {ℓ} : {Pod : Type ℓ} → (Pod → Str) → List Pod → List Str
print_pods name [] = []
print_pods name (pod ∷ pods) = name pod ∷ print_pods name pods
