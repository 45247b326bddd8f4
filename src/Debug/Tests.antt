-- ===== src/Debug/Tests.antt =====
-- Objects that are printed.
use kabanero_events.Prelude.{◌≡◌, refl, inr, true, [], ◌∷◌, lit, digits, pos}
use kabanero_events.Go.Exec.{ok}
use kabanero_events.Debug.{
  an_int, a_bool, an_array, a_map, no_element, element, no_label, label, Fmt, unstructured,
  print_object, print_elements, print_labels, print_unstructured_json, print_event_object,
  print_event,
}

abbrev fmt : Fmt
fmt = record {
  int = λ n. lit "7";
  float64 = λ x. digits x;
  type_name = λ o. lit "T";
  marshal_indent = λ o indent. inr (lit "{}");
}

printed :
    print_object fmt
      (a_map (
        label
          (lit "a")
          (an_array (element (an_int (pos 7)) (element (a_bool true) no_element)))
          no_label))
      []
    ≡ lit "\nkey: a type: T| "
      ∷ lit "\n    index:0, type T, "
      ∷ lit "7"
      ∷ lit "\n    index:1, type T, "
      ∷ lit "true"
      ∷ []
unfolding print_object print_elements print_labels digits
printed = refl

event :
    print_event fmt (lit "ADDED") (lit "U") (unstructured (a_map no_label))
    ≡ ok (lit "event type ADDED, object type is U\n" ∷ lit "{}\n" ∷ lit "\n" ∷ [])
unfolding print_event print_event_object print_unstructured_json
event = refl
