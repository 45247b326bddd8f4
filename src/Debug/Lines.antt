-- ===== src/Debug/Lines.antt =====
-- How many lines `printObject` logs.
use kabanero_events.Prelude.{◌≡◌, refl, arith, ℕ, suc, ◌+◌, ◌++◌, Str, lit, length, length-append}
use kabanero_events.Debug.{
  Printed, an_int, a_bool, a_float64, a_string, an_array, a_map, of_other_type, Elements,
  no_element, element, Labels, no_label, label, Fmt, print_object, print_elements, print_labels,
}

-- One line for each value that is no array and no map, and one for each element and each key.
mutual
  pub lines_of : Printed → ℕ
  lines_of (an_array elements) = lines_of_elements elements
  lines_of (a_map labels) = lines_of_labels labels
  lines_of _ = 1

  pub lines_of_elements : Elements → ℕ
  lines_of_elements no_element = 0
  lines_of_elements (element elem elements) = suc (lines_of elem + lines_of_elements elements)

  pub lines_of_labels : Labels → ℕ
  lines_of_labels no_label = 0
  lines_of_labels (label key val labels) = suc (lines_of val + lines_of_labels labels)

module _ (fmt : Fmt) where
  mutual
    unfolding print_object print_elements print_labels lines_of lines_of_elements lines_of_labels

    pub length-print_object :
        (obj : Printed) (indent : Str) → length (print_object fmt obj indent) ≡ lines_of obj
    length-print_object (an_int n) indent = refl
    length-print_object (a_bool b) indent = refl
    length-print_object (a_float64 x) indent = refl
    length-print_object (a_string s) indent = refl
    length-print_object (an_array elements) indent = length-print_elements elements 0 indent
    length-print_object (a_map labels) indent = length-print_labels labels indent
    length-print_object (of_other_type t val) indent = refl

    length-print_elements :
        (elements : Elements) (index : ℕ) (indent : Str)
        → length (print_elements fmt elements index indent) ≡ lines_of_elements elements
    length-print_elements no_element index indent = refl
    length-print_elements (element elem elements) index indent = omega (
      arith,
      length-append (print_object fmt elem (indent ++ lit "    "))
          (print_elements fmt elements (suc index) indent),
      length-print_object elem (indent ++ lit "    "),
      length-print_elements elements (suc index) indent,
    )

    length-print_labels :
        (labels : Labels) (indent : Str)
        → length (print_labels fmt labels indent) ≡ lines_of_labels labels
    length-print_labels no_label indent = refl
    length-print_labels (label key val labels) indent = omega (
      arith,
      length-append (print_object fmt val (indent ++ lit "    ")) (print_labels fmt labels indent),
      length-print_object val (indent ++ lit "    "),
      length-print_labels labels indent,
    )
