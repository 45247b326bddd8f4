-- ===== src/Trigger/Convert.antt =====
-- pkg/trigger/trigger.go: values between Go and CEL: `convertToRefVal` and `convertToHeaderMap`.
pub mod Headers
use kabanero_events.Prelude.{
  ℕ, zero, suc, ◌-◌, Bool, true, false, ◌⊎◌, inl, inr, Option, none, some, List, [], ◌∷◌, ◌++◌, Str,
  lit, str_eq, length, take, leb, get_or, ℤ, pos, negsuc, if◌then◌else◌,
}
use kabanero_events.Go.Assoc.{lookup}
use kabanero_events.Go.Value.{Yaml, Seq, Object, get, Val, Array, Dict}
use kabanero_events.Go.Exec.{
  Exec, Error, Result, ok, err, panic, out_of_fuel, World, pure, throw, lift, of_sum, reads,
  recover, ◌>>=◌, ◌>>◌, load, store, alloc, bad_argument, no_function, no_input, input_not_string,
  no_output, output_not_string, no_body, body_not_list, output_not_set, unsupported_type,
  not_header_map, not_filterable,
}
use kabanero_events.Trigger.Engine.{Engine, Out, Calls, string_type, any_type}

abbrev pub text : Str → Out
text s = record { type_name = lit "string"; value = Val.string s }

-- `convertToRefVal`. `reflect.ValueOf(nil).Type()` panics.
unfoldable pub convert_to_ref_val : Val → Result Out
convert_to_ref_val Val.nil = panic
convert_to_ref_val (Val.object a) = ok (record { type_name = lit "map"; value = Val.object a })
convert_to_ref_val (Val.headers h) = ok (record { type_name = lit "map"; value = Val.headers h })
convert_to_ref_val (Val.dict d) = ok (record { type_name = lit "map"; value = Val.dict d })
convert_to_ref_val (Val.array a) = ok (record { type_name = lit "list"; value = Val.array a })
convert_to_ref_val (Val.bool b) = ok (record { type_name = lit "bool"; value = Val.bool b })
convert_to_ref_val (Val.int64 n) = ok (record { type_name = lit "int"; value = Val.int64 n })
convert_to_ref_val (Val.float64 x) = ok (record { type_name = lit "double"; value = Val.float64 x })
convert_to_ref_val (Val.string s) = ok (text s)
convert_to_ref_val (Val.other _) = err unsupported_type

-- The strings of an array, each of the Go type `string`.
strings_of : Array → Result (List Str)
strings_of Array.end = ok []
strings_of (Array.item (Val.string s) rest) = elim (strings_of rest) [
  | ok strings ↦ ok (s ∷ strings)
  | err e ↦ err e
  | panic ↦ panic
  | out_of_fuel ↦ out_of_fuel
]
strings_of (Array.item _ rest) = err not_header_map

-- The values of one header; `Type()` of a nil entry panics.
header_strings : Val → Result (List Str)
unfolding strings_of
header_strings Val.nil = panic
header_strings (Val.array a) = strings_of a
header_strings _ = err not_header_map

header_entry :
    Str → Result (List Str) → Result (List (Str × List Str)) → Result (List (Str × List Str))
header_entry key (ok values) (ok rest) = ok ((key, values) ∷ rest)
header_entry key (ok values) r = r
header_entry key (err e) _ = err e
header_entry key panic _ = panic
header_entry key out_of_fuel _ = out_of_fuel

headers_of_entries : List (Str × Val) → Result (List (Str × List Str))
unfolding header_strings header_entry
headers_of_entries [] = ok []
headers_of_entries ((key, value) ∷ rest) =
    header_entry key (header_strings value) (headers_of_entries rest)

headers_of_dict : Dict → Result (List (Str × List Str))
unfolding header_strings header_entry
headers_of_dict Dict.empty = ok []
headers_of_dict (Dict.field (Val.string key) value rest) =
    header_entry key (header_strings value) (headers_of_dict rest)
headers_of_dict (Dict.field _ value rest) = err not_header_map

-- `convertToHeaderMap`
unfoldable pub convert_to_header_map : World → Val → Result (List (Str × List Str))
unfolding headers_of_entries headers_of_dict
convert_to_header_map w Val.nil = ok []
convert_to_header_map w (Val.headers h) = ok h
convert_to_header_map w (Val.object a) = headers_of_entries (get_or w.heap a [])
convert_to_header_map w (Val.dict d) = headers_of_dict d
convert_to_header_map w _ = err not_header_map

abbrev pub array_of : List Str → Array
array_of [] = Array.end
array_of (s ∷ ss) = Array.item (Val.string s) (array_of ss)
