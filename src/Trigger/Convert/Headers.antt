-- ===== src/Trigger/Convert/Headers.antt =====
-- Headers that went through JSON or CEL are read back.
use kabanero_events.Prelude.{◌≡◌, refl, ap, ◌∙◌, ℕ, List, [], ◌∷◌, Str, get_or}
use kabanero_events.Go.Value.{Val, Dict}
use kabanero_events.Go.Exec.{World, ok}
use kabanero_events.Trigger.Convert.{
  array_of, strings_of, header_strings, header_entry, headers_of_entries, headers_of_dict,
  convert_to_header_map,
}

-- Headers as the entries of a `map[string]interface{}`.
abbrev pub entries_of : List (Str × List Str) → List (Str × Val)
entries_of [] = []
entries_of ((key, values) ∷ header) = (key, Val.array (array_of values)) ∷ entries_of header

-- Headers as another map, with string keys.
abbrev pub dict_of : List (Str × List Str) → Dict
dict_of [] = Dict.empty
dict_of ((key, values) ∷ header) =
    Dict.field (Val.string key) (Val.array (array_of values)) (dict_of header)

strings_of-array_of : (values : List Str) → strings_of (array_of values) ≡ ok values
unfolding strings_of
strings_of-array_of [] = refl
strings_of-array_of (s ∷ values) = rw (strings_of-array_of values) refl

headers_of_entries-entries_of :
    (header : List (Str × List Str)) → headers_of_entries (entries_of header) ≡ ok header
unfolding headers_of_entries header_strings header_entry
headers_of_entries-entries_of [] = refl
headers_of_entries-entries_of ((key, values) ∷ header) =
    rw (strings_of-array_of values, headers_of_entries-entries_of header) refl

headers_of_dict-dict_of :
    (header : List (Str × List Str)) → headers_of_dict (dict_of header) ≡ ok header
unfolding headers_of_dict header_strings header_entry
headers_of_dict-dict_of [] = refl
headers_of_dict-dict_of ((key, values) ∷ header) =
    rw (strings_of-array_of values, headers_of_dict-dict_of header) refl

-- `convertToHeaderMap` gives the headers back from each map that stands for them: from a
-- `map[string]interface{}` with arrays of strings, from another map with string keys, and from
-- the headers themselves.
pub convert_to_header_map-entries_of :
    (header : List (Str × List Str)) (w : World) (a : ℕ)
    → get_or w.heap a [] ≡ entries_of header
    → (convert_to_header_map w (Val.object a) ≡ ok header)
      × (convert_to_header_map w (Val.dict (dict_of header)) ≡ ok header)
      × (convert_to_header_map w (Val.headers header) ≡ ok header)
unfolding convert_to_header_map
convert_to_header_map-entries_of header w a h = (
  ap headers_of_entries h ∙ headers_of_entries-entries_of header,
  headers_of_dict-dict_of header,
  refl,
)
