-- ===== src/Label.antt =====
-- pkg/utils/kube_util.go: `ToDomainName`, `ToLabelName`, `ToLabel` and their character tests.
-- A Go string is its bytes. `strings.ToLower` on a string with a byte outside ASCII goes by the
-- Unicode tables, which are a parameter, `unicode_lower`.
pub mod Ends
pub mod Name
pub mod Domain
pub mod Whole
mod Tests
use kabanero_events.Prelude.{
  ℕ, zero, suc, ◌-◌, Bool, true, false, not, ◌&&◌, ◌||◌, Option, none, some, List, [], ◌∷◌, ◌++◌,
  map, ltb, leb, ◌==◌, if◌then◌else◌, Str, lit, length, get_or, take, drop, str_eq, ◌+◌,
}

-- max length of a label in Kubernetes
abbrev pub max_label_length : ℕ
max_label_length = 63

-- max length of a name in Kubernetes
abbrev pub max_name_length : ℕ
max_name_length = 253

abbrev pub within : ℕ → ℕ → ℕ → Bool
within lo hi ch = leb lo ch && leb ch hi

-- the tests `(ch >= 'a' && ch <= 'z') || (ch >= '0' && ch <= '9')`
unfoldable pub is_domain_alnum : ℕ → Bool
is_domain_alnum ch = within b'a' b'z' ch || within b'0' b'9' ch

unfoldable pub is_label_alnum : ℕ → Bool
is_label_alnum ch = within b'a' b'z' ch || within b'A' b'Z' ch || within b'0' b'9' ch

unfoldable pub is_valid_domain_name_char : ℕ → Bool
is_valid_domain_name_char ch =
    ch == b'.' || ch == b'-' || within b'a' b'z' ch || within b'0' b'9' ch

unfoldable pub is_valid_label_char : ℕ → Bool
is_valid_label_char ch =
    ch == b'.'
    || ch == b'-'
    || ch == b'_'
    || within b'a' b'z' ch
    || within b'A' b'Z' ch
    || within b'0' b'9' ch

-- What one round of the loop over the characters writes; the flag is `i == 0`.
unfoldable pub write_char : (ℕ → Bool) → (ℕ → Bool) → Bool → ℕ → Str
write_char is_alnum is_valid first ch =
    if first
    then (if is_alnum ch then ch ∷ [] else b'0' ∷ (if is_valid ch then ch ∷ [] else b'.' ∷ []))
    else (if is_valid ch then ch ∷ [] else b'.' ∷ [])

unfoldable pub write_chars : (ℕ → Bool) → (ℕ → Bool) → Bool → Str → Str
write_chars is_alnum is_valid first [] = []
write_chars is_alnum is_valid first (ch ∷ chars) =
    write_char is_alnum is_valid first ch ++ write_chars is_alnum is_valid false chars

unfoldable pub clip : ℕ → Str → Str
clip max_length s = if ltb max_length (length s) then take max_length s else s

-- The last character: kept if alphanumeric, else followed or replaced by '0'.
unfoldable pub close : (ℕ → Bool) → ℕ → Str → Str
close is_alnum max_length s =
    let n = length s in
    if is_alnum (get_or s (n - 1) 0)
    then s
    else if ltb n (max_length - 1)
    then s ++ lit "0"
    else take (n - 2) s ++ lit "0"

-- From `strLen := len(retStr)` to the end, which both functions share.
unfoldable pub finish : (ℕ → Bool) → ℕ → Str → Str
finish is_alnum max_length s =
    if length s == 0 then s else close is_alnum max_length (clip max_length s)

-- `strings.Index(s, "..")`.
unfoldable pub index_dots : Str → Option ℕ
index_dots [] = none
index_dots (c ∷ []) = none
index_dots (c ∷ d ∷ s) =
    if c == b'.' && d == b'.'
    then some 0
    else elim (index_dots (d ∷ s)) [ none ↦ none | some i ↦ some (suc i) ]

-- `strings.ReplaceAll(s, "..", ".")`.
unfoldable pub replace_dots : Str → Str
replace_dots [] = []
replace_dots (c ∷ []) = c ∷ []
replace_dots (c ∷ d ∷ s) = elim (c == b'.' && d == b'.') [
  | true ↦ b'.' ∷ replace_dots s
  | false ↦ c ∷ replace_dots (d ∷ s)
]

-- `strings.Index(s, "..") > 0`
unfoldable pub has_dots : Str → Bool
has_dots s = elim (index_dots s) [ none ↦ false | some i ↦ ltb 0 i ]

-- The loop, on fuel: each round makes the string shorter, so its length is enough.
unfoldable pub collapse : ℕ → Str → Str
collapse zero s = s
collapse (suc fuel) s = elim (has_dots s) [ true ↦ collapse fuel (replace_dots s) | false ↦ s ]

unfoldable pub to_label_name : Str → Str
to_label_name name =
    finish is_label_alnum max_label_length
      (write_chars is_label_alnum is_valid_label_char true name)

unfoldable pub is_ascii : Str → Bool
is_ascii [] = true
is_ascii (c ∷ s) = ltb c 128 && is_ascii s

unfoldable pub lower : ℕ → ℕ
lower c = if within b'A' b'Z' c then c + 32 else c

-- `strings.Index(s, "/")`.
unfoldable pub index_slash : Str → Option ℕ
index_slash [] = none
index_slash (c ∷ s) =
    let rest = index_slash s in
    if c == b'/' then some 0 else elim rest [ none ↦ none | some i ↦ some (suc i) ]

-- What `ToLabel` makes of the two converted parts: the "nolabel" is assigned, and `ret` stays "".
unfoldable pub join_label : Str → Str → Str
join_label new_prefix new_label =
    if str_eq new_prefix []
    then (if str_eq new_label [] then [] else new_label)
    else if str_eq new_label []
    then new_prefix
    else new_prefix ++ lit "/" ++ new_label

-- The prefix and the label of the input.
unfoldable pub split_label : Str → Str × Str
split_label input = elim (index_slash input) [
  | none ↦ ([], input)
  | some i ↦
      if i == length input - 1 then (take i input, []) else (take i input, drop (i + 1) input)
]

module _ (unicode_lower : Str → Str) where
  -- `strings.ToLower`.
  unfoldable pub to_lower : Str → Str
  to_lower s = if is_ascii s then map lower s else unicode_lower s

  unfoldable pub to_domain_name : Str → Str
  to_domain_name name =
      let written = write_chars is_domain_alnum is_valid_domain_name_char true (to_lower name) in
      finish is_domain_alnum max_name_length (collapse (length written) written)

  unfoldable pub to_label : Str → Str
  to_label input =
      let (prefix, label) = split_label input in
      join_label (to_domain_name prefix) (to_label_name label)
