-- ===== src/Label/Name.antt =====
-- `ToLabelName`: the name part of a label.
use kabanero_events.Prelude.{ℕ, ◌≡◌, ◌≢◌, refl, true, ◌⊎◌, inl, inr, [], ◌∷◌, arith, Str}
use kabanero_events.Label.{
  is_label_alnum, is_valid_label_char, max_label_length, write_chars, finish, to_label_name,
}
use kabanero_events.Label.Ends.{
  IsTest, IsClosed, finish-IsClosed, write_chars-first, finish_of_IsClosed, write_chars_of_IsClosed,
}

-- The name part of a Kubernetes label: 1 to 63 bytes of [A-Za-z0-9_.-], the ends alphanumeric.
abbrev pub IsLabelName : Str → Type 0
IsLabelName = IsClosed is_label_alnum is_valid_label_char max_label_length

label_alnum_valid : (c : ℕ) → is_label_alnum c ≡ true → is_valid_label_char c ≡ true
unfolding is_label_alnum is_valid_label_char
label_alnum_valid c h = ground arith

pub label-IsTest : IsTest is_label_alnum is_valid_label_char max_label_length
unfolding is_label_alnum is_valid_label_char
label-IsTest = record {
  zero_alnum = refl;
  zero_valid = refl;
  dot_valid = refl;
  alnum_valid = label_alnum_valid;
  room = omega arith;
}

-- Whatever the input, `ToLabelName` returns the empty string exactly for the empty one, and
-- otherwise a label name that Kubernetes accepts.
pub to_label_name-IsLabelName :
    (name : Str)
    → ((name ≡ []) × (to_label_name name ≡ [])) ⊎ ((name ≢ []) × IsLabelName (to_label_name name))
unfolding to_label_name
to_label_name-IsLabelName [] = inl (refl, unfold write_chars finish in refl)
to_label_name-IsLabelName (c ∷ s) =
    let (v, f, p) = write_chars-first label-IsTest c s in
    inr (λ e. cc e, finish-IsClosed label-IsTest _ p v f)

-- A valid label name is returned unchanged, so a second conversion does nothing.
pub to_label_name_of_IsLabelName : (name : Str) → IsLabelName name → to_label_name name ≡ name
unfolding to_label_name
to_label_name_of_IsLabelName name h =
    rw (write_chars_of_IsClosed label-IsTest name h) (finish_of_IsClosed label-IsTest name h)
