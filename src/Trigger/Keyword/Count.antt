-- ===== src/Trigger/Keyword/Count.antt =====
-- `countKeywords` finds exactly the keywords that an object has.
use Prim.Native.Nat.{bit_or}
use kabanero_events.Prelude.{
  ℕ, zero, suc, ◌+◌, ◌<◌, ◌≡◌, refl, sym, ap, ◌∙◌, Bool, true, false, ◌&&◌, ◌||◌, ◌⊎◌, inl, inr,
  none, some, Str, lit, str_eq, str_eq_iff, str_eq_comm, ltb, arith, Bool-cases,
}
use kabanero_events.Go.Assoc.{lookup}
use kabanero_events.Go.Value.{Yaml, Object, empty, field, string, get, has_key}
use kabanero_events.Trigger.Keyword.{
  if_flag, switch_flag, default_flag, body_flag, keywords, count_key, count_from, count_keywords,
  has_flag,
}

pub data Keyword : Type 0 where
  if_keyword switch_keyword default_keyword body_keyword : Keyword

abbrev pub name : Keyword → Str
name if_keyword = lit "if"
name switch_keyword = lit "switch"
name default_keyword = lit "default"
name body_keyword = lit "body"

abbrev pub mask : Keyword → ℕ
mask if_keyword = if_flag
mask switch_keyword = switch_flag
mask default_keyword = default_flag
mask body_keyword = body_flag

abbrev same : Keyword → Keyword → Bool
same if_keyword if_keyword = true
same switch_keyword switch_keyword = true
same default_keyword default_keyword = true
same body_keyword body_keyword = true
same _ _ = false

-- The four flags are bits of a number below 16: their laws hold by a table.
holds_up_to : (ℕ → Bool) → ℕ → Bool
holds_up_to test zero = true
holds_up_to test (suc bound) = holds_up_to test bound && test bound

test_of_holds :
    (test : ℕ → Bool) (i bound : ℕ) → i < bound → holds_up_to test bound ≡ true → test i ≡ true
unfolding holds_up_to
test_of_holds test i zero small all = absurd (omega arith)
test_of_holds test i (suc bound) small all = ground (arith, test_of_holds test i bound)

bool_eq : Bool → Bool → Bool
bool_eq true b = b
bool_eq false true = false
bool_eq false false = true

bool_eq_sound : (a b : Bool) → bool_eq a b ≡ true → a ≡ b
unfolding bool_eq
bool_eq_sound true b h = sym h
bool_eq_sound false true h = cc
bool_eq_sound false false h = refl

bit_test : Keyword → Keyword → ℕ → Bool
bit_test j k f =
    bool_eq (has_flag (bit_or f (mask j)) (mask k)) (has_flag f (mask k) || same j k)
    && ltb (bit_or f (mask j)) 16

bit_table : (j k : Keyword) → holds_up_to (bit_test j k) 16 ≡ true
unfolding holds_up_to bit_test bool_eq has_flag
bit_table if_keyword if_keyword = refl
bit_table if_keyword switch_keyword = refl
bit_table if_keyword default_keyword = refl
bit_table if_keyword body_keyword = refl
bit_table switch_keyword if_keyword = refl
bit_table switch_keyword switch_keyword = refl
bit_table switch_keyword default_keyword = refl
bit_table switch_keyword body_keyword = refl
bit_table default_keyword if_keyword = refl
bit_table default_keyword switch_keyword = refl
bit_table default_keyword default_keyword = refl
bit_table default_keyword body_keyword = refl
bit_table body_keyword if_keyword = refl
bit_table body_keyword switch_keyword = refl
bit_table body_keyword default_keyword = refl
bit_table body_keyword body_keyword = refl

and_left : (a b : Bool) → (a && b) ≡ true → a ≡ true
and_left a b h = ground arith

and_right : (a b : Bool) → (a && b) ≡ true → b ≡ true
and_right a b h = ground arith

in_range : (n : ℕ) → ltb n 16 ≡ true → n < 16
in_range n h = ground arith

add_flag :
    (j k : Keyword) (f : ℕ)
    → f < 16
    → (has_flag (bit_or f (mask j)) (mask k) ≡ (has_flag f (mask k) || same j k))
      × (bit_or f (mask j) < 16)
unfolding bit_test
add_flag j k f h =
    let t = test_of_holds (bit_test j k) f 16 h (bit_table j k) in
    (bool_eq_sound _ _ (and_left _ _ t), in_range _ (and_right _ _ t))

-- A key is one of the keywords, or none of them.
classify :
    (key : Str)
    → ((lookup key keywords ≡ none) × ((k : Keyword) → str_eq key (name k) ≡ false))
      ⊎ ((j : Keyword) × (lookup key keywords ≡ some (mask j)) × (key ≡ name j))
unfolding lookup
classify key = elim (Bool-cases (str_eq (lit "if") key)) [
  | inl e ↦ inr (if_keyword, rw e, sym ((str_eq_iff _ _).0 e))
  | inr a ↦ elim (Bool-cases (str_eq (lit "switch") key)) [
    | inl e ↦ inr (switch_keyword, rw (a, e), sym ((str_eq_iff _ _).0 e))
    | inr b ↦ elim (Bool-cases (str_eq (lit "default") key)) [
      | inl e ↦ inr (default_keyword, rw (a, b, e), sym ((str_eq_iff _ _).0 e))
      | inr c ↦ elim (Bool-cases (str_eq (lit "body") key)) [
        | inl e ↦ inr (body_keyword, rw (a, b, c, e), sym ((str_eq_iff _ _).0 e))
        | inr d ↦ inl (rw (a, b, c, d), none_of a b c d)
      ]
    ]
  ]
]
  where
    none_of :
        str_eq (lit "if") key ≡ false
        → str_eq (lit "switch") key ≡ false
        → str_eq (lit "default") key ≡ false
        → str_eq (lit "body") key ≡ false
        → (k : Keyword) → str_eq key (name k) ≡ false
    none_of a b c d if_keyword = str_eq_comm key (lit "if") ∙ a
    none_of a b c d switch_keyword = str_eq_comm key (lit "switch") ∙ b
    none_of a b c d default_keyword = str_eq_comm key (lit "default") ∙ c
    none_of a b c d body_keyword = str_eq_comm key (lit "body") ∙ d

str_eq-name : (j k : Keyword) → str_eq (name j) (name k) ≡ same j k
unfolding str_eq
str_eq-name if_keyword if_keyword = refl
str_eq-name if_keyword switch_keyword = refl
str_eq-name if_keyword default_keyword = refl
str_eq-name if_keyword body_keyword = refl
str_eq-name switch_keyword if_keyword = refl
str_eq-name switch_keyword switch_keyword = refl
str_eq-name switch_keyword default_keyword = refl
str_eq-name switch_keyword body_keyword = refl
str_eq-name default_keyword if_keyword = refl
str_eq-name default_keyword switch_keyword = refl
str_eq-name default_keyword default_keyword = refl
str_eq-name default_keyword body_keyword = refl
str_eq-name body_keyword if_keyword = refl
str_eq-name body_keyword switch_keyword = refl
str_eq-name body_keyword default_keyword = refl
str_eq-name body_keyword body_keyword = refl

has_key-step :
    (key n : Str) (value : Yaml) (rest : Object)
    → has_key n (field (string key) value rest) ≡ (str_eq key n || has_key n rest)
unfolding has_key get
has_key-step key n value rest = ground arith

count_key-none : (key : Str) (s : ℕ × ℕ) → lookup key keywords ≡ none → count_key (string key) s ≡ s
unfolding count_key
count_key-none key (count, f) e = ground (arith, e)

count_key-some :
    (key : Str) (count f m : ℕ)
    → lookup key keywords ≡ some m
    → count_key (string key) (count, f) ≡ (count + 1, bit_or f m)
unfolding count_key
count_key-some key count f m e = ground (arith, e)

abbrev is_text : Yaml → Bool
is_text (string _) = true
is_text _ = false

count_key_other : (key : Yaml) (s : ℕ × ℕ) → is_text key ≡ false → count_key key s ≡ s
unfolding count_key
count_key_other (string _) s h = cc
count_key_other _ s h = refl

has_key_other :
    (n : Str) (key value : Yaml) (rest : Object)
    → is_text key ≡ false
    → has_key n (field key value rest) ≡ has_key n rest
unfolding has_key get
has_key_other n (string _) value rest h = cc
has_key_other n _ value rest h = refl

or_assoc : (a b c : Bool) → ((a || b) || c) ≡ (a || (b || c))
or_assoc true b c = refl
or_assoc false b c = refl

count_from-flag :
    (object : Object) (k : Keyword) (count f : ℕ)
    → f < 16
    → has_flag (count_from object (count, f)).1 (mask k)
      ≡ (has_flag f (mask k) || has_key (name k) object)
unfolding count_from
count_from-flag empty k count f h = unfold has_key get in ground arith
count_from-flag (field (string key) value rest) k count f h = elim (classify key) [
  | inl (e, n) ↦
      rw (count_key-none key (count, f) e, count_from, has_key-step key (name k) value rest, n k)
        (count_from-flag rest k count f h)
  | inr (j, e, n) ↦
      let (flags, small) = add_flag j k f h in
      rw
        (
          count_key-some key count f (mask j) e,
          count_from,
          has_key-step key (name k) value rest,
          n,
          str_eq-name j k,
        )
        (count_from-flag rest k (count + 1) (bit_or f (mask j)) small
          ∙ ap (λ b. b || has_key (name k) rest) flags
          ∙ or_assoc (has_flag f (mask k)) (same j k) (has_key (name k) rest))
]
count_from-flag (field key value rest) k count f h =
    rw (count_key_other key (count, f) refl, count_from, has_key_other (name k) key value rest refl)
      (count_from-flag rest k count f h)

flag_zero : (k : Keyword) → has_flag 0 (mask k) ≡ false
unfolding has_flag
flag_zero if_keyword = refl
flag_zero switch_keyword = refl
flag_zero default_keyword = refl
flag_zero body_keyword = refl

-- After the loop a flag is set exactly where its keyword is a key of the object.
pub flags-count_keywords :
    (object : Object) (k : Keyword)
    → has_flag (count_keywords object).1 (mask k) ≡ has_key (name k) object
unfolding count_keywords
flags-count_keywords object k = count_from-flag object k 0 0 (omega arith) ∙ rw (flag_zero k)
