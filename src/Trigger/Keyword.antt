-- ===== src/Trigger/Keyword.antt =====
-- pkg/trigger/trigger.go: the keywords of a trigger body and `countKeywords`.
pub mod Count
use Prim.Native.Nat.{bit_or, bit_and}
use kabanero_events.Prelude.{
  ℕ, zero, suc, ◌+◌, Bool, true, false, not, Option, none, some, List, [], ◌∷◌, Str, lit, ◌==◌,
}
use kabanero_events.Go.Assoc.{lookup}
use kabanero_events.Go.Value.{Yaml, Object, empty, field, string}

abbrev pub if_flag : ℕ
if_flag = 1

abbrev pub switch_flag : ℕ
switch_flag = 2

abbrev pub default_flag : ℕ
default_flag = 4

abbrev pub body_flag : ℕ
body_flag = 8

abbrev pub keywords : List (Str × ℕ)
keywords =
    (lit "if", if_flag)
    ∷ (lit "switch", switch_flag)
    ∷ (lit "default", default_flag)
    ∷ (lit "body", body_flag)
    ∷ []

unfoldable pub is_keyword : Str → Bool
is_keyword name = elim (lookup name keywords) [ none ↦ false | some _ ↦ true ]

-- One round of the loop of `countKeywords`, on the count and the flags so far.
unfoldable pub count_key : Yaml → ℕ × ℕ → ℕ × ℕ
count_key (string key) (count, flag) = elim (lookup key keywords) [
  | none ↦ (count, flag)
  | some mask ↦ (count + 1, bit_or flag mask)
]
count_key _ s = s

unfoldable pub count_from : Object → ℕ × ℕ → ℕ × ℕ
count_from empty s = s
count_from (field key value rest) s = count_from rest (count_key key s)

-- The number of keywords among the keys, and the flags of those found.
unfoldable pub count_keywords : Object → ℕ × ℕ
count_keywords object = count_from object (0, 0)

-- `(flags & mask) != 0`
unfoldable pub has_flag : ℕ → ℕ → Bool
has_flag flags mask = not (bit_and flags mask == 0)
