-- ===== src/FilePath/Rooted.antt =====
-- The normal form of `filepath.Clean` on rooted paths: cleaning it again changes nothing.
use mathlib.Core.Path.{subst}
use mathlib.Core.List.{reverse, reverse-reverse, reverse-cons, append_assoc, append-nil}
use kabanero_events.Prelude.{
  ◌≡◌, refl, sym, ap, ◌∙◌, arith, Bool, true, inl, inr, Bool-cases, List, [], ◌∷◌, ◌++◌, Str,
  str_eq, split, push_byte, has_prefix, ◌==◌, ==_iff, All, All-append,
}
use kabanero_events.FilePath.{clean_parts, join_parts, is_abs, clean}
use kabanero_events.FilePath.Clean.{NoSlash, IsNormal, split-NoSlash, clean_parts-IsNormal}

-- "/" and the components.
abbrev pub rooted : List Str → Str
rooted parts = b'/' ∷ join_parts parts

All-reverse {ℓ κ} : {A : Type ℓ} (P : A → Type κ) (xs : List A) → All P xs → All P (reverse xs)
All-reverse P [] h = tt
All-reverse P (x ∷ xs) h =
    rw (reverse-cons x xs) (All-append P (reverse xs) (x ∷ []) (All-reverse P xs h.1) (h.0, tt))

-- The components of a path, cleaned.
abbrev pub parts_of : Str → List Str
parts_of path = reverse (clean_parts true [] (split b'/' path))

pub clean-rooted : (path : Str) → is_abs path ≡ true → clean path ≡ rooted (parts_of path)
unfolding clean
clean-rooted path h = rw h refl

pub parts_of-IsNormal : (path : Str) → All IsNormal (parts_of path)
parts_of-IsNormal path =
    All-reverse IsNormal _ (clean_parts-IsNormal (split b'/' path) [] (split-NoSlash path) tt)

split-nonempty : (s : Str) → (x : Str) × (xs : List Str) × (split b'/' s ≡ x ∷ xs)
unfolding split
split-nonempty [] = ([], [], refl)
split-nonempty (c ∷ s) = elim (Bool-cases (c == b'/')) [
  | inl e ↦ ([], split b'/' s, rw e refl)
  | inr e ↦ let (x, xs, f) = split-nonempty s in (c ∷ x, xs, rw (e, f) refl)
]

-- Splitting at a slash.
pub split-append_slash : (a b : Str) → split b'/' (a ++ b'/' ∷ b) ≡ split b'/' a ++ split b'/' b
unfolding split
split-append_slash [] b = refl
split-append_slash (c ∷ a) b = elim (Bool-cases (c == b'/')) [
  | inl e ↦ rw (e, split-append_slash a b) refl
  | inr e ↦ rw (e, split-append_slash a b) (push (split b'/' a) (split-nonempty a))
]
  where
    push :
        (parts : List Str)
        → ((x : Str) × (xs : List Str) × (parts ≡ x ∷ xs))
        → push_byte c (parts ++ split b'/' b) ≡ push_byte c parts ++ split b'/' b
    push [] (x, xs, e) = absurd (cc e)
    push (x ∷ xs) h = refl

split-of_NoSlash : (s : Str) → NoSlash s → split b'/' s ≡ s ∷ []
unfolding split
split-of_NoSlash [] h = refl
split-of_NoSlash (c ∷ s) h = rw (h.0, split-of_NoSlash s h.1) refl

split-join_parts :
    (p : Str) (parts : List Str)
    → All IsNormal (p ∷ parts)
    → split b'/' (join_parts (p ∷ parts)) ≡ p ∷ parts
unfolding join_parts
split-join_parts p [] h = split-of_NoSlash p h.0.no_slash
split-join_parts p (q ∷ parts) h =
    split-append_slash p (join_parts (q ∷ parts))
    ∙ rw (split-of_NoSlash p h.0.no_slash, split-join_parts q parts h.1) refl

-- Normal components are kept.
pub clean_parts-of_IsNormal :
    (parts kept : List Str)
    → All IsNormal parts
    → clean_parts true kept parts ≡ reverse parts ++ kept
unfolding clean_parts
clean_parts-of_IsNormal [] kept h = refl
clean_parts-of_IsNormal (p ∷ parts) kept h =
    rw
      (
        h.0.nonempty,
        h.0.not_dot,
        h.0.not_dots,
        clean_parts-of_IsNormal parts (p ∷ kept) h.1,
        reverse-cons p parts,
      )
      (sym (append_assoc (reverse parts) (p ∷ []) kept))

parts_of-rooted : (parts : List Str) → All IsNormal parts → parts_of (rooted parts) ≡ parts
unfolding split clean_parts join_parts str_eq
parts_of-rooted [] h = refl
parts_of-rooted (p ∷ parts) h = rw (split-join_parts p parts h) (
    rw (clean_parts-of_IsNormal (p ∷ parts) [] h, append-nil (reverse (p ∷ parts)))
      (reverse-reverse (p ∷ parts)))

-- A path of normal components is clean.
pub clean-of_rooted : (parts : List Str) → All IsNormal parts → clean (rooted parts) ≡ rooted parts
unfolding is_abs has_prefix
clean-of_rooted parts h = clean-rooted (rooted parts) refl ∙ ap rooted (parts_of-rooted parts h)

pub clean_parts-append :
    (root : Bool) (a b kept : List Str)
    → clean_parts root kept (a ++ b) ≡ clean_parts root (clean_parts root kept a) b
unfolding clean_parts
clean_parts-append root [] b kept = refl
clean_parts-append root (p ∷ a) b kept = clean_parts-append root a b _

pub has_prefix-append : (a b : Str) → has_prefix (a ++ b) a ≡ true
unfolding has_prefix
has_prefix-append [] b = refl
has_prefix-append (c ∷ a) b = ground (arith, has_prefix-append a b, ==_iff c c)

has_prefix-append_both : (p a b : Str) → has_prefix (p ++ a) (p ++ b) ≡ has_prefix a b
unfolding has_prefix
has_prefix-append_both [] a b = refl
has_prefix-append_both (c ∷ p) a b = ground (arith, has_prefix-append_both p a b, ==_iff c c)

has_prefix-join_parts :
    (parts others : List Str) → has_prefix (join_parts (parts ++ others)) (join_parts parts) ≡ true
unfolding join_parts has_prefix
has_prefix-join_parts [] [] = refl
has_prefix-join_parts [] (q ∷ others) = any (join_parts (q ∷ others))
  where
    any : (s : Str) → has_prefix s [] ≡ true
    any [] = refl
    any (c ∷ s) = refl
has_prefix-join_parts (p ∷ []) [] =
    subst (λ q. has_prefix q p ≡ true) (append-nil p) (has_prefix-append p [])
has_prefix-join_parts (p ∷ []) (q ∷ others) = has_prefix-append p _
has_prefix-join_parts (p ∷ q ∷ parts) others =
    has_prefix-append_both p _ _ ∙ has_prefix-join_parts (q ∷ parts) others

-- A path starts with the path of its first components.
pub has_prefix-rooted :
    (parts others : List Str) → has_prefix (rooted (parts ++ others)) (rooted parts) ≡ true
unfolding has_prefix
has_prefix-rooted parts others = has_prefix-join_parts parts others
