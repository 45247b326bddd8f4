-- ===== src/Trigger/Library/Split.antt =====
-- The pieces that `split` gives, put together again.
use kabanero_events.Prelude.{
  ◌≡◌, ◌≢◌, refl, sym, ap, ◌∙◌, arith, ℕ, zero, suc, ◌-◌, true, inl, inr, Bool-cases, List, [], ◌∷◌,
  ◌++◌, Str, length, drop, has_prefix, push_byte, ==_iff,
}
use kabanero_events.Trigger.Library.{split_at, strings_split}

-- `strings.Join`
unfoldable pub join_with : Str → List Str → Str
join_with sep [] = []
join_with sep (part ∷ []) = part
join_with sep (part ∷ next ∷ parts) = part ++ sep ++ join_with sep (next ∷ parts)

join-push_byte :
    (sep : Str) (c : ℕ) (parts : List Str)
    → join_with sep (push_byte c parts) ≡ c ∷ join_with sep parts
unfolding join_with push_byte
join-push_byte sep c [] = refl
join-push_byte sep c (part ∷ []) = refl
join-push_byte sep c (part ∷ next ∷ parts) = refl

-- There is always a piece.
split_at-nonempty : (sep : Str) (skip : ℕ) (s : Str) → split_at sep skip s ≢ []
unfolding split_at push_byte
split_at-nonempty sep skip [] e = cc e
split_at-nonempty sep (suc skip) (c ∷ s) e = split_at-nonempty sep skip s e
split_at-nonempty sep zero (c ∷ s) e = elim (Bool-cases (has_prefix (c ∷ s) sep)) [
  | inl f ↦ wrong (rw f at e)
  | inr f ↦ pushed (split_at sep 0 s) (rw f at e)
]
  where
    wrong : {parts : List Str} → [] ∷ parts ≡ [] → ⊥
    wrong h = cc h

    pushed : (parts : List Str) → push_byte c parts ≡ [] → ⊥
    pushed [] h = cc h
    pushed (part ∷ parts) h = cc h

join-nil_piece :
    (sep : Str) (parts : List Str)
    → parts ≢ []
    → join_with sep ([] ∷ parts) ≡ sep ++ join_with sep parts
unfolding join_with
join-nil_piece sep [] h = absurd (h refl)
join-nil_piece sep (part ∷ parts) h = refl

append-drop : (s prefix : Str) → has_prefix s prefix ≡ true → prefix ++ drop (length prefix) s ≡ s
unfolding has_prefix
append-drop s [] h = refl
append-drop [] (p ∷ prefix) h = absurd (cc h)
append-drop (c ∷ s) (p ∷ prefix) h =
    let e : c ≡ p = ground (arith, ==_iff c p) in
    let k : has_prefix s prefix ≡ true = ground (arith, ==_iff c p) in
    λ i. sym e i ∷ append-drop s prefix k i

join-split_at :
    (p : ℕ) (sep : Str) (skip : ℕ) (s : Str)
    → join_with (p ∷ sep) (split_at (p ∷ sep) skip s) ≡ drop skip s
unfolding split_at join_with
join-split_at p sep zero [] = refl
join-split_at p sep (suc skip) [] = refl
join-split_at p sep (suc skip) (c ∷ s) = join-split_at p sep skip s
join-split_at p sep zero (c ∷ s) = elim (Bool-cases (has_prefix (c ∷ s) (p ∷ sep))) [
  | inl f ↦ rw f (
      join-nil_piece (p ∷ sep) (split_at (p ∷ sep) (suc (length sep) - 1) s)
        (split_at-nonempty (p ∷ sep) (suc (length sep) - 1) s)
      ∙ ap (λ t. (p ∷ sep) ++ t) (join-split_at p sep (suc (length sep) - 1) s)
      ∙ ap (λ n. (p ∷ sep) ++ drop n s) one_less
      ∙ append-drop (c ∷ s) (p ∷ sep) f)
  | inr f ↦
      rw f
        (join-push_byte (p ∷ sep) c (split_at (p ∷ sep) 0 s) ∙ ap (◌∷◌ c) (join-split_at p sep 0 s))
]
  where
    one_less : suc (length sep) - 1 ≡ length sep
    one_less = omega arith

-- The pieces of a text at a separator that is not empty, joined by it again, are the text.
pub join-strings_split :
    (explode : Str → List Str) (s sep : Str)
    → sep ≢ []
    → join_with sep (strings_split explode s sep) ≡ s
unfolding strings_split
join-strings_split explode s [] h = absurd (h refl)
join-strings_split explode s (c ∷ sep) h = join-split_at c sep 0 s
