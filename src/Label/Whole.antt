-- ===== src/Label/Whole.antt =====
-- `ToLabel`: a label with an optional prefix.
use mathlib.Core.List.{append_assoc}
use kabanero_events.Prelude.{
  ℕ, suc, ◌+◌, ◌-◌, ◌<◌, ◌≡◌, ◌≢◌, ◌↔◌, refl, ap, Bool, true, false, ◌⊎◌, inl, inr, [], ◌∷◌, ◌++◌,
  arith, Str, lit, length, length-append, take, drop, All, ◌==◌, str_eq, some,
}
use kabanero_events.Label.{
  is_valid_domain_name_char, to_lower, to_domain_name, to_label_name, to_label, split_label,
  join_label, index_slash,
}
use kabanero_events.Label.Ends.{IsClosed}
use kabanero_events.Label.Name.{
  IsLabelName, to_label_name-IsLabelName, to_label_name_of_IsLabelName,
}
use kabanero_events.Label.Domain.{
  IsDomainName, to_domain_name-IsDomainName, to_domain_name_of_IsDomainName,
}

-- What `ToLabel` can return: nothing, one part alone, or both parts joined by a slash.
pub data IsLabel (s : Str) : Type 0 where
  empty : s ≡ [] → IsLabel s
  name_only : IsLabelName s → IsLabel s
  prefix_only : IsDomainName s → IsLabel s
  both : (p l : Str) → IsDomainName p → IsLabelName l → s ≡ p ++ lit "/" ++ l → IsLabel s

join_label-IsLabel :
    (p l : Str) → (p ≡ []) ⊎ IsDomainName p → (l ≡ []) ⊎ IsLabelName l → IsLabel (join_label p l)
unfolding join_label str_eq
join_label-IsLabel [] [] hp hl = empty refl
join_label-IsLabel [] (c ∷ l) hp (inl e) = absurd (cc e)
join_label-IsLabel [] (c ∷ l) hp (inr h) = name_only h
join_label-IsLabel (c ∷ p) l (inl e) hl = absurd (cc e)
join_label-IsLabel (c ∷ p) [] (inr h) hl = prefix_only h
join_label-IsLabel (c ∷ p) (d ∷ l) (inr h) (inl e) = absurd (cc e)
join_label-IsLabel (c ∷ p) (d ∷ l) (inr h) (inr k) = both (c ∷ p) (d ∷ l) h k refl

join_label-nil : (p l : Str) → (join_label p l ≡ []) ↔ ((p ≡ []) × (l ≡ []))
unfolding join_label str_eq
join_label-nil [] [] = (λ e. (refl, refl), λ e. refl)
join_label-nil [] (c ∷ l) = ground arith
join_label-nil (c ∷ p) [] = ground arith
join_label-nil (c ∷ p) (d ∷ l) = ground arith

-- A string of these bytes holds no slash.
abbrev NoSlash : Str → Type 0
NoSlash = All (λ c. (c == b'/') ≡ false)

valid-NoSlash : (s : Str) → All (λ c. is_valid_domain_name_char c ≡ true) s → NoSlash s
valid-NoSlash [] v = tt
valid-NoSlash (c ∷ s) v =
    (unfold is_valid_domain_name_char in ground (arith, v.0), valid-NoSlash s v.1)

index_slash-append : (p l : Str) → NoSlash p → index_slash (p ++ b'/' ∷ l) ≡ some (length p)
unfolding index_slash
index_slash-append [] l h = refl
index_slash-append (c ∷ p) l h = rw (h.0, index_slash-append p l h.1)

take-append_length : (p l : Str) → take (length p) (p ++ l) ≡ p
take-append_length [] l = refl
take-append_length (c ∷ p) l = ap (◌∷◌ c) (take-append_length p l)

drop-append_length : (p l : Str) (c : ℕ) → drop (suc (length p)) (p ++ c ∷ l) ≡ l
drop-append_length [] l c = refl
drop-append_length (d ∷ p) l c = drop-append_length p l c

split_label-append : (p l : Str) → NoSlash p → 0 < length l → split_label (p ++ b'/' ∷ l) ≡ (p, l)
unfolding split_label
split_label-append p l h n =
    let e : (length p == length (p ++ b'/' ∷ l) - 1) ≡ false =
      ground (arith, length-append p (b'/' ∷ l)) in
    let f : length p + 1 ≡ suc (length p) = omega arith in
    rw (index_slash-append p l h, split_label, e, f)
      (rw (take-append_length p (b'/' ∷ l), drop-append_length p l b'/'))

join_both : (p l : Str) → 0 < length p → 0 < length l → join_label p l ≡ p ++ b'/' ∷ l
unfolding join_label str_eq
join_both [] l m n = absurd (omega arith)
join_both (c ∷ p) [] m n = absurd (omega arith)
join_both (c ∷ p) (d ∷ l) m n = append_assoc (c ∷ p) (lit "/") (d ∷ l)

closed_ne_nil : {f g : ℕ → Bool} {n : ℕ} {s : Str} → IsClosed f g n s → s ≢ []
closed_ne_nil h e = absurd (omega (arith, h.nonempty, ap length e))

to_label_name-nil : (l : Str) → (to_label_name l ≡ []) ↔ (l ≡ [])
to_label_name-nil l = elim (to_label_name-IsLabelName l) [
  | inl h ↦ (λ _. h.0, λ _. h.1)
  | inr h ↦ (λ e. absurd (closed_ne_nil h.1 e), λ e. absurd (h.0 e))
]

module _ (unicode_lower : Str → Str) where
  to_domain_name-nil :
      (p : Str) → (to_domain_name unicode_lower p ≡ []) ↔ (to_lower unicode_lower p ≡ [])
  to_domain_name-nil p = elim (to_domain_name-IsDomainName unicode_lower p) [
    | inl h ↦ (λ _. h.0, λ _. h.1)
    | inr h ↦ (λ e. absurd (closed_ne_nil h.1.closed e), λ e. absurd (h.0 e))
  ]

  -- Whatever the input, the result of `ToLabel` is empty, a label name, a domain name, or a
  -- domain name and a label name with one slash between them.
  pub to_label-IsLabel : (input : Str) → IsLabel (to_label unicode_lower input)
  unfolding to_label
  to_label-IsLabel input =
      let (p, l) = split_label input in
      join_label-IsLabel _ _ (or_domain p (to_domain_name-IsDomainName unicode_lower p))
        (or_name l (to_label_name-IsLabelName l))
    where
      or_domain :
          (p : Str)
          → ((to_lower unicode_lower p ≡ []) × (to_domain_name unicode_lower p ≡ []))
            ⊎ ((to_lower unicode_lower p ≢ []) × IsDomainName (to_domain_name unicode_lower p))
          → (to_domain_name unicode_lower p ≡ []) ⊎ IsDomainName (to_domain_name unicode_lower p)
      or_domain p (inl h) = inl h.1
      or_domain p (inr h) = inr h.1

      or_name :
          (l : Str)
          → ((l ≡ []) × (to_label_name l ≡ [])) ⊎ ((l ≢ []) × IsLabelName (to_label_name l))
          → (to_label_name l ≡ []) ⊎ IsLabelName (to_label_name l)
      or_name l (inl h) = inl h.1
      or_name l (inr h) = inr h.1

  -- `ToLabel` returns the empty string, and not "nolabel", exactly where the label part is empty
  -- and the prefix in lower case is empty.
  to_label-nil :
      (input : Str)
      → (to_label unicode_lower input ≡ [])
        ↔ ((to_lower unicode_lower (split_label input).0 ≡ []) × ((split_label input).1 ≡ []))
  unfolding to_label
  to_label-nil input =
      let (p, l) = split_label input in
      let k = join_label-nil (to_domain_name unicode_lower p) (to_label_name l) in
      (
        λ e. let (ep, el) = k.0 e in ((to_domain_name-nil p).0 ep, (to_label_name-nil l).0 el),
        λ e. k.1 ((to_domain_name-nil p).1 e.0, (to_label_name-nil l).1 e.1),
      )

  -- A domain name and a label name joined by a slash are returned unchanged.
  pub to_label_of_both :
      (p l : Str)
      → IsDomainName p
      → IsLabelName l
      → to_label unicode_lower (p ++ b'/' ∷ l) ≡ p ++ b'/' ∷ l
  unfolding to_label
  to_label_of_both p l hp hl =
      rw (split_label-append p l (valid-NoSlash p hp.closed.valid) hl.nonempty) (
        rw (to_domain_name_of_IsDomainName unicode_lower p hp, to_label_name_of_IsLabelName l hl)
          (join_both p l hp.closed.nonempty hl.nonempty))
