-- ===== src/Resource/Plural.antt =====
-- `kindToPlural` on the endings that it tells apart.
use kabanero_events.Prelude.{
  ℕ, ◌+◌, ◌≡◌, ap, arith, sym, ◌∙◌, Bool, ◌≢◌, ◌⊎◌, inl, inr, refl, true, false, if◌then◌else◌,
  ◌==◌, ◌&&◌, Bool-cases, some, none, Option, suc, take, [], ◌∷◌, ◌++◌, Str, lit, length,
  length-append, ==_iff,
}
use mathlib.Core.Path.{subst}
use mathlib.Core.Option.{some-injective}
use kabanero_events.Resource.{index_of, last_index, is_end, kind_to_plural}

last_index-append : (a b : ℕ) (s : Str) → last_index a b (s ++ a ∷ b ∷ []) ≡ some (length s)
unfolding last_index
last_index-append a b [] = rw ((==_iff a a).1 refl, (==_iff b b).1 refl) refl
last_index-append a b (c ∷ []) = rw (last_index-append a b [], last_index) refl
last_index-append a b (c ∷ d ∷ s) = rw (last_index-append a b (d ∷ s), last_index) refl

-- The plural of a kind in lower case. A kind of one letter gets "es".
pub data Plural (lower : Str) : Str → Type 0 where
  ends_in_ss : (s : Str) → lower ≡ s ++ lit "ss" → Plural lower (lower ++ lit "es")
  ends_in_cy : (s : Str) → lower ≡ s ++ lit "cy" → Plural lower (s ++ lit "cies")
  one_letter : length lower ≡ 1 → Plural lower (lower ++ lit "es")
  any_other :
      ((s : Str) → lower ≢ s ++ lit "ss")
      → ((s : Str) → lower ≢ s ++ lit "cy")
      → length lower ≢ 1
      → Plural lower (lower ++ lit "s")

-- The two bytes stand where `LastIndex` finds them.
last_index-end :
    (a b : ℕ) (s : Str) (i : ℕ)
    → last_index a b s ≡ some i
    → i + 2 ≡ length s
    → s ≡ take i s ++ a ∷ b ∷ []
unfolding last_index
last_index-end a b [] i h e = absurd (cc h)
last_index-end a b (c ∷ []) i h e = absurd (cc h)
last_index-end a b (c ∷ d ∷ s) i h e =
    go (last_index-end a b (d ∷ s)) (last_index a b (d ∷ s)) refl h
  where
    nothing : none ≡ some i → ⊥
    nothing g = cc g

    empty_of : (s : Str) → length s ≡ 0 → s ≡ []
    empty_of [] e = refl
    empty_of (x ∷ s) e = absurd (omega (arith, e))

    both : (c == a && d == b) ≡ true → s ≡ [] → c ∷ d ∷ s ≡ a ∷ b ∷ []
    both t p = let (q, r) : (c ≡ a) × (d ≡ b) = ground (arith, t) in λ i. q i ∷ r i ∷ p i

    go :
        ((j : ℕ)
          → last_index a b (d ∷ s) ≡ some j
          → j + 2 ≡ length (d ∷ s)
          → d ∷ s ≡ take j (d ∷ s) ++ a ∷ b ∷ [])
        → (o : Option ℕ) → last_index a b (d ∷ s) ≡ o
        → (elim o as (λ _. Option ℕ) [
          | some j ↦ some (suc j)
          | none ↦ if c == a && d == b then some 0 else none
        ])
          ≡ some i
        → c ∷ d ∷ s ≡ take i (c ∷ d ∷ s) ++ a ∷ b ∷ []
    go ih (some j) f g =
        let p = some-injective _ _ g in
        subst (λ i. c ∷ d ∷ s ≡ take i (c ∷ d ∷ s) ++ a ∷ b ∷ []) p
          (ap (λ l. c ∷ l) (ih j f (omega (arith, e, p))))
    go ih none f g = elim (Bool-cases (c == a && d == b)) [
      | inl t ↦
          let p : 0 ≡ i = some-injective _ _ (rw t at g) in
          subst (λ i. c ∷ d ∷ s ≡ take i (c ∷ d ∷ s) ++ a ∷ b ∷ []) p
            (both t (empty_of s (omega (arith, e, p))))
      | inr t ↦ absurd (nothing (rw t at g))
    ]

-- `LastIndex` finds an ending at the end.
is_end_of_ending :
    (a b : ℕ) (lower s : Str)
    → lower ≡ s ++ a ∷ b ∷ []
    → is_end (last_index a b lower) (length lower) ≡ true
is_end_of_ending a b lower s h =
    rw (h, last_index-append a b s, length-append s (a ∷ b ∷ []))
      (unfold is_end in (==_iff (length s + 2) (length s + 2)).1 refl)

is_end-inv :
    (o : Option ℕ) (len : ℕ)
    → is_end o len ≡ true
    → ((i : ℕ) × (o ≡ some i) × (i + 2 ≡ len)) ⊎ (len ≡ 1)
unfolding is_end
is_end-inv (some i) len h = inl (i, refl, (==_iff (i + 2) len).0 h)
is_end-inv none len h = inr ((==_iff len 1).0 h)

is_end_of_one : (a b : ℕ) (s : Str) → length s ≡ 1 → is_end (last_index a b s) (length s) ≡ true
unfolding is_end last_index
is_end_of_one a b [] h = absurd (omega (arith, h))
is_end_of_one a b (c ∷ []) h = refl
is_end_of_one a b (c ∷ d ∷ s) h = absurd (omega (arith, h))

true-ne-false : {b : Bool} → b ≡ true → b ≡ false → ⊥
true-ne-false p q = cc (sym p ∙ q)

module _ (to_lower : Str → Str) where
  -- The plural is the one that the rules give.
  pub kind_to_plural-Plural : (kind : Str) → Plural (to_lower kind) (kind_to_plural to_lower kind)
  unfolding kind_to_plural index_of
  kind_to_plural-Plural kind =
      let lower = to_lower kind in
      elim (Bool-cases (is_end (last_index b's' b's' lower) (length lower))) [
        | inl e ↦ rw e (elim (is_end-inv (last_index b's' b's' lower) (length lower) e) [
          | inl (i, f, g) ↦ ends_in_ss (take i lower) (last_index-end b's' b's' lower i f g)
          | inr one ↦ one_letter one
        ])
        | inr e ↦ elim (Bool-cases (is_end (last_index b'c' b'y' lower) (length lower))) [
          | inl g ↦ elim (is_end-inv (last_index b'c' b'y' lower) (length lower) g) [
            | inl (i, f, k) ↦
                rw (e, g, f) (ends_in_cy (take i lower) (last_index-end b'c' b'y' lower i f k))
            | inr one ↦ absurd (true-ne-false (is_end_of_one b's' b's' lower one) e)
          ]
          | inr g ↦
              rw (e, g)
                (any_other (λ s h. true-ne-false (is_end_of_ending b's' b's' lower s h) e)
                  (λ s h. true-ne-false (is_end_of_ending b'c' b'y' lower s h) g)
                  (λ one. true-ne-false (is_end_of_one b's' b's' lower one) e))
        ]
      ]

  -- A kind that ends in "ss" in lower case gets "es", and so does every kind of one letter,
  -- whichever letter it is.
  pub kind_to_plural_es :
      (kind s : Str)
      → (to_lower kind ≡ s ++ lit "ss") ⊎ ((c : ℕ) × (to_lower kind ≡ c ∷ []))
      → kind_to_plural to_lower kind ≡ to_lower kind ++ lit "es"
  unfolding kind_to_plural
  kind_to_plural_es kind s (inl h) =
      let e : is_end (last_index b's' b's' (to_lower kind)) (length (to_lower kind)) ≡ true =
        rw (h, last_index-append b's' b's' s, length-append s (lit "ss"))
          (unfold is_end in (==_iff (length s + 2) (length s + 2)).1 refl) in
      rw e refl
  kind_to_plural_es kind s (inr (c, h)) = rw h (unfold last_index is_end in refl)
