-- ===== src/Kabanero/Chosen.antt =====
-- Which secret is chosen for a repository.
use mathlib.Core.List.{Permᴰ}
use mathlib.Core.List.Permᴰ.{nil, cons, swap, trans}
use kabanero_events.Prelude.{
  ◌≡◌, refl, ap, ◌∙◌, arith, Bool, true, false, ◌||◌, inl, inr, ◌⊎◌, Bool-cases, Option, none, some,
  List, [], ◌∷◌, map, Str, has_prefix, if◌then◌else◌,
}
use kabanero_events.Kabanero.{
  Secret, is_tekton, is_kabanero, scan_annotations, scan_secrets, get_git_hub_secret_for_repo,
}

-- Does an item of the list pass the test?
unfoldable pub exists {ℓ} : {A : Type ℓ} → (A → Bool) → List A → Bool
exists test [] = false
exists test (x ∷ xs) = test x || exists test xs

unfoldable pub find_first {ℓ} : {A : Type ℓ} → (A → Bool) → List A → Option A
find_first test [] = none
find_first test (x ∷ xs) = if test x then some x else find_first test xs

unfoldable pub or {ℓ} : {A : Type ℓ} → Option A → Option A → Option A
or (some x) other = some x
or none other = other

unfoldable pub find_last {ℓ} : {A : Type ℓ} → (A → Bool) → List A → Option A
unfolding or
find_last test [] = none
find_last test (x ∷ xs) = or (find_last test xs) (if test x then some x else none)

-- A secret with an annotation of this kind whose value is a prefix of the URL.
abbrev pub has_tekton : Str → Secret → Bool
has_tekton repo_url secret = exists (is_tekton repo_url) secret.annotations

abbrev pub has_kabanero : Str → Secret → Bool
has_kabanero repo_url secret = exists (is_kabanero repo_url) secret.annotations

-- The keys of the two kinds differ in their first byte.
not_both :
    (repo_url : Str) (a : Str × Str) → is_tekton repo_url a ≡ true → is_kabanero repo_url a ≡ false
unfolding is_tekton is_kabanero has_prefix
not_both repo_url ([], val) h = refl
not_both repo_url (c ∷ key, val) h = ground arith

scan_annotations-eq :
    (repo_url : Str) (secret : Secret) (l : List (Str × Str)) (o : Option Secret)
    → scan_annotations repo_url secret l o ≡ (
        if exists (is_kabanero repo_url) l
        then inl secret
        else inr (if exists (is_tekton repo_url) l then some secret else o))
unfolding scan_annotations exists
scan_annotations-eq repo_url secret [] o = refl
scan_annotations-eq repo_url secret (a ∷ l) o = elim (Bool-cases (is_tekton repo_url a)) [
  | inl t ↦
      rw (t, not_both repo_url a t)
        (scan_annotations-eq repo_url secret l (some secret)
          ∙ same (exists (is_kabanero repo_url) l) (exists (is_tekton repo_url) l))
  | inr t ↦ elim (Bool-cases (is_kabanero repo_url a)) [
    | inl k ↦ rw (t, k) refl
    | inr k ↦ rw (t, k) (scan_annotations-eq repo_url secret l o)
  ]
]
  where
    same :
        (b c : Bool)
        → (if b then inl secret else inr (if c then some secret else some secret))
          ≡ (if b then inl secret else inr (some secret))
    same true c = refl
    same false true = refl
    same false false = refl

scan_secrets-eq :
    (repo_url : Str) (secrets : List Secret) (o : Option Secret)
    → scan_secrets repo_url secrets o
      ≡ or
          (find_first (has_kabanero repo_url) secrets)
          (or (find_last (has_tekton repo_url) secrets) o)
unfolding scan_secrets find_first find_last or
scan_secrets-eq repo_url [] o = refl
scan_secrets-eq repo_url (secret ∷ secrets) o =
    rw (scan_secrets, scan_annotations-eq repo_url secret secret.annotations o)
      (go (has_kabanero repo_url secret) (has_tekton repo_url secret)
        (scan_secrets-eq repo_url secrets))
  where
    assoc : (x y : Option Secret) → or x (or y o) ≡ or (or x y) o
    assoc none y = refl
    assoc (some _) y = refl

    go :
        (k t : Bool)
        → ((o : Option Secret)
            → scan_secrets repo_url secrets o
              ≡ or
                  (find_first (has_kabanero repo_url) secrets)
                  (or (find_last (has_tekton repo_url) secrets) o))
        → elim (if k then inl secret else inr (if t then some secret else o))
            as (λ (_ : Secret ⊎ Option Secret). Option Secret) [
              | inl found ↦ some found
              | inr o' ↦ scan_secrets repo_url secrets o'
            ]
          ≡ or (if k then some secret else find_first (has_kabanero repo_url) secrets) (
              or (or (find_last (has_tekton repo_url) secrets) (if t then some secret else none)) o)
    go true t ih = refl
    go false true ih =
        ih (some secret)
        ∙ ap (or (find_first (has_kabanero repo_url) secrets))
            (orr (find_last (has_tekton repo_url) secrets))
      where
        orr : (x : Option Secret) → or x (some secret) ≡ or (or x (some secret)) o
        orr none = refl
        orr (some _) = refl
    go false false ih =
        ih o
        ∙ ap (or (find_first (has_kabanero repo_url) secrets))
            (orr (find_last (has_tekton repo_url) secrets))
      where
        orr : (x : Option Secret) → or x o ≡ or (or x none) o
        orr none = refl
        orr (some _) = refl

-- The secret for a repository is the first one with a `kabanero.io/git-` annotation whose value
-- is a prefix of the URL; where there is none, the last one with such a `tekton.dev/git-`
-- annotation; and nothing where there is neither.
pub get_git_hub_secret_for_repo-eq :
    (secrets : List Secret) (repo_url : Str)
    → get_git_hub_secret_for_repo secrets repo_url
      ≡ or (find_first (has_kabanero repo_url) secrets) (find_last (has_tekton repo_url) secrets)
unfolding get_git_hub_secret_for_repo or
get_git_hub_secret_for_repo-eq secrets repo_url =
    scan_secrets-eq repo_url secrets none
    ∙ ap (or (find_first (has_kabanero repo_url) secrets))
        (unit (find_last (has_tekton repo_url) secrets))
  where
    unit : (x : Option Secret) → or x none ≡ x
    unit none = refl
    unit (some _) = refl

or_swap : (a b c : Bool) → (a || (b || c)) ≡ (b || (a || c))
or_swap true true c = refl
or_swap true false c = refl
or_swap false true c = refl
or_swap false false c = refl

exists-perm {ℓ} :
    {A : Type ℓ} (test : A → Bool) {xs ys : List A} → Permᴰ xs ys → exists test xs ≡ exists test ys
unfolding exists
exists-perm test nil = refl
exists-perm test (cons e p) = λ i. test (e i) || exists-perm test p i
exists-perm test (swap {b} {a'} {l} d e) =
    (λ i. test (d i) || (test (e i) || exists test l)) ∙ or_swap (test _) (test a') (exists test l)
exists-perm test (trans p q) = exists-perm test p ∙ exists-perm test q

unfoldable pub map_option : (Secret → Secret) → Option Secret → Option Secret
map_option f none = none
map_option f (some s) = some (f s)

module _ (shuffle : Secret → Secret) (test : Secret → Bool)
    (same : (s : Secret) → test (shuffle s) ≡ test s) where
  find_first-map :
      (secrets : List Secret)
      → find_first test (map shuffle secrets) ≡ map_option shuffle (find_first test secrets)
  unfolding find_first map_option
  find_first-map [] = refl
  find_first-map (s ∷ secrets) = rw (same s) (go (test s) (find_first-map secrets))
    where
      go :
          (b : Bool)
          → find_first test (map shuffle secrets) ≡ map_option shuffle (find_first test secrets)
          → (if b then some (shuffle s) else find_first test (map shuffle secrets))
            ≡ map_option shuffle (if b then some s else find_first test secrets)
      go true ih = refl
      go false ih = ih

  find_last-map :
      (secrets : List Secret)
      → find_last test (map shuffle secrets) ≡ map_option shuffle (find_last test secrets)
  unfolding find_last map_option or
  find_last-map [] = refl
  find_last-map (s ∷ secrets) =
      rw (find_last-map secrets, same s) (go (find_last test secrets) (test s))
    where
      go :
          (o : Option Secret) (b : Bool)
          → or (map_option shuffle o) (if b then some (shuffle s) else none)
            ≡ map_option shuffle (or o (if b then some s else none))
      go (some _) b = refl
      go none true = refl
      go none false = refl

-- The order in which `range` visits the annotations does not matter: where each secret has its
-- annotations in another order, the same secret is chosen.
get_git_hub_secret_for_repo-map :
    (shuffle : Secret → Secret) (secrets : List Secret) (repo_url : Str)
    → ((s : Secret) → Permᴰ (shuffle s).annotations s.annotations)
    → get_git_hub_secret_for_repo (map shuffle secrets) repo_url
      ≡ map_option shuffle (get_git_hub_secret_for_repo secrets repo_url)
unfolding or map_option
get_git_hub_secret_for_repo-map shuffle secrets repo_url perm =
    let kabanero =
      find_first-map shuffle (has_kabanero repo_url)
        (λ s. exists-perm (is_kabanero repo_url) (perm s)) secrets in
    let tekton =
      find_last-map shuffle (has_tekton repo_url) (λ s. exists-perm (is_tekton repo_url) (perm s))
        secrets in
    rw
      (
        get_git_hub_secret_for_repo-eq (map shuffle secrets) repo_url,
        get_git_hub_secret_for_repo-eq secrets repo_url,
        kabanero,
        tekton,
      )
      (go (find_first (has_kabanero repo_url) secrets) (find_last (has_tekton repo_url) secrets))
  where
    go :
        (a b : Option Secret)
        → or (map_option shuffle a) (map_option shuffle b) ≡ map_option shuffle (or a b)
    go none b = refl
    go (some _) b = refl
