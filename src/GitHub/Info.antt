-- ===== src/GitHub/Info.antt =====
-- `getRepositoryInfo` and the dotted paths that it reads.
use mathlib.Core.Path.{subst}
use kabanero_events.Prelude.{
  ◌≡◌, refl, sym, ℕ, Bool-cases, inl, inr, Option, none, some, Option-cases, List, [], ◌∷◌, Str,
  lit, str_eq, get_or, if◌then◌else◌,
}
use kabanero_events.Go.Assoc.{lookup}
use kabanero_events.Go.Value.{Val}
use kabanero_events.Go.Exec.{
  World, Exec, Error, Result, ok, err, pure, lift, load, ◌>>=◌, no_after, after_not_string,
  no_pull_request, pull_request_not_map, no_head, head_not_map, no_sha, sha_not_string,
  no_repository, repository_not_map, no_repository_name, repository_name_not_string, no_owner,
  owner_not_map, no_login, login_not_string, no_html_url, html_url_not_string,
}
use kabanero_events.Go.Bind.{bind-of_ok}
use kabanero_events.GitHub.{
  Repository, present, as_string, as_map, string_under, map_under, ref_of, repository_of,
  get_repository_info,
}

-- `and_then o f`: `f` of the value, where there is one.
unfoldable pub and_then {ℓ κ} : {A : Type ℓ} {B : Type κ} → Option A → (A → Option B) → Option B
and_then none f = none
and_then (some a) f = f a

unfoldable pub text_in : Val → Option Str
text_in (Val.string s) = some s
text_in _ = none

unfoldable pub address_of : Val → Option ℕ
address_of (Val.object a) = some a
address_of _ = none

-- The value at a key.
unfoldable pub value_at : World → ℕ → Str → Option Val
value_at w a key = lookup key (get_or w.heap a [])

-- The map at a path of keys, and the string at a key of it.
unfoldable pub map_at : World → ℕ → List Str → Option ℕ
map_at w a [] = some a
map_at w a (key ∷ path) = and_then (and_then (value_at w a key) address_of) (λ b. map_at w b path)

unfoldable pub string_at : World → ℕ → List Str → Str → Option Str
string_at w a path key = and_then (map_at w a path) (λ b. and_then (value_at w b key) text_in)

-- Where the commit of an event stands.
unfoldable pub ref_at : World → ℕ → Str → Option Str
ref_at w body event =
    if str_eq event (lit "push")
    then string_at w body [] (lit "after")
    else if str_eq event (lit "pull_request")
    then string_at w body (lit "pull_request" ∷ lit "head" ∷ []) (lit "sha")
    else some []

-- The four strings of a webhook message.
unfoldable pub repository_at : World → ℕ → Str → Option Repository
repository_at w body event = and_then (ref_at w body event) (λ ref.
    and_then (string_at w body (lit "repository" ∷ []) (lit "name")) (λ name.
      and_then (string_at w body (lit "repository" ∷ lit "owner" ∷ []) (lit "login")) (λ owner.
        and_then (string_at w body (lit "repository" ∷ []) (lit "html_url")) (λ html_url.
          some (record { owner = owner; name = name; html_url = html_url; ref = ref })))))

-- The call left the world alone, and ended in the value where there is one, in an error otherwise.
abbrev pub Outcome : {A : Type 0} → Result A × World → World → Option A → Type 0
Outcome r w none = (e : Error) × (r ≡ (err e, w))
Outcome r w (some a) = r ≡ (ok a, w)

pub record Gives {A : Type 0} (m : Exec A) (w : World) (o : Option A) : Type 0 where
  pub outcome : Outcome (m w) w o

Outcome-bind :
    {A B : Type 0} (o : Option A) (m : Exec A) (f : A → Exec B) (g : A → Option B) (w : World)
    → Outcome (m w) w o
    → ((a : A) → Outcome (f a w) w (g a))
    → Outcome ((m >>= f) w) w (and_then o g)
unfolding and_then ◌>>=◌
Outcome-bind none m f g w (e, h) k = (e, λ i. (lift (h i).0 >>= f) (h i).1)
Outcome-bind (some a) m f g w h k = subst (λ r. Outcome r w (g a)) (sym (bind-of_ok m f w h)) (k a)

Gives-bind :
    {A B : Type 0} {o : Option A} {m : Exec A} {f : A → Exec B} {g : A → Option B} {w : World}
    → Gives m w o
    → ((a : A) → Gives (f a) w (g a))
    → Gives (m >>= f) w (and_then o g)
Gives-bind {o = o} {m} {f} {g} {w} h k = record {
  outcome = Outcome-bind o m f g w h.outcome (λ a. (k a).outcome);
}

Gives-pure : {A : Type 0} (a : A) (w : World) → Gives (pure a) w (some a)
unfolding ◌>>=◌
Gives-pure a w = record { outcome = refl }

Gives-load : (a : ℕ) (key : Str) (w : World) → Gives (load a key) w (some (value_at w a key))
unfolding load value_at
Gives-load a key w = record { outcome = refl }

Gives-present : (missing : Error) (o : Option Val) (w : World) → Gives (present missing o) w o
unfolding present ◌>>=◌
Gives-present missing none w = record { outcome = (missing, refl) }
Gives-present missing (some v) w = record { outcome = refl }

Gives-as_string :
    (not_string : Error) (v : Val) (w : World) → Gives (as_string not_string v) w (text_in v)
unfolding as_string text_in ◌>>=◌
Gives-as_string not_string (Val.string s) w = record { outcome = refl }
Gives-as_string not_string _ w = record { outcome = (not_string, refl) }

Gives-as_map : (not_map : Error) (v : Val) (w : World) → Gives (as_map not_map v) w (address_of v)
unfolding as_map address_of ◌>>=◌
Gives-as_map not_map (Val.object a) w = record { outcome = refl }
Gives-as_map not_map _ w = record { outcome = (not_map, refl) }

Gives-string_under :
    (missing not_string : Error) (a : ℕ) (key : Str) (w : World)
    → Gives (string_under missing not_string a key) w (and_then (value_at w a key) text_in)
unfolding string_under and_then
Gives-string_under missing not_string a key w =
    Gives-bind (Gives-bind (Gives-load a key w) (λ o. Gives-present missing o w))
      (λ v. Gives-as_string not_string v w)

Gives-map_under :
    (missing not_map : Error) (a : ℕ) (key : Str) (w : World)
    → Gives (map_under missing not_map a key) w (and_then (value_at w a key) address_of)
unfolding map_under and_then
Gives-map_under missing not_map a key w =
    Gives-bind (Gives-bind (Gives-load a key w) (λ o. Gives-present missing o w))
      (λ v. Gives-as_map not_map v w)

abbrev string_in : World → Str → ℕ → Option Str
string_in w key a = and_then (value_at w a key) text_in

abbrev map_in : World → Str → ℕ → Option ℕ
map_in w key a = and_then (value_at w a key) address_of

-- The steps of a path, one after the other.
string_at-of_two :
    (w : World) (a : ℕ) (one two key : Str)
    → and_then (map_in w one a) (λ b. and_then (map_in w two b) (string_in w key))
      ≡ string_at w a (one ∷ two ∷ []) key
unfolding string_at map_at and_then
string_at-of_two w a one two key = elim (Option-cases (map_in w one a)) [
  | inl e ↦ rw e refl
  | inr (b, e) ↦ elim (Option-cases (map_in w two b)) [
    | inl f ↦ rw (e, f) refl
    | inr (c, f) ↦ rw (e, f) refl
  ]
]

Gives-ref_of :
    (body : ℕ) (event : Str) (w : World) → Gives (ref_of body event) w (ref_at w body event)
unfolding ref_of ref_at string_at and_then map_at value_at
Gives-ref_of body event w = elim (Bool-cases (str_eq event (lit "push"))) [
  | inl e ↦ rw e (Gives-string_under no_after after_not_string body (lit "after") w)
  | inr e ↦ elim (Bool-cases (str_eq event (lit "pull_request"))) [
    | inl f ↦
        rw (e, f)
          (subst (Gives _ w) (string_at-of_two w body (lit "pull_request") (lit "head") (lit "sha"))
            (Gives-bind
              (Gives-map_under no_pull_request pull_request_not_map body (lit "pull_request") w)
              (λ pr.
                Gives-bind (Gives-map_under no_head head_not_map pr (lit "head") w)
                  (λ head. Gives-string_under no_sha sha_not_string head (lit "sha") w))))
    | inr f ↦ rw (e, f) (Gives-pure [] w)
  ]
]

-- The strings in the order in which they are read.
abbrev in_order : World → ℕ → Str → Option Repository
in_order w body ref = and_then (map_in w (lit "repository") body) (λ repository.
    and_then (string_in w (lit "name") repository) (λ name.
      and_then (map_in w (lit "owner") repository) (λ owner_map.
        and_then (string_in w (lit "login") owner_map) (λ owner.
          and_then (string_in w (lit "html_url") repository) (λ html_url.
            some (record { owner = owner; name = name; html_url = html_url; ref = ref }))))))

in_order-eq :
    (w : World) (body : ℕ) (ref : Str)
    → in_order w body ref
      ≡ and_then (string_at w body (lit "repository" ∷ []) (lit "name")) (λ name.
        and_then (string_at w body (lit "repository" ∷ lit "owner" ∷ []) (lit "login")) (λ owner.
          and_then (string_at w body (lit "repository" ∷ []) (lit "html_url")) (λ html_url.
            some (record { owner = owner; name = name; html_url = html_url; ref = ref }))))
unfolding string_at map_at and_then
in_order-eq w body ref = elim (Option-cases (map_in w (lit "repository") body)) [
  | inl e ↦ rw e refl
  | inr (repository, e) ↦ elim (Option-cases (map_in w (lit "owner") repository)) [
    | inl f ↦ rw (e, f) refl
    | inr (owner, f) ↦ rw (e, f) refl
  ]
]

Gives-in_order :
    (body : ℕ) (ref : Str) (w : World) → Gives (repository_of body ref) w (in_order w body ref)
unfolding repository_of
Gives-in_order body ref w =
    Gives-bind (Gives-map_under no_repository repository_not_map body (lit "repository") w)
      (λ repository.
        Gives-bind
          (Gives-string_under no_repository_name repository_name_not_string repository (lit "name")
            w)
          (λ name.
            Gives-bind (Gives-map_under no_owner owner_not_map repository (lit "owner") w)
              (λ owner_map.
                Gives-bind (Gives-string_under no_login login_not_string owner_map (lit "login") w)
                  (λ owner.
                    Gives-bind
                      (Gives-string_under no_html_url html_url_not_string repository
                        (lit "html_url") w)
                      (λ html_url. Gives-pure _ w)))))

-- `getRepositoryInfo` changes nothing; it returns the strings of the message at repository.name,
-- repository.owner.login, repository.html_url, and at after or pull_request.head.sha by the event,
-- where all of them are there as strings, and an error otherwise. It never panics.
pub get_repository_info-Gives :
    (body : ℕ) (event : Str) (w : World)
    → Gives (get_repository_info body event) w (repository_at w body event)
unfolding get_repository_info repository_at
get_repository_info-Gives body event w =
    Gives-bind (Gives-ref_of body event w)
      (λ ref. subst (Gives _ w) (in_order-eq w body ref) (Gives-in_order body ref w))
