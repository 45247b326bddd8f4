-- ===== src/Trigger/Library/Content.antt =====
-- The map that `downloadYAML` gives to an expression.
use mathlib.Core.Path.{subst}
use kabanero_events.Prelude.{
  ◌≡◌, refl, sym, ap, ◌∙◌, arith, ℕ, ◌<◌, Bool, false, ◌⊎◌, inl, inr, List, [], ◌∷◌, ◌++◌, Str, lit,
  str_eq, length, get_or, get_or-append, length-append,
}
use kabanero_events.Go.Assoc.{insert}
use kabanero_events.Go.Value.{Val}
use kabanero_events.Go.Exec.{World, ok, alloc, store, update, ◌>>=◌}
use kabanero_events.Go.Bind.{bind-eq-ok, pure-eq-ok}
use kabanero_events.Go.Heap.{length-update, get_or-update}
use kabanero_events.GitHub.{Download, download_yaml}
use kabanero_events.GitHub.Fresh.{IsFresh, download_yaml-IsFresh}
use kabanero_events.Trigger.Engine.{Out}
use kabanero_events.Trigger.Library.{Library, store_download, download_into}

-- Two writes to a map that is empty.
stored-two :
    (a : ℕ) (k l : Str) (v u : Val) (w : World) {n : Unit {0}} {w' : World}
    → str_eq k l ≡ false
    → IsFresh a w
    → (store a k v >>= λ _. store a l u) w ≡ (ok n, w')
    → get_or w'.heap a [] ≡ (k, v) ∷ (l, u) ∷ []
unfolding store ◌>>=◌ insert
stored-two a k l v u w ne fresh h =
    let lt : a < length (update w.heap a k v) =
      omega (arith, fresh.here, length-update w.heap a k v) in
    ap (λ x. get_or x.heap a []) (sym (λ i. (h i).1))
    ∙ get_or-update (update w.heap a k v) a l u lt
    ∙ ap (insert l u) (get_or-update w.heap a k v fresh.here ∙ ap (insert k v) fresh.empty)
    ∙ rw ne refl

-- A map with "exists", and either the text of the error or the map of the content.
abbrev pub Answer : ℕ → World → Type 0
Answer a w =
    (exists : Bool) × (((error : Str) × (get_or w.heap a []
          ≡ (lit "exists", Val.bool exists) ∷ (lit "error", Val.string error) ∷ []))
      ⊎ ((content : ℕ) × (get_or w.heap a []
            ≡ (lit "exists", Val.bool exists) ∷ (lit "content", Val.object content) ∷ [])))

store_download-Answer :
    (lib : Library) (a : ℕ) (d : Download ℕ) (w : World) {n : Unit {0}} {w' : World}
    → IsFresh a w
    → store_download lib a d w ≡ (ok n, w')
    → Answer a w'
unfolding store_download str_eq
store_download-Answer lib a (exists, inl e) w fresh h =
    (exists, inl (lib.error_text e, stored-two a (lit "exists") (lit "error") _ _ w refl fresh h))
store_download-Answer lib a (exists, inr content) w fresh h =
    (exists, inr (content, stored-two a (lit "exists") (lit "content") _ _ w refl fresh h))

new-IsFresh : (w : World) → IsFresh (length w.heap) (record w { heap = w.heap ++ [] ∷ [] })
new-IsFresh w = record {
  here = omega (arith, length-append w.heap ([] ∷ []));
  empty = get_or-append w.heap ([] ∷ []) [];
}

-- Where `downloadYAMLCEL` gets to the download and returns, its result is a new map that holds exactly
-- "exists" and either "error", a text, or "content", a map.
pub download_into-Answer :
    (lib : Library) (header : List (Str × List Str)) (body : ℕ) (file_name : Str) (w : World)
    {out : Out} {w' : World}
    → download_into lib header body file_name w ≡ (ok out, w')
    → (out.value ≡ Val.object (length w.heap)) × Answer (length w.heap) w'
unfolding download_into alloc ◌>>=◌
download_into-Answer lib header body file_name w h =
    let a = length w.heap in
    let w₀ : World = record w { heap = w.heap ++ [] ∷ [] } in
    let (d, w₁, p, q) = bind-eq-ok (download_yaml lib.github header body file_name) _ w₀ h in
    let (u, w₂, r, s) = bind-eq-ok (store_download lib a d) _ w₁ q in
    let (e, f) = pure-eq-ok (record { type_name = lit "map"; value = Val.object a }) w₂ s in
    let fresh = (download_yaml-IsFresh lib.github a header body file_name).at w₀ (new-IsFresh w) in
    let fresh₁ = subst (IsFresh a) (λ i. (p i).1) fresh in
    (sym (ap (λ o. o.value) e), subst (Answer a) f (store_download-Answer lib a d w₁ fresh₁ r))
