-- ===== src/Kabanero/Files.antt =====
-- Which trigger files `GetTriggerFiles` gives to its caller.
use mathlib.Core.Path.{subst}
use kabanero_events.Prelude.{
  ◌≡◌, ◌≢◌, sym, ap, ◌∙◌, true, false, ◌⊎◌, inl, inr, Bool-cases, none, some, [], Str,
  if◌then◌else◌,
}
use kabanero_events.Go.Exec.{
  World, Result, Error, ok, err, panic, out_of_fuel, pure, of_sum, recover, ◌>>=◌, download_failed,
  temporary_directory,
}
use kabanero_events.Go.Bind.{bind-eq-ok, pure-eq-ok, of_sum-eq-ok}
use kabanero_events.Archive.{Site, wrapped, download_trigger}
use kabanero_events.Archive.Checksum.{IsVerifiedIn, download_trigger-verified, wrapped-eq-ok}
use kabanero_events.Kabanero.{
  Url, Source, fatal, get_kabanero_namespace, trigger_url, temp_directory, is_local, fetch_files,
  get_trigger_files,
}

pub fatal-eq-ok : {A : Type 0} (r : Result A) {a : A} → fatal r ≡ ok a → r ≡ ok a
unfolding fatal
fatal-eq-ok (ok a) h = h
fatal-eq-ok (err _) h = absurd (cc h)
fatal-eq-ok panic h = absurd (cc h)
fatal-eq-ok out_of_fuel h = absurd (cc h)

module _ (getenv : Str → Str) (source : Source) (site : Site) where
  fetch_files-verified :
      (url : Url) (chk_sum : Str) (w : World) {dir : Str} {w' : World}
      → fetch_files getenv source site url chk_sum false w ≡ (ok dir, w')
      → (inside : World) × (source.temp_dir w.trace ≡ inr dir)
        × IsVerifiedIn site url.text chk_sum dir inside w'
  unfolding fetch_files temp_directory recover
  fetch_files-verified url chk_sum w {dir} {w'} h =
      let (trigger_dir, w₁, p, q) = bind-eq-ok (temp_directory getenv source site) _ w h in
      let (u, w₂, r, s) =
        bind-eq-ok
          (recover (wrapped download_failed)
            (download_trigger site url.text chk_sum trigger_dir true))
          _ w₁ q in
      let e =
        wrapped-eq-ok download_failed (download_trigger site url.text chk_sum trigger_dir true w₁).0
          (λ i. (r i).0) in
      let (same, left) = pure-eq-ok trigger_dir w₂ s in
      let (found, _) = of_sum-eq-ok _ w p in
      (
        w₁,
        made (source.temp_dir w.trace) found ∙ ap inr same,
        subst (λ d. IsVerifiedIn site url.text chk_sum d w₁ w') same
            (subst (IsVerifiedIn site url.text chk_sum trigger_dir w₁) left (
              download_trigger-verified site url.text chk_sum trigger_dir w₁
                (λ i. (e i, (r i).1)))),
      )
    where
      made :
          (o : Error ⊎ Str) {d : Str}
          → (elim o as (λ _. Error ⊎ Str) [ inl e ↦ inl temporary_directory | inr dir ↦ inr dir ])
            ≡ inr d
          → o ≡ inr d
      made (inl e) h = absurd (cc h)
      made (inr d) h = h

  -- The directory for a URL and a checksum: the local path, or a temporary directory, into which the
  -- archive of the URL was downloaded and, as its checksum is the expected one, extracted.
  pub Provided : Url → Str → World → Str → World → Type 0
  Provided url chk_sum w dir w' =
      ((is_local url ≡ true) × (dir ≡ url.path) × (w' ≡ w))
      ⊎ ((is_local url ≡ false)
          × ((inside : World) × (source.temp_dir w.trace ≡ inr dir)
              × IsVerifiedIn site url.text chk_sum dir inside w'))

  -- Of the URL and the checksum that were found.
  get_files-verified :
      (url : Url) (chk_sum : Str) (w : World) {dir : Str} {w' : World}
      → (if is_local url then pure url.path else fetch_files getenv source site url chk_sum false) w
        ≡ (ok dir, w')
      → Provided url chk_sum w dir w'
  unfolding Provided
  get_files-verified url chk_sum w h = elim (Bool-cases (is_local url)) [
    | inl e ↦ let (p, q) = pure-eq-ok url.path w (rw e at h) in inl (e, sym p, sym q)
    | inr e ↦ inr (e, fetch_files-verified url chk_sum w (rw e at h))
  ]

  -- Where no URL is given and the checksum is not skipped, the directory that `GetTriggerFiles`
  -- returns is that of the trigger which the definitions in the namespace name: its local path, and
  -- then nothing was done, or a new temporary directory, into which the archive of its URL was
  -- downloaded and, as the checksum is the one that the definitions name, extracted.
  pub get_trigger_files-verified :
      (w : World) {dir : Str} {w' : World}
      → get_trigger_files getenv source site none false w ≡ (ok dir, w')
      → (namespace : Str) × (w₁ : World) × (url : Url) × (chk_sum : Str) × (get_kabanero_namespace
            getenv w
          ≡ (ok namespace, w₁))
        × (source.trigger_info namespace ≡ inr (url, chk_sum))
        × Provided url chk_sum w₁ dir w'
  unfolding get_trigger_files trigger_url recover
  get_trigger_files-verified w {dir} {w'} h =
      let (namespace, w₁, p, q) = bind-eq-ok (get_kabanero_namespace getenv) _ w h in
      let ((url, chk_sum), w₂, r, s) =
        bind-eq-ok (recover fatal (of_sum (source.trigger_info namespace))) _ w₁ q in
      let e = fatal-eq-ok (of_sum (source.trigger_info namespace) w₁).0 (λ i. (r i).0) in
      let (f, k) = of_sum-eq-ok (source.trigger_info namespace) w₁ (λ i. (e i, (r i).1)) in
      (
        namespace,
        w₁,
        url,
        chk_sum,
        p,
        f,
        subst (λ v. Provided url chk_sum v dir w') (sym k) (get_files-verified url chk_sum w₂ s),
      )

  -- Where a URL is given that is not local and the checksum is not skipped, `GetTriggerFiles`
  -- never returns a directory, as long as no checksum is the empty text.
  pub get_trigger_files-given_url :
      (url : Url) (w : World) (dir : Str) (w' : World)
      → is_local url ≡ false
      → ((text : Str) → site.sha256 text ≢ [])
      → get_trigger_files getenv source site (some url) false w ≢ (ok dir, w')
  unfolding get_trigger_files trigger_url ◌>>=◌
  get_trigger_files-given_url url w dir w' not_local some_sum h =
      let (namespace, w₁, p, q) = bind-eq-ok (get_kabanero_namespace getenv) _ w h in
      some_sum _ (fetch_files-verified url [] w₁ (rw not_local at q)).2.sum
