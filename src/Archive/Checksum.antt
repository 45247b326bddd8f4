-- ===== src/Archive/Checksum.antt =====
-- What the verification of the checksum of an archive rules out.
use mathlib.Core.Option.{some-injective}
use mathlib.Core.List.{append-nil}
use kabanero_events.Prelude.{
  ◌≡◌, ◌≢◌, refl, sym, ap, ◌∙◌, true, inl, inr, Bool-cases, Option, none, some, [], ◌++◌, Str,
  str_eq, str_eq_iff, ℕ, zero, suc, lit, if◌then◌else◌, length, drop,
}
use kabanero_events.Go.Assoc.{lookup, insert, lookup-insert_self}
use kabanero_events.Go.Exec.{
  World, Exec, Error, Result, ok, err, panic, out_of_fuel, ◌>>=◌, pure, act, recover, lift, reads,
  download, create_file,
}
use kabanero_events.Go.Keeps.{Keeps, keeps_rules}
use kabanero_events.Go.Bind.{bind-eq-ok, pure-eq-ok, throw-ne-ok, lift-eq-ok, reads-eq-ok}
use kabanero_events.Archive.Contained.{fail_if-Keeps}
use kabanero_events.Archive.{
  Site, wrapped, fail_if, overwrite, truncate, write_bytes, opened, string_wrapped, open_file,
  download_file_to, archive_name, sha256sum, verify, decompress_gzip_tar, download_trigger,
}

fail_if-eq-ok :
    (e : Option Error) (w : World) {u : Unit {0}} {w' : World} → fail_if e w ≡ (ok u, w') → w ≡ w'
unfolding fail_if
fail_if-eq-ok none w h = (pure-eq-ok tt w h).1
fail_if-eq-ok (some e) w h = absurd (throw-ne-ok e w h)

open_file-eq-ok :
    (site : Site) (path : Str) (w : World) {content : Str} {w' : World}
    → open_file site path w ≡ (ok content, w')
    → lookup path w.files ≡ some content
unfolding open_file opened
open_file-eq-ok site path w {content} h =
    let (u, w₁, p, q) = bind-eq-ok (fail_if (site.open_error path)) _ w h in
    ap (λ v. lookup path v.files) (fail_if-eq-ok (site.open_error path) w p)
    ∙ found (lookup path w₁.files) (reads-eq-ok _ w₁ q).1
  where
    found : (o : Option Str) → opened site o ≡ ok content → o ≡ some content
    found none e = absurd (cc e)
    found (some c) e = cc e

pub drop-nil : (n : ℕ) → drop n (lit "") ≡ []
drop-nil zero = refl
drop-nil (suc n) = refl

created_file :
    (path body : Str) (w : World)
    → lookup path (write_bytes path body (truncate path w).1).1.files ≡ some body
unfolding truncate write_bytes overwrite
created_file path body w =
    lookup-insert_self path _ (insert path [] w.files)
    ∙ ap some (
        rw (lookup-insert_self path [] w.files)
          (ap (λ end_of. body ++ end_of) (drop-nil (length body)) ∙ append-nil body))

string_wrapped-eq-ok :
    (site : Site) (r : Result Str) {s : Str} → string_wrapped site r ≡ ok s → r ≡ ok s
unfolding string_wrapped
string_wrapped-eq-ok site (ok s) h = h
string_wrapped-eq-ok site (err e) h = absurd (cc h)
string_wrapped-eq-ok site panic h = absurd (cc h)
string_wrapped-eq-ok site out_of_fuel h = absurd (cc h)

pub wrapped-eq-ok :
    (e : Error) (r : Result (Unit {0})) {u : Unit {0}} → wrapped e r ≡ ok u → r ≡ ok u
unfolding wrapped
wrapped-eq-ok e (ok u) h = h
wrapped-eq-ok e (err _) h = absurd (cc h)
wrapped-eq-ok e panic h = absurd (cc h)
wrapped-eq-ok e out_of_fuel h = absurd (cc h)

module _ (site : Site) (url path : Str) where
  -- The file holds the body.
  pub download_file_to-files :
      (w : World) {u : Unit {0}} {w' : World}
      → download_file_to site url path w ≡ (ok u, w')
      → lookup path w'.files ≡ some (site.response url).body
  unfolding download_file_to truncate write_bytes ◌>>=◌
  download_file_to-files w h =
      let (m, w₁, p, q) = bind-eq-ok (act site.outside (download url)) _ w h in
      let (n, w₂, r, s) = bind-eq-ok (act site.outside (create_file path)) _ w₁ q in
      ap (λ v. lookup path v.files) (sym (fail_if-eq-ok (site.response url).body_error _ s))
      ∙ created_file path (site.response url).body w₂

  verify-eq-ok :
      (chk_sum : Str) (w : World) {u : Unit {0}} {w' : World}
      → verify site true chk_sum path w ≡ (ok u, w')
      → (content : Str) × (lookup path w.files ≡ some content) × (site.sha256 content ≡ chk_sum)
  unfolding verify sha256sum recover
  verify-eq-ok chk_sum w h =
      let (sum, w₁, p, q) =
        bind-eq-ok (recover (string_wrapped site) (sha256sum site path)) _ w h in
      let e = string_wrapped-eq-ok site (sha256sum site path w).0 (λ i. (p i).0) in
      let (content, w₂, r, s) =
        bind-eq-ok (open_file site path) _ w (λ i. (e i, (sha256sum site path w).1)) in
      (
        content,
        open_file-eq-ok site path w r,
        (pure-eq-ok (site.sha256 content) w₂ s).0 ∙ tested sum w₁ q,
      )
    where
      tested :
          (sum : Str) (w : World) {u : Unit {0}} {w' : World}
          → (if str_eq sum chk_sum then pure tt else lift panic) w ≡ (ok u, w')
          → sum ≡ chk_sum
      tested sum w h = elim (Bool-cases (str_eq sum chk_sum)) [
        | inl e ↦ (str_eq_iff sum chk_sum).0 e
        | inr e ↦ absurd (cc (lift-eq-ok panic w (rw e at h)).1)
      ]

-- An action that is run only where it leaves the world alone.
bind-stays :
    {A B : Type 0} (m : Exec A) (f : A → Exec B) (w : World)
    → ((a : A) (w₁ : World) → m w ≡ (ok a, w₁) → (f a w₁).1 ≡ w₁)
    → ((m >>= f) w).1 ≡ (m w).1
unfolding ◌>>=◌
bind-stays {A} {B} m f w h = stays (m w).0 refl
  where
    stays : (r : Result A) → (m w).0 ≡ r → ((lift r >>= f) (m w).1).1 ≡ (m w).1
    stays (ok a) e = h a (m w).1 (λ i. (e i, (m w).1))
    stays (err _) e = refl
    stays panic e = refl
    stays out_of_fuel e = refl

module _ (site : Site) (url chk_sum dir : Str) where
  verify-Keeps : (P : World → Type 0) → Keeps P (verify site true chk_sum (archive_name site dir))
  unfolding verify sha256sum open_file
  verify-Keeps P = search (keeps_rules, fail_if-Keeps)

  -- A download and a verification that end well.
  checked :
      (w : World) {u u₁ : Unit {0}} {w₁ w₂ : World}
      → download_file_to site url (archive_name site dir) w ≡ (ok u, w₁)
      → verify site true chk_sum (archive_name site dir) w₁ ≡ (ok u₁, w₂)
      → site.sha256 (site.response url).body ≡ chk_sum
  checked w {w₁ = w₁} p r =
      let (content, found, sum) = verify-eq-ok site url (archive_name site dir) chk_sum w₁ r in
      ap site.sha256 (
        some-injective _ _
          (sym (download_file_to-files site url (archive_name site dir) w p) ∙ found))
      ∙ sum

  -- The archive of the URL is in the file of this directory, its checksum is the expected one, and
  -- what a reader of the file gives was extracted into the directory.
  pub record IsVerifiedIn (w w' : World) : Type 0 where
    pub sum : site.sha256 (site.response url).body ≡ chk_sum
    pub between : World
    pub got : download_file_to site url (archive_name site dir) w ≡ (ok tt, between)
    pub held : lookup (archive_name site dir) between.files ≡ some (site.response url).body
    pub unpacked :
        decompress_gzip_tar site (site.streamed (archive_name site dir) dir between) dir between
        ≡ (ok tt, w')

  open_file-Keeps : (P : World → Type 0) (path : Str) → Keeps P (open_file site path)
  unfolding open_file
  open_file-Keeps P path = search (keeps_rules, fail_if-Keeps)

  -- Where `DownloadTrigger` is to verify the checksum and returns without an error, the checksum of
  -- the downloaded body is the expected one, and the archive was extracted.
  pub download_trigger-verified :
      (w : World) {w' : World}
      → download_trigger site url chk_sum dir true w ≡ (ok tt, w')
      → IsVerifiedIn w w'
  unfolding download_trigger
  download_trigger-verified w {w'} h =
      let path = archive_name site dir in
      let (u₁, w₁, p, q) = bind-eq-ok (download_file_to site url path) _ w h in
      let (u₂, w₂, r, s) = bind-eq-ok (verify site true chk_sum path) _ w₁ q in
      let (c, w₃, a, k) = bind-eq-ok (open_file site path) _ w₂ s in
      let (bytes, w₄, b, l) = bind-eq-ok (reads (λ v. ok (site.streamed path dir v))) _ w₃ k in
      let (f, g) = reads-eq-ok (λ v. ok (site.streamed path dir v)) w₃ b in
      let same₂ = sym (ap (λ v. v.1) r) ∙ (verify-Keeps (λ v. v ≡ w₁)).at w₁ refl in
      let same₃ = sym (ap (λ v. v.1) a) ∙ (open_file-Keeps (λ v. v ≡ w₂) path).at w₂ refl in
      let same = same₃ ∙ same₂ in
      record {
        sum = checked w p r;
        between = w₁;
        got = p;
        held = download_file_to-files site url path w p;
        unpacked =
            ap (λ v. decompress_gzip_tar site (site.streamed path dir v) dir v) (sym same)
            ∙ ap (λ v. decompress_gzip_tar site (site.streamed path dir w₃) dir v) f
            ∙ ap (λ x. decompress_gzip_tar site x dir w₄) (given g)
            ∙ l;
      }
    where
      value : Str → Result Str → Str
      value d (ok x) = x
      value d _ = d

      given : {a b : Str} → ok a ≡ ok b → a ≡ b
      given {a} e = ap (value a) e

  -- Where `DownloadTrigger` is to verify the checksum and that of the body is another one, nothing is done but the download: not one entry of the archive is extracted.
  pub download_trigger-mismatch :
      (w : World)
      → site.sha256 (site.response url).body ≢ chk_sum
      → (download_trigger site url chk_sum dir true w).1
        ≡ (download_file_to site url (archive_name site dir) w).1
  unfolding download_trigger
  download_trigger-mismatch w differs =
      bind-stays (download_file_to site url (archive_name site dir)) _ w (λ u w₁ p.
        bind-stays (verify site true chk_sum (archive_name site dir)) _ w₁
          (λ u₂ w₂ r. absurd (differs (checked w p r)))
        ∙ (verify-Keeps (λ v. v ≡ w₁)).at w₁ refl)
