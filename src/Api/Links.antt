-- ===== src/Api/Links.antt =====
-- That the link of an offered update works: the composition of `check` and `download`.
use reeva.Prelude.{
  ◌≡◌, ◌⊎◌, ◌++◌, refl, ap, ◌∙◌, Bool, true, false, ◌&&◌, Option, none, some, List, [], ◌∷◌, Memᴰ,
  Text, arith, ◌==◌, ==_refl, ==→eq, and_intro, and_left, and_right, is_none, is_some, find,
  find-some, find-none, All, All-mem, Option-cases, inl, inr, Result, ok, err, ok-injective, ◌≢◌,
  if◌then◌else◌, Bool-cases, or_fail-eq-ok, >>=-eq-ok,
}
use reeva.Model.{Uuid, Software, Version, Artifact, StorageProvider, Catalog}
use reeva.Input.{Value, ReleaseContext}
use reeva.Release.{Candidate, is_public, join, with_version}
use reeva.Release.Eligible.{IsReleased, is_public_iff}
use reeva.Updater.{
  Sorting, SemVer, World, not_found, storage_unavailable, resolve_software, check_for_update,
  record_and_stream, record_download, history_row,
}
use reeva.Updater
use reeva.Updater.Newest.{check_for_update-Answers}
use reeva.Signature.{load, create_envelope}
use reeva.Headers.Safe.{header_text, attachment_disposition_plain}
use reeva.Artifacts.{is_safe_unit}
use reeva.Uuid.{is_uuid, uuid_value}
use reeva.Api.Bodies.{
  Outside, UpdateBody, Uncaught, get_download_url, update_body, content_length, type_error, signed,
}
use reeva.Api.{
  update, streamed, failure, or_thrown, update_response, check_with, check, download_response,
  download,
}

-- A row that is there and meets the test is found, or another one is.
find-intro {ℓ} :
    {A : Type ℓ} (p : A → Bool) (xs : List A) {a : A}
    → Memᴰ a xs
    → p a ≡ true
    → (b : A) × (find p xs ≡ some b)
find-intro p xs {a} m t = elim (Option-cases (find p xs)) [
  | inl n ↦ absurd (cc (All-mem _ xs (find-none p xs n) m, t))
  | inr (b, e) ↦ (b, e)
]

some_of {ℓ} : {A : Type ℓ} (o : Option A) → is_some o ≡ true → (a : A) × (o ≡ some a)
some_of none h = cc
some_of (some a) h = (a, refl)

module _ {Stream : Type 0} (w : World Stream) (c : Catalog) (ip : Text)
    (agent slug : Option Text) where
  after : Artifact → Catalog
  after b = if w.commits then record_download c b (history_row b w.is_ip ip agent) else c

  run_of_parts :
      (id : Uuid) (s : Software) (b : Artifact) (p : StorageProvider) (st : Stream)
      → resolve_software c slug ≡ ok s
      → find (λ (a : Artifact). is_public c (some s.id) a && a.id == id) c.artifacts ≡ some b
      → find
          (λ (p : StorageProvider). p.id == b.storage_provider_id && is_none p.deleted_at)
          c.providers
        ≡ some p
      → w.stream p b.storage_key ≡ some st
      → record_and_stream w c id ip agent slug ≡ ok (b, st, after b)
  unfolding record_and_stream after
  run_of_parts id s b p st e1 e2 e3 e4 = rw (e1, e2, e3, e4) refl

  -- A public artifact of the named product is handed out, or another one with its id.
  public-run :
      (s : Software) (a : Artifact)
      → resolve_software c slug ≡ ok s
      → Memᴰ a c.artifacts
      → IsReleased c (some s.id) a
      → ((p : StorageProvider) (key : Text) → is_some (w.stream p key) ≡ true)
      → (b : Artifact) × (st : Stream) × Memᴰ b c.artifacts
        × (b.id ≡ a.id)
        × (record_and_stream w c a.id ip agent slug ≡ ok (b, st, after b))
  public-run s a e m r up =
      let t =
        and_intro (is_public c (some s.id) a) (a.id == a.id) ((is_public_iff c (some s.id) a).1 r)
          (==_refl a.id) in
      let (b, eb) =
        find-intro (λ (x : Artifact). is_public c (some s.id) x && x.id == a.id) c.artifacts m t in
      let (mb, tb) =
        find-some (λ (x : Artifact). is_public c (some s.id) x && x.id == a.id) c.artifacts eb in
      let rb =
        (is_public_iff c (some s.id) b).0
          (and_left (is_public c (some s.id) b) (b.id == a.id) tb) in
      let (p, ep) =
        find-intro (λ (p : StorageProvider). p.id == b.storage_provider_id && is_none p.deleted_at)
          c.providers rb.provider_listed
          (provider_live b.storage_provider_id rb.provider rb.of_provider rb.live.4) in
      let (st, es) = some_of (w.stream p b.storage_key) (up p b.storage_key) in
      (
        b,
        st,
        mb,
        ==→eq b.id a.id (and_right (is_public c (some s.id) b) (b.id == a.id) tb),
        run_of_parts a.id s b p st e eb ep es,
      )
    where
      provider_live :
          (i : Uuid) (p : StorageProvider)
          → p.id ≡ i
          → p.deleted_at ≡ none
          → (p.id == i && is_none p.deleted_at) ≡ true
      provider_live i p e d = rw (d, e) (ground arith)

mem-append {ℓ} : {A : Type ℓ} (xs ys : List A) {z : A} → Memᴰ z (xs ++ ys) → Memᴰ z xs ⊎ Memᴰ z ys
mem-append [] ys m = inr m
mem-append (x ∷ xs) ys (Memᴰ.head e) = inl (Memᴰ.head e)
mem-append (x ∷ xs) ys (Memᴰ.tail m) = elim (mem-append xs ys m) [
  | inl k ↦ inl (Memᴰ.tail k)
  | inr k ↦ inr k
]

mem-with_version :
    (a : Artifact) (vs : List Version) {x : Candidate} → Memᴰ x (with_version a vs) → x.artifact ≡ a
unfolding with_version
mem-with_version a [] m = elim m [ ]
mem-with_version a (v ∷ vs) {x} m = cases (v.id == a.version_id) (mem-with_version a vs) m
  where
    cases :
        (b : Bool)
        → (Memᴰ x (with_version a vs) → x.artifact ≡ a)
        → Memᴰ x (
            if b
            then record { artifact = a; version = v } ∷ with_version a vs
            else with_version a vs)
        → x.artifact ≡ a
    cases true ih (Memᴰ.head e) = ap (λ (y : Candidate). y.artifact) e
    cases true ih (Memᴰ.tail k) = ih k
    cases false ih k = ih k

mem-join :
    (rows : List Artifact) (vs : List Version) {x : Candidate}
    → Memᴰ x (join rows vs)
    → Memᴰ x.artifact rows
unfolding join
mem-join [] vs m = elim m [ ]
mem-join (a ∷ rows) vs {x} m = elim (mem-append (with_version a vs) (join rows vs) m) [
  | inl k ↦ Memᴰ.head (mem-with_version a vs k)
  | inr k ↦ Memᴰ.tail (mem-join rows vs k)
]

-- What a response with an update rests on
pub record IsOffer (out : Outside) (c : Catalog) (slug : Option Text) (body : UpdateBody)
    : Type 0 where
  pub software : Software
  pub artifact : Artifact
  pub resolves : resolve_software c slug ≡ ok software
  pub listed : Memᴰ artifact c.artifacts
  pub released : IsReleased c (some software.id) artifact
  pub link : get_download_url out artifact.id slug ≡ ok body.download_url

body-link :
    (out : Outside) (c : Catalog) (slug : Option Text) (a : Artifact) (body : UpdateBody)
    → update_body out c a slug ≡ ok body
    → get_download_url out a.id slug ≡ ok body.download_url
unfolding update_body
body-link out c slug a body h =
    let (v, e1, h1) = or_fail-eq-ok (load c a).version type_error _ h in
    let (url, e2, h2) = >>=-eq-ok (get_download_url out a.id slug) _ h1 in
    let (envelope, e3, h3) = >>=-eq-ok (signed (create_envelope out.codec (load c a))) _ h2 in
    e2 ∙ ap ok (ap (λ (b : UpdateBody). b.download_url) (ok-injective h3))

module _ {Stream : Type 0} where
  failure-ne-update :
      (e : Updater.Error) (body : UpdateBody) → failure {Stream = Stream} e ≢ update body
  failure-ne-update Updater.invalid_version body h = cc
  failure-ne-update Updater.software_not_found body h = cc
  failure-ne-update Updater.unsupported_target body h = cc
  failure-ne-update Updater.not_found body h = cc
  failure-ne-update Updater.storage_unavailable body h = cc
  failure-ne-update Updater.unsupported_plain body h = cc

  or_thrown-update :
      (r : Result Uncaught UpdateBody) (body : UpdateBody)
      → or_thrown {Stream = Stream} r update ≡ update body
      → r ≡ ok body
  or_thrown-update (ok b) body h = cc
  or_thrown-update (err e) body h = cc

  response-IsOffer :
      (out : Outside) (c : Catalog) (slug : Option Text) (body : UpdateBody)
      (platform arch version channel : Text) (r : Result Updater.Error (Option Candidate))
      → check_for_update out.db out.parse c platform arch version channel slug ≡ r
      → update_response {Stream = Stream} out c slug r ≡ update body
      → IsOffer out c slug body
  unfolding update_response
  response-IsOffer out c slug body platform arch version channel (err e) q h =
      absurd (failure-ne-update e body h)
  response-IsOffer out c slug body platform arch version channel (ok none) q h = cc
  response-IsOffer out c slug body platform arch version channel (ok (some x)) q h =
      let (n, current, e, ans) =
        check_for_update-Answers out.db out.parse c platform arch version channel slug (some x) q in
      record {
        software = n.software;
        artifact = x.artifact;
        resolves = n.resolves;
        listed = mem-join c.artifacts c.versions ans.offered.listed;
        released = ans.offered.released;
        link = body-link out c slug x.artifact body (or_thrown-update _ body h);
      }

  check_with-IsOffer :
      (out : Outside) (c : Catalog) (slug : Option Text) (body : UpdateBody)
      (ctx : Option ReleaseContext) (version : Option Text)
      → check_with {Stream = Stream} out c slug ctx version ≡ update body
      → IsOffer out c slug body
  unfolding check_with
  check_with-IsOffer out c slug body none version h = cc
  check_with-IsOffer out c slug body (some ctx) none h = cc
  check_with-IsOffer out c slug body (some ctx) (some version) h =
      elim (Bool-cases (is_some (out.parse version))) [
        | inl t ↦
            response-IsOffer out c slug body ctx.platform ctx.arch version ctx.channel _ refl
              (rw (t, check_with) at h)
        | inr f ↦ cc (rw (f, check_with) at h)
      ]

-- The ids of the rows print as texts that the pattern of `download` accepts and that name them, and
-- the file names are such as `buildFileName` makes.
pub record IsNamed (out : Outside) (a : Artifact) : Type 0 where
  pub accepted : is_uuid (out.show_id a.id) ≡ true
  pub names : uuid_value (out.show_id a.id) ≡ a.id
  pub plain : All (λ u. is_safe_unit u ≡ true) a.file_name

-- What a download of an offered update gives
pub record IsServed {Stream : Type 0} (out : Outside) (w : World Stream) (c : Catalog)
    (slug : Option Text) (ip : Text) (agent : Option Text) (body : UpdateBody) : Type 0 where
  pub artifact : Artifact
  pub served : Artifact
  pub stream : Stream
  pub tables : Catalog
  pub same_id : served.id ≡ artifact.id
  pub link : get_download_url out artifact.id slug ≡ ok body.download_url
  pub response : download w c slug (out.show_id artifact.id) ip agent ≡ (
    streamed
        (header_text served.file_name served.file_name)
        (content_length served.size_bytes)
        stream,
    tables,
  )

download-run :
    {Stream : Type 0} (w : World Stream) (c d : Catalog) (slug : Option Text) (id ip : Text)
    (agent : Option Text) (b : Artifact) (st : Stream)
    → is_uuid id ≡ true
    → record_and_stream w c (uuid_value id) ip agent slug ≡ ok (b, st, d)
    → All (λ u. is_safe_unit u ≡ true) b.file_name
    → download w c slug id ip agent
      ≡ (streamed (header_text b.file_name b.file_name) (content_length b.size_bytes) st, d)
unfolding download download_response
download-run w c d slug id ip agent b st t e p =
    rw (t, e, attachment_disposition_plain b.file_name p) refl

-- When a check answers with an update, its link is the one of an artifact whose download, over the
-- same product, is answered with a stream and its header, by whatever client, as long as the object
-- stores give their streams. Ids are taken to print as the texts that the download accepts, and
-- file names to be such as `buildFileName` makes.
pub check-IsServed :
    {Stream : Type 0} (out : Outside) (w : World Stream) (c : Catalog) (slug : Option Text)
    (platform arch channel version : Value) (body : UpdateBody) (ip : Text) (agent : Option Text)
    → check {Stream = Stream} out c slug platform arch channel version ≡ update body
    → ((p : StorageProvider) (key : Text) → is_some (w.stream p key) ≡ true)
    → All (IsNamed out) c.artifacts
    → IsServed out w c slug ip agent body
unfolding check
check-IsServed out w c slug platform arch channel version body ip agent h up named =
    let o = check_with-IsOffer out c slug body _ _ h in
    let (b, st, mb, i, run) =
      public-run w c ip agent slug o.software o.artifact o.resolves o.listed o.released up in
    let n = All-mem (IsNamed out) c.artifacts named o.listed in
    record {
      artifact = o.artifact;
      served = b;
      stream = st;
      tables = after w c ip agent slug b;
      same_id = i;
      link = o.link;
      response =
          download-run w c _ slug (out.show_id o.artifact.id) ip agent b st n.accepted
            (rw n.names run) (All-mem (IsNamed out) c.artifacts named mb).plain;
    }
