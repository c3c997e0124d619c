-- ===== src/Updater/Download.antt =====
-- What `recordAndStream` hands out, and what it leaves in the tables.
use mathlib.Core.Path.{subst}
use reeva.Prelude.{
  ok-injective, is_none→eq, and_left, and_right, ◌+◌, ◌≡◌, refl, Bool, true, false, ◌&&◌, Option,
  none, some, List, [], ◌∷◌, Memᴰ, Text, ℕ, take, arith, ◌==◌, is_none, find, find-some, update, ok,
  or_fail-eq-ok, >>=-eq-ok, if◌then◌else◌, ==→eq,
}
use reeva.Model.{Uuid, Software, Artifact, StorageProvider, DownloadHistory, Catalog}
use reeva.Release.{is_public}
use reeva.Release.Eligible.{IsReleased, is_public_iff}
use reeva.Updater.{
  not_found, storage_unavailable, World, record_download, history_row, resolve_software,
  record_and_stream,
}

abbrev bumped : Artifact → Artifact
bumped a = record a { download_count = a.download_count + 1 }

abbrev by_id : Uuid → Artifact → Bool
by_id i a = a.id == i

abbrev bump_option : Option Artifact → Option Artifact
bump_option none = none
bump_option (some a) = some (bumped a)

find-bumped :
    (i j : Uuid) (rows : List Artifact)
    → find (by_id j) (update (by_id i) bumped rows)
      ≡ (if i == j then bump_option (find (by_id j) rows) else find (by_id j) rows)
find-bumped i j [] = ground arith
find-bumped i j (a ∷ rows) = ground (arith, find-bumped i j rows)

-- The row that tells of a download: the artifact, the address if it is one, at most 50 units of it,
-- and at most 2048 units of the user agent, if it has any.
pub record IsLogged (is_ip : Text → Bool) (id : Uuid) (ip : Text) (agent : Option Text)
    (row : DownloadHistory) : Type 0 where
  pub of_artifact : row.artifact_id ≡ id
  pub address : is_ip ip ≡ true → row.ip_address ≡ some (take 50 ip)
  pub no_address : is_ip ip ≡ false → row.ip_address ≡ none
  pub agent_start :
      (u : ℕ) (s : Text) → agent ≡ some (u ∷ s) → row.user_agent ≡ some (take 2048 (u ∷ s))
  pub no_agent : agent ≡ none → row.user_agent ≡ none
  pub empty_agent : agent ≡ some [] → row.user_agent ≡ none

history_row-IsLogged :
    (a : Artifact) (id : Uuid) (is_ip : Text → Bool) (ip : Text) (agent : Option Text)
    → a.id ≡ id
    → IsLogged is_ip id ip agent (history_row a is_ip ip agent)
unfolding history_row
history_row-IsLogged a id is_ip ip agent e = record {
  of_artifact = e;
  address = λ t. rw t refl;
  no_address = λ f. rw f refl;
  agent_start = λ u s g. rw g refl;
  no_agent = λ g. rw g refl;
  empty_agent = λ g. rw g refl;
}

-- How the tables stand after a download whose record `row` was committed, or was not.
pub record IsRecorded (c d : Catalog) (id : Uuid) (row : DownloadHistory) (committed : Bool)
    : Type 0 where
  pub counted :
      (j : Uuid)
      → find (by_id j) d.artifacts ≡ (
          if committed && id == j
          then bump_option (find (by_id j) c.artifacts)
          else find (by_id j) c.artifacts)
  pub history : d.downloads ≡ (if committed then row ∷ c.downloads else c.downloads)
  pub rest :
      (d.software ≡ c.software)
      × (d.versions ≡ c.versions)
      × (d.keys ≡ c.keys)
      × (d.providers ≡ c.providers)

recorded :
    (w : Bool) (c : Catalog) (a : Artifact) (id : Uuid) (row : DownloadHistory)
    → a.id ≡ id
    → IsRecorded c (if w then record_download c a row else c) id row w
unfolding record_download
recorded true c a id row e = record {
  counted = λ j. rw e (find-bumped id j c.artifacts);
  history = refl;
  rest = (refl, refl, refl, refl);
}
recorded false c a id row e = record {
  counted = λ j. refl;
  history = refl;
  rest = (refl, refl, refl, refl);
}

-- What a download that succeeds gives: a released artifact of the product with the requested id,
-- the stream of its own storage key from its own live provider, and the tables, which differ from
-- those before at most by the row that tells of this download and by one in that artifact's count,
-- and by exactly these if the transaction commits.
pub record IsDownload {Stream : Type 0} (w : World Stream) (c : Catalog) (s : Software) (id : Uuid)
    (ip : Text) (agent : Option Text) (a : Artifact) (stream : Stream) (d : Catalog) : Type 0 where
  pub listed : Memᴰ a c.artifacts
  pub requested : a.id ≡ id
  pub released : IsReleased c (some s.id) a
  pub provider : StorageProvider
  pub provider_listed : Memᴰ provider c.providers
  pub provider_of : (provider.id ≡ a.storage_provider_id) × (provider.deleted_at ≡ none)
  pub streamed : w.stream provider a.storage_key ≡ some stream
  pub row : DownloadHistory
  pub logged : IsLogged w.is_ip id ip agent row
  pub recorded_as : IsRecorded c d id row w.commits

-- The parts of a download, once they are found, make one.
parts-IsDownload :
    {Stream : Type 0} (w : World Stream) (c : Catalog) (id : Uuid) (ip : Text) (agent : Option Text)
    (s : Software) (b : Artifact) (p : StorageProvider) (stream : Stream)
    → find (λ (a : Artifact). is_public c (some s.id) a && a.id == id) c.artifacts ≡ some b
    → find
        (λ (p : StorageProvider). p.id == b.storage_provider_id && is_none p.deleted_at)
        c.providers
      ≡ some p
    → w.stream p b.storage_key ≡ some stream
    → IsDownload w c s id ip agent b stream
        (if w.commits then record_download c b (history_row b w.is_ip ip agent) else c)
parts-IsDownload w c id ip agent s b p stream eb ep es =
    let (mb, tb) =
      find-some (λ (a : Artifact). is_public c (some s.id) a && a.id == id) c.artifacts eb in
    let (mp, tp) =
      find-some (λ (p : StorageProvider). p.id == b.storage_provider_id && is_none p.deleted_at)
        c.providers ep in
    let same_id : b.id ≡ id =
      ==→eq b.id id (and_right (is_public c (some s.id) b) (b.id == id) tb) in
    record {
      listed = mb;
      requested = same_id;
      released =
          (is_public_iff c (some s.id) b).0 (and_left (is_public c (some s.id) b) (b.id == id) tb);
      provider = p;
      provider_listed = mp;
      provider_of = (ground arith, is_none→eq p.deleted_at (ground arith));
      streamed = es;
      row = history_row b w.is_ip ip agent;
      logged = history_row-IsLogged b id w.is_ip ip agent same_id;
      recorded_as = recorded w.commits c b id (history_row b w.is_ip ip agent) same_id;
    }

-- A download of `recordAndStream` that succeeds streams a released artifact of the product that the
-- slug names, with the requested id, from its own live provider. If the record of it is committed,
-- one is added to this artifact's count, and one row to the history, which names this artifact and
-- holds the address and the start of the user agent; if it is not, the tables stay as they were.
pub record_and_stream-IsDownload :
    {Stream : Type 0} (w : World Stream) (c : Catalog) (id : Uuid) (ip : Text)
    (agent slug : Option Text) (a : Artifact) (stream : Stream) (d : Catalog)
    → record_and_stream w c id ip agent slug ≡ ok (a, stream, d)
    → (s : Software) × (resolve_software c slug ≡ ok s) × IsDownload w c s id ip agent a stream d
unfolding record_and_stream
record_and_stream-IsDownload {Stream} w c id ip agent slug a stream d h =
    let (s, es, h1) = >>=-eq-ok (resolve_software c slug) _ h in
    let (b, eb, h2) =
      or_fail-eq-ok (find (λ (a : Artifact). is_public c (some s.id) a && a.id == id) c.artifacts)
        not_found _ h1 in
    let (p, ep, h3) =
      or_fail-eq-ok
        (find (λ (p : StorageProvider). p.id == b.storage_provider_id && is_none p.deleted_at)
          c.providers)
        storage_unavailable _ h2 in
    let (st, est, h4) = or_fail-eq-ok (w.stream p b.storage_key) storage_unavailable _ h3 in
    (
      s,
      es,
      subst (λ (t : Artifact × Stream × Catalog). IsDownload w c s id ip agent t.0 t.1 t.2)
          (ok-injective h4) (parts-IsDownload w c id ip agent s b p st eb ep est),
    )
