-- ===== src/Storage/Default.antt =====
-- What the activation of a storage provider does, and that at most one provider is the default and
-- that one can be used.
use reeva.Prelude.{
  ◌≡◌, refl, sym, ap, ◌∙◌, true, false, ◌&&◌, ◌||◌, inl, inr, none, some, List, ◌∷◌, Memᴰ, ◌==◌,
  ==_refl, ==→eq, find, find-some, find-none, update, mem-update, mem-update_intro, is_none,
  is_none→eq, Option-cases, All-mem, and_left, and_right, ok, or_fail-eq-ok, require-eq-ok,
  >>=-eq-ok, ok-injective, lit,
}
use reeva.Model.{Uuid}
use reeva.Input.{number}
use reeva.Storage.Config.{Platform, or_nullish, row_not_found, unsupported_driver}
use reeva.Storage.{
  Provider, ProviderInput, provider_driver, is_local, is_s3, check_config, find_provider,
  get_default_provider, save, activate_provider, create_provider, update_provider, provider_config,
  provider_name, input_string, quota_in_bytes,
}
use reeva.Storage.Again.{IsJavaScript}
use reeva.Storage.Ready.{IsReady, update_provider-IsReady, check_config-IsReady}

-- The row of an activated provider, and the table
abbrev pub activated : Provider → Provider
activated p = record p { is_active = true; is_default = true }

abbrev pub cleared : List Provider → List Provider
cleared rows = update (λ q. true) (λ (q : Provider). record q { is_default = false }) rows

pub record IsActivated (js : Platform) (rows after : List Provider) (id : Uuid) : Type 0 where
  pub provider : Provider
  pub found : find_provider rows id ≡ some provider
  pub ready : IsReady js (activated provider)
  pub table : after ≡ save (activated provider) (cleared rows)
  pub only : (q : Provider) → Memᴰ q after → q.is_default ≡ true → q ≡ activated provider
  pub default : get_default_provider after ≡ some (activated provider)

only_default :
    (rows : List Provider) (p q : Provider)
    → Memᴰ q (save (activated p) (cleared rows))
    → q.is_default ≡ true
    → q ≡ activated p
only_default rows p q m h =
    let (b, k, cases) =
      mem-update (λ (x : Provider). x.id == p.id) (λ x. activated p) (cleared rows) m in
    elim cases [
      | inl (t, e) ↦ e
      | inr (f, e) ↦
          let (d, n, rest) =
            mem-update (λ x. true) (λ (x : Provider). record x { is_default = false }) rows k in
          elim rest [
            | inl (t, i) ↦ absurd (cc (h, ap (λ (x : Provider). x.is_default) (e ∙ i)))
            | inr (g, i) ↦ cc
          ]
    ]

found_row :
    (rows : List Provider) (id : Uuid) (p : Provider)
    → find_provider rows id ≡ some p
    → Memᴰ p rows × (p.id ≡ id) × (p.deleted_at ≡ none)
unfolding find_provider
found_row rows id p e =
    let (m, t) = find-some (λ (q : Provider). q.id == id && is_none q.deleted_at) rows e in
    (
      m,
      ==→eq p.id id (and_left (p.id == id) (is_none p.deleted_at) t),
      is_none→eq p.deleted_at (and_right (p.id == id) (is_none p.deleted_at) t),
    )

there :
    (rows : List Provider) (p : Provider)
    → Memᴰ p rows
    → Memᴰ (activated p) (save (activated p) (cleared rows))
there rows p m =
    mem-update_intro (λ (x : Provider). x.id == p.id) (λ x. activated p) (cleared rows)
      (mem-update_intro (λ x. true) (λ (x : Provider). record x { is_default = false }) rows m refl)
      (==_refl p.id)

default_is :
    (after : List Provider) (p : Provider)
    → Memᴰ p after
    → p.is_default ≡ true
    → p.deleted_at ≡ none
    → ((q : Provider) → Memᴰ q after → q.is_default ≡ true → q ≡ p)
    → get_default_provider after ≡ some p
unfolding get_default_provider
default_is after p m d n only =
    elim (Option-cases (find (λ (q : Provider). q.is_default && is_none q.deleted_at) after)) [
      | inl e ↦ absurd (cc (All-mem _ after (find-none _ after e) m, d, n))
      | inr (q, e) ↦
          let (k, t) = find-some (λ (q : Provider). q.is_default && is_none q.deleted_at) after e in
          e ∙ ap some (only q k (and_left q.is_default (is_none q.deleted_at) t))
    ]

-- An activation that succeeds makes the provider of that id active and the default: it is what
-- `getDefaultProvider` gives afterwards, no other row is a default, and `StorageManager.resolve`
-- finds its configuration complete.
pub activate_provider-IsActivated :
    (js : Platform) (rows after : List Provider) (id : Uuid)
    → activate_provider js rows id ≡ ok after
    → IsActivated js rows after id
unfolding activate_provider
activate_provider-IsActivated js rows after id run =
    let (p, found, run1) = or_fail-eq-ok (find_provider rows id) row_not_found _ run in
    let (done, checked, run2) = >>=-eq-ok (check_config js p) _ run1 in
    let (m, i, live) = found_row rows id p found in
    rw (sym (ok-injective run2)) (record {
      provider = p;
      found = found;
      ready = check_config-IsReady js p true true checked;
      table = refl;
      only = only_default rows p;
      default = default_is _ (activated p) (there rows p m) refl live (only_default rows p);
    })

-- At most one default provider, which is active and can be resolved
pub record IsSound (js : Platform) (rows : List Provider) : Type 0 where
  pub one :
      (p q : Provider)
      → Memᴰ p rows
      → Memᴰ q rows
      → p.is_default ≡ true
      → q.is_default ≡ true
      → p.id ≡ q.id
  pub usable :
      (p : Provider) → Memᴰ p rows → p.is_default ≡ true → (p.is_active ≡ true) × IsReady js p

activate-IsSound :
    (js : Platform) (rows after : List Provider) (id : Uuid)
    → IsActivated js rows after id
    → IsSound js after
activate-IsSound js rows after id a = record {
  one = λ p q m n d e. ap (λ (x : Provider). x.id) (a.only p m d ∙ sym (a.only q n e));
  usable = λ p m d. rw (a.only p m d) (refl, a.ready);
}

-- A new row that is no default
add-IsSound :
    (js : Platform) (rows : List Provider) (p : Provider)
    → p.is_default ≡ false
    → IsSound js rows
    → IsSound js (p ∷ rows)
add-IsSound js rows p f h = record {
  one = λ x y m n d e. h.one x y (old p rows f x m d) (old p rows f y n e) d e;
  usable = λ x m d. h.usable x (old p rows f x m d) d;
}
  where
    old :
        (p : Provider) (rows : List Provider)
        → p.is_default ≡ false
        → (x : Provider) → Memᴰ x (p ∷ rows)
        → x.is_default ≡ true
        → Memᴰ x rows
    old p rows f x (Memᴰ.head e) d = absurd (cc (f, d, ap (λ (y : Provider). y.is_default) e))
    old p rows f x (Memᴰ.tail m) d = m

-- An edit that keeps the id and the flags and gives a configuration that is ready
edit-IsSound :
    (js : Platform) (rows : List Provider) (p q : Provider)
    → Memᴰ p rows
    → q.id ≡ p.id
    → q.is_default ≡ p.is_default
    → q.is_active ≡ p.is_active
    → IsReady js q
    → IsSound js rows
    → IsSound js (save q rows)
edit-IsSound js rows p q m i d a r h = record {
  one = λ x y k l e f.
      let (b, n, bd, bi) = origin x k in
      let (c, o, cd, ci) = origin y l in bi ∙ h.one b c n o (sym bd ∙ e) (sym cd ∙ f) ∙ sym ci;
  usable = λ x k e.
      let (b, n, cases) = mem-update (λ (z : Provider). z.id == q.id) (λ z. q) rows k in
      elim cases [
        | inl (t, s) ↦
            rw s (a ∙ (h.usable p m (sym d ∙ ap (λ (z : Provider). z.is_default) (sym s) ∙ e)).0, r)
        | inr (f, s) ↦ rw s (h.usable b n (ap (λ (z : Provider). z.is_default) (sym s) ∙ e))
      ];
}
  where
    origin :
        (x : Provider)
        → Memᴰ x (save q rows)
        → (b : Provider) × Memᴰ b rows × (x.is_default ≡ b.is_default) × (x.id ≡ b.id)
    origin x k =
        let (b, n, cases) = mem-update (λ (z : Provider). z.id == q.id) (λ z. q) rows k in
        elim cases [
          | inl (t, s) ↦
              (p, m, ap (λ (z : Provider). z.is_default) s ∙ d, ap (λ (z : Provider). z.id) s ∙ i)
          | inr (f, s) ↦
              (b, n, ap (λ (z : Provider). z.is_default) s, ap (λ (z : Provider). z.id) s)
        ]

update-IsSound :
    (js : Platform) (laws : IsJavaScript js) (rows after : List Provider) (id : Uuid)
    (input : ProviderInput) (q : Provider)
    → update_provider js rows id input ≡ ok (q, after)
    → IsSound js rows
    → IsSound js after
unfolding update_provider
update-IsSound js laws rows after id input q run h =
    let (p, found, run1) = or_fail-eq-ok (find_provider rows id) row_not_found _ run in
    let (name, e1, run2) = >>=-eq-ok (provider_name input.name) _ run1 in
    let (config, e2, run3) =
      >>=-eq-ok (provider_config js (provider_driver js p) input p.config) _ run2 in
    let (quota, e3, run4) = >>=-eq-ok (quota_in_bytes js input.quota_gb) _ run3 in
    rw (ap (λ (x : Provider × List Provider). x.1) (sym (ok-injective run4))) (
      edit-IsSound js rows p (record p { name = name; config = some config; quota_bytes = quota })
        ((found_row rows id p found).0) refl refl refl
        (update_provider-IsReady js laws p (provider_driver js p) input config _ e2 refl) h)

create-IsSound :
    (js : Platform) (rows after : List Provider) (id : Uuid) (input : ProviderInput) (q : Provider)
    → create_provider js rows input id ≡ ok (q, after)
    → IsSound js rows
    → IsSound js after
unfolding create_provider
create-IsSound js rows after id input q run h =
    let (name, e1, run1) = >>=-eq-ok (provider_name input.name) _ run in
    let (entered, e2, run2) = >>=-eq-ok (input_string input.fields.driver 32) _ run1 in
    let (known, run3) =
      require-eq-ok (is_local (js.lower entered) || is_s3 (js.lower entered)) unsupported_driver _
        run2 in
    let (config, e3, run4) = >>=-eq-ok (provider_config js (js.lower entered) input none) _ run3 in
    let (quota, e4, run5) =
      >>=-eq-ok (quota_in_bytes js (or_nullish input.quota_gb (number (lit "10")))) _ run4 in
    rw (ap (λ (x : Provider × List Provider). x.1) (sym (ok-injective run5)))
      (add-IsSound js rows _ refl h)

-- One call of the service that changes the providers
pub data Step (js : Platform) : List Provider → List Provider → Type 0 where
  created :
      {rows after : List Provider} (input : ProviderInput) (id : Uuid) (q : Provider)
      → create_provider js rows input id ≡ ok (q, after)
      → Step js rows after
  updated :
      {rows after : List Provider} (input : ProviderInput) (id : Uuid) (q : Provider)
      → update_provider js rows id input ≡ ok (q, after)
      → Step js rows after
  made_default :
      {rows after : List Provider} (id : Uuid)
      → activate_provider js rows id ≡ ok after
      → Step js rows after

-- Creating, editing and activating storage providers keeps that at most one of them is the default,
-- and that the default is active and has a configuration that `StorageManager.resolve` accepts: an
-- edit of the default provider never makes it unusable. The texts of URLs and the numbers of
-- JavaScript are taken to be read back, as their standards say.
pub Step-IsSound :
    {js : Platform} {rows after : List Provider}
    → IsJavaScript js
    → Step js rows after
    → IsSound js rows
    → IsSound js after
Step-IsSound {js} {rows} {after} laws (created input id q run) h =
    create-IsSound js rows after id input q run h
Step-IsSound {js} {rows} {after} laws (updated input id q run) h =
    update-IsSound js laws rows after id input q run h
Step-IsSound {js} {rows} {after} laws (made_default id run) h =
    activate-IsSound js rows after id (activate_provider-IsActivated js rows after id run)
