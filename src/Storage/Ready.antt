-- ===== src/Storage/Ready.antt =====
-- That the default storage provider can be used.
use reeva.Prelude.{
  ◌≡◌, ◌≢◌, refl, sym, ap, ◌∙◌, Bool, true, false, not, ◌&&◌, inl, inr, Option, none, some, ◌∷◌,
  Text, lit, same, same→eq, mem_of_exists, every, is_empty, trim, trim_start, is_space, Bool-cases,
  All, All-mem, ok, or_fail, ◌>>=◌, require-eq-ok, >>=-eq-ok, ok-injective,
}
use reeva.Input.{Value, text}
use reeva.Storage.Config.{
  ConfigRecord, S3Config, Platform, normalize, or_nullish, not_an_object, relative_root,
}
use reeva.Storage.{
  Provider, ProviderInput, Backend, local, s3_compatible, no_config, or_no_config, driver_or,
  provider_driver, is_local, is_s3, s3_drivers, backend, resolve, check_driver, check_config,
  provider_config, local_config, s3_config, entered_config, stored_config, input_string,
}
use reeva.Storage.Again.{IsJavaScript, is_lower_unit, normalize-normalize}

-- `StorageManager.resolve` succeeds.
abbrev pub IsReady : Platform → Provider → Type 0
IsReady js p = (b : Backend) × (resolve js p ≡ ok b)

-- The names of the drivers: read as they are
pub record IsName (s : Text) : Type 0 where
  pub clean : trim s ≡ s
  pub filled : is_empty s ≡ false
  pub small : every is_lower_unit s ≡ true

names : All IsName (lit "local" ∷ s3_drivers)
unfolding trim trim_start is_space
names = (
  record { clean = refl; filled = refl; small = refl },
  (
    record { clean = refl; filled = refl; small = refl },
    (
      record { clean = refl; filled = refl; small = refl },
      (
        record { clean = refl; filled = refl; small = refl },
        (
          record { clean = refl; filled = refl; small = refl },
          (record { clean = refl; filled = refl; small = refl }, tt),
        ),
      ),
    ),
  ),
)

s3-IsName : (driver : Text) → is_s3 driver ≡ true → IsName driver
unfolding is_s3
s3-IsName driver h =
    let (x, m, e) = mem_of_exists (same driver) s3_drivers h in
    rw (same→eq driver x e) (All-mem IsName s3_drivers names.1 m)

driver_or_name :
    (js : Platform) → IsJavaScript js → (s type : Text) → IsName s → driver_or js (text s) type ≡ s
driver_or_name js laws s type n = rw (n.clean, n.filled) (laws.letters s n.small)

local-not-s3 : (driver : Text) → is_s3 driver ≡ true → is_local driver ≡ false
unfolding is_s3 is_local same
local-not-s3 driver h =
    let (x, m, e) = mem_of_exists (same driver) s3_drivers h in
    rw (same→eq driver x e) (
      All-mem (λ s. same s (lit "local") ≡ false) s3_drivers
        (refl, (refl, (refl, (refl, (refl, tt))))) m)

backend_s3 :
    (js : Platform) (c : ConfigRecord) (driver : Text) (n : S3Config)
    → is_s3 driver ≡ true
    → normalize js (some c) driver ≡ ok n
    → backend js c driver ≡ ok (s3_compatible n)
backend_s3 js c driver n h run = rw (local-not-s3 driver h, h, run) refl

-- A stored configuration is ready for its driver.
stored-ready :
    (js : Platform) (laws : IsJavaScript js) (driver type : Text) (c : ConfigRecord) (n : S3Config)
    → is_s3 driver ≡ true
    → c ≡ stored_config driver n
    → normalize js (some c) driver ≡ ok n
    → (b : Backend) × (backend js c (driver_or js c.driver type) ≡ ok b)
unfolding stored_config
stored-ready js laws driver type c n h e made =
    let same_driver : driver_or js c.driver type ≡ driver =
      ap (λ (x : ConfigRecord). driver_or js x.driver type) e
      ∙ driver_or_name js laws driver type (s3-IsName driver h) in
    (s3_compatible n, ap (backend js c) same_driver ∙ backend_s3 js c driver n h made)

s3_config-ready :
    (js : Platform) (laws : IsJavaScript js) (driver type : Text) (input : ProviderInput)
    (old c : ConfigRecord)
    → is_s3 driver ≡ true
    → s3_config js driver input old ≡ ok c
    → (b : Backend) × (backend js c (driver_or js c.driver type) ≡ ok b)
s3_config-ready js laws driver type input old c h run =
    let (entered, e, run1) = >>=-eq-ok (entered_config input old driver) _ run in
    let (n, made, run2) = >>=-eq-ok (normalize js (some entered) driver) _ run1 in
    let stored : c ≡ stored_config driver n = sym (ok-injective run2) in
    stored-ready js laws driver type c n h stored (
      ap (λ x. normalize js (some x) driver) stored
      ∙ normalize-normalize js laws (some entered) driver n made)

local_config-ready :
    (js : Platform) (laws : IsJavaScript js) (type : Text) (v : Value) (c : ConfigRecord)
    → local_config js v ≡ ok c
    → (b : Backend) × (backend js c (driver_or js c.driver type) ≡ ok b)
unfolding local_config is_local same
local_config-ready js laws type v c run =
    let (root, e, run1) = >>=-eq-ok (input_string v 2048) _ run in
    let (kept, run2) =
      require-eq-ok (not (is_empty root) && js.is_absolute root) relative_root _ run1 in
    let stored : ◌≡◌ {A = ConfigRecord} c
        (record no_config { driver = text (lit "local"); root = text root }) =
      sym (ok-injective run2) in
    let same_driver : driver_or js c.driver type ≡ lit "local" =
      ap (λ (x : ConfigRecord). driver_or js x.driver type) stored
      ∙ driver_or_name js laws (lit "local") type names.0 in
    (local c.root, ap (backend js c) same_driver ∙ chosen js c)
  where
    chosen : (js : Platform) (c : ConfigRecord) → backend js c (lit "local") ≡ ok (local c.root)
    chosen js c = refl

-- A configuration that the form gives is ready, whatever the type of its row.
pub config-ready :
    (js : Platform) (laws : IsJavaScript js) (driver type : Text) (input : ProviderInput)
    (old : Option ConfigRecord) (c : ConfigRecord)
    → provider_config js driver input old ≡ ok c
    → (b : Backend) × (backend js c (driver_or js c.driver type) ≡ ok b)
unfolding provider_config
config-ready js laws driver type input old c run = elim (Bool-cases (is_local driver)) [
  | inl t ↦
      local_config-ready js laws type (or_nullish input.fields.root (or_no_config old).root) c
        (rw t at run)
  | inr f ↦ elim (Bool-cases (is_s3 driver)) [
    | inl t ↦ s3_config-ready js laws driver type input (or_no_config old) c t (rw (f, t) at run)
    | inr g ↦ absurd (cc (rw (f, g) at run))
  ]
]

pub update_provider-IsReady :
    (js : Platform) (laws : IsJavaScript js) (p : Provider) (driver : Text) (input : ProviderInput)
    (c : ConfigRecord) (q : Provider)
    → provider_config js driver input p.config ≡ ok c
    → q.config ≡ some c
    → IsReady js q
unfolding resolve provider_driver
update_provider-IsReady js laws p driver input c q run e =
    rw e (config-ready js laws driver q.type input p.config c run)

check_none : (js : Platform) (driver : Text) → check_driver js none driver ≢ ok tt
unfolding normalize
check_none js driver run = elim (Bool-cases (is_local driver)) [
  | inl t ↦ cc (rw t at run)
  | inr f ↦ elim (Bool-cases (is_s3 driver)) [
    | inl t ↦ cc (rw (f, t) at run)
    | inr g ↦ cc (rw (f, g) at run)
  ]
]

check_some :
    (js : Platform) (c : ConfigRecord) (driver : Text)
    → check_driver js (some c) driver ≡ ok tt
    → (b : Backend) × (backend js c driver ≡ ok b)
check_some js c driver run = elim (Bool-cases (is_local driver)) [
  | inl t ↦ (local c.root, rw t refl)
  | inr f ↦ elim (Bool-cases (is_s3 driver)) [
    | inl t ↦
        let (n, made, last) = >>=-eq-ok (normalize js (some c) driver) _ (rw (f, t) at run) in
        (s3_compatible n, backend_s3 js c driver n t made)
    | inr g ↦ absurd (cc (rw (f, g) at run))
  ]
]

check_driver-ready :
    (js : Platform) (c : Option ConfigRecord) (driver : Text)
    → check_driver js c driver ≡ ok tt
    → (b : Backend) × ((or_fail c not_an_object >>= λ x. backend js x driver) ≡ ok b)
check_driver-ready js none driver run = absurd (check_none js driver run)
check_driver-ready js (some c) driver run = check_some js c driver run

-- A provider whose configuration passes the check of an activation
pub check_config-IsReady :
    (js : Platform) (p : Provider) (b c : Bool)
    → check_config js p ≡ ok tt
    → IsReady js (record p { is_active = b; is_default = c })
unfolding resolve check_config provider_driver
check_config-IsReady js p b c run =
    check_driver-ready js p.config (driver_or js (or_no_config p.config).driver p.type) run
