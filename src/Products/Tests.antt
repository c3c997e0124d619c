-- ===== src/Products/Tests.antt =====
-- Runs of the product operations.
use reeva.Prelude.{
  ℕ, ◌≡◌, refl, sym, ap, ◌∙◌, Bool, true, false, some, List, [], ◌∷◌, Memᴰ, Text, lit, arith, ok,
  same, trim, trim_start, is_space, decimal, decimal_from, length, ◌<◌, ◌^◌,
}
use reeva.Model.{Software, SigningKey, Catalog}
use reeva.Sample.{artifact_of, catalog}
use reeva.Signature.{is_sha256}
use reeva.Products.{
  find_software, toggle_active, set_default, is_of, signed_with, drop_signatures,
  revoke_signing_key,
}
use reeva.Products.Slug.{
  Unicode, create, create_safe_slug, dash_runs, strip_last_dashes, find_slug, candidate,
}
use reeva.Products.Fresh.{IsCreated, create-IsCreated}
use reeva.Artifacts.{strip_dashes}
use reeva.Input.{text}
use reeva.Products.Default.{IsSound}
use reeva.Products.Steps.{here, then_step, toggled, chosen, Reach-IsSound}
use reeva.Products.Revoked.{IsDropped, revoke_signing_key-None}

abbrev product_of : ℕ → Bool → Bool → Software
product_of i active default = record {
  id = i;
  name = lit "App";
  slug = lit "app";
  is_active = active;
  is_default = default;
  require_signed_updates = false;
}

abbrev start : List Software
start = product_of 1 true true ∷ product_of 2 true false ∷ []

abbrev moved : List Software
moved = product_of 1 true false ∷ product_of 2 true true ∷ []

abbrev stopped : List Software
stopped = product_of 1 false false ∷ product_of 2 true true ∷ []

default_run : set_default start 2 ≡ ok moved
unfolding set_default
default_run = refl

toggle_run : toggle_active moved 1 ≡ ok stopped
unfolding toggle_active find_software
toggle_run = refl

start-IsSound : IsSound start
start-IsSound = record {
  key = λ s t m n i. by_key s t m n i;
  active = λ s m d. is_on s m;
  unique = λ s t m n d e. one s m d ∙ sym (one t n e);
}
  where
    by_key : (s t : Software) → Memᴰ s start → Memᴰ t start → s.id ≡ t.id → s ≡ t
    by_key s t (Memᴰ.head e) (Memᴰ.head k) i = e ∙ sym k
    by_key s t (Memᴰ.head e) (Memᴰ.tail (Memᴰ.head k)) i =
        absurd (omega (arith, ap (λ (x : Software). x.id) e, ap (λ (x : Software). x.id) k, i))
    by_key s t (Memᴰ.tail (Memᴰ.head e)) (Memᴰ.head k) i =
        absurd (omega (arith, ap (λ (x : Software). x.id) e, ap (λ (x : Software). x.id) k, i))
    by_key s t (Memᴰ.tail (Memᴰ.head e)) (Memᴰ.tail (Memᴰ.head k)) i = e ∙ sym k
    by_key s t (Memᴰ.tail (Memᴰ.tail m)) n i = elim m [ ]
    by_key s t m (Memᴰ.tail (Memᴰ.tail n)) i = elim n [ ]

    is_on : (s : Software) → Memᴰ s start → s.is_active ≡ true
    is_on s (Memᴰ.head e) = ap (λ (x : Software). x.is_active) e
    is_on s (Memᴰ.tail (Memᴰ.head e)) = ap (λ (x : Software). x.is_active) e
    is_on s (Memᴰ.tail (Memᴰ.tail m)) = elim m [ ]

    one : (s : Software) → Memᴰ s start → s.is_default ≡ true → s.id ≡ 1
    one s (Memᴰ.head e) d = ap (λ (x : Software). x.id) e
    one s (Memᴰ.tail (Memᴰ.head e)) d = cc (ap (λ (x : Software). x.is_default) e, d)
    one s (Memᴰ.tail (Memᴰ.tail m)) d = elim m [ ]

Reach-IsSound_example : IsSound stopped
Reach-IsSound_example =
    Reach-IsSound start-IsSound
      (then_step (then_step here (chosen 2 default_run)) (toggled 1 toggle_run))

abbrev key_id : Text
key_id = lit "0123456789012345678901234567890123456789012345678901234567890123"

abbrev key : SigningKey
key = record { id = 60; software_id = 1; key_id = key_id; public_key = lit "P"; is_active = true }

abbrev signed : Catalog
signed = record catalog {
  keys = key ∷ [];
  artifacts =
      record (artifact_of 50 10 false) {
        signature = some (lit "s");
        signature_key_id = some key_id;
      }
      ∷ [];
}

abbrev revoked : Catalog
revoked = record signed {
  keys = record key { is_active = false } ∷ [];
  artifacts = artifact_of 50 10 false ∷ [];
}

revoke_run : revoke_signing_key signed 1 key_id ≡ ok revoked
unfolding revoke_signing_key find_software is_sha256 drop_signatures signed_with is_of same
revoke_run = refl

revoke_signing_key-None_example : IsDropped signed 1 key_id revoked.artifacts
revoke_signing_key-None_example = revoke_signing_key-None signed revoked 1 key_id revoke_run

abbrev unicode : Unicode
unicode = record { nfkd = λ s. s; strip_marks = λ s. s; lower = λ s. s }

create_run :
    create unicode start (text (lit " app ")) 3
    ≡ ok (record (product_of 3 true false) { name = lit "app"; slug = lit "app-2" } ∷ start)
unfolding create create_safe_slug dash_runs strip_last_dashes strip_dashes find_slug candidate same
    trim trim_start is_space decimal decimal_from
create_run = refl

few : length start < 10 ^ 9
few = omega arith

create-IsCreated_example : IsCreated unicode start (text (lit "app")) 3
unfolding trim trim_start is_space
create-IsCreated_example =
    create-IsCreated unicode start (text (lit "app")) 3 refl (omega arith) few
