-- ===== src/Products/Revoked.antt =====
-- That a revoked key signs no release of the product any more.
use reeva.Prelude.{
  ◌≡◌, ◌≢◌, refl, sym, true, false, ◌&&◌, some, List, Text, same, same_refl, ◌==◌, find, find-some,
  ==→eq, All, All_of_update, if◌then◌else◌, Result, ok, or_fail-eq-ok, require-eq-ok, >>=-eq-ok,
  ok-injective,
}
use reeva.Model.{Uuid, Software, SigningKey, Artifact, Catalog}
use reeva.Signature.{is_sha256}
use reeva.Products.{
  Error, not_found, invalid_key_id, key_not_found, find_software, is_of, replaceable, signed_with,
  drop_signatures, revoke_signing_key,
}

-- The artifact names the key and belongs to a version of the product.
signed_with_intro :
    (c : Catalog) (software : Uuid) (key_id : Text) (a : Artifact)
    → a.signature_key_id ≡ some key_id
    → is_of c software false a ≡ true
    → signed_with c software key_id a ≡ true
unfolding signed_with is_of
signed_with_intro c software key_id a e h = rw (e, same_refl key_id, h) refl

drop_signatures-None :
    (c : Catalog) (software : Uuid) (key_id : Text) (rows : List Artifact)
    → All
        (λ (a : Artifact). is_of c software false a ≡ true → a.signature_key_id ≢ some key_id)
        (drop_signatures c software key_id rows)
unfolding drop_signatures
drop_signatures-None c software key_id rows =
    All_of_update _ (signed_with c software key_id) _ rows (λ a t o e. cc)
      (λ a f o e. cc (f, signed_with_intro c software key_id a e o))

abbrev pub IsDropped : Catalog → Uuid → Text → List Artifact → Type 0
IsDropped c software key_id =
    All (λ (a : Artifact). is_of c software false a ≡ true → a.signature_key_id ≢ some key_id)

finished :
    (c d e : Catalog) (software i : Uuid) (key_id : Text)
    → ◌≡◌ {A = Result Error Catalog} (ok e) (ok d)
    → i ≡ software
    → e.artifacts ≡ drop_signatures c i key_id c.artifacts
    → IsDropped c software key_id d.artifacts
finished c d e software i key_id h j k =
    rw (sym (ok-injective h), k, j) (drop_signatures-None c software key_id c.artifacts)

software_id :
    (rows : List Software) (id : Uuid) {s : Software} → find_software rows id ≡ some s → s.id ≡ id
unfolding find_software
software_id rows id e = ==→eq _ id (find-some (λ (s : Software). s.id == id) rows e).1

-- After a revocation that succeeds, no artifact of a version of the product names the key.
pub revoke_signing_key-None :
    (c d : Catalog) (software : Uuid) (key_id : Text)
    → revoke_signing_key c software key_id ≡ ok d
    → IsDropped c software key_id d.artifacts
unfolding revoke_signing_key
revoke_signing_key-None c d software key_id e =
    let (s, e1, h1) = or_fail-eq-ok (find_software c.software software) not_found _ e in
    let (g, h2) = require-eq-ok (is_sha256 key_id) invalid_key_id _ h1 in
    let (k, e2, h3) =
      or_fail-eq-ok
        (find (λ (k : SigningKey). k.software_id == s.id && same k.key_id key_id && k.is_active)
          c.keys)
        key_not_found _ h2 in
    let (u, e3, h4) =
      >>=-eq-ok (if s.require_signed_updates then replaceable c s key_id else ok tt) _ h3 in
    finished c d _ software s.id key_id h4 (software_id c.software software e1) refl
