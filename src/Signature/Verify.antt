-- ===== src/Signature/Verify.antt =====
-- What an accepted signature is.
use reeva.Prelude.{◌≡◌, sym, ap, ◌∙◌, true, some, Text, arith, same→eq, length}
use reeva.Signature.{Crypto, verify_signature}

-- Node's verification accepts, over the bytes of the payload.
pub record IsAccepted (k : Crypto) (payload signature key : Text) : Type 0 where
  pub verified : k.verify (k.decode payload) key (k.decode signature) ≡ some true
  pub full_length : length (k.decode signature) ≡ 64
  pub signature_text : k.encode (k.decode signature) ≡ signature
  pub payload_text : k.encode (k.decode payload) ≡ payload

verify_sound :
    (k : Crypto) (payload signature key : Text)
    → verify_signature k payload (some signature) key ≡ true
    → IsAccepted k payload signature key
unfolding verify_signature
verify_sound k payload signature key h = record {
  verified = ground arith;
  full_length = ground arith;
  signature_text = same→eq _ _ (ground arith);
  payload_text = same→eq _ _ (ground arith);
}

-- A signature is accepted only if Node verifies its 64 bytes over the bytes of the payload with the
-- given key. Signature and payload are the only texts of their bytes that can be accepted: two
-- accepted signatures with the same bytes are the same text, and so are two accepted payloads.
pub verify_signature-IsAccepted :
    (k : Crypto) (payload payload' signature signature' key key' : Text)
    → verify_signature k payload (some signature) key ≡ true
    → verify_signature k payload' (some signature') key' ≡ true
    → IsAccepted k payload signature key
      × (k.decode signature ≡ k.decode signature' → signature ≡ signature')
      × (k.decode payload ≡ k.decode payload' → payload ≡ payload')
verify_signature-IsAccepted k payload payload' signature signature' key key' h h' =
    let a = verify_sound k payload signature key h in
    let b = verify_sound k payload' signature' key' h' in
    (
      a,
      λ e. sym a.signature_text ∙ ap k.encode e ∙ b.signature_text,
      λ e. sym a.payload_text ∙ ap k.encode e ∙ b.payload_text,
    )
