-- ===== src/Signature/Code.antt =====
-- An encoding of manifests as texts, with its decoder: for the examples, where JSON and base64url
-- are parameters. The given manifest has a text of four letters, as the examples want it short.
use reeva.Prelude.{
  ℕ, zero, suc, ◌≡◌, refl, sym, ap, ◌∙◌, Option, none, some, [], ◌∷◌, ◌++◌, Text, lit, length, take,
  drop, if◌then◌else◌, Bool-cases, inl, inr, ◌==◌,
}
use reeva.Release.{same_manifest}
use reeva.Release.Eligible.{same_manifest_iff}
use reeva.Model.{Manifest}
use reeva.Signature.{Codec}

unfoldable pub put_text : Text → Text → Text
put_text s rest = length s ∷ (s ++ rest)

unfoldable pub get_text {ℓ} : {B : Type ℓ} → Text → (Text → Text → Option B) → Option B
get_text [] k = none
get_text (n ∷ s) k = k (take n s) (drop n s)

take-append : (s r : Text) → take (length s) (s ++ r) ≡ s
take-append [] r = refl
take-append (c ∷ s) r = ap (◌∷◌ c) (take-append s r)

drop-append : (s r : Text) → drop (length s) (s ++ r) ≡ r
drop-append [] r = refl
drop-append (c ∷ s) r = drop-append s r

get-put_text {ℓ} :
    {B : Type ℓ} (s r : Text) (k : Text → Text → Option B) → get_text (put_text s r) k ≡ k s r
unfolding get_text put_text
get-put_text s r k = rw (take-append s r, drop-append s r) refl

unfoldable pub put_option : Option Text → Text → Text
unfolding put_text
put_option none rest = 0 ∷ rest
put_option (some s) rest = 1 ∷ put_text s rest

unfoldable pub get_option {ℓ} : {B : Type ℓ} → Text → (Option Text → Text → Option B) → Option B
get_option [] k = none
get_option (n ∷ s) k = if n == 0 then k none s else get_text s (λ t. k (some t))

get-put_option {ℓ} :
    {B : Type ℓ} (o : Option Text) (r : Text) (k : Option Text → Text → Option B)
    → get_option (put_option o r) k ≡ k o r
unfolding get_option put_option
get-put_option none r k = refl
get-put_option (some s) r k = get-put_text s r (λ t. k (some t))

unfoldable pub put_number : Option ℕ → Text → Text
put_number none rest = 0 ∷ rest
put_number (some n) rest = 1 ∷ n ∷ rest

unfoldable pub get_number {ℓ} : {B : Type ℓ} → Text → (Option ℕ → Text → Option B) → Option B
get_number (zero ∷ s) k = k none s
get_number (suc n ∷ m ∷ s) k = k (some m) s
get_number (suc n ∷ []) k = none
get_number [] k = none

get-put_number {ℓ} :
    {B : Type ℓ} (o : Option ℕ) (r : Text) (k : Option ℕ → Text → Option B)
    → get_number (put_number o r) k ≡ k o r
unfolding get_number put_number
get-put_number none r k = refl
get-put_number (some n) r k = refl

unfoldable pub put : Manifest → Text
put m =
    m.schema_version
    ∷ put_text m.software (
        put_text m.version (
          put_option m.codename (
            put_option m.changelog (
              put_text m.channel (
                put_option m.platform (
                  put_option m.architecture
                    (put_text m.file_name (put_number m.size_bytes (put_option m.sha256 [])))))))))

unfoldable pub get : Text → Option Manifest
get [] = none
get (v ∷ s0) = get_text s0 λ a s1. get_text s1 λ b s2. get_option s2 λ c s3. get_option s3 λ d s4.
    get_text s4 λ e s5. get_option s5 λ f s6. get_option s6 λ g s7. get_text s7 λ h s8.
      get_number s8 λ i s9. get_option s9 λ j s10. some (record {
        schema_version = v;
        software = a;
        version = b;
        codename = c;
        changelog = d;
        channel = e;
        platform = f;
        architecture = g;
        file_name = h;
        size_bytes = i;
        sha256 = j;
      })

get-put : (m : Manifest) → get (put m) ≡ some m
unfolding get put
get-put m =
    get-put_text m.software _ _
    ∙ get-put_text m.version _ _
    ∙ get-put_option m.codename _ _
    ∙ get-put_option m.changelog _ _
    ∙ get-put_text m.channel _ _
    ∙ get-put_option m.platform _ _
    ∙ get-put_option m.architecture _ _
    ∙ get-put_text m.file_name _ _
    ∙ get-put_number m.size_bytes _ _
    ∙ get-put_option m.sha256 [] _

-- The text of a manifest: four letters for the given one, a marked encoding for the others
unfoldable pub encode : Manifest → Manifest → Text
encode given m = if same_manifest m given then lit "AAAA" else 66 ∷ put m

unfoldable pub parse : Manifest → Text → Option Manifest
parse given [] = none
parse given (c ∷ s) = if c == 65 then some given else get s

pub parse-encode_lem : (given m : Manifest) → parse given (encode given m) ≡ some m
unfolding parse encode
parse-encode_lem given m = elim (Bool-cases (same_manifest m given)) [
  | inl t ↦ rw t (ap some (sym ((same_manifest_iff m given).0 t)))
  | inr f ↦ rw f (get-put m)
]

abbrev pub codec_for : Manifest → Codec
codec_for given = record {
  encode = encode given;
  parse = parse given;
  parse-encode = parse-encode_lem given;
}
