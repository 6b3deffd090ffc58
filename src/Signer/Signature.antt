-- ===== src/Signer/Signature.antt =====
-- Where the signature and the hashes stand, and what equal ones mean.
use minioclient_cpp.Base.{
  drop, drop-length-append, ◌≡◌, ◌≢◌, ◌⊎◌, inl, inr, sym, ap, ◌∙◌, [], ◌∷◌, ◌++◌, arith, length,
  append_assoc,
}
use minioclient_cpp.Text.{Str-discrete, Str, str, between}
use minioclient_cpp.Text.Split.{Lacks, cut_at}
use minioclient_cpp.Map.{keys}
use minioclient_cpp.Digest.{Crypto, IsCrypto, base16_encode, sha256_base16}
use minioclient_cpp.External.{Env}
use minioclient_cpp.Signer.Headers.{semicolons}
use mathlib.Core.List.{tail-eq_of_cons-eq}
use minioclient_cpp.Digest.Hex.{
  base16_decode, base16_decode-encode, length-base16_encode, sha256_base16_lem,
}
use minioclient_cpp.DateTime
use minioclient_cpp.DateTime.{DateTime, amz_date_format, signer_date_format}
use minioclient_cpp.DateTime.Stamp.{to_string-Lacks_newline}
use minioclient_cpp.Text.Split.{same_end}
use minioclient_cpp.Signer.Spec.{
  signing_method, derived_key, text_to_sign, authorization_text, scope_of, text_to_sign_at, key_of,
  authorization_at, newline, signed_map,
}

-- These two texts differ and have one hash, or one code, each under its key.
abbrev pub SharesHash : Crypto → Str → Str → Type 0
SharesHash C x y = (x ≢ y) × (C.sha256 x ≡ C.sha256 y)

abbrev pub SharesCode : Crypto → Str → Str → Str → Str → Type 0
SharesCode C k x l y = (x ≢ y) × ((C.hmac k x).0 ≡ (C.hmac l y).0)

-- The hash stands at the end of the text that is signed.
pub text_end :
    (s t u v : Str)
    → between newline (s ∷ t ∷ u ∷ v ∷ [])
      ≡ (s ++ (newline ++ (t ++ (newline ++ (u ++ newline))))) ++ v
text_end s t u v = simp append_assoc

-- Behind a common first line, the second is determined.
pub second_line :
    (a s t u v : Str)
    → Lacks b'\n' s
    → Lacks b'\n' t
    → a ++ (newline ++ (s ++ (newline ++ u))) ≡ a ++ (newline ++ (t ++ (newline ++ v)))
    → s ≡ t
unfolding str
second_line a s t u v hs ht e =
    let rest : newline ++ (s ++ (newline ++ u)) ≡ newline ++ (t ++ (newline ++ v)) =
      sym (drop-length-append a _) ∙ ap (drop (length a)) e ∙ drop-length-append a _ in
    (cut_at b'\n' s t u v hs ht (tail-eq_of_cons-eq rest)).0

last_of_six :
    (s t u v x y z : Str)
    → s ++ (t ++ (u ++ (v ++ (x ++ (y ++ z))))) ≡ (s ++ (t ++ (u ++ (v ++ (x ++ y))))) ++ z
last_of_six s t u v x y z = simp append_assoc

module _ (E : Env) (r : E.Request) (sha stamp day region access_key secret_key : Str) where
  -- The code whose text is the signature.
  abbrev pub code_of : Str
  code_of =
      (E.crypto.hmac (key_of E.crypto secret_key day region)
        (text_to_sign_at E r sha stamp day region)).0

  abbrev pub credential : Str
  credential = between (str "/") (access_key ∷ scope_of day region ∷ [])

  abbrev pub names_of : Str
  names_of = semicolons (keys (signed_map E r sha))

  abbrev pub front_of : Str
  front_of =
      signing_method
      ++ (str " Credential="
          ++ (credential ++ (str ", SignedHeaders=" ++ (names_of ++ str ", Signature="))))

  -- The signature stands at the end of the header.
  pub signature_end :
      authorization_at E r sha stamp day region access_key secret_key
      ≡ front_of ++ base16_encode code_of
  signature_end =
      last_of_six signing_method (str " Credential=") credential (str ", SignedHeaders=") names_of
        (str ", Signature=") (base16_encode code_of)

module _ {C : Crypto} (L : IsCrypto C) where
  hash-injective : (x y : Str) → sha256_base16 C x ≡ sha256_base16 C y → C.sha256 x ≡ C.sha256 y
  hash-injective x y e =
      let decoded = ap base16_decode e in
      let one = (sha256_base16_lem C L x).1 in let other = (sha256_base16_lem C L y).1 in cc

  code-injective :
      (k x l y : Str)
      → base16_encode (C.hmac k x).0 ≡ base16_encode (C.hmac l y).0
      → (C.hmac k x).0 ≡ (C.hmac l y).0
  code-injective k x l y e =
      let decoded = ap base16_decode e in
      let one = base16_decode-encode (C.hmac k x).0 (L.hmac-IsByte k x) in
      let other = base16_decode-encode (C.hmac l y).0 (L.hmac-IsByte l y) in cc

  pub length-code : (k x : Str) → length (base16_encode (C.hmac k x).0) ≡ 64
  length-code k x = omega (arith, length-base16_encode (C.hmac k x).0, L.length-hmac k x)

  -- Texts with one hash are the same, or collide.
  pub same_hash : (x y : Str) → sha256_base16 C x ≡ sha256_base16 C y → (x ≡ y) ⊎ SharesHash C x y
  same_hash x y e = elim (Str-discrete x y) [
    | yes same ↦ inl same
    | no differ ↦ inr (differ, hash-injective x y e)
  ]

  -- So are texts with one code.
  pub same_code :
      (k x l y : Str)
      → base16_encode (C.hmac k x).0 ≡ base16_encode (C.hmac l y).0
      → (x ≡ y) ⊎ SharesCode C k x l y
  same_code k x l y e = elim (Str-discrete x y) [
    | yes same ↦ inl same
    | no differ ↦ inr (differ, code-injective k x l y e)
  ]

abbrev pub stamp_of : DateTime → Str
stamp_of t = DateTime.to_string t amz_date_format

abbrev pub day_stamp : DateTime → Str
day_stamp t = DateTime.to_string t signer_date_format

module _ (E : Env) (r q : E.Request) (sha hash region : Str) (d c : DateTime) where
  -- The second line of the text that is signed is the time.
  pub same_stamp :
      text_to_sign E r sha d region ≡ text_to_sign E q hash c region → stamp_of d ≡ stamp_of c
  same_stamp e =
      second_line signing_method (stamp_of d) (stamp_of c) _ _ (to_string-Lacks_newline d)
        (to_string-Lacks_newline c) e

  -- With one header `Authorization`, what is signed is the same, or shares a code.
  pub same_signed :
      IsCrypto E.crypto
      → (access_key secret_key : Str)
      → authorization_text E r sha d region access_key secret_key
        ≡ authorization_text E q hash c region access_key secret_key
      → (text_to_sign E r sha d region ≡ text_to_sign E q hash c region)
        ⊎ SharesCode E.crypto
            (derived_key E.crypto secret_key d region)
            (text_to_sign E r sha d region)
            (derived_key E.crypto secret_key c region)
            (text_to_sign E q hash c region)
  same_signed L access_key secret_key e =
      let k = derived_key E.crypto secret_key d region in
      let x = text_to_sign E r sha d region in
      let l = derived_key E.crypto secret_key c region in
      let y = text_to_sign E q hash c region in
      same_code L k x l y (
        same_end _ _ _ _ (length-code L k x ∙ sym (length-code L l y)) (
          sym (signature_end E r sha (stamp_of d) (day_stamp d) region access_key secret_key)
          ∙ e
          ∙ signature_end E q hash (stamp_of c) (day_stamp c) region access_key secret_key))
