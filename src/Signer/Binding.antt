-- ===== src/Signer/Binding.antt =====
-- What a signature binds: the parts of the request that go into the text that is signed.
use minioclient_cpp.Base.{◌≡◌, ◌≢◌, ◌⊎◌, inl, inr, sym, ap, ◌∙◌, [], length}
use minioclient_cpp.Text.{Str, str}
use minioclient_cpp.Text.Split.{same_end}
use minioclient_cpp.Digest.{IsCrypto, sha256_base16}
use minioclient_cpp.External.Laws.{Joins, KeepsHeaders}
use minioclient_cpp.Session.{World}
use minioclient_cpp.Errors.{ok}
use minioclient_cpp.Signer.{sign_v4}
use minioclient_cpp.Signer.Query.{HasParams}
use minioclient_cpp.Signer.Correct.{sign_v4_lem}
use minioclient_cpp.External.{Env}
use minioclient_cpp.Digest.Hex.{sha256_base16_lem}
use minioclient_cpp.DateTime.{DateTime}
use minioclient_cpp.Signer.Spec.{
  signing_method, derived_key, text_to_sign, authorization_text, scope_of, signed_map,
  canonical_text,
}
use minioclient_cpp.DateTime.Distinct.{to_string-injective}
use minioclient_cpp.Signer.Canonical.{IsPlain, SignsSame, canonical_text-injective}
use minioclient_cpp.Signer.Signature.{
  SharesHash, SharesCode, text_end, same_hash, same_stamp, same_signed, stamp_of, day_stamp,
}

module _ (E : Env) where
  -- The requests agree, and so do the times.
  abbrev pub SignsAtOnce : E.Request → E.Request → Str → Str → DateTime → DateTime → Type 0
  SignsAtOnce r q sha hash d c = SignsSame E r q sha hash × (d.time ≡ c.time)

module _ (E : Env) (r q : E.Request) (sha hash region secret_key : Str) (d c : DateTime) where
  -- They do, or their canonical requests share a hash, or what is signed for them shares a code.
  abbrev pub Binds : Type 0
  Binds =
      SignsAtOnce E r q sha hash d c
      ⊎ (SharesHash E.crypto (canonical_text E r sha) (canonical_text E q hash)
          ⊎ SharesCode E.crypto (derived_key E.crypto secret_key d region)
              (text_to_sign E r sha d region) (derived_key E.crypto secret_key c region)
              (text_to_sign E q hash c region))

module _ (E : Env) (L : IsCrypto E.crypto) (r q : E.Request) (sha hash region : Str)
    (d c : DateTime) (hr : IsPlain E r sha) (hq : IsPlain E q hash) where
  abbrev scope_at : DateTime → Str
  scope_at t = scope_of (day_stamp t) region

  same_time : text_to_sign E r sha d region ≡ text_to_sign E q hash c region → d.time ≡ c.time
  same_time e = to_string-injective d c (same_stamp E r q sha hash region d c e)

  text_to_sign-injective :
      text_to_sign E r sha d region ≡ text_to_sign E q hash c region
      → SignsAtOnce E r q sha hash d c
        ⊎ SharesHash E.crypto (canonical_text E r sha) (canonical_text E q hash)
  text_to_sign-injective e =
      let x = canonical_text E r sha in
      let y = canonical_text E q hash in
      let size : length (sha256_base16 E.crypto x) ≡ length (sha256_base16 E.crypto y) =
        (sha256_base16_lem E.crypto L x).0 ∙ sym (sha256_base16_lem E.crypto L y).0 in
      let hashes : sha256_base16 E.crypto x ≡ sha256_base16 E.crypto y = same_end _ _ _ _ size (
        sym (text_end signing_method (stamp_of d) (scope_at d) (sha256_base16 E.crypto x))
        ∙ e
        ∙ text_end signing_method (stamp_of c) (scope_at c) (sha256_base16 E.crypto y)) in
      elim (same_hash L x y hashes) [
        | inl same ↦ inl (canonical_text-injective E r q sha hash hr hq same, same_time e)
        | inr collision ↦ inr collision
      ]

  pub authorization-binds :
      (access_key secret_key : Str)
      → authorization_text E r sha d region access_key secret_key
        ≡ authorization_text E q hash c region access_key secret_key
      → Binds E r q sha hash region secret_key d c
  authorization-binds access_key secret_key e =
      elim (same_signed E r q sha hash region d c L access_key secret_key e) [
        | inl same ↦ elim (text_to_sign-injective same) [
          | inl agree ↦ inl agree
          | inr hash_shared ↦ inr (inl hash_shared)
        ]
        | inr code_shared ↦ inr (inr code_shared)
      ]

module _ (E : Env) where
  -- The hash that a request states of its body.
  abbrev pub said_hash : E.Request → Str
  said_hash p = E.header p (str "x-amz-content-sha256")

module _ (E : Env) (p : E.Request) (region access_key secret_key : Str) (u : World E)
    (text : Str) where
  -- What `signV4` returns has this header `Authorization`.
  abbrev pub IsSigned : Type 0
  IsSigned =
      (signed : E.Request) × ((sign_v4 p region access_key secret_key u).0 ≡ ok signed)
      × (E.header signed (str "Authorization") ≡ text)

ok-injective : {A : Type 0} {a b : A} → ok a ≡ ok b → a ≡ b
ok-injective h = cc

module _ {E : Env} (L : IsCrypto E.crypto) (J : Joins E.text) (K : KeepsHeaders E) (r q : E.Request)
    (region access_key secret_key : Str) (w v : World E) where
  sign_v4-header :
      (p : E.Request) (u : World E) (text : Str)
      → HasParams E (E.request_url p)
      → signed_map E p [] ≢ []
      → IsSigned E p region access_key secret_key u text
      → text ≡ authorization_text E p (said_hash E p) (u.clock u.reads) region access_key secret_key
  sign_v4-header p u text params some_header (signed, returned, here) =
      let made =
        ap (λ x. x.0) (sign_v4_lem u p region access_key secret_key L J params some_header) in
      sym here
      ∙ ap (λ m. E.header m (str "Authorization")) (ok-injective (sym returned ∙ made))
      ∙ K.header-set_header _ _ _

  -- If `signV4` gives two requests the same header `Authorization`, for one region and one pair of
  -- keys, then they agree in method, path, canonical query, signed headers and the hash of the body
  -- that they state, and they were signed in the same second; or else their canonical requests
  -- differ and share a SHA-256, or the texts that are signed differ and share an HMAC, each under
  -- its day's key. So it is for requests whose query parameters have names, with a header to sign,
  -- with no line break in a line of the canonical request and no colon in a name of a signed
  -- header. It is taken that SHA-256 and HMAC give 32
  -- bytes, that `join` is the documented one, and that a request keeps the headers it was built
  -- with.
  pub sign_v4-binds :
      (text : Str)
      → HasParams E (E.request_url r)
      → HasParams E (E.request_url q)
      → signed_map E r [] ≢ []
      → signed_map E q [] ≢ []
      → IsPlain E r (said_hash E r)
      → IsPlain E q (said_hash E q)
      → IsSigned E r region access_key secret_key w text
      → IsSigned E q region access_key secret_key v text
      → Binds E r q
          (said_hash E r)
          (said_hash E q)
          region
          secret_key
          (w.clock w.reads)
          (v.clock v.reads)
  sign_v4-binds text hr hq mr mq pr pq sr sq =
      authorization-binds E L r q (said_hash E r) (said_hash E q) region _ _ pr pq access_key
        secret_key (sym (sign_v4-header r w text hr mr sr) ∙ sign_v4-header q v text hq mq sq)
