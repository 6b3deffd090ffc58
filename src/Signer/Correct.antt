-- ===== src/Signer/Correct.antt =====
-- `signV4` against Signature Version 4 as `Signer.Spec` writes it down.
use minioclient_cpp.Base.{suc, ◌≡◌, ◌≢◌, refl, [], ◌∷◌, ◌++◌, append_assoc}
use minioclient_cpp.Text.{Str, str, between}
use minioclient_cpp.Errors.{Result, ok, ◌>>=◌}
use minioclient_cpp.Digest.{Crypto, IsCrypto, hmac_sha256, base16_encode, sha256_base16}
use minioclient_cpp.DateTime.{DateTime}
use minioclient_cpp.External.{Env}
use minioclient_cpp.External.Laws.{Joins}
use minioclient_cpp.Session.{World, parse_date_time}
use minioclient_cpp.Signer.{
  Signer, new_signer, set_canonical_headers, set_canonical_request, request_text, set_scope,
  set_string_to_sign, set_signing_key, set_signature, set_authorization, sign, sign_v4,
}
use minioclient_cpp.Signer.Headers.{erase_last-append_keys}
use minioclient_cpp.Signer.Query.{query_text, HasParams, set_canonical_query_string_lem}
use minioclient_cpp.Signer.Spec.{
  collect_headers-signed_entries, derived_key, signed_map, text_to_sign, authorization_text,
  canonical_text_lem,
}

hmac_sha256-ok : {C : Crypto} → IsCrypto C → (k d : Str) → hmac_sha256 C k d ≡ ok (C.hmac k d).0
unfolding hmac_sha256
hmac_sha256-ok L k d = rw (L.hmac-len k d)

set_signing_key_lem :
    {E : Env} (s : Signer E)
    → IsCrypto E.crypto
    → set_signing_key s
      ≡ ok (record s { signing_key = derived_key E.crypto s.secret_key s.date s.region })
unfolding set_signing_key
set_signing_key_lem {E} s L = simp (hmac_sha256-ok L)

set_signature_lem :
    {E : Env} (s : Signer E)
    → IsCrypto E.crypto
    → set_signature s
      ≡ ok (record s { signature = base16_encode (E.crypto.hmac s.signing_key s.string_to_sign).0 })
unfolding set_signature
set_signature_lem {E} s L = simp (hmac_sha256-ok L)

>>=-ok :
    {A B : Type 0} {m : Result A} {a : A} (f : A → Result B) {b : B}
    → m ≡ ok a
    → f a ≡ ok b
    → (m >>= f) ≡ ok b
>>=-ok f p q = rw p q

-- The object after `setCanonicalRequest`.
abbrev after_request : {E : Env} → Signer E → Signer E
after_request {E} s =
    let url = E.request_url s.request in
    let q : Signer E = record (set_canonical_headers s) {
      url = url;
      canonical_query_string = query_text E url;
    } in
    record q {
      canonical_request = request_text q;
      canonical_request_hash = sha256_base16 E.crypto (request_text q);
    }

set_canonical_request_lem :
    {E : Env} (s : Signer E)
    → HasParams E (E.request_url s.request)
    → set_canonical_request s ≡ ok (after_request s)
unfolding set_canonical_request
set_canonical_request_lem {E} s h = rw (
    set_canonical_query_string_lem
      (record (set_canonical_headers s) { url = E.request_url s.request }) h)

scope_lem :
    (day region : Str)
    → day ++ (str "/" ++ (region ++ str "/s3/aws4_request"))
      ≡ between (str "/") (day ∷ region ∷ str "s3" ∷ str "aws4_request" ∷ [])
unfolding str
scope_lem day region = refl

module _ (E : Env) (request : E.Request) (sha : Str) (date : DateTime)
    (region access_key secret_key : Str) where
  abbrev fresh : Signer E
  fresh = new_signer {E = E} request sha date region access_key secret_key []

  -- The object after each call of the chain.
  abbrev to_sign : Signer E
  to_sign = set_string_to_sign (after_request (set_scope fresh))

  abbrev with_key : Signer E
  with_key = record to_sign { signing_key = derived_key E.crypto secret_key date region }

  abbrev with_signature : Signer E
  with_signature = record with_key {
    signature = base16_encode (E.crypto.hmac with_key.signing_key with_key.string_to_sign).0;
  }

  sign-ok :
      IsCrypto E.crypto
      → HasParams E (E.request_url request)
      → sign fresh ≡ ok (set_authorization with_signature)
  unfolding sign set_scope set_string_to_sign set_canonical_headers
  sign-ok L h =
      >>=-ok _ (set_canonical_request_lem (set_scope fresh) h)
        (>>=-ok _ (set_signing_key_lem to_sign L) (>>=-ok _ (set_signature_lem with_key L) refl))

  string_to_sign_lem :
      Joins E.text
      → signed_map E request sha ≢ []
      → to_sign.string_to_sign ≡ text_to_sign E request sha date region
  unfolding set_scope set_string_to_sign set_canonical_headers
  string_to_sign_lem js ne = rw (
    erase_last-append_keys,
    scope_lem,
    collect_headers-signed_entries,
    canonical_text_lem E js request sha ne,
  )

  authorization_lem :
      Joins E.text
      → signed_map E request sha ≢ []
      → (set_authorization with_signature).authorization
        ≡ authorization_text E request sha date region access_key secret_key
  unfolding set_authorization set_scope set_string_to_sign set_canonical_headers
  authorization_lem js ne =
      rw (string_to_sign_lem js ne)
        (rw (erase_last-append_keys, scope_lem, collect_headers-signed_entries) (simp append_assoc))

module _ {E : Env} where
  pub sign_v4-ok :
      (w : World E) (request : E.Request) (region access_key secret_key : Str)
      → IsCrypto E.crypto
      → HasParams E (E.request_url request)
      → (text : Str) × ((sign_v4 request region access_key secret_key w).0
          ≡ ok (E.build_request (E.set_header (E.from_request request) (str "Authorization") text)))
  unfolding sign_v4 parse_date_time
  sign_v4-ok w request region access_key secret_key L h =
      let sha = E.header request (str "x-amz-content-sha256") in
      let date : DateTime = w.clock w.reads in
      let signed =
        set_authorization (with_signature E request sha date region access_key secret_key) in
      (signed.authorization, rw (sign-ok E request sha date region access_key secret_key L h))

  -- `signV4` returns for every request whose parameters have names and that has a header to sign,
  -- when HMAC gives 32 bytes and `join` is the documented one. The result is the request with the
  -- header `Authorization` of Signature Version 4 for the time of its own reading of the clock;
  -- nothing else of the state changes.
  pub sign_v4_lem :
      (w : World E) (request : E.Request) (region access_key secret_key : Str)
      → IsCrypto E.crypto
      → Joins E.text
      → HasParams E (E.request_url request)
      → signed_map E request [] ≢ []
      → sign_v4 request region access_key secret_key w ≡ (
        ok (
            E.build_request (
              E.set_header (E.from_request request) (str "Authorization") (
                authorization_text E request
                  (E.header request (str "x-amz-content-sha256"))
                  (w.clock w.reads)
                  region
                  access_key
                  secret_key))),
        record w { reads = suc w.reads },
      )
  unfolding sign_v4 parse_date_time
  sign_v4_lem w request region access_key secret_key L js h ne =
      let sha = E.header request (str "x-amz-content-sha256") in
      let date : DateTime = w.clock w.reads in
      rw (
        sign-ok E request sha date region access_key secret_key L h,
        authorization_lem E request sha date region access_key secret_key js ne,
      )
