-- ===== src/Signer/Faults.antt =====
-- What signing throws: a failed assertion of `hmac_sha256`, or a parameter without a name.
use minioclient_cpp.Base.{List, [], ◌∷◌, Bool-cases, inl, inr, eqb}
use minioclient_cpp.Text.{Str, str, ◌==◌}
use minioclient_cpp.Map.{KeyValueMap}
use minioclient_cpp.Errors.{Exn, abort, undefined}
use minioclient_cpp.Digest.{Crypto, hmac_sha256}
use minioclient_cpp.External.{Env}
use minioclient_cpp.Session.{lift, parse_date_time}
use minioclient_cpp.Session.Fails.{FailsIn, FailsIn-bind, Fails, Fails-bind}
use minioclient_cpp.Signer.{
  new_signer, Signer, add_tokens, add_params, set_canonical_query_string, set_canonical_request,
  set_signing_key, set_signature, set_scope, set_string_to_sign, sign, sign_v4,
}

module _ (P : Exn → Type 0) (on_abort : P abort) (on_undefined : P undefined) where
  hmac_sha256-FailsIn : (C : Crypto) (k d : Str) → FailsIn P (hmac_sha256 C k d)
  unfolding hmac_sha256
  hmac_sha256-FailsIn C k d = elim (Bool-cases (eqb (C.hmac k d).1 32)) [
    | inl fine ↦ rw fine tt
    | inr short ↦ rw short on_abort
  ]

  add_tokens-FailsIn : (m : KeyValueMap) (tokens : List Str) → FailsIn P (add_tokens m tokens)
  add_tokens-FailsIn m [] = on_undefined
  add_tokens-FailsIn m (k ∷ []) = tt
  add_tokens-FailsIn m (k ∷ v ∷ rest) = tt

  add_params-FailsIn :
      (E : Env) (m : KeyValueMap) (params : List Str) → FailsIn P (add_params E m params)
  unfolding add_params
  add_params-FailsIn E m [] = tt
  add_params-FailsIn E m (param ∷ params) =
      FailsIn-bind P _ _ (add_tokens-FailsIn m (E.split param (str "=")))
        λ n. add_params-FailsIn E n params

  module _ {E : Env} where
    set_canonical_query_string-FailsIn : (s : Signer E) → FailsIn P (set_canonical_query_string s)
    unfolding set_canonical_query_string
    set_canonical_query_string-FailsIn s = elim (Bool-cases (E.encoded_query s.url == [])) [
      | inl none_given ↦ rw none_given tt
      | inr query ↦ rw query (
          FailsIn-bind P _ _ (add_params-FailsIn E [] (E.split (E.encoded_query s.url) (str "&")))
            λ m. tt)
    ]

    set_canonical_request-FailsIn : (s : Signer E) → FailsIn P (set_canonical_request s)
    unfolding set_canonical_request
    set_canonical_request-FailsIn s =
        FailsIn-bind P _ _ (set_canonical_query_string-FailsIn _) λ q. tt

    set_signing_key-FailsIn : (s : Signer E) → FailsIn P (set_signing_key s)
    unfolding set_signing_key
    set_signing_key-FailsIn s = FailsIn-bind P _ _ (hmac_sha256-FailsIn E.crypto _ _) λ date_key.
        FailsIn-bind P _ _ (hmac_sha256-FailsIn E.crypto date_key s.region) λ region_key.
          FailsIn-bind P _ _ (hmac_sha256-FailsIn E.crypto region_key (str "s3")) λ service_key.
            FailsIn-bind P _ _ (hmac_sha256-FailsIn E.crypto service_key (str "aws4_request"))
              λ key. tt

    set_signature-FailsIn : (s : Signer E) → FailsIn P (set_signature s)
    unfolding set_signature
    set_signature-FailsIn s =
        FailsIn-bind P _ _ (hmac_sha256-FailsIn E.crypto s.signing_key s.string_to_sign)
          λ digest. tt

    sign-FailsIn : (s : Signer E) → FailsIn P (sign s)
    unfolding sign
    sign-FailsIn s =
        FailsIn-bind P _ _ (set_canonical_request-FailsIn (set_scope s)) λ with_request.
          FailsIn-bind P _ _ (set_signing_key-FailsIn (set_string_to_sign with_request))
            λ with_key. FailsIn-bind P _ _ (set_signature-FailsIn with_key) λ with_signature. tt

    -- Whatever holds of a failed assertion and of the undefined case holds of all that signing
    -- throws.
    pub sign_v4-Fails :
        (r : E.Request) (region access_key secret_key : Str)
        → Fails E P (sign_v4 r region access_key secret_key)
    unfolding sign_v4 parse_date_time
    sign_v4-Fails r region access_key secret_key = record {
      at = λ w.
          (Fails-bind P
              (lift (
                sign (
                  new_signer r (E.header r (str "x-amz-content-sha256")) (w.clock w.reads) region
                    access_key secret_key [])))
              _ (record { at = λ v. sign-FailsIn _ }) λ signed. record { at = λ v. tt }).at
            _;
    }
