-- ===== src/Client/Execute/Signed.antt =====
-- The request that a client with keys sends.
use minioclient_cpp.Base.{suc, ◌≡◌, ◌≢◌, ap, ◌∙◌, true, none, some, []}
use minioclient_cpp.Text.{Str, str}
use minioclient_cpp.Map.{KeyValueMap, lookup}
use minioclient_cpp.Errors.{ok}
use minioclient_cpp.Digest.{IsCrypto}
use minioclient_cpp.DateTime
use minioclient_cpp.DateTime.{amz_date_format}
use minioclient_cpp.External.{Env}
use minioclient_cpp.External.Laws.{KeepsHeaders, KeepsNames, Lowers, Joins}
use minioclient_cpp.Session.{World}
use minioclient_cpp.Signer.Query.{HasParams}
use minioclient_cpp.Signer.Spec.{signed_map, authorization_text}
use minioclient_cpp.Signer.Correct.{sign_v4_lem}
use minioclient_cpp.Client.Request.{has_keys, request_url_of}
use minioclient_cpp.Client.Request.Names.{IsTarget, made, create_request-ok}
use minioclient_cpp.Client.Request.Payload.{date_name, sha_name, payload_hash, assemble-payload}
use minioclient_cpp.Client.Request.Signable.{
  tolower-ne, date-ne-sha, authorization-ne-sha, authorization-ne-date, assemble-signed_map,
}
use minioclient_cpp.Client.Execute.{prepare}

-- The value of `Content-Type`, or the empty text.
abbrev pub content_type_of : KeyValueMap → Str
content_type_of headers = elim (lookup (str "Content-Type") headers) [ none ↦ [] | some t ↦ t ]

module _ {E : Env} (m : E.Method) (region bucket object : Str) (headers query : KeyValueMap)
    (body : Str) (w : World E) where
  -- The request before it is signed.
  abbrev pub unsigned : E.Request
  unsigned = made m bucket object region headers query (content_type_of headers) body w

  -- It has something to sign.
  unsigned-signed_map : Lowers E.text → KeepsNames E → signed_map E unsigned [] ≢ []
  unsigned-signed_map L N = assemble-signed_map L N _ _ _ _ _ _ _ _ []

  pub prepare_signed :
      IsCrypto E.crypto
      → Joins E.text
      → IsTarget bucket object
      → has_keys E w.client ≡ true
      → HasParams E (E.request_url unsigned)
      → Lowers E.text
      → KeepsNames E
      → prepare m region bucket object headers query body w ≡ (
        ok (
            E.build_request (
              E.set_header (E.from_request unsigned) (str "Authorization") (
                authorization_text E unsigned
                  (E.header unsigned sha_name)
                  (w.clock (suc w.reads))
                  region
                  w.client.access_key
                  w.client.secret_key))),
        record w { reads = suc (suc w.reads) },
      )
  unfolding prepare
  prepare_signed L js target keyed params lowers kept =
      rw
        (
          create_request-ok m bucket object region headers query (content_type_of headers) body w
              target,
          keyed,
        )
        (sign_v4_lem (record w { reads = suc w.reads }) unsigned region w.client.access_key
          w.client.secret_key L js params (unsigned-signed_map lowers kept))

  -- The request that a client with both keys sends carries the hash of its body, the date of one
  -- reading of the clock as `x-amz-date`, and the signature for the date of the next reading. So it
  -- is for a target with allowed names and with query parameters that have names, under the laws of
  -- OpenSSL, `join`, `tolower` and headers.
  pub prepare_dates :
      IsCrypto E.crypto
      → Joins E.text
      → KeepsHeaders E
      → KeepsNames E
      → Lowers E.text
      → IsTarget bucket object
      → has_keys E w.client ≡ true
      → HasParams E (E.request_url unsigned)
      → (r : E.Request) × ((prepare m region bucket object headers query body w).0 ≡ ok r)
        × (E.header r sha_name
            ≡ payload_hash E (request_url_of E w.client.base_url bucket object query) body)
        × (E.header r date_name ≡ DateTime.to_string (w.clock w.reads) amz_date_format)
        × (E.header r (str "Authorization")
            ≡ authorization_text E unsigned
                (payload_hash E (request_url_of E w.client.base_url bucket object query) body)
                (w.clock (suc w.reads))
                region
                w.client.access_key
                w.client.secret_key)
  prepare_dates L js K kept lowers target keyed params =
      let url = request_url_of E w.client.base_url bucket object query in
      let (date, sha) =
        assemble-payload E K w.client m url headers query
          (DateTime.to_string (w.clock w.reads) amz_date_format) (content_type_of headers) body L
          (tolower-ne lowers date_name sha_name date-ne-sha) keyed in
      (
        _,
        ap (λ x. x.0) (prepare_signed L js target keyed params lowers kept),
        K.header-set_header_ne _ _ _ _
              (tolower-ne lowers (str "Authorization") sha_name authorization-ne-sha)
            ∙ K.header-from_request _ _
            ∙ sha,
        K.header-set_header_ne _ _ _ _
              (tolower-ne lowers (str "Authorization") date_name authorization-ne-date)
            ∙ K.header-from_request _ _
            ∙ date,
        K.header-set_header _ _ _
            ∙ ap
                (λ hash.
                  authorization_text E unsigned hash (w.clock (suc w.reads)) region
                    w.client.access_key w.client.secret_key)
                sha,
      )
