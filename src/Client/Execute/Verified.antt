-- ===== src/Client/Execute/Verified.antt =====
-- The signed request, as a server checks it.
use minioclient_cpp.Base.{
  suc, ◌-◌, ◌≡◌, refl, sym, ap, ◌∙◌, true, false, ◌++◌, arith, length, take, length-append,
  take-length-append, Bool-cases, inl, inr, [],
}
use minioclient_cpp.Text.{Str, str, ◌==◌, lower}
use minioclient_cpp.Map.{KeyValueMap, lookup}
use minioclient_cpp.Errors.{ok}
use minioclient_cpp.Digest.{IsCrypto}
use minioclient_cpp.DateTime
use minioclient_cpp.DateTime.{DateTime, gmtime, signer_date_format, amz_date_format}
use minioclient_cpp.DateTime.Stamp.{to_string_lem, time_text}
use minioclient_cpp.External.{Env}
use minioclient_cpp.External.Laws.{KeepsHeaders, KeepsBody, KeepsTarget, KeepsNames, Lowers, Joins}
use minioclient_cpp.Session.{World}
use minioclient_cpp.Signer.Query.{HasParams}
use minioclient_cpp.Signer.Spec.{signed_map, authorization_at, authorization_text, authorized}
use minioclient_cpp.Signer.Verify.{
  is_some, is_signed, day_of, expected, has_right_hash, accepts, signed_map-authorized,
}
use minioclient_cpp.Client.Request.{hashes, has_keys, request_url_of}
use minioclient_cpp.Client.Request.Names.{IsTarget}
use minioclient_cpp.Client.Request.Payload.{date_name, sha_name, payload_hash, assemble-payload}
use minioclient_cpp.Client.Request.Signable.{
  assemble-is_signed, tolower-ne, date-ne-sha, authorization-ne-sha, authorization-ne-date,
}
use minioclient_cpp.Client.Execute.{prepare}
use minioclient_cpp.Client.Execute.Signed.{content_type_of, unsigned, prepare_signed}
use minioclient_cpp.Client.Execute.Target.{Asks, unsigned-Asks, authorized-Asks}

take-append : (s t : Str) → length t ≡ 8 → take (length (s ++ t) - 8) (s ++ t) ≡ s
take-append s t eight =
    let size : length (s ++ t) - 8 ≡ length s = omega (arith, eight, length-append s t) in
    rw size (take-length-append s t)

-- The day is read off the time.
day_of-to_string :
    (E : Env) (d : DateTime)
    → day_of E (DateTime.to_string d amz_date_format) ≡ DateTime.to_string d signer_date_format
day_of-to_string E d =
    let stamp = (to_string_lem d).1 in
    ap (day_of E) stamp
    ∙ take-append (DateTime.to_string d signer_date_format) (time_text (gmtime d.time)) refl

==-same : {s t : Str} → s ≡ t → (s == t) ≡ true
==-same h = ground (arith, h)

authorization_at-same :
    (E : Env) (r q : E.Request) (sha stamp day region access_key secret_key : Str)
    → E.request_method r ≡ E.request_method q
    → E.request_url r ≡ E.request_url q
    → signed_map E r sha ≡ signed_map E q sha
    → authorization_at E r sha stamp day region access_key secret_key
      ≡ authorization_at E q sha stamp day region access_key secret_key
authorization_at-same E r q sha stamp day region access_key secret_key method url headers = cc

right_hash :
    (E : Env) (r : E.Request) (url : E.HttpUrl) (body : Str)
    → E.request_url r ≡ url
    → E.request_body r ≡ body
    → E.header r sha_name ≡ payload_hash E url body
    → has_right_hash E r ≡ true
right_hash E r url body at_url with_body hash = elim (Bool-cases (E.is_https url)) [
  | inl secure ↦ rw (at_url, hash, secure) (==-same refl)
  | inr plain ↦ rw (at_url, with_body, hash, plain) (==-same refl)
]

module _ {E : Env} (C : IsCrypto E.crypto) (J : Joins E.text) (L : Lowers E.text)
    (H : KeepsHeaders E) (N : KeepsNames E) (T : KeepsTarget E) (K : KeepsBody E) where
  module _ (m : E.Method) (region bucket object : Str) (headers query : KeyValueMap) (body : Str)
      (w : World E) where
    -- The request before it is signed.
    abbrev pub bare : E.Request
    bare = unsigned m region bucket object headers query body w

    abbrev url_asked : E.HttpUrl
    url_asked = request_url_of E w.client.base_url bucket object query

    abbrev KeptHeader : Str → Str → Type 0
    KeptHeader text j = E.header (authorized E bare text) j ≡ E.header bare j

    authorized-header :
        (text j : Str) → (lower (str "Authorization") == lower j) ≡ false → KeptHeader text j
    authorized-header text j apart =
        H.header-set_header_ne _ _ _ j (tolower-ne L (str "Authorization") j apart)
        ∙ H.header-from_request bare j

    clock_stamp : DateTime → Str
    clock_stamp date = DateTime.to_string date amz_date_format

    -- The date and the hash of the request.
    bare-headers :
        has_keys E w.client ≡ true
        → (E.header bare date_name ≡ clock_stamp (w.clock w.reads))
          × (E.header bare sha_name ≡ payload_hash E url_asked body)
    unfolding clock_stamp
    bare-headers keyed =
        assemble-payload E H w.client m url_asked headers query (clock_stamp (w.clock w.reads))
          (content_type_of headers) body C (tolower-ne L date_name sha_name date-ne-sha) keyed

    bare-Asks : Asks E url_asked m body bare
    bare-Asks = unsigned-Asks T K m region bucket object headers query body w

    authorized-hash :
        (text : Str) → has_keys E w.client ≡ true → has_right_hash E (authorized E bare text) ≡ true
    authorized-hash text keyed =
        let a = authorized-Asks T K url_asked m body text bare bare-Asks in
        right_hash E (authorized E bare text) url_asked body a.url-same a.body-same
          (authorized-header text sha_name authorization-ne-sha ∙ (bare-headers keyed).1)

    authorized-host : (text : Str) → is_signed E (authorized E bare text) (str "host") ≡ true
    authorized-host text =
        ap (λ m. is_some (lookup (str "host") m)) (signed_map-authorized H N T L bare text [])
        ∙ assemble-is_signed L N w.client m url_asked headers
            (hashes E w.client m url_asked query body)
            (DateTime.to_string (w.clock w.reads) amz_date_format) (content_type_of headers) body

    -- What a server expects of the signed request is a signature at the time in its header.
    pub authorized-expected :
        (text : Str)
        → has_keys E w.client ≡ true
        → expected E (authorized E bare text) region w.client.access_key w.client.secret_key
          ≡ authorization_text E bare
              (E.header bare sha_name)
              (w.clock w.reads)
              region
              w.client.access_key
              w.client.secret_key
    unfolding clock_stamp
    authorized-expected text keyed =
        let r = authorized E bare text in
        let sha = E.header bare sha_name in
        let key = w.client.access_key in
        let secret = w.client.secret_key in
        let date : DateTime = w.clock w.reads in
        let a = authorized-Asks T K url_asked m body text bare bare-Asks in
        let stamp : E.header r date_name ≡ DateTime.to_string date amz_date_format =
          authorized-header text date_name authorization-ne-date ∙ (bare-headers keyed).0 in
        ap
          (λ s.
            authorization_at E r s (E.header r date_name) (day_of E (E.header r date_name)) region
              key secret)
          (authorized-header text sha_name authorization-ne-sha)
        ∙ ap (λ s. authorization_at E r sha s (day_of E s) region key secret) stamp
        ∙ ap
            (λ d.
              authorization_at E r sha (DateTime.to_string date amz_date_format) d region key
                secret)
            (day_of-to_string E date)
        ∙ authorization_at-same E r bare sha _ _ region key secret
            (a.method-same ∙ sym bare-Asks.method-same) (a.url-same ∙ sym bare-Asks.url-same)
            (signed_map-authorized H N T L bare text sha)

    -- The header `Authorization` of a client that reads its clock at this time.
    abbrev pub signed_at : DateTime → Str
    signed_at date =
        authorization_text E bare (E.header bare sha_name) date region w.client.access_key
          w.client.secret_key

    pub prepare-accepts :
        IsTarget bucket object
        → has_keys E w.client ≡ true
        → HasParams E (E.request_url bare)
        → w.clock (suc w.reads) ≡ w.clock w.reads
        → (r : E.Request) × ((prepare m region bucket object headers query body w).0 ≡ ok r)
          × (accepts E region w.client.access_key w.client.secret_key r ≡ true)
    unfolding accepts
    prepare-accepts target keyed params second =
        let text = signed_at (w.clock (suc w.reads)) in
        (
          authorized E bare text,
          ap (λ x. x.0)
              (prepare_signed m region bucket object headers query body w C J target keyed params L
                N),
          rw (authorized-host text, authorized-hash text keyed)
              (==-same (
                H.header-set_header _ _ _
                ∙ ap signed_at second
                ∙ sym (authorized-expected text keyed))),
        )
