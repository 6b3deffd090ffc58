-- ===== src/Client/Request/Payload.antt =====
-- The headers of a made request that the signature rests on: the hash of the body and the date.
use minioclient_cpp.Base.{
  ◌≡◌, ◌≢◌, refl, ap, ◌∙◌, true, [], ◌∷◌, arith, length, if◌then◌else◌, Bool-cases, inl, inr,
}
use minioclient_cpp.Text.{Str, str}
use minioclient_cpp.Map.{KeyValueMap}
use minioclient_cpp.Digest.{IsCrypto, sha256_base16}
use minioclient_cpp.Digest.Hex.{sha256_base16_lem}
use minioclient_cpp.External.{Env}
use minioclient_cpp.External.Laws.{KeepsHeaders}
use minioclient_cpp.Session.{MinioClient}
use minioclient_cpp.Client.Request.{has_keys, hashes, assemble}

abbrev pub sha_name : Str
sha_name = str "x-amz-content-sha256"

abbrev pub date_name : Str
date_name = str "x-amz-date"

-- The hash of the body that a request of a client with keys is signed with.
abbrev pub payload_hash : (E : Env) → E.HttpUrl → Str → Str
payload_hash E url body =
    if E.is_https url then str "UNSIGNED-PAYLOAD" else sha256_base16 E.crypto body

module _ (E : Env) (K : KeepsHeaders E) where
  date-assemble :
      (c : MinioClient E) (m : E.Method) (url : E.HttpUrl) (headers : KeyValueMap)
      (hash : Str × Str) (date content_type body : Str)
      → E.header (assemble E c m url headers hash date content_type body) date_name ≡ date
  unfolding assemble
  date-assemble c m url headers (sha, md5) date content_type body =
      rw (K.header-set_body, K.header-set_method, K.header-set_header)

  sha-assemble :
      (c : MinioClient E) (m : E.Method) (url : E.HttpUrl) (headers : KeyValueMap)
      (sha md5 date content_type body : Str)
      → E.tolower date_name ≢ E.tolower sha_name
      → sha ≢ []
      → E.header (assemble E c m url headers (sha, md5) date content_type body) sha_name ≡ sha
  unfolding assemble
  sha-assemble c m url headers [] md5 date content_type body names ne = absurd (ne refl)
  sha-assemble c m url headers (d ∷ sha) md5 date content_type body names ne =
      rw (K.header-set_body, K.header-set_method, K.header-set_header_ne, K.header-set_header)

  unsigned-ne-nil : str "UNSIGNED-PAYLOAD" ≢ []
  unfolding str
  unsigned-ne-nil e = cc

  sha256_base16-ne-nil : IsCrypto E.crypto → (body : Str) → sha256_base16 E.crypto body ≢ []
  sha256_base16-ne-nil L body e =
      absurd (omega (arith, ap (λ (s : Str). length s) e, (sha256_base16_lem E.crypto L body).0))

  payload_hash-ne-nil :
      IsCrypto E.crypto → (url : E.HttpUrl) (body : Str) → payload_hash E url body ≢ []
  payload_hash-ne-nil L url body = elim (Bool-cases (E.is_https url)) [
    | inl secure ↦ rw secure unsigned-ne-nil
    | inr plain ↦ rw plain (sha256_base16-ne-nil L body)
  ]

  hashes-payload_hash :
      (c : MinioClient E) (m : E.Method) (url : E.HttpUrl) (query : KeyValueMap) (body : Str)
      → has_keys E c ≡ true
      → (hashes E c m url query body).0 ≡ payload_hash E url body
  unfolding hashes
  hashes-payload_hash c m url query body keyed = rw keyed (ground arith)

  -- A request of a client with both keys carries the date that it was given, and as
  -- `x-amz-content-sha256` the SHA-256 of its body in base 16, or over HTTPS the text
  -- `UNSIGNED-PAYLOAD`; so it is if headers are kept, and the two names differ without case.
  pub assemble-payload :
      (c : MinioClient E) (m : E.Method) (url : E.HttpUrl) (headers query : KeyValueMap)
      (date content_type body : Str)
      → IsCrypto E.crypto
      → E.tolower date_name ≢ E.tolower sha_name
      → has_keys E c ≡ true
      → let r = assemble E c m url headers (hashes E c m url query body) date content_type body in
        (E.header r date_name ≡ date) × (E.header r sha_name ≡ payload_hash E url body)
  assemble-payload c m url headers query date content_type body L names keyed =
      let (sha, md5) = hashes E c m url query body in
      let same : sha ≡ payload_hash E url body = hashes-payload_hash c m url query body keyed in
      (
        date-assemble c m url headers (sha, md5) date content_type body,
        sha-assemble c m url headers sha md5 date content_type body names
              (rw same (payload_hash-ne-nil L url body))
            ∙ same,
      )
