-- ===== src/Signer/Spec.antt =====
-- The texts that the AWS documentation of Signature Version 4 prescribes, line by line.
use minioclient_cpp.Base.{
  arith, Bool, true, false, if◌then◌else◌, ◌≡◌, ◌≢◌, refl, sym, ap, ◌∙◌, List, [], ◌∷◌, ◌++◌, map,
  append_assoc,
}
use minioclient_cpp.Text.{Str, str, between, ◌==◌}
use minioclient_cpp.Map.{KeyValueMap, keys, insert}
use minioclient_cpp.Digest.{Crypto, base16_encode, sha256_base16}
use minioclient_cpp.DateTime
use minioclient_cpp.DateTime.{DateTime, signer_date_format, amz_date_format}
use minioclient_cpp.External.{TextUtils, Env}
use minioclient_cpp.External.Laws.{Joins}
use minioclient_cpp.Signer.{collect_headers, add_header, is_ignored}
use minioclient_cpp.Signer.Headers.{semicolons}
use minioclient_cpp.Signer.Query.{query_text}

-- The method of signing.
abbrev pub signing_method : Str
signing_method = str "AWS4-HMAC-SHA256"

-- The headers that are not signed: the signature itself, and those that a proxy may change.
abbrev pub unsigned_names : List Str
unsigned_names =
    str "authorization" ∷ str "content-type" ∷ str "content-length" ∷ str "user-agent" ∷ []

abbrev pub is_listed : Str → List Str → Bool
is_listed k [] = false
is_listed k (name ∷ names) = if k == name then true else is_listed k names

-- The headers that are signed, by their names in small letters; of those with one name the last.
unfoldable pub signed_entries : (Str → Str) → (Str → Str) → List Str → KeyValueMap → KeyValueMap
signed_entries small value [] m = m
signed_entries small value (name ∷ names) m =
    signed_entries small value names
      (if is_listed (small name) unsigned_names then m else insert (small name) (value name) m)

abbrev pub newline : Str
newline = str "\n"

-- The day, the region and the service for which a key is made.
abbrev pub scope_of : Str → Str → Str
scope_of day region = between (str "/") (day ∷ region ∷ str "s3" ∷ str "aws4_request" ∷ [])

abbrev pub scope_text : DateTime → Str → Str
scope_text date region = scope_of (DateTime.to_string date signer_date_format) region

-- The key that four rounds of HMAC make of the secret, each keyed by the last.
abbrev pub key_of : Crypto → Str → Str → Str → Str
key_of C secret_key day region =
    let date_key = (C.hmac (str "AWS4" ++ secret_key) day).0 in
    let region_key = (C.hmac date_key region).0 in
    let service_key = (C.hmac region_key (str "s3")).0 in
    (C.hmac service_key (str "aws4_request")).0

abbrev pub derived_key : Crypto → Str → DateTime → Str → Str
derived_key C secret_key date region =
    key_of C secret_key (DateTime.to_string date signer_date_format) region

abbrev pub header_line : Str × Str → Str
header_line (name, value) = name ++ (str ":" ++ value)

module _ (E : Env) (request : E.Request) (content_sha256 : Str) where
  -- The headers that are signed.
  abbrev pub signed_map : KeyValueMap
  signed_map =
      signed_entries E.tolower (E.header_of (E.headers request)) (E.names (E.headers request)) []

  -- The canonical request, line by line.
  abbrev pub below_method : List Str
  below_method =
      E.encoded_path (E.request_url request)
      ∷ query_text E (E.request_url request)
      ∷ (map header_line signed_map ++ [] ∷ semicolons (keys signed_map) ∷ content_sha256 ∷ [])

  abbrev pub canonical_lines : List Str
  canonical_lines = E.request_method request ∷ below_method

  abbrev pub canonical_text : Str
  canonical_text = between newline canonical_lines

  -- The text that is signed, at a time of a day.
  abbrev pub text_to_sign_at : Str → Str → Str → Str
  text_to_sign_at stamp day region =
      between newline
        (signing_method ∷ stamp ∷ scope_of day region ∷ sha256_base16 E.crypto canonical_text ∷ [])

  abbrev pub text_to_sign : DateTime → Str → Str
  text_to_sign date region =
      text_to_sign_at (DateTime.to_string date amz_date_format)
        (DateTime.to_string date signer_date_format) region

  abbrev pub authorization_at : Str → Str → Str → Str → Str → Str
  authorization_at stamp day region access_key secret_key =
      signing_method
      ++ (str " Credential="
          ++ (between (str "/") (access_key ∷ scope_of day region ∷ [])
              ++ (str ", SignedHeaders="
                  ++ (semicolons (keys signed_map)
                      ++ (str ", Signature="
                          ++ base16_encode
                              (E.crypto.hmac (key_of E.crypto secret_key day region)
                                (text_to_sign_at stamp day region)).0)))))

  abbrev pub authorization_text : DateTime → Str → Str → Str → Str
  authorization_text date region access_key secret_key =
      authorization_at (DateTime.to_string date amz_date_format)
        (DateTime.to_string date signer_date_format) region access_key secret_key

is_ignored-is_listed : (k : Str) → is_ignored k ≡ is_listed k unsigned_names
unfolding is_ignored
is_ignored-is_listed k = ground arith

-- The loop over the headers collects those that are signed.
pub collect_headers-signed_entries :
    (E : Env) (h : E.Headers) (names : List Str) (m : KeyValueMap)
    → collect_headers E h m names ≡ signed_entries E.tolower (E.header_of h) names m
unfolding collect_headers add_header signed_entries
collect_headers-signed_entries E h [] m = refl
collect_headers-signed_entries E h (name ∷ names) m =
    rw (is_ignored-is_listed (E.tolower name)) (collect_headers-signed_entries E h names _)

-- The request with a header `Authorization`.
abbrev pub authorized : (E : Env) → E.Request → Str → E.Request
authorized E r text = E.build_request (E.set_header (E.from_request r) (str "Authorization") text)

-- The header lines, and what stands after them.
header_lines :
    {T : TextUtils}
    → Joins T
    → (entry : Str × Str) (m : KeyValueMap) (rest : List Str)
    → between newline (map header_line (entry ∷ m) ++ [] ∷ rest)
      ≡ T.join_map newline (str ":") (entry ∷ m) ++ (newline ++ between newline ([] ∷ rest))
header_lines J (k, v) [] rest = rw J.join_map-one
header_lines J (k, v) ((j, w) ∷ m) rest =
    rw (J.join_map-cons, header_lines J (j, w) m rest) (simp append_assoc)

header_lines_of_ne-nil :
    {T : TextUtils}
    → Joins T
    → (m : KeyValueMap) (rest : List Str) → m ≢ []
    → between newline (map header_line m ++ [] ∷ rest)
      ≡ T.join_map newline (str ":") m ++ (newline ++ between newline ([] ∷ rest))
header_lines_of_ne-nil J [] rest ne = absurd (ne refl)
header_lines_of_ne-nil J (entry ∷ m) rest ne = header_lines J entry m rest

between-cons :
    (sep s : Str) (m : KeyValueMap) (t : Str) (ts : List Str)
    → between sep (s ∷ (map header_line m ++ t ∷ ts))
      ≡ s ++ (sep ++ between sep (map header_line m ++ t ∷ ts))
between-cons sep s [] t ts = refl
between-cons sep s (e ∷ m) t ts = refl

two_newlines : (s : Str) → str "\n\n" ++ s ≡ newline ++ (newline ++ s)
unfolding str
two_newlines s = refl

module _ (E : Env) (J : Joins E.text) (request : E.Request) (content_sha256 : Str) where
  -- The lines of the canonical request, as `setCanonicalRequest` puts them together.
  pub canonical_text_lem :
      signed_map E request content_sha256 ≢ []
      → canonical_text E request content_sha256
        ≡ E.request_method request
          ++ (newline
              ++ (E.encoded_path (E.request_url request)
                  ++ (newline
                      ++ (query_text E (E.request_url request)
                          ++ (newline
                              ++ (E.join_map newline (str ":") (signed_map E request content_sha256)
                                  ++ (str "\n\n"
                                      ++ (semicolons (keys (signed_map E request content_sha256))
                                          ++ (newline ++ content_sha256)))))))))
  canonical_text_lem ne =
      let m = signed_map E request content_sha256 in
      let rest = semicolons (keys m) ∷ content_sha256 ∷ [] in
      ap
        (λ t.
          E.request_method request
          ++ (newline ++ (E.encoded_path (E.request_url request) ++ (newline ++ t))))
        (between-cons newline (query_text E (E.request_url request)) m [] rest
          ∙ ap (λ t. query_text E (E.request_url request) ++ (newline ++ t))
              (header_lines_of_ne-nil J m rest ne
                ∙ ap (λ t. E.join_map newline (str ":") m ++ t) (sym (two_newlines _))))
