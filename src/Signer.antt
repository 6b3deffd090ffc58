-- ===== src/Signer.antt =====
-- aws_signer.h and aws_signer.cpp: class `Signer`, whose setters each give the changed object.
pub mod Headers
pub mod Query
pub mod Spec
pub mod Correct
pub mod Faults
pub mod Verify
pub mod Canonical
pub mod Signature
pub mod Binding
use mathlib.Core.List.{foldl}
use minioclient_cpp.Base.{
  ℕ, ◌-◌, Bool, true, false, ◌||◌, List, [], ◌∷◌, ◌++◌, if◌then◌else◌, length, is_empty, take,
}
use minioclient_cpp.Text.{Str, str, ◌==◌}
use minioclient_cpp.Map.{KeyValueMap, insert}
use minioclient_cpp.Errors.{Result, ok, ◌>>=◌, throw, undefined}
use minioclient_cpp.Digest.{hmac_sha256, base16_encode, sha256_base16}
use minioclient_cpp.DateTime
use minioclient_cpp.DateTime.{DateTime, signer_date_format, amz_date_format}
use minioclient_cpp.External.{Env}
use minioclient_cpp.Session
use minioclient_cpp.Session.{M, pure, lift, parse_date_time}

pub record Signer (E : Env) : Type 0 where
  pub request : E.Request
  pub content_sha256 : Str
  pub date : DateTime
  pub region : Str
  pub access_key : Str
  pub secret_key : Str
  pub prev_signature : Str
  pub scope : Str
  pub canonical_headers : KeyValueMap
  pub signed_headers : Str
  pub url : E.HttpUrl
  pub canonical_query_string : Str
  pub canonical_request : Str
  pub canonical_request_hash : Str
  pub string_to_sign : Str
  pub signing_key : Str
  pub signature : Str
  pub authorization : Str

abbrev pub algorithm : Str
algorithm = str "AWS4-HMAC-SHA256"

-- `IGNORED_HEADERS.find(name) != end()`
unfoldable pub is_ignored : Str → Bool
is_ignored name =
    name == str "authorization"
    || name == str "content-type"
    || name == str "content-length"
    || name == str "user-agent"

-- The loop that writes `signedHeaders_`.
unfoldable pub append_keys : Str → KeyValueMap → Str
append_keys s [] = s
append_keys s ((k, _) ∷ m) = append_keys (s ++ (k ++ b';' ∷ [])) m

-- `s.erase(s.size() - 1, 1)` if `s` is not empty
abbrev pub erase_last : Str → Str
erase_last s = if is_empty s then s else take (length s - 1) s

-- The body of the loop over `tokens`; `tokens[0]` of no token is undefined.
abbrev pub add_tokens : KeyValueMap → List Str → Result KeyValueMap
add_tokens m [] = throw undefined
add_tokens m (k ∷ []) = ok (insert k [] m)
add_tokens m (k ∷ v ∷ _) = ok (insert k v m)

module _ (E : Env) where
  -- One round of the loop over `headers.names()`.
  unfoldable pub add_header : E.Headers → KeyValueMap → Str → KeyValueMap
  add_header headers m name =
      if is_ignored (E.tolower name)
      then m
      else insert (E.tolower name) (E.header_of headers name) m

  unfoldable pub collect_headers : E.Headers → KeyValueMap → List Str → KeyValueMap
  unfolding add_header
  collect_headers headers = foldl (add_header headers)

  -- The loop over the parameters of the query.
  unfoldable pub add_params : KeyValueMap → List Str → Result KeyValueMap
  add_params m [] = ok m
  add_params m (param ∷ params) = do
    m' ← add_tokens m (E.split param (str "="))
    add_params m' params

module _ {E : Env} where
  -- The constructor, whose other members are empty.
  abbrev pub new_signer : E.Request → Str → DateTime → Str → Str → Str → Str → Signer E
  new_signer request content_sha256 date region access_key secret_key prev_signature = record {
    request = request;
    content_sha256 = content_sha256;
    date = date;
    region = region;
    access_key = access_key;
    secret_key = secret_key;
    prev_signature = prev_signature;
    scope = [];
    canonical_headers = [];
    signed_headers = [];
    url = E.blank_url;
    canonical_query_string = [];
    canonical_request = [];
    canonical_request_hash = [];
    string_to_sign = [];
    signing_key = [];
    signature = [];
    authorization = [];
  }

  unfoldable pub set_scope : Signer E → Signer E
  set_scope s = record s {
    scope =
        DateTime.to_string s.date signer_date_format
        ++ (str "/" ++ (s.region ++ str "/s3/aws4_request"));
  }

  unfoldable pub set_canonical_headers : Signer E → Signer E
  unfolding collect_headers append_keys
  set_canonical_headers s =
      let headers = E.headers s.request in
      let m = collect_headers E headers s.canonical_headers (E.names headers) in
      record s {
        canonical_headers = m;
        signed_headers = erase_last (append_keys s.signed_headers m);
      }

  unfoldable pub set_canonical_query_string : Signer E → Result (Signer E)
  set_canonical_query_string s =
      let query = E.encoded_query s.url in
      if query == [] then ok (record s { canonical_query_string = [] }) else (do
        m ← add_params E [] (E.split query (str "&"))
        ok (record s { canonical_query_string = E.join_map (str "&") (str "=") m }))

  abbrev pub request_text : Signer E → Str
  request_text s =
      E.request_method s.request
      ++ (str "\n"
          ++ (E.encoded_path s.url
              ++ (str "\n"
                  ++ (s.canonical_query_string
                      ++ (str "\n"
                          ++ (E.join_map (str "\n") (str ":") s.canonical_headers
                              ++ (str "\n\n"
                                  ++ (s.signed_headers ++ (str "\n" ++ s.content_sha256)))))))))

  unfoldable pub set_canonical_request : Signer E → Result (Signer E)
  set_canonical_request s = do
    let with_headers = set_canonical_headers s
    q ← set_canonical_query_string (record with_headers { url = E.request_url s.request })
    ok (record q {
      canonical_request = request_text q;
      canonical_request_hash = sha256_base16 E.crypto (request_text q);
    })

  unfoldable pub set_string_to_sign : Signer E → Signer E
  set_string_to_sign s = record s {
    string_to_sign =
        algorithm
        ++ (str "\n"
            ++ (DateTime.to_string s.date amz_date_format
                ++ (str "\n" ++ (s.scope ++ (str "\n" ++ s.canonical_request_hash)))));
  }

  unfoldable pub set_signing_key : Signer E → Result (Signer E)
  set_signing_key s = do
    let date = DateTime.to_string s.date signer_date_format
    date_key ← hmac_sha256 E.crypto (str "AWS4" ++ s.secret_key) date
    date_region_key ← hmac_sha256 E.crypto date_key s.region
    date_region_service_key ← hmac_sha256 E.crypto date_region_key (str "s3")
    key ← hmac_sha256 E.crypto date_region_service_key (str "aws4_request")
    ok (record s { signing_key = key })

  unfoldable pub set_signature : Signer E → Result (Signer E)
  set_signature s = do
    digest ← hmac_sha256 E.crypto s.signing_key s.string_to_sign
    ok (record s { signature = base16_encode digest })

  unfoldable pub set_authorization : Signer E → Signer E
  set_authorization s = record s {
    authorization =
        algorithm
        ++ (str " Credential="
            ++ (s.access_key
                ++ (str "/"
                    ++ (s.scope
                        ++ (str ", SignedHeaders="
                            ++ (s.signed_headers ++ (str ", Signature=" ++ s.signature)))))));
  }

  -- The calls that `signV4` chains.
  unfoldable pub sign : Signer E → Result (Signer E)
  sign s = do
    with_request ← set_canonical_request (set_scope s)
    with_key ← set_signing_key (set_string_to_sign with_request)
    with_signature ← set_signature with_key
    ok (set_authorization with_signature)

  -- `Signer::signV4`
  unfoldable pub sign_v4 : E.Request → Str → Str → Str → M E E.Request
  sign_v4 request region access_key secret_key =
      let content_sha256 = E.header request (str "x-amz-content-sha256") in
      Session.◌>>=◌ (parse_date_time (E.header request (str "x-amz-date"))) λ date.
        let signer = new_signer request content_sha256 date region access_key secret_key [] in
        Session.◌>>=◌ (lift (sign signer)) λ signed. pure (
          E.build_request
            (E.set_header (E.from_request request) (str "Authorization") signed.authorization))
