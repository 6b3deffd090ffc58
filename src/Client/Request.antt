-- ===== src/Client/Request.antt =====
-- `checkBucketName`, `shouldOmitPortInHostHeader` and `createRequest`.
pub mod Names
pub mod Payload
pub mod Signable
pub mod Headers
pub mod Own
pub mod Target
use mathlib.Core.List.{foldl}
use minioclient_cpp.Base.{
  ℕ, Bool, true, false, not, ◌&&◌, ◌||◌, Option, none, some, List, [], ◌∷◌, ◌++◌, ltb, eqb,
  if◌then◌else◌, length, is_empty,
}
use minioclient_cpp.Text.{Str, str}
use minioclient_cpp.Text.Decimal.{decimal}
use minioclient_cpp.Map.{KeyValueMap, lookup}
use minioclient_cpp.Errors.{Result, ok, throw, invalid_bucket_name, named}
use minioclient_cpp.Digest.{md5_base64, sha256_base16}
use minioclient_cpp.DateTime
use minioclient_cpp.DateTime.{amz_date_format}
use minioclient_cpp.External.{Env}
use minioclient_cpp.Session.{MinioClient, World, M, ◌>>=◌, ◌>>◌, pure, raise, lift, this, now}
use minioclient_cpp.Client.Construct.{null_string}

abbrev pub length_message : Str
length_message = str "bucket name must be at least 3 and no more than 63 characters long"

-- `checkBucketName`
unfoldable pub check_bucket_name : Str → Result (Unit {0})
check_bucket_name name =
    if is_empty name
    then throw (invalid_bucket_name (named null_string (str "null bucket name")))
    else if ltb (length name) 3 || ltb 63 (length name)
    then throw (invalid_bucket_name (named name length_message))
    else ok tt

-- The tests on the names, at the head of `createRequest`.
unfoldable pub check_target : Str → Str → Result (Unit {0})
check_target bucket object =
    if is_empty bucket && not (is_empty object)
    then throw (
        invalid_bucket_name
          (named null_string (str "null bucket name for object '" ++ (object ++ str "'"))))
    else if not (is_empty bucket)
    then check_bucket_name bucket
    else ok tt

-- `s[s.size() - 1] == c` for a text that is not empty
abbrev pub last_is : ℕ → Str → Bool
last_is c [] = false
last_is c (d ∷ []) = eqb d c
last_is c (d ∷ e ∷ s) = last_is c (e ∷ s)

-- `m.find(k) != m.end()`
abbrev pub has_key : Str → KeyValueMap → Bool
has_key k m = elim (lookup k m) [ none ↦ false | some v ↦ true ]

module _ (E : Env) where
  -- `shouldOmitPortInHostHeader`
  unfoldable pub should_omit_port : E.HttpUrl → Bool
  should_omit_port url =
      E.is_https url && eqb (E.port url) 443 || not (E.is_https url) && eqb (E.port url) 80

  abbrev pub host_header : E.HttpUrl → Str
  host_header url =
      if should_omit_port url then E.host url else E.host url ++ (str ":" ++ decimal (E.port url))

  pub add_segment : E.UrlBuilder → Str → E.UrlBuilder
  add_segment b segment = E.add_encoded_path_segment b (E.encode segment)

  pub add_object : Str → E.UrlBuilder → E.UrlBuilder
  unfolding add_segment
  add_object object b =
      let segments = foldl add_segment b (E.split object (str "/")) in
      if not (is_empty object) && last_is b'/' object
      then E.add_path_segment segments []
      else segments

  pub add_parameter : E.UrlBuilder → Str × Str → E.UrlBuilder
  add_parameter b (k, v) = E.add_encoded_query_parameter b (E.encode k) (E.encode v)

  -- The URL that `createRequest` builds.
  unfoldable pub request_url_of : E.HttpUrl → Str → Str → KeyValueMap → E.HttpUrl
  unfolding add_segment add_object add_parameter
  request_url_of base bucket object query =
      let builder = E.new_builder base in
      let with_bucket = if is_empty bucket then builder else add_segment builder bucket in
      let with_object = if is_empty object then with_bucket else add_object object with_bucket in
      E.build_url (foldl add_parameter with_object query)

  -- The headers that `createRequest` sets, before the body.
  abbrev pub set_entry : E.RequestBuilder → Str × Str → E.RequestBuilder
  set_entry b (k, v) = E.set_header b k v

  abbrev pub set_if_given : E.RequestBuilder → Str → Str → E.RequestBuilder
  set_if_given b k v = if is_empty v then b else E.set_header b k v

  abbrev pub has_keys : MinioClient E → Bool
  has_keys c = not (is_empty c.access_key) && not (is_empty c.secret_key)

  -- `sha256Hash` and `md5Hash`
  unfoldable pub hashes : MinioClient E → E.Method → E.HttpUrl → KeyValueMap → Str → Str × Str
  hashes c method url query body =
      let md5_of_body = if is_empty body then [] else md5_base64 E.crypto body in
      if has_keys c
      then if E.is_https url
        then (str "UNSIGNED-PAYLOAD", md5_of_body)
        else if E.method_eq method E.post && has_key (str "delete") query
        then (sha256_base16 E.crypto body, md5_base64 E.crypto body)
        else (sha256_base16 E.crypto body, [])
      else ([], md5_of_body)

  -- The request, from its URL, hashes and date on.
  unfoldable pub assemble :
      MinioClient E → E.Method → E.HttpUrl → KeyValueMap → Str × Str → Str → Str → Str → E.Request
  assemble c method url headers (sha256_hash, md5_hash) date content_type body =
      let with_headers = foldl set_entry (E.set_url E.blank_request url) headers in
      let with_md5 = set_if_given with_headers (str "Content-MD5") md5_hash in
      let with_host = E.set_header with_md5 (str "Host") (host_header url) in
      let with_agent = E.set_header with_host (str "User-Agent") c.user_agent in
      let with_sha = set_if_given with_agent (str "x-amz-content-sha256") sha256_hash in
      let with_date = E.set_header with_sha (str "x-amz-date") date in
      E.build_request (E.set_body (E.set_method with_date (E.method_name method)) content_type body)

module _ {E : Env} where
  -- `createRequest`, which does not read `region`
  unfoldable pub create_request :
      E.Method → Str → Str → Str → KeyValueMap → KeyValueMap → Str → Str → M E E.Request
  create_request method bucket object region headers query content_type body = do
    c ← this
    lift (check_target bucket object)
    let url = request_url_of E c.base_url bucket object query
    let hash = hashes E c method url query body
    date ← now
    pure (
        assemble E c method url headers hash (DateTime.to_string date amz_date_format) content_type
          body)
