-- ===== src/External.antt =====
-- The code outside the repository: the `simple-http` submodule (httpurl.h, httprequest.h,
-- httpresponse.h, httpclient.h, stringutils.h), OpenSSL (`Digest.Crypto`) and the file system.
pub mod Laws
use minioclient_cpp.Base.{ℕ, Bool, List, Option}
use minioclient_cpp.Text.{Str}
use minioclient_cpp.Map.{KeyValueMap}
use minioclient_cpp.Errors.{Result}
use minioclient_cpp.Digest.{Crypto}

-- The types of the HTTP library, and the members that the program calls.
pub record Http : Type 1 where
  -- `HttpUrl` and `UrlBuilder`; `parse_url` may throw
  pub HttpUrl : Type 0
  pub UrlBuilder : Type 0
  pub blank_url : HttpUrl
  pub parse_url : Str → Result HttpUrl
  pub encoded_path : HttpUrl → Str
  pub encoded_query : HttpUrl → Str
  pub host : HttpUrl → Str
  pub port : HttpUrl → ℕ
  pub is_https : HttpUrl → Bool
  pub new_builder : HttpUrl → UrlBuilder
  pub set_scheme : UrlBuilder → Str → UrlBuilder
  pub set_port : UrlBuilder → ℕ → UrlBuilder
  pub add_encoded_path_segment : UrlBuilder → Str → UrlBuilder
  pub add_path_segment : UrlBuilder → Str → UrlBuilder
  pub add_encoded_query_parameter : UrlBuilder → Str → Str → UrlBuilder
  pub build_url : UrlBuilder → HttpUrl
  -- `Scheme::HTTP.toString()`, `Scheme::HTTPS.toString()`
  pub http_scheme : Str
  pub https_scheme : Str
  -- `Method`
  pub Method : Type 0
  pub head : Method
  pub put : Method
  pub post : Method
  pub method_eq : Method → Method → Bool
  pub method_name : Method → Str
  -- `Request` and `RequestBuilder`; `set_body` takes a `RequestBody(contentType, data)`
  pub Request : Type 0
  pub RequestBuilder : Type 0
  pub blank_request : RequestBuilder
  pub from_request : Request → RequestBuilder
  pub set_url : RequestBuilder → HttpUrl → RequestBuilder
  pub set_header : RequestBuilder → Str → Str → RequestBuilder
  pub set_method : RequestBuilder → Str → RequestBuilder
  pub set_body : RequestBuilder → Str → Str → RequestBuilder
  pub build_request : RequestBuilder → Request
  pub request_url : Request → HttpUrl
  pub request_method : Request → Str
  pub header : Request → Str → Str
  pub request_body : Request → Str
  pub status_line : Request → Str
  pub header_string : Request → Str
  -- `Headers`
  pub Headers : Type 0
  pub headers : Request → Headers
  pub names : Headers → List Str
  pub header_of : Headers → Str → Str
  -- `Response`, and the `header().etag()` of the `HttpResponse` that is made of one
  pub Response : Type 0
  pub blank_response : Response
  pub is_blank : Response → Bool
  pub protocol : Response → Str
  pub code : Response → ℕ
  pub response_headers : Response → Str
  pub response_body : Response → Str
  pub is_successful : Response → Bool
  pub etag : Response → Str
  -- `HttpClient`, with all that is behind it: `newCall(request).execute()` returns or throws
  pub HttpClient : Type 0
  pub new_client : HttpClient
  pub exchange : HttpClient → Request → Result Response × HttpClient

-- stringutils.h
pub record TextUtils : Type 0 where
  pub split : Str → Str → List Str
  pub tolower : Str → Str
  -- `Escaper::encode`
  pub encode : Str → Str
  -- `Joiner::on(separator).withKeyValueSeparator(middle).join(map)`
  pub join_map : Str → Str → KeyValueMap → Str

-- What a `std::ifstream` on a file does: the `tellg()` at its end, `none` for -1, and `read`, with
-- `none` where it sets the fail bit; and whether there is memory for a buffer of a size. A
-- directory, which can be opened, may have a size for which there is none.
pub record FileSystem : Type 0 where
  pub tellg : Str → Option ℕ
  pub allocates : ℕ → Bool
  pub read : Str → ℕ → Option Str

pub record Env : Type 1 where
  pub http : Http
  pub open http use *
  pub text : TextUtils
  pub open text use *
  pub crypto : Crypto
  pub files : FileSystem
  pub open files use *
