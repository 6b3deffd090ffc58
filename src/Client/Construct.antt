-- ===== src/Client/Construct.antt =====
-- The constructors of `MinioClient`, and `traceOn`.
pub mod Outcome
pub mod Made
use minioclient_cpp.Base.{
  ℕ, zero, suc, Bool, true, false, not, Option, none, some, [], eqb, ltb, if◌then◌else◌, is_empty,
}
use minioclient_cpp.Text.{Str, str, ◌==◌, find}
use minioclient_cpp.Text.Decimal.{ℤ, pos, negsuc}
use minioclient_cpp.Errors.{Result, ok, throw, ◌>>=◌, invalid_endpoint, bad_port, named}
use minioclient_cpp.External.{Env}
use minioclient_cpp.Session.{MinioClient, M}

abbrev pub null_string : Str
null_string = str "(null)"

abbrev pub default_user_agent : Str
default_user_agent = str "A-SKY WriterProxy 0.0001"

-- `port < 0 || port > 65535`
abbrev pub out_of_range : ℤ → Bool
out_of_range (pos n) = ltb 65535 n
out_of_range (negsuc n) = true

-- `find(...) == 0`
abbrev pub is_start : Option ℕ → Bool
is_start none = false
is_start (some i) = eqb i 0

module _ (E : Env) where
  -- `if (port > 0) urlBuilder.port(port)`
  abbrev with_port : ℤ → E.UrlBuilder → E.UrlBuilder
  with_port (pos zero) b = b
  with_port (pos (suc n)) b = E.set_port b (suc n)
  with_port (negsuc n) b = b

  -- The URL of the server, of the parsed endpoint.
  abbrev pub base_of : ℤ → Bool → E.HttpUrl → E.HttpUrl
  base_of port secure url = E.build_url (
      with_port port
        (E.set_scheme (E.new_builder url) (if secure then E.https_scheme else E.http_scheme)))

  abbrev pub or_new_client : Option E.HttpClient → E.HttpClient
  or_new_client none = E.new_client
  or_new_client (some http_client) = http_client

  -- The constructor that the others delegate to. `none` is a null `httpClient`.
  unfoldable pub construct :
      Str → ℤ → Str → Str → Str → Bool → Option E.HttpClient → Result (MinioClient E)
  construct endpoint port access_key secret_key region secure http_client =
      if is_empty endpoint
      then throw (invalid_endpoint (named null_string (str "null endpoint")))
      else if out_of_range port
      then throw (bad_port port (str "port must be in range of 1 to 65535"))
      else (do
        url ← E.parse_url endpoint
        if not (E.encoded_path url == str "/")
            then throw (invalid_endpoint (named endpoint (str "no path allowed in endpoint")))
            else ok (record {
              region = region;
              access_key = access_key;
              secret_key = secret_key;
              user_agent = default_user_agent;
              trace_stream = none;
              http_client = or_new_client http_client;
              base_url = base_of port secure url;
            }))

  -- `MinioClient(endpoint, port, accessKey, secretKey, region, secure)`
  unfoldable pub construct_in_region : Str → ℤ → Str → Str → Str → Bool → Result (MinioClient E)
  unfolding construct
  construct_in_region endpoint port access_key secret_key region secure =
      construct endpoint port access_key secret_key region secure none

  -- `MinioClient(endpoint, port, accessKey, secretKey, secure)`
  unfoldable pub construct_secure : Str → ℤ → Str → Str → Bool → Result (MinioClient E)
  unfolding construct_in_region
  construct_secure endpoint port access_key secret_key secure =
      construct_in_region endpoint port access_key secret_key [] secure

  -- `MinioClient(endpoint, port, accessKey, secretKey)`
  unfoldable pub construct_with_port : Str → ℤ → Str → Str → Result (MinioClient E)
  unfolding construct_secure find
  construct_with_port endpoint port access_key secret_key =
      construct_secure endpoint port access_key secret_key
        (is_start (find endpoint (str "https://") 0))

  -- `MinioClient(endpoint, accessKey, secretKey)`
  unfoldable pub construct_default : Str → Str → Str → Result (MinioClient E)
  unfolding construct_with_port
  construct_default endpoint access_key secret_key =
      construct_with_port endpoint (pos 0) access_key secret_key

-- `traceOn`
unfoldable pub trace_on : {E : Env} → ℕ → M E Unit
trace_on stream w = (
  ok tt,
  record w { client = record w.client { trace_stream = some (record { stream = stream }) } },
)
