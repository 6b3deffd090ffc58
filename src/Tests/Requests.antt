-- ===== src/Tests/Requests.antt =====
-- Requests of a client with keys.
use minioclient_cpp.Client.Execute.Headers.{header_said, prepare-headers}
use minioclient_cpp.Client.Request.Target.{query_of_request}
use minioclient_cpp.Client.Execute.Target.{Asks, prepare-ok}
use minioclient_cpp.Session.{World}
use minioclient_cpp.Signer.Verify.{accepts}
use minioclient_cpp.Client.Execute.Late.{ReadingsShareCode, prepare-refused}
use minioclient_cpp.Base.{false, ◌⊎◌, ◌≡◌, ◌≢◌, refl, ap, [], inl, ◌∷◌, arith}
use minioclient_cpp.Text.{Str, str, Str-discrete}
use minioclient_cpp.Map.{lookup, KeyValueMap}
use minioclient_cpp.Errors.{ok, throw, invalid_bucket_name}
use minioclient_cpp.Digest.{sha256_base16}
use minioclient_cpp.DateTime
use minioclient_cpp.DateTime.{amz_date_format}
use minioclient_cpp.Signer.Query.{HasParams, HasParams-nil}
use minioclient_cpp.Signer.Spec.{authorization_text}
use minioclient_cpp.Client.Request.{request_url_of, create_request, hashes, assemble}
use minioclient_cpp.Client.Request.Names.{IsTarget, create_request_lem}
use minioclient_cpp.Client.Request.Payload.{date_name, sha_name, payload_hash}
use minioclient_cpp.Client.Execute.{prepare}
use minioclient_cpp.Client.Execute.Signed.{unsigned, prepare_signed, prepare_dates}
use minioclient_cpp.Sample.{Message, sample, server_url, split_text, fill}
use minioclient_cpp.Sample.Lawful.{
  sample-IsCrypto, sample-Joins, sample-KeepsHeaders, sample-KeepsTarget, sample-KeepsBody,
  sample-BuildsUrls, sample-Lowers, sample-KeepsNames,
}
use minioclient_cpp.Tests.Setting.{us, fresh_world, name, name-IsTarget, apart, moment, next_moment}

-- `HEAD` of the bucket, before it is signed.
abbrev pub head_unsigned : Message
head_unsigned = unsigned {E = sample} sample.head us name [] [] [] [] fresh_world

pub head_unsigned-HasParams : HasParams sample (sample.request_url head_unsigned)
unfolding assemble request_url_of split_text str hashes Str-discrete sha256_base16 fill
head_unsigned-HasParams = tt

-- The signed request.
abbrev pub head_request : Message
head_request = sample.build_request (
    sample.set_header (sample.from_request head_unsigned) (str "Authorization") (
      authorization_text sample head_unsigned (sample.header head_unsigned sha_name) next_moment us
        fresh_world.client.access_key fresh_world.client.secret_key))

pub head_prepared :
    (prepare {E = sample} sample.head us name [] [] [] [] fresh_world).0 ≡ ok head_request
head_prepared =
    ap (λ x. x.0)
      (prepare_signed sample.head us name [] [] [] [] fresh_world sample-IsCrypto sample-Joins
        name-IsTarget refl head_unsigned-HasParams sample-Lowers sample-KeepsNames)

prepare_dates_example :
    (r : Message) × ((prepare {E = sample} sample.head us name [] [] [] [] fresh_world).0 ≡ ok r)
    × (sample.header r sha_name
        ≡ payload_hash sample (request_url_of sample fresh_world.client.base_url name [] []) [])
    × (sample.header r date_name ≡ DateTime.to_string moment amz_date_format)
    × (sample.header r (str "Authorization")
        ≡ authorization_text sample head_unsigned
            (payload_hash sample (request_url_of sample fresh_world.client.base_url name [] []) [])
            next_moment
            us
            fresh_world.client.access_key
            fresh_world.client.secret_key)
prepare_dates_example =
    prepare_dates sample.head us name [] [] [] [] fresh_world sample-IsCrypto sample-Joins
      sample-KeepsHeaders sample-KeepsNames sample-Lowers name-IsTarget refl head_unsigned-HasParams

create_request_example :
    (IsTarget name []
      × (create_request {E = sample} sample.head name [] us [] [] [] [] fresh_world
          ≡ (ok head_unsigned, record fresh_world { reads = 1 })))
    ⊎ ((¬ IsTarget name [])
        × ((text : Str) × (create_request {E = sample} sample.head name [] us [] [] [] []
                fresh_world
              ≡ (throw (invalid_bucket_name text), fresh_world))))
unfolding lookup
create_request_example =
    create_request_lem {E = sample} sample.head name [] us [] [] [] [] fresh_world

prepare-refused_example :
    (r : Message) × ((prepare {E = sample} sample.head us name [] [] [] [] fresh_world).0 ≡ ok r)
    × ((accepts sample us fresh_world.client.access_key fresh_world.client.secret_key r ≡ false)
        ⊎ ReadingsShareCode {E = sample} sample.head us name [] [] [] [] fresh_world)
prepare-refused_example =
    prepare-refused sample-IsCrypto sample-Joins sample-Lowers sample-KeepsHeaders sample-KeepsNames
      sample-KeepsTarget sample-KeepsBody sample.head us name [] [] [] [] fresh_world name-IsTarget
      refl head_unsigned-HasParams (λ e. omega (arith, e))

-- The same client, its clock standing still.
abbrev steady_world : World sample
steady_world = record fresh_world { clock = λ n. moment }

prepare-ok_example :
    (r : Message) × ((prepare {E = sample} sample.put us name us [] [] name fresh_world).0 ≡ ok r)
    × Asks sample (request_url_of sample server_url name us []) sample.put name r
prepare-ok_example =
    prepare-ok sample-KeepsTarget sample-KeepsBody sample.put us name us [] [] name fresh_world
      sample-IsCrypto (inl (omega arith, omega arith))
      (HasParams-nil sample (request_url_of sample server_url name us [])
        (query_of_request sample-BuildsUrls server_url name us))

-- A caller that names a host.
abbrev host_given : KeyValueMap
host_given = (str "host", us) ∷ []

host_apart : sample.tolower (str "Authorization") ≢ sample.tolower (str "HOST")
unfolding Str-discrete str
host_apart = apart refl

made_with_host :
    (r : Message) × ((prepare {E = sample} sample.put us name us host_given [] name fresh_world).0
      ≡ ok r)
    × Asks sample (request_url_of sample server_url name us []) sample.put name r
made_with_host =
    prepare-ok sample-KeepsTarget sample-KeepsBody sample.put us name us host_given [] name
      fresh_world sample-IsCrypto (inl (omega arith, omega arith))
      (HasParams-nil sample (request_url_of sample server_url name us [])
        (query_of_request sample-BuildsUrls server_url name us))

prepare-headers_example :
    sample.header made_with_host.0 (str "HOST")
    ≡ header_said sample fresh_world.client sample.put
        (request_url_of sample server_url name us [])
        host_given
        []
        name
        (DateTime.to_string moment amz_date_format)
        (str "HOST")
prepare-headers_example =
    prepare-headers sample-KeepsHeaders sample.put us name us host_given [] name fresh_world
      made_with_host.0 (str "HOST") made_with_host.1 host_apart
