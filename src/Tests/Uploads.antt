-- ===== src/Tests/Uploads.antt =====
-- Uploads to a storage server, and to one that wants signatures.
use minioclient_cpp.Base.{◌≡◌, ◌≢◌, refl, inl, [], ◌∷◌, none}
use minioclient_cpp.Text.{str, Str-discrete}
use minioclient_cpp.Map.{KeyValueMap, lookup}
use minioclient_cpp.Errors.{ok}
use minioclient_cpp.External.Laws.{join_path}
use minioclient_cpp.Session.{World}
use minioclient_cpp.Client.Object.{read_all, put_file}
use minioclient_cpp.Main.{file_path}
use minioclient_cpp.Store.{content_of, in_bucket, bucket_path}
use minioclient_cpp.Store.Outcome.{Stored, Untouched}
use minioclient_cpp.Store.Denied.{IsDenied, put_file-Denied}
use minioclient_cpp.Store.Outcome.Put.{EndsUpload, put_file-EndsUpload, path_below}
use minioclient_cpp.Store.Guarded.{IsLawful, IsReady, put_file-Stores}
use minioclient_cpp.Sample.{server_url}
use minioclient_cpp.Sample.Lawful.{
  sample-IsCrypto, sample-Joins, sample-Lowers, over-KnowsBlank, over-KeepsBody, over-KeepsTarget,
  over-BuildsUrls, over-KeepsHeaders, over-KeepsNames, over-StartsBare,
}
use minioclient_cpp.Sample.Server.{
  server_sample, on_disk, server_sample-Transacts, serve, serve_signed, signed_sample,
  signed_sample-Guards,
}
use minioclient_cpp.Tests.Setting.{us, name, moment}
use minioclient_cpp.Tests.Stores.{
  disk_world, file_path_content, file_path-ne-nil, us-ne-nil, data_small, name-IsName,
}

put_file-EndsUpload_example :
    EndsUpload server_sample on_disk name us
      (content_of (read_all server_sample.files file_path))
      (disk_world [])
      (put_file name us file_path [] (disk_world []))
put_file-EndsUpload_example =
    put_file-EndsUpload (over-KnowsBlank KeyValueMap [] serve) (over-KeepsBody KeyValueMap [] serve)
      (over-KeepsTarget KeyValueMap [] serve) (over-BuildsUrls KeyValueMap [] serve)
      server_sample-Transacts name us (disk_world []) file_path [] refl

-- The bucket is there.
abbrev bucket_disk : KeyValueMap
bucket_disk = (b'/' ∷ name, []) ∷ []

abbrev signed_world : World signed_sample
signed_world = record {
  client = record {
    region = us;
    access_key = us;
    secret_key = us;
    user_agent = us;
    trace_stream = none;
    http_client = bucket_disk;
    base_url = server_url;
  };
  clock = λ n. moment;
  reads = 0;
  output = [];
  sent = [];
}

signed_sample-IsLawful : IsLawful signed_sample
signed_sample-IsLawful = record {
  crypto_laws = sample-IsCrypto;
  joins = sample-Joins;
  lowers = sample-Lowers;
  headers = over-KeepsHeaders KeyValueMap [] serve_signed;
  names = over-KeepsNames KeyValueMap [] serve_signed;
  target = over-KeepsTarget KeyValueMap [] serve_signed;
  body = over-KeepsBody KeyValueMap [] serve_signed;
  urls = over-BuildsUrls KeyValueMap [] serve_signed;
  blank = over-KnowsBlank KeyValueMap [] serve_signed;
}

bucket_there : on_disk bucket_disk (bucket_path signed_sample name) ≢ none
unfolding lookup Str-discrete str join_path
bucket_there e = cc

signed_world-IsReady : IsReady signed_sample on_disk name us signed_world
unfolding str
signed_world-IsReady = record {
  target = inl name-IsName;
  keyed = refl;
  unqueried = refl;
  second = refl;
  may = in_bucket name us name-IsName us-ne-nil bucket_there;
}

put_file-Stores_example :
    let (result, v) = put_file name us file_path [] signed_world in
    (result ≡ ok tt)
    × Stored
        (path_below signed_sample name us signed_world)
        (str "data")
        (on_disk bucket_disk)
        (on_disk v.client.http_client)
put_file-Stores_example =
    put_file-Stores signed_sample-IsLawful name us signed_world (signed_sample-Guards us us us)
      signed_world-IsReady file_path [] (str "data") file_path-ne-nil file_path_content data_small

-- The client without a secret key.
abbrev keyless_world : World signed_sample
keyless_world = record signed_world { client = record signed_world.client { secret_key = [] } }

put_file-Denied_example :
    let (result, v) = put_file name us file_path [] keyless_world in
    IsDenied result × Untouched (on_disk bucket_disk) (on_disk v.client.http_client)
put_file-Denied_example =
    put_file-Denied signed_sample-IsLawful (over-StartsBare KeyValueMap [] serve_signed)
      (signed_sample-Guards us us us) name us keyless_world file_path [] (str "data")
      file_path-ne-nil file_path_content data_small (inl name-IsName) refl refl
