-- ===== src/Tests/Stores.antt =====
-- The client at a storage server.
use minioclient_cpp.Store.Requests.{put_at}
use minioclient_cpp.Main.Success.{HasUploaded, EndsWithSuccess, upload_lem}
use minioclient_cpp.Sample.Lawful.{
  sample-KnowsBlank, sample-KeepsTarget, over-KnowsBlank, over-KeepsBody, over-KeepsTarget,
}
use minioclient_cpp.External.Laws.{join_path}
use minioclient_cpp.Base.{ℕ, ◌≤◌, ◌≡◌, ◌≢◌, refl, false, none, List, [], ◌∷◌, arith, inl, length}
use minioclient_cpp.Text.{Str, str, Str-discrete}
use minioclient_cpp.Map.{KeyValueMap, lookup}
use minioclient_cpp.Errors.{ok}
use minioclient_cpp.Session.{World, MinioClient}
use minioclient_cpp.Client.Request.Names.{IsName}
use minioclient_cpp.Client.Bucket.{bucket_exists, make_bucket}
use minioclient_cpp.Client.Object.{read_all, min_multipart_size}
use minioclient_cpp.Client.History.{Follows}
use minioclient_cpp.Client.History.Steps.{
  Reaches, at_once, by_call, asked_for, made, reaches-Follows,
}
use minioclient_cpp.Main.{
  Process, file_path, parse_calls, parse_opt, no_arguments, lacks_argument, upload,
}
use minioclient_cpp.Store.{Store, Reflects, bucket_path, stored}
use minioclient_cpp.Store.Methods.{settled_in, with_bucket}
use minioclient_cpp.Store.Calls.{
  Call, ask, make, put, AreAllowed, after_calls, answers_to, perform_all, perform_all_refines,
}
use minioclient_cpp.Store.Repeat.{upload_idem}
use minioclient_cpp.Store.Upload.{upload-Achieves}
use minioclient_cpp.Store.Program.{Uploads, main-Uploads}
use minioclient_cpp.Sample.{server_url, sample}
use minioclient_cpp.Sample.Server.{server_sample, on_disk, server_sample-IsReliable, serve}
use minioclient_cpp.Tests.Setting.{us, name, new_world, clock_at}

abbrev pub disk_client : KeyValueMap → MinioClient server_sample
disk_client disk = record {
  region = [];
  access_key = us;
  secret_key = us;
  user_agent = us;
  trace_stream = none;
  http_client = disk;
  base_url = server_url;
}

abbrev pub disk_world : KeyValueMap → World server_sample
disk_world disk = record {
  client = disk_client disk;
  clock = clock_at;
  reads = 0;
  output = [];
  sent = [];
}

abbrev disk_state : KeyValueMap → Store
disk_state disk = record { region = []; contents = on_disk disk }

disk-Reflects :
    (disk : KeyValueMap) → Reflects server_sample on_disk (disk_state disk) (disk_world disk)
unfolding str
disk-Reflects disk = record {
  rooted = refl;
  unqueried = refl;
  region-same = refl;
  contents-same = λ path. refl;
}

pub name-IsName : IsName name
name-IsName = (omega arith, omega arith)

-- The file of the sample.
pub file_path_content : read_all server_sample.files file_path ≡ ok (str "data")
unfolding str read_all Str-discrete
file_path_content = refl

pub file_path-ne-nil : file_path ≢ []
unfolding str
file_path-ne-nil e = cc

pub us-ne-nil : us ≢ []
us-ne-nil e = cc

pub data_small : length (str "data") ≤ min_multipart_size
unfolding str
data_small = omega arith

abbrev full_line : List (ℕ × Str)
full_line = (b'm', name) ∷ (b'a', us) ∷ (b'k', us) ∷ []

abbrev disk_process : Process server_sample
disk_process = record { clock = clock_at; reads = 0; output = []; sent = [] }

full_line_complete : lacks_argument (parse_calls full_line no_arguments) ≡ false
unfolding parse_calls parse_opt
full_line_complete = refl

full_line_parsed :
    server_sample.parse_url (parse_calls full_line no_arguments).minioendpoint
    ≡ ok (record server_url { host = name })
unfolding parse_calls parse_opt
full_line_parsed = refl

root : server_url.path ≡ str "/"
unfolding str
root = refl

main-Uploads_example : Uploads server_sample-IsReliable full_line disk_process (str "data")
main-Uploads_example =
    main-Uploads server_sample-IsReliable full_line disk_process (record server_url { host = name })
      (str "data") full_line_complete full_line_parsed root refl file_path_content data_small

-- Two calls: is the bucket there, and make it.
abbrev after_exists : World sample
after_exists = (bucket_exists name new_world).1

abbrev after_make : World sample
after_make = (make_bucket name us after_exists).1

abbrev two_calls : Reaches sample new_world after_make
two_calls = by_call (by_call at_once (asked_for name refl)) (made name us refl)

reaches-Follows_example : Follows sample new_world after_make
reaches-Follows_example =
    reaches-Follows sample-KnowsBlank sample-KeepsTarget new_world after_make two_calls

abbrev disk_run : World server_sample
disk_run = (upload (disk_world [])).1

disk_run_returns : (upload (disk_world [])).0 ≡ ok tt
disk_run_returns =
    ((upload-Achieves server_sample-IsReliable (disk_state []) (str "data") file_path_content
        data_small).at
      (disk_world []) (disk-Reflects [])).1

upload_example : HasUploaded disk_run × EndsWithSuccess disk_run
upload_example =
    upload_lem (over-KnowsBlank KeyValueMap [] serve) (over-KeepsBody KeyValueMap [] serve)
      (over-KeepsTarget KeyValueMap [] serve) (disk_world []) disk_run_returns

-- Is the bucket there; make it; put an object in it; is the bucket there.
abbrev four_calls : List (Call server_sample)
four_calls = ask name ∷ make name [] ∷ put name us file_path [] ∷ ask name ∷ []

four_calls-AreAllowed : AreAllowed server_sample four_calls (disk_state [])
unfolding settled_in with_bucket put_at stored lookup Str-discrete str join_path
four_calls-AreAllowed =
    let room : on_disk [] (bucket_path server_sample name) ≡ none = refl in
    (
      name-IsName,
      (
        (name-IsName, inl refl, room),
        (
          (
            file_path-ne-nil,
            (str "data", file_path_content, (name-IsName, us-ne-nil, (λ e. cc), data_small)),
          ),
          (name-IsName, tt),
        ),
      ),
    )

perform_all_refines_example :
    ((perform_all server_sample four_calls (disk_world [])).0
      ≡ ok (answers_to server_sample four_calls (disk_state [])))
    × Reflects server_sample on_disk
        (after_calls server_sample four_calls (disk_state []))
        (perform_all server_sample four_calls (disk_world [])).1
perform_all_refines_example =
    perform_all_refines server_sample-IsReliable four_calls (disk_state []) (disk_world [])
      four_calls-AreAllowed (disk-Reflects [])

upload_idem_example :
    ((upload (disk_world [])).0 ≡ ok tt)
    × ((upload disk_run).0 ≡ ok tt)
    × ((path : Str)
        → on_disk (upload disk_run).1.client.http_client path
          ≡ on_disk disk_run.client.http_client path)
upload_idem_example =
    upload_idem server_sample-IsReliable (disk_state []) (str "data") (disk_world [])
      file_path_content data_small (disk-Reflects [])
