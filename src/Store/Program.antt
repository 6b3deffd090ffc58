-- ===== src/Store/Program.antt =====
-- client.cpp at a storage server: the run from the command line to what is stored.
use minioclient_cpp.Base.{
  ◌≤◌, ◌≡◌, ◌≢◌, refl, sym, ap, ◌∙◌, Bool, false, ℕ, none, some, List, [], length, inl, inr, arith,
}
use minioclient_cpp.Text.{Str, str, starts_with}
use minioclient_cpp.Text.Decimal.{pos}
use minioclient_cpp.Errors.{ok}
use minioclient_cpp.External.{Env}
use minioclient_cpp.Session.{MinioClient, World}
use minioclient_cpp.Session.Returns.{ok_inj}
use minioclient_cpp.Client.Construct.{construct_default}
use minioclient_cpp.Client.Construct.Outcome.{construct_lem, construct_with_port_lem, client_of}
use minioclient_cpp.Client.Object.{min_multipart_size, read_all}
use minioclient_cpp.Main.{
  Process, Arguments, with_client, after_client, parse_calls, no_arguments, lacks_argument,
  bucket_name, file_path, remote_name, upload, run, main,
}
use minioclient_cpp.Store.{Contents, Store, object_path, IsReliable, Reflects}
use minioclient_cpp.Store.Upload.{uploaded, uploaded-there, TellsSuccess, upload-Achieves}

endpoint-given : (args : Arguments) → lacks_argument args ≡ false → args.minioendpoint ≢ []
endpoint-given args complete e = ground (arith, e)

module _ {E : Env} {view : E.HttpClient → Contents} (R : IsReliable E view) where
  -- What the server holds when the program starts.
  abbrev pub at_start : Store
  at_start = record { region = []; contents = view E.new_client }

  started-Reflects :
      (access_key secret_key : Str) (secure : Bool) (url : E.HttpUrl) (p : Process E)
      → E.encoded_path url ≡ str "/"
      → E.encoded_query url ≡ []
      → Reflects E view at_start
          (with_client (client_of E (pos 0) access_key secret_key [] secure none url) p)
  started-Reflects access_key secret_key secure url p rooted unqueried = record {
    rooted = R.urls.path-set_scheme _ _ ∙ R.urls.path-new_builder url ∙ rooted;
    unqueried = R.urls.query-set_scheme _ _ ∙ R.urls.query-new_builder url ∙ unqueried;
    region-same = refl;
    contents-same = λ path. refl;
  }

  -- The client is made for an endpoint with the path "/".
  constructed-default :
      (endpoint access_key secret_key : Str) (url : E.HttpUrl)
      → endpoint ≢ []
      → E.parse_url endpoint ≡ ok url
      → E.encoded_path url ≡ str "/"
      → construct_default E endpoint access_key secret_key
        ≡ ok (
            client_of E
              (pos 0)
              access_key
              secret_key
              []
              (starts_with endpoint (str "https://"))
              none
              url)
  constructed-default endpoint access_key secret_key url given parsed rooted =
      let secure = starts_with endpoint (str "https://") in
      (construct_with_port_lem E endpoint (pos 0) access_key secret_key).1
      ∙ elim (construct_lem E (pos 0) access_key secret_key [] secure none endpoint) [
        | inl (_, (other, (again, _), made)) ↦
            made
            ∙ ap (λ u. ok (client_of E (pos 0) access_key secret_key [] secure none u))
                (ok_inj (sym again ∙ parsed))
        | inr (not_served, _) ↦ absurd (not_served (given, omega arith, (url, (parsed, rooted))))
      ]

  -- What a run of `main` with these arguments leads to.
  abbrev pub Uploads : List (ℕ × Str) → Process E → Str → Type 0
  Uploads calls p body =
      (v : World E) × (main calls p ≡ (some 0, after_client v))
      × Reflects E view (uploaded E body at_start) v
      × (view v.client.http_client (object_path E bucket_name remote_name) ≡ some body)
      × TellsSuccess E v

  run-ok :
      (c : MinioClient E) (p : Process E)
      → (upload (with_client c p)).0 ≡ ok tt
      → run (ok c) p ≡ (some 0, after_client (upload (with_client c p)).1)
  run-ok c p returned = rw returned

  -- `main` with an endpoint and both keys ends with the exit code 0 and a last line that says so,
  -- and the server then holds the content of "client.cpp" as the object "content.txt" of the
  -- bucket "asiatripy", and but for the bucket itself what it held before. So it is when the
  -- endpoint parses to a URL with the path "/" and no query, and "client.cpp" can be read and has
  -- at most 5 MiB. It is taken of the server that it answers HEAD and PUT as a storage server does,
  -- and of the outside code that it keeps the laws collected in `IsReliable`.
  pub main-Uploads :
      (calls : List (ℕ × Str)) (p : Process E) (url : E.HttpUrl) (body : Str)
      → lacks_argument (parse_calls calls no_arguments) ≡ false
      → E.parse_url (parse_calls calls no_arguments).minioendpoint ≡ ok url
      → E.encoded_path url ≡ str "/"
      → E.encoded_query url ≡ []
      → read_all E.files file_path ≡ ok body
      → length body ≤ min_multipart_size
      → Uploads calls p body
  unfolding main
  main-Uploads calls p url body complete parsed rooted unqueried content small =
      let args = parse_calls calls no_arguments in
      let secure = starts_with args.minioendpoint (str "https://") in
      let c = client_of E (pos 0) args.minioaccesskey args.miniosecret [] secure none url in
      let w = with_client c p in
      let (_, returned, (served, told)) =
        (upload-Achieves R at_start body content small).at w
          (started-Reflects args.minioaccesskey args.miniosecret secure url p rooted unqueried) in
      (
        (upload w).1,
        rw
            (
              complete,
              constructed-default args.minioendpoint args.minioaccesskey args.miniosecret url
                  (endpoint-given args complete) parsed rooted,
            )
            (run-ok c p returned),
        served,
        served.contents-same _ ∙ uploaded-there E body at_start,
        told,
      )
