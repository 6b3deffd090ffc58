-- ===== src/Main/Success.antt =====
-- When the client reports a success.
use minioclient_cpp.Base.{ℕ, ◌≡◌, refl, List, [], ◌∷◌, ◌++◌}
use minioclient_cpp.Text.{Str}
use minioclient_cpp.Errors.{ok}
use minioclient_cpp.External.{Env}
use minioclient_cpp.External.Laws.{KnowsBlank, KeepsBody, KeepsTarget}
use minioclient_cpp.Session.{World, print, cout}
use minioclient_cpp.Session.Ensures.{Ensures, Ensures-last, Ensures-bind}
use minioclient_cpp.Client.Construct.{trace_on}
use minioclient_cpp.Client.Bucket.{bucket_exists}
use minioclient_cpp.Client.Object.{put_file_plain, read_all}
use minioclient_cpp.Client.Object.Accepted.{Accepted, put_file-Ensures}
use minioclient_cpp.Main.{bucket_name, file_path, remote_name, success, upload}

module _ {E : Env} where
  -- The content of the file was read, and the server has accepted it as the object.
  abbrev pub HasUploaded : World E → Type 0
  HasUploaded v =
      (body : Str) × (read_all E.files file_path ≡ ok body)
      × Accepted E E.put bucket_name remote_name [] body v

  -- The success line is the last that was written.
  abbrev pub EndsWithSuccess : World E → Type 0
  EndsWithSuccess v = (before : List (ℕ × Str)) × (v.output ≡ before ++ (cout, success) ∷ [])

  after-print :
      (stream : ℕ) (text : Str) (w : World E) → HasUploaded w → HasUploaded (print stream text w).1
  unfolding print
  after-print stream text w (body, content, a) = (
    body,
    content,
    record {
      server = a.server;
      request = a.request;
      reply = a.reply;
      before = a.before;
      sent-last = a.sent-last;
      method-same = a.method-same;
      url-same = a.url-same;
      body-same = a.body-same;
      replied = a.replied;
      given = a.given;
      good = a.good;
    },
  )

  printed-last : (w : World E) → EndsWithSuccess (print cout success w).1
  unfolding print
  printed-last w = (w.output, refl)

  upload-Ensures :
      KnowsBlank E
      → KeepsBody E
      → KeepsTarget E
      → Ensures E upload λ _ v. HasUploaded v × EndsWithSuccess v
  unfolding upload put_file_plain
  upload-Ensures B K T =
      let Q : Unit → World E → Type 0 = λ _ v. HasUploaded v × EndsWithSuccess v in
      let finished =
        Ensures-bind (λ _. HasUploaded) Q _ (λ _. print cout success)
          (put_file-Ensures B K T bucket_name remote_name file_path [])
          λ a u c q h. (after-print cout success u q, printed-last u) in
      Ensures-last Q (trace_on cout) _ λ _.
        Ensures-last Q (bucket_exists bucket_name) _ λ is_exist. Ensures-last Q _ _ λ _. finished

  -- If the client of client.cpp comes to the end of its `try` block, then what it wrote last is its
  -- success line, the file "client.cpp" could be read, and the last request that was sent is a PUT
  -- of its content to the URL of the object "content.txt" of the bucket "asiatripy", which the
  -- server has answered with success; whatever went on before. It is taken that a
  -- default-constructed response is empty and that a request keeps the URL, the method and the body
  -- it was built with.
  pub upload_lem :
      KnowsBlank E
      → KeepsBody E
      → KeepsTarget E
      → (w : World E) → (upload w).0 ≡ ok tt
      → HasUploaded (upload w).1 × EndsWithSuccess (upload w).1
  upload_lem B K T w returned = (upload-Ensures B K T).at w tt returned
