-- ===== src/Main/Flow.antt =====
-- What a run of the client sends.
use minioclient_cpp.Base.{
  ℕ, ◌≤◌, ◌≡◌, refl, sym, ◌∙◌, Bool, true, false, none, some, Option, List, [], ◌++◌, arith, length,
  if◌then◌else◌, Bool-cases, inl, inr, append-nil,
}
use minioclient_cpp.Text.{Str}
use minioclient_cpp.Errors.{Result, ok, throw}
use minioclient_cpp.External.{Env}
use minioclient_cpp.External.Laws.{KnowsBlank}
use minioclient_cpp.Session.{MinioClient, print, cout}
use minioclient_cpp.Session.Sends.{
  SendsAtMost, SendsAtMost-none, SendsAtMost-weaken, SendsAtMost-bind,
}
use minioclient_cpp.Client.Construct.{trace_on, construct_default}
use minioclient_cpp.Client.Bucket.{bucket_exists, make_bucket}
use minioclient_cpp.Client.Object.{put_file_plain}
use minioclient_cpp.Client.Execute.{what}
use minioclient_cpp.Client.Sends.{bucket_exists-sends, make_bucket-sends, put_file-sends}
use minioclient_cpp.Main.{
  with_client, Process, parse_calls, no_arguments, lacks_argument, bucket_name, file_path,
  remote_name, success, upload, report, finish, run, main,
}

module _ {E : Env} where
  trace_on-sends : (stream : ℕ) → SendsAtMost E 0 (trace_on stream)
  unfolding trace_on
  trace_on-sends stream = SendsAtMost-none (trace_on stream) λ w. refl

  print-sends : (stream : ℕ) (text : Str) → SendsAtMost E 0 (print stream text)
  unfolding print
  print-sends stream text = SendsAtMost-none (print stream text) λ w. refl

  report-sent : (text : Option Str) (p : Process E) → (report text p).1.sent ≡ p.sent
  report-sent none p = refl
  report-sent (some text) p = refl

  finish-sent : (r : Result (Unit {0})) (p : Process E) → (finish r p).1.sent ≡ p.sent
  finish-sent (ok u) p = refl
  finish-sent (throw e) p = report-sent (what e) p

module _ {E : Env} (B : KnowsBlank E) where
  ensured-sends :
      (is_exist : Bool) (text : Str)
      → SendsAtMost E 1 (if is_exist then print cout text else make_bucket bucket_name [])
  ensured-sends true text = SendsAtMost-weaken 0 1 _ (omega arith) (print-sends cout text)
  ensured-sends false text = make_bucket-sends B bucket_name []

  upload-sends : SendsAtMost E 3 upload
  unfolding upload put_file_plain
  upload-sends = SendsAtMost-bind 0 3 (trace_on cout) _ (trace_on-sends cout) λ _.
      SendsAtMost-bind 1 2 (bucket_exists bucket_name) _ (bucket_exists-sends B bucket_name)
        λ is_exist. SendsAtMost-bind 1 1 _ _ (ensured-sends is_exist _) λ _.
          SendsAtMost-bind 1 0 _ _ (put_file-sends B bucket_name remote_name file_path [])
            λ _. print-sends cout success

  run-sent :
      (c : Result (MinioClient E)) (p : Process E)
      → (requests : List E.Request) × ((run c p).1.sent ≡ p.sent ++ requests)
        × (length requests ≤ 3)
  run-sent (throw e) p = ([], report-sent (what e) p ∙ sym (append-nil p.sent), omega arith)
  run-sent (ok c) p =
      let (requests, same, bound) = upload-sends.at (with_client c p) in
      (requests, finish-sent _ _ ∙ same, bound)

  -- A run of `main` sends at most three requests, whatever the server answers to them. It is
  -- taken that a default-constructed response is empty.
  pub main-sent :
      (calls : List (ℕ × Str)) (p : Process E)
      → (requests : List E.Request) × ((main calls p).1.sent ≡ p.sent ++ requests)
        × (length requests ≤ 3)
  unfolding main
  main-sent calls p =
      let args = parse_calls calls no_arguments in
      elim (Bool-cases (lacks_argument args)) [
        | inl lacks ↦ rw lacks ([], sym (append-nil p.sent), omega arith)
        | inr complete ↦ rw complete (
            run-sent (construct_default E args.minioendpoint args.minioaccesskey args.miniosecret)
              p)
      ]
