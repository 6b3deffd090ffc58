-- ===== src/Client/Sends.antt =====
-- How many requests each method of the client sends.
use minioclient_cpp.Base.{
  ◌≤◌, ◌≡◌, refl, ◌∙◌, false, [], arith, leb, length, is_empty, Bool-cases, Option-cases, inl, inr,
  ite, sym, append-nil,
}
use minioclient_cpp.Text.{Str, str}
use minioclient_cpp.Text.Decimal.{ℤ, pos}
use minioclient_cpp.Map.{KeyValueMap}
use minioclient_cpp.Errors.{
  Code-discrete, no_such_bucket, ErrorResponse, Exn, error_response, Result, ok, throw,
}
use minioclient_cpp.External.{Env}
use minioclient_cpp.External.Laws.{KnowsBlank}
use minioclient_cpp.Session.{World, pure, raise, lift}
use minioclient_cpp.Session.Sends.{
  SendsAtMost, SendsAtMost-none, SendsAtMost-weaken, SendsAtMost-bind,
}
use minioclient_cpp.Client.Execute.{prepare, execute}
use minioclient_cpp.Client.Execute.Sending.{requests_of, execute-sent}
use minioclient_cpp.Client.Bucket.{
  conflicts, us_east_1, bucket_configuration, chosen_region, get_region, execute_head,
  execute_put_in, execute_put, existence, bucket_exists, make_bucket,
}
use minioclient_cpp.Client.Object.{
  ServerSideEncryption, put_part, put_data, put_file, bucket_and_object, forward_object, part_query,
  marshall, with_content_type, min_multipart_size, read_all, no_encryption,
}

pub length-requests_of {ℓ} : {A : Type ℓ} (r : Result A) → length (requests_of r) ≤ 1
length-requests_of (ok a) = omega arith
length-requests_of (throw e) = omega arith

module _ {E : Env} where
  raise-sends : {A : Type 0} (e : Exn) → SendsAtMost E {A = A} 0 (raise e)
  raise-sends e = SendsAtMost-none (raise e) λ w. refl

  pure-sends : {A : Type 0} (a : A) → SendsAtMost E {A = A} 0 (pure a)
  pure-sends a = SendsAtMost-none (pure a) λ w. refl

  get_region-sends : (bucket : Str) → SendsAtMost E 0 (get_region bucket)
  unfolding get_region
  get_region-sends bucket = SendsAtMost-none (get_region bucket) λ w. refl

  forgiven :
      (e : ErrorResponse) (d : Dec (e.code ≡ no_such_bucket)) (w : World E)
      → ((ite d (pure {E = E} false) (raise (error_response e))) w).1.sent ≡ w.sent
  forgiven e (yes p) w = refl
  forgiven e (no p) w = refl

  existence-sent : (r : Result E.Response) (w : World E) → (existence {E = E} r w).1.sent ≡ w.sent
  unfolding existence
  existence-sent (ok r) w = refl
  existence-sent (throw (error_response e)) w = forgiven e (Code-discrete e.code no_such_bucket) w
  existence-sent (throw e) w = refl

module _ {E : Env} (B : KnowsBlank E) where
  execute-sends :
      (m : E.Method) (region bucket object : Str) (headers query : KeyValueMap) (body : Str)
      → SendsAtMost E 1 (execute m region bucket object headers query body)
  execute-sends m region bucket object headers query body = record {
    at = λ w. (
      requests_of (prepare m region bucket object headers query body w).0,
      execute-sent B m region bucket object headers query body w,
      length-requests_of _,
    );
  }

  execute_head-sends : (bucket object : Str) → SendsAtMost E 1 (execute_head bucket object)
  unfolding execute_head
  execute_head-sends bucket object =
      SendsAtMost-bind 0 1 (get_region bucket) _ (get_region-sends bucket)
        λ region. execute-sends E.head region bucket object [] [] []

  execute_put-sends :
      (bucket object : Str) (headers query : KeyValueMap) (body : Str)
      → SendsAtMost E 1 (execute_put bucket object headers query body)
  unfolding execute_put execute_put_in
  execute_put-sends bucket object headers query body =
      SendsAtMost-bind 0 1 (get_region bucket) _ (get_region-sends bucket)
        λ region. execute-sends E.put region bucket object headers query body

  pub bucket_exists-sends : (bucket : Str) → SendsAtMost E 1 (bucket_exists bucket)
  unfolding bucket_exists
  bucket_exists-sends bucket = record {
    at = λ w.
        let (requests, same, bound) = (execute_head-sends bucket []).at w in
        (requests, existence-sent _ _ ∙ same, bound);
  }

  pub make_bucket-sends : (bucket region : Str) → SendsAtMost E 1 (make_bucket bucket region)
  unfolding make_bucket execute_put_in
  make_bucket-sends bucket region = record {
    at = λ w. elim (Bool-cases (conflicts (chosen_region region w.client.region) w.client.region)) [
      | inl conflict ↦ rw conflict ([], sym (append-nil w.sent), omega arith)
      | inr fine ↦ rw fine (
          (SendsAtMost-bind 1 0 _ _
              (execute-sends E.put us_east_1 bucket [] [] []
                (bucket_configuration (chosen_region region w.client.region)))
              λ _. pure-sends tt).at
            w)
    ];
  }

  put_part-sends :
      (bucket object body upload_id : Str) (part : ℤ) (headers : KeyValueMap)
      → SendsAtMost E 1 (put_part bucket object body upload_id part headers)
  unfolding put_part
  put_part-sends bucket object body upload_id part headers =
      SendsAtMost-bind 1 0 _ _
        (execute_put-sends bucket object headers (part_query part upload_id) body)
        λ r. pure-sends (E.etag r)

  pub put_data-sends :
      (bucket object body : Str) (headers : KeyValueMap) (sse : ServerSideEncryption)
      → SendsAtMost E 1 (put_data bucket object body headers sse)
  unfolding put_data
  put_data-sends bucket object body headers sse =
      elim (Bool-cases (leb (length body) min_multipart_size)) [
        | inl small ↦ rw small (
            SendsAtMost-bind 1 0 _ _
              (put_part-sends bucket object body [] (pos 0)
                (marshall sse (with_content_type headers)))
              λ _. pure-sends tt)
        | inr large ↦ rw large (SendsAtMost-weaken 0 1 _ (omega arith) (raise-sends _))
      ]

  pub put_file-sends :
      (bucket object file content_type : Str)
      → SendsAtMost E 1 (put_file bucket object file content_type)
  unfolding put_file
  put_file-sends bucket object file content_type = elim (Bool-cases (is_empty file)) [
    | inl unnamed ↦ rw unnamed (SendsAtMost-weaken 0 1 _ (omega arith) (raise-sends _))
    | inr name ↦ rw name (
        SendsAtMost-bind 0 1 _ _ (SendsAtMost-none (lift (read_all E.files file)) λ w. refl)
          λ body. put_data-sends bucket object body _ no_encryption)
  ]

  pub forward_object-sends : (request : E.Request) → SendsAtMost E 1 (forward_object request)
  unfolding forward_object
  forward_object-sends request =
      elim (Option-cases
        (bucket_and_object (E.split (E.encoded_path (E.request_url request)) (str "/")))) [
          | inl other ↦
              rw (other, forward_object) (SendsAtMost-weaken 0 1 _ (omega arith) (raise-sends _))
          | inr ((bucket, object), two) ↦
              rw (two, forward_object)
                (put_data-sends bucket object (E.request_body request) _ no_encryption)
        ]

  -- No public method of the client sends more than one request, in whatever state it is called,
  -- and whatever the server answers; so it is for `bucketExists`, `makeBucket`, `putObject` and
  -- `forwardObject`. It is taken that a default-constructed response is empty.
  pub SendsAtMost-methods :
      (bucket object file content_type region : Str) (request : E.Request)
      → SendsAtMost E 1 (bucket_exists bucket)
        × SendsAtMost E 1 (make_bucket bucket region)
        × SendsAtMost E 1 (put_file bucket object file content_type)
        × SendsAtMost E 1 (forward_object request)
  SendsAtMost-methods bucket object file content_type region request = (
    bucket_exists-sends bucket,
    make_bucket-sends bucket region,
    put_file-sends bucket object file content_type,
    forward_object-sends request,
  )
