-- ===== src/Client/History/Methods.antt =====
-- The public methods as steps of a history.
use minioclient_cpp.Base.{
  Option, inl, inr, refl, sym, subst, [], ◌∷◌, if◌then◌else◌, is_empty, append-nil, leb, length,
  Bool-cases, Option-cases, ℕ,
}
use minioclient_cpp.Text.{Str, str}
use minioclient_cpp.Text.Decimal.{ℤ, pos}
use minioclient_cpp.Map.{KeyValueMap}
use minioclient_cpp.Errors.{Exn, Result, ok}
use minioclient_cpp.External.{Env}
use minioclient_cpp.External.Laws.{KnowsBlank, KeepsTarget}
use minioclient_cpp.Session.{LogPrinter, World, raise, lift}
use minioclient_cpp.Client.Construct.{trace_on}
use minioclient_cpp.Client.Bucket.{
  us_east_1, conflicts, chosen_region, bucket_configuration, get_region, execute_head,
  execute_put_in, execute_put, bucket_exists, make_bucket,
}
use minioclient_cpp.Client.Bucket.Exists.{existence-world}
use minioclient_cpp.Client.Object.{
  ServerSideEncryption, put_part, put_data, put_file, bucket_and_object, forward_object, part_query,
  marshall, with_content_type, min_multipart_size, read_all, no_encryption,
}
use minioclient_cpp.Client.History.{Settles, Follows, Follows-refl, Evolves, Evolves-bind}
use minioclient_cpp.Client.History.Requests.{execute-Evolves}

region-Settles : (E : Env) (own : Str) → Settles E own (if is_empty own then us_east_1 else own)
region-Settles E [] = inr (refl, refl)
region-Settles E (c ∷ own) = inl refl

module _ {E : Env} where
  raise-Evolves : {A : Type 0} (e : Exn) → Evolves E {A = A} (raise e)
  raise-Evolves e = record { at = Follows-refl }

  lift-Evolves : {A : Type 0} (r : Result A) → Evolves E (lift r)
  lift-Evolves r = record { at = Follows-refl }

  -- A change of the region and of the trace stream alone.
  client-Follows :
      (w : World E) (own : Str) (printer : Option LogPrinter)
      → Settles E w.client.region own
      → Follows E w (record w { client = record w.client { region = own; trace_stream = printer } })
  client-Follows w own printer h = record {
    access_key-same = refl;
    secret_key-same = refl;
    user_agent-same = refl;
    base_url-same = refl;
    clock-same = refl;
    region-settles = h;
    requests = [];
    sent-grows = sym (append-nil w.sent);
    requests-IsOurs = tt;
    lines = [];
    output-grows = sym (append-nil w.output);
  }

  get_region-Evolves : (bucket : Str) → Evolves E (get_region bucket)
  unfolding get_region
  get_region-Evolves bucket = record {
    at = λ w. client-Follows w _ w.client.trace_stream (region-Settles E w.client.region);
  }

  pub trace_on-Evolves : (stream : ℕ) → Evolves E (trace_on stream)
  unfolding trace_on
  trace_on-Evolves stream = record { at = λ w. client-Follows w w.client.region _ (inl refl) }

module _ {E : Env} (B : KnowsBlank E) (T : KeepsTarget E) where
  execute_head-Evolves : (bucket object : Str) → Evolves E (execute_head bucket object)
  unfolding execute_head
  execute_head-Evolves bucket object =
      Evolves-bind (get_region bucket) _ (get_region-Evolves bucket)
        λ region. execute-Evolves B T E.head region bucket object [] [] [] (inl refl)

  execute_put-Evolves :
      (bucket object : Str) (headers query : KeyValueMap) (body : Str)
      → Evolves E (execute_put bucket object headers query body)
  unfolding execute_put execute_put_in
  execute_put-Evolves bucket object headers query body =
      Evolves-bind (get_region bucket) _ (get_region-Evolves bucket)
        λ region. execute-Evolves B T E.put region bucket object headers query body (inr refl)

  pub bucket_exists-Evolves : (bucket : Str) → Evolves E (bucket_exists bucket)
  unfolding bucket_exists
  bucket_exists-Evolves bucket = record {
    at = λ w.
        let (outcome, v) = execute_head bucket [] w in
        subst (Follows E w) (sym (existence-world E outcome v))
          ((execute_head-Evolves bucket []).at w);
  }

  pub make_bucket-Evolves : (bucket region : Str) → Evolves E (make_bucket bucket region)
  unfolding make_bucket execute_put_in
  make_bucket-Evolves bucket region = record {
    at = λ w. elim (Bool-cases (conflicts (chosen_region region w.client.region) w.client.region)) [
      | inl conflict ↦ rw conflict (Follows-refl w)
      | inr fine ↦ rw fine (
          (Evolves-bind _ _
              (execute-Evolves B T E.put us_east_1 bucket [] [] []
                (bucket_configuration (chosen_region region w.client.region)) (inr refl))
              λ _. lift-Evolves (ok tt)).at
            w)
    ];
  }

  put_part-Evolves :
      (bucket object body upload_id : Str) (part : ℤ) (headers : KeyValueMap)
      → Evolves E (put_part bucket object body upload_id part headers)
  unfolding put_part
  put_part-Evolves bucket object body upload_id part headers =
      Evolves-bind _ _ (execute_put-Evolves bucket object headers (part_query part upload_id) body)
        λ r. lift-Evolves (ok (E.etag r))

  put_data-Evolves :
      (bucket object body : Str) (headers : KeyValueMap) (sse : ServerSideEncryption)
      → Evolves E (put_data bucket object body headers sse)
  unfolding put_data
  put_data-Evolves bucket object body headers sse =
      elim (Bool-cases (leb (length body) min_multipart_size)) [
        | inl small ↦ rw small (
            Evolves-bind _ _
              (put_part-Evolves bucket object body [] (pos 0)
                (marshall sse (with_content_type headers)))
              λ _. lift-Evolves (ok tt))
        | inr large ↦ rw large (raise-Evolves _)
      ]

  pub put_file-Evolves :
      (bucket object file content_type : Str) → Evolves E (put_file bucket object file content_type)
  unfolding put_file
  put_file-Evolves bucket object file content_type = elim (Bool-cases (is_empty file)) [
    | inl unnamed ↦ rw unnamed (raise-Evolves _)
    | inr name ↦ rw name (
        Evolves-bind _ _ (lift-Evolves (read_all E.files file))
          λ body. put_data-Evolves bucket object body _ no_encryption)
  ]

  pub forward_object-Evolves : (request : E.Request) → Evolves E (forward_object request)
  unfolding forward_object
  forward_object-Evolves request =
      elim (Option-cases
        (bucket_and_object (E.split (E.encoded_path (E.request_url request)) (str "/")))) [
          | inl other ↦ rw (other, forward_object) (raise-Evolves _)
          | inr ((bucket, object), two) ↦
              rw (two, forward_object)
                (put_data-Evolves bucket object (E.request_body request) _ no_encryption)
        ]
