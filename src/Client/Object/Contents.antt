-- ===== src/Client/Object/Contents.antt =====
-- What `putObject` of a file and `forwardObject` send.
use minioclient_cpp.Base.{
  ◌≤◌, ◌≡◌, ◌≢◌, refl, sym, ◌∙◌, List, [], ◌∷◌, ◌++◌, arith, length, leb, All, append-nil,
  Bool-cases, Option-cases, inl, inr,
}
use minioclient_cpp.Text.{Str, str}
use minioclient_cpp.Map.{KeyValueMap, insert}
use minioclient_cpp.Errors.{ok}
use minioclient_cpp.External.{Env}
use minioclient_cpp.External.Laws.{KnowsBlank, KeepsBody}
use minioclient_cpp.Session.{World}
use minioclient_cpp.Client.Execute.Body.{Carries, All-Carries}
use minioclient_cpp.Client.Bucket.Exists.{region_of, with_region}
use minioclient_cpp.Client.Sends.{length-requests_of}
use minioclient_cpp.Client.Object.{
  no_encryption, min_multipart_size, read_all, with_content_type, or_plain, bucket_and_object,
  put_data, put_file, forward_object,
}
use minioclient_cpp.Client.Object.Upload.{put_data-sent}

module _ {E : Env} (K : KeepsBody E) where
  -- After a call that led from `w` to `v`: at most one request more was sent, and its body is `body`.
  abbrev pub HasSent : Str → World E → World E → Type 0
  HasSent body w v =
      (requests : List E.Request) × (v.sent ≡ w.sent ++ requests)
      × (length requests ≤ 1)
      × All (Carries K body) requests

  HasSent-same : (body : Str) (w v : World E) → v.sent ≡ w.sent → HasSent body w v
  HasSent-same body w v same = ([], same ∙ sym (append-nil w.sent), omega arith, tt)

module _ {E : Env} (B : KnowsBlank E) (K : KeepsBody E) where
  put_data-HasSent :
      (bucket object body : Str) (headers : KeyValueMap) (w : World E)
      → HasSent K body w (put_data bucket object body headers no_encryption w).1
  put_data-HasSent bucket object body headers w =
      let sent = put_data-sent B bucket object body headers w in
      elim (Bool-cases (leb (length body) min_multipart_size)) [
        | inl small ↦ (
          _,
          sent ∙ rw small,
          length-requests_of _,
          All-Carries K E.put (region_of E w) bucket object (with_content_type headers) [] body
              (with_region E w),
        )
        | inr large ↦
            HasSent-same K body w (put_data bucket object body headers no_encryption w).1
              (sent ∙ rw large)
      ]

  -- `putObject` of a file with a name, which can be read, sends at most one request, and its body
  -- is the content of the file. It is taken that a default-constructed response is empty and that
  -- a request holds the body it was built with.
  pub put_file-HasSent :
      (bucket object file content_type body : Str) (w : World E)
      → file ≢ []
      → read_all E.files file ≡ ok body
      → HasSent K body w (put_file bucket object file content_type w).1
  unfolding put_file
  put_file-HasSent bucket object [] content_type body w named content = absurd (named refl)
  put_file-HasSent bucket object (c ∷ file) content_type body w named content = rw content (
      put_data-HasSent bucket object body (insert (str "Content-Type") (or_plain content_type) [])
        w)

  -- `forwardObject` sends at most one request, and its body is that of the request it is given.
  -- It is taken that a default-constructed response is empty and that a request holds the body it
  -- was built with.
  pub forward_object-HasSent :
      (request : E.Request) (w : World E)
      → HasSent K (E.request_body request) w (forward_object request w).1
  unfolding forward_object
  forward_object-HasSent request w =
      elim (Option-cases
        (bucket_and_object (E.split (E.encoded_path (E.request_url request)) (str "/")))) [
          | inl other ↦
              rw (other, forward_object) (HasSent-same K (E.request_body request) w w refl)
          | inr ((bucket, object), two) ↦
              rw (two, forward_object) (put_data-HasSent bucket object (E.request_body request) _ w)
        ]
