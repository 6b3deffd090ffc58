-- ===== src/Client/Object/Upload.antt =====
-- What `putObject` uploads, and what it refuses.
use minioclient_cpp.Base.{
  ◌≤◌, ◌<◌, ◌⊎◌, ◌≡◌, inl, inr, ap, ◌∙◌, true, false, none, some, [], ◌++◌, arith, leb, length,
  if◌then◌else◌, Bool-cases,
}
use minioclient_cpp.Text.{Str, str, ◌==◌}
use minioclient_cpp.Map.{KeyValueMap, lookup}
use minioclient_cpp.Map.Laws.{lookup-insert}
use minioclient_cpp.Errors.{runtime_error, throw, Result-cases}
use minioclient_cpp.External.{Env}
use minioclient_cpp.External.Laws.{KnowsBlank}
use minioclient_cpp.Session.{World, ◌>>◌, pure}
use minioclient_cpp.Session.Frame.{discard-world}
use minioclient_cpp.Client.Execute.{prepare, execute}
use minioclient_cpp.Client.Execute.Sending.{requests_of, execute-sent}
use minioclient_cpp.Client.Bucket.{get_region, execute_put, execute_put_in}
use minioclient_cpp.Client.Bucket.Exists.{region_of, with_region}
use minioclient_cpp.Client.Object.{
  no_encryption, min_multipart_size, part_query, with_content_type, put_part, put_data,
}

-- The headers of an upload say a content type: the given one, or `application/octet-stream`; the
-- other headers are the given ones.
pub with_content_type_lem :
    (headers : KeyValueMap) (k : Str)
    → lookup k (with_content_type headers) ≡ (elim (lookup k headers) [
      | some v ↦ some v
      | none ↦ if k == str "Content-Type" then some (str "application/octet-stream") else none
    ])
unfolding with_content_type
with_content_type_lem headers k =
    ground (arith, lookup-insert k (str "Content-Type") (str "application/octet-stream") headers)

module _ {E : Env} (bucket object : Str) (body : Str) (headers : KeyValueMap) (w : World E) where
  put_data_too_large :
      min_multipart_size < length body
      → put_data bucket object body headers no_encryption w
        ≡ (throw (runtime_error (str "Multipart transfer not supported")), w)
  unfolding put_data
  put_data_too_large h =
      let large : leb (length body) min_multipart_size ≡ false = ground arith in rw large

  pub put_data_single :
      length body ≤ min_multipart_size
      → put_data bucket object body headers no_encryption w
        ≡ (do
          execute E.put (region_of E w) bucket object (with_content_type headers) [] body
          pure tt)
            (with_region E w)
  unfolding put_data put_part execute_put execute_put_in get_region part_query
  put_data_single h =
      let small : leb (length body) min_multipart_size ≡ true = ground arith in
      rw small
        (elim (Result-cases
          (execute E.put (region_of E w) bucket object (with_content_type headers) [] body
            (with_region E w)).0) [ inl (r, sent) ↦ rw sent | inr (e, failed) ↦ rw failed ])

  -- At most 5 MiB are one PUT of the whole body in the client's region, which may be settled by
  -- it: the request is sent once if it can be made, and its error is the upload's. More than 5 MiB
  -- are refused, before anything is sent or changed.
  pub put_data_lem :
      ((length body ≤ min_multipart_size)
        × (put_data bucket object body headers no_encryption w
            ≡ (do
              execute E.put (region_of E w) bucket object (with_content_type headers) [] body
              pure tt)
                (with_region E w)))
      ⊎ ((min_multipart_size < length body)
          × (put_data bucket object body headers no_encryption w
              ≡ (throw (runtime_error (str "Multipart transfer not supported")), w)))
  put_data_lem = elim (Bool-cases (leb (length body) min_multipart_size)) [
    | inl small ↦ inl (ground arith, put_data_single (ground arith))
    | inr large ↦ inr (ground arith, put_data_too_large (ground arith))
  ]

-- `putObject` of a body over 5 MiB sends nothing. Up to that size it sends the request that can
-- be made for the whole body, once, and nothing if none can be made; whatever the server answers.
-- It is taken that a default-constructed response is empty.
pub put_data-sent :
    {E : Env}
    → KnowsBlank E
    → (bucket object body : Str) (headers : KeyValueMap) (w : World E)
    → (put_data bucket object body headers no_encryption w).1.sent ≡ (
        if leb (length body) min_multipart_size
        then w.sent
          ++ requests_of
              (prepare E.put
                (region_of E w)
                bucket
                object
                (with_content_type headers)
                []
                body
                (with_region E w)).0
        else w.sent)
put_data-sent {E} B bucket object body headers w =
    elim (Bool-cases (leb (length body) min_multipart_size)) [
      | inl small ↦ rw small (
          rw (put_data_single bucket object body headers w (ground arith)) (
            ap (λ v. v.sent)
              (discard-world
                (execute E.put (region_of E w) bucket object (with_content_type headers) [] body)
                (with_region E w))
            ∙ execute-sent B E.put (region_of E w) bucket object (with_content_type headers) [] body
                (with_region E w)))
      | inr large ↦ rw large (rw (put_data_too_large bucket object body headers w (ground arith)))
    ]
