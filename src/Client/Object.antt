-- ===== src/Client/Object.antt =====
-- `putObject` and `forwardObject`, with `Files` and `ServerSideEncryption`.
pub mod Upload
pub mod Contents
pub mod Accepted
pub mod ContentType
use minioclient_cpp.Base.{
  ℕ, zero, suc, ◌+◌, ◌*◌, ◌-◌, ◌^◌, Bool, true, false, not, ◌&&◌, ◌||◌, Option, none, some, List,
  [], ◌∷◌, ◌++◌, leb, if◌then◌else◌, is_empty, length,
}
use minioclient_cpp.Text.{Str, str, ◌==◌}
use minioclient_cpp.Text.Decimal.{ℤ, pos, negsuc, to_string}
use minioclient_cpp.Map.{KeyValueMap, lookup, insert}
use minioclient_cpp.Errors.{
  runtime_error, invalid_argument, length_error, bad_alloc, Result, ok, throw,
}
use minioclient_cpp.External.{FileSystem, Env}
use minioclient_cpp.Session.{World, M, ◌>>=◌, ◌>>◌, pure, raise, lift}
use minioclient_cpp.Client.Bucket.{execute_put}

-- `ServerSideEncryption`, an object with no state.
pub data ServerSideEncryption : Type 0 where
  no_encryption : ServerSideEncryption

-- `marshall`, whose body is empty
abbrev pub marshall : ServerSideEncryption → KeyValueMap → KeyValueMap
marshall no_encryption headers = headers

-- `MIN_MULTIPART_SIZE`
abbrev pub min_multipart_size : ℕ
min_multipart_size = 5 * 1024 * 1024

abbrev pub upload_id_name : Str
upload_id_name = str "uploadId"

module _ (F : FileSystem) where
  -- `Files::size`: a `tellg()` of -1 becomes the greatest `size_t`.
  unfoldable pub file_size : Str → ℕ
  file_size name = elim (F.tellg name) [ none ↦ 2 ^ 64 - 1 | some size ↦ size ]

  -- `Files::readAll`. A `tellg()` of -1 is a size that `std::vector` refuses; the text is that of
  -- libstdc++.
  unfoldable pub read_all : Str → Result Str
  read_all name = elim (F.tellg name) [
    | none ↦ throw (length_error (str "cannot create std::vector larger than max_size()"))
    | some size ↦
        if F.allocates size
        then elim (F.read name size) [
          | none ↦ throw (runtime_error (str "could not read file '" ++ (name ++ str "'")))
          | some buffer ↦ ok buffer
        ]
        else throw bad_alloc
  ]

-- `partNumber > 0`
abbrev is_positive : ℤ → Bool
is_positive (pos zero) = false
is_positive (pos (suc n)) = true
is_positive (negsuc n) = false

-- `queryParamMap`
unfoldable pub part_query : ℤ → Str → KeyValueMap
part_query part_number upload_id =
    if is_positive part_number && not (is_empty upload_id)
    then insert upload_id_name upload_id (insert (str "partNumber") (to_string part_number) [])
    else []

-- `if (headerMap.find("Content-Type") == headerMap.end())`
unfoldable pub with_content_type : KeyValueMap → KeyValueMap
with_content_type headers = elim (lookup (str "Content-Type") headers) [
  | none ↦ insert (str "Content-Type") (str "application/octet-stream") headers
  | some t ↦ headers
]

abbrev pub or_plain : Str → Str
or_plain content_type = if is_empty content_type then str "text/plain" else content_type

-- The two slices that `forwardObject` wants.
abbrev pub bucket_and_object : List Str → Option (Str × Str)
bucket_and_object (bucket ∷ object ∷ []) = some (bucket, object)
bucket_and_object _ = none

module _ {E : Env} where
  -- `putObject(bucketName, objectName, data, uploadId, partNumber, headerMap)`
  unfoldable pub put_part : Str → Str → Str → Str → ℤ → KeyValueMap → M E Str
  put_part bucket object body upload_id part_number headers = do
    response ← execute_put bucket object headers (part_query part_number upload_id) body
    pure (E.etag response)

  -- `putObject(bucketName, objectName, data, headerMap, sse)`
  unfoldable pub put_data : Str → Str → Str → KeyValueMap → ServerSideEncryption → M E Unit
  put_data bucket object body headers sse =
      if leb (length body) min_multipart_size
      then (do
        put_part bucket object body [] (pos 0) (marshall sse (with_content_type headers))
        pure tt)
      else raise (runtime_error (str "Multipart transfer not supported"))

  -- `putObject(bucketName, objectName, fileName, contentType)`
  unfoldable pub put_file : Str → Str → Str → Str → M E Unit
  put_file bucket object file content_type =
      if is_empty file then raise (invalid_argument (str "empty file name is not allowed")) else (do
        body ← lift (read_all E.files file)
        put_data bucket object body (insert (str "Content-Type") (or_plain content_type) [])
            no_encryption)

  -- `putObject(bucketName, objectName, fileName)`
  unfoldable pub put_file_plain : Str → Str → Str → M E Unit
  put_file_plain bucket object file = put_file bucket object file []

  -- `forwardObject`
  unfoldable pub forward_object : E.Request → M E Unit
  forward_object request =
      elim (bucket_and_object (E.split (E.encoded_path (E.request_url request)) (str "/"))) [
        | none ↦ raise (runtime_error (str "Mandatory URI: /[BucketName]/[ObjectName]"))
        | some (bucket, object) ↦
            put_data bucket object (E.request_body request)
              (insert (str "Content-Type") (or_plain (E.header request (str "Content-Type"))) [])
              no_encryption
      ]
