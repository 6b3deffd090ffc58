-- ===== src/Client/Object/ContentType.antt =====
-- The header `Content-Type` of an upload.
use minioclient_cpp.Client.Sends.{length-requests_of}
use minioclient_cpp.Base.{
  ◌≡◌, refl, sym, ◌∙◌, true, false, List, [], ◌∷◌, ◌++◌, arith, length, leb, All, append-nil,
  is_empty, Bool-cases, Option-cases, inl, inr, ◌≤◌, subst,
}
use minioclient_cpp.Text.{Str, str, ◌==◌, Str-discrete, lower}
use minioclient_cpp.Map.{KeyValueMap, insert, lookup}
use minioclient_cpp.Errors.{Result, ok, throw, Result-cases}
use minioclient_cpp.External.{Env}
use minioclient_cpp.External.Laws.{KnowsBlank, KeepsHeaders, Lowers}
use minioclient_cpp.Session.{World, MinioClient}
use minioclient_cpp.Client.Request.Headers.{header_named}
use minioclient_cpp.Client.Execute.Headers.{prepare-header_named}
use minioclient_cpp.Client.Execute.Sending.{requests_of}
use minioclient_cpp.Client.Request.Own.{header_named-IsForeign, content_type-IsForeign}
use minioclient_cpp.Client.Request.Signable.{tolower-ne}
use minioclient_cpp.Client.Bucket.Exists.{region_of, with_region}
use minioclient_cpp.Client.Object.{
  no_encryption, min_multipart_size, read_all, with_content_type, or_plain, bucket_and_object,
  put_data, put_file, forward_object,
}
use minioclient_cpp.Client.Object.Upload.{put_data-sent}

abbrev content_type_name : Str
content_type_name = str "Content-Type"

same_refl : (s : Str) → (s == s) ≡ true
same_refl s = ground arith

-- The headers that `putObject` of a file makes have a type already.
pub with_content_type-given :
    (v : Str) → with_content_type (insert content_type_name v []) ≡ (content_type_name, v) ∷ []
unfolding with_content_type insert lookup
with_content_type-given v = rw (same_refl content_type_name, with_content_type)

authorization-ne-content_type : (lower (str "Authorization") == lower content_type_name) ≡ false
unfolding Str-discrete str
authorization-ne-content_type = refl

-- The type in the request is that of the caller.
caller-content_type :
    (E : Env) (L : Lowers E.text) (c : MinioClient E) (url : E.HttpUrl) (headers : KeyValueMap)
    (v : Str) (hash : Str × Str) (date : Str)
    → headers ≡ (content_type_name, v) ∷ []
    → header_named E c url headers hash date content_type_name ≡ v
caller-content_type E L c url headers v hash date given =
    header_named-IsForeign E L c url headers hash date content_type_name content_type-IsForeign
    ∙ rw (given, same_refl (E.tolower content_type_name)) refl

-- The type that a content has, by what is said of it: any text, or nothing.
abbrev pub said_type : Str → Str
said_type [] = str "text/plain"
said_type (c ∷ said) = c ∷ said

or_plain-said_type : (said : Str) → or_plain said ≡ said_type said
or_plain-said_type [] = refl
or_plain-said_type (c ∷ said) = refl

module _ (E : Env) where
  -- A request says that its content has this type.
  abbrev IsTyped : Str → E.Request → Type 0
  IsTyped t r = E.header r content_type_name ≡ t

  -- From `w` to `v` at most one request was sent, and it has this content type.
  abbrev pub SendsTyped : Str → World E → World E → Type 0
  SendsTyped t w v =
      (requests : List E.Request) × (v.sent ≡ w.sent ++ requests)
      × (length requests ≤ 1)
      × All (IsTyped t) requests

module _ {E : Env} (B : KnowsBlank E) (H : KeepsHeaders E) (L : Lowers E.text) where
  sends-nothing : (t : Str) (w v : World E) → v.sent ≡ w.sent → SendsTyped E t w v
  sends-nothing t w v same = ([], same ∙ sym (append-nil w.sent), omega arith, tt)

  requests-IsTyped :
      (t : Str) (result : Result E.Request)
      → ((r : E.Request) → result ≡ ok r → IsTyped E t r)
      → All (IsTyped E t) (requests_of result)
  requests-IsTyped t (ok r) h = (h r refl, tt)
  requests-IsTyped t (throw e) h = tt

  put_data-SendsTyped :
      (bucket object body t : Str) (w : World E)
      → SendsTyped E t w
          (put_data bucket object body (insert content_type_name t []) no_encryption w).1
  put_data-SendsTyped bucket object body t w =
      let headers = insert content_type_name t [] in
      let sent = put_data-sent B bucket object body headers w in
      elim (Bool-cases (leb (length body) min_multipart_size)) [
        | inl small ↦ (
          _,
          sent ∙ rw small,
          length-requests_of _,
          requests-IsTyped t _ λ r made.
              prepare-header_named H E.put (region_of E w) bucket object (with_content_type headers)
                [] body (with_region E w) r content_type_name made
                (tolower-ne L (str "Authorization") content_type_name authorization-ne-content_type)
              ∙ caller-content_type E L w.client _ _ t _ _ (with_content_type-given t),
        )
        | inr large ↦
            sends-nothing t w (put_data bucket object body headers no_encryption w).1
              (sent ∙ rw large)
      ]

  put_file-SendsTyped :
      (bucket object file content_type : Str) (w : World E)
      → SendsTyped E (or_plain content_type) w (put_file bucket object file content_type w).1
  unfolding put_file
  put_file-SendsTyped bucket object file content_type w = elim (Bool-cases (is_empty file)) [
    | inl unnamed ↦ rw unnamed (sends-nothing (or_plain content_type) w w refl)
    | inr named ↦ elim (Result-cases (read_all E.files file)) [
      | inl (body, content) ↦
          rw (named, content) (put_data-SendsTyped bucket object body (or_plain content_type) w)
      | inr (e, unread) ↦ rw (named, unread) (sends-nothing (or_plain content_type) w w refl)
    ]
  ]

  forward_object-SendsTyped :
      (request : E.Request) (w : World E)
      → SendsTyped E (or_plain (E.header request content_type_name)) w (forward_object request w).1
  unfolding forward_object
  forward_object-SendsTyped request w =
      let t = or_plain (E.header request content_type_name) in
      elim (Option-cases
        (bucket_and_object (E.split (E.encoded_path (E.request_url request)) (str "/")))) [
          | inl other ↦ rw (other, forward_object) (sends-nothing t w w refl)
          | inr ((bucket, object), two) ↦
              rw (two, forward_object)
                (put_data-SendsTyped bucket object (E.request_body request) t w)
        ]

  -- Each of the two uploads sends at most one request, and that says the content type: for a file
  -- the type that is given, or text/plain if the given text is empty, and for a forwarded request
  -- the type that it has, or text/plain if it has none. It is taken that a default-constructed
  -- response is empty, that a request keeps the headers it was built with, and that `tolower` is
  -- the documented one.
  pub uploads-SendsTyped :
      (bucket object file content_type : Str) (request : E.Request) (w : World E)
      → SendsTyped E (said_type content_type) w (put_file bucket object file content_type w).1
        × SendsTyped E
            (said_type (E.header request content_type_name))
            w
            (forward_object request w).1
  uploads-SendsTyped bucket object file content_type request w = (
    subst (λ t. SendsTyped E t w (put_file bucket object file content_type w).1)
        (or_plain-said_type content_type) (put_file-SendsTyped bucket object file content_type w),
    subst (λ t. SendsTyped E t w (forward_object request w).1)
        (or_plain-said_type (E.header request content_type_name))
        (forward_object-SendsTyped request w),
  )
