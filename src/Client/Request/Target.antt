-- ===== src/Client/Request/Target.antt =====
-- The method and the URL of a made request.
use mathlib.Core.List.{foldl}
use minioclient_cpp.Base.{
  ◌≡◌, refl, ap, ◌∙◌, not, ◌&&◌, List, [], ◌∷◌, is_empty, if◌then◌else◌, Bool-cases, inl, inr,
}
use minioclient_cpp.Text.{Str, str}
use minioclient_cpp.Map.{KeyValueMap}
use minioclient_cpp.External.{Env}
use minioclient_cpp.External.Laws.{KeepsTarget, BuildsUrls, join_path}
use minioclient_cpp.Session.{MinioClient}
use minioclient_cpp.Client.Request.{
  last_is, add_segment, add_object, add_parameter, set_entry, set_if_given, request_url_of,
  assemble,
}

module _ (E : Env) where
  -- The path of an object below a path: one segment for each part of its name, and a last slash if
  -- the name ends in one.
  abbrev pub add_part : Str → Str → Str
  add_part path part = join_path path (E.encode part)

  abbrev pub below : Str → Str → Str
  below path object =
      let parts = foldl add_part path (E.split object (str "/")) in
      if not (is_empty object) && last_is b'/' object then join_path parts [] else parts

  -- The path of a bucket, and of an object in it, on a server whose own path is `root`.
  abbrev pub target_path : Str → Str → Str → Str
  target_path root bucket object =
      let in_bucket = if is_empty bucket then root else join_path root (E.encode bucket) in
      if is_empty object then in_bucket else below in_bucket object

module _ {E : Env} (K : KeepsTarget E) where
  url_of_entries :
      (headers : KeyValueMap) (b : E.RequestBuilder)
      → E.request_url (E.build_request (foldl (set_entry E) b headers))
        ≡ E.request_url (E.build_request b)
  url_of_entries [] b = refl
  url_of_entries ((k, v) ∷ headers) b =
      url_of_entries headers (E.set_header b k v) ∙ K.url-set_header b k v

  url-set_if_given :
      (b : E.RequestBuilder) (k v : Str)
      → E.request_url (E.build_request (set_if_given E b k v)) ≡ E.request_url (E.build_request b)
  url-set_if_given b k [] = refl
  url-set_if_given b k (c ∷ v) = K.url-set_header b k (c ∷ v)

  -- What the request is sent to, and by which method.
  pub assemble-target :
      (c : MinioClient E) (m : E.Method) (url : E.HttpUrl) (headers : KeyValueMap)
      (hash : Str × Str) (date content_type body : Str)
      → let r = assemble E c m url headers hash date content_type body in
        (E.request_url r ≡ url) × (E.request_method r ≡ E.method_name m)
  unfolding assemble
  assemble-target c m url headers (sha, md5) date content_type body = (
    K.url-set_body _ _ _
        ∙ K.url-set_method _ _
        ∙ K.url-set_header _ _ _
        ∙ url-set_if_given _ _ sha
        ∙ K.url-set_header _ _ _
        ∙ K.url-set_header _ _ _
        ∙ url-set_if_given _ _ md5
        ∙ url_of_entries headers _
        ∙ K.url-set_url _ url,
    K.method-set_body _ _ _ ∙ K.method-set_method _ _,
  )

module _ {E : Env} (U : BuildsUrls E) where
  path_of_segments :
      (parts : List Str) (b : E.UrlBuilder)
      → E.encoded_path (E.build_url (foldl (add_segment E) b parts))
        ≡ foldl (add_part E) (E.encoded_path (E.build_url b)) parts
  unfolding add_segment
  path_of_segments [] b = refl
  path_of_segments (part ∷ parts) b =
      path_of_segments parts (add_segment E b part)
      ∙ ap (λ path. foldl (add_part E) path parts)
          (U.path-add_encoded_path_segment b (E.encode part))

  path_of_object :
      (object : Str) (b : E.UrlBuilder)
      → E.encoded_path (E.build_url (add_object E object b))
        ≡ below E (E.encoded_path (E.build_url b)) object
  unfolding add_object
  path_of_object object b = elim (Bool-cases (not (is_empty object) && last_is b'/' object)) [
    | inl slash ↦ rw slash (
        U.path-add_path_segment-nil _
        ∙ ap (λ path. join_path path []) (path_of_segments (E.split object (str "/")) b))
    | inr plain ↦ rw plain (path_of_segments (E.split object (str "/")) b)
  ]

  path_of_parameters :
      (query : KeyValueMap) (b : E.UrlBuilder)
      → E.encoded_path (E.build_url (foldl (add_parameter E) b query))
        ≡ E.encoded_path (E.build_url b)
  unfolding add_parameter
  path_of_parameters [] b = refl
  path_of_parameters ((k, v) ∷ query) b =
      path_of_parameters query (add_parameter E b (k, v)) ∙ U.path-add_encoded_query_parameter b _ _

  path_of_bucket :
      (base : E.HttpUrl) (bucket : Str)
      → E.encoded_path (
          E.build_url (
            if is_empty bucket
            then E.new_builder base
            else add_segment E (E.new_builder base) bucket))
        ≡ target_path E (E.encoded_path base) bucket []
  unfolding add_segment
  path_of_bucket base [] = U.path-new_builder base
  path_of_bucket base (c ∷ bucket) =
      U.path-add_encoded_path_segment _ _
      ∙ ap (λ path. join_path path (E.encode (c ∷ bucket))) (U.path-new_builder base)

  -- The path of the URL that is requested.
  pub path_of_request :
      (base : E.HttpUrl) (bucket object : Str) (query : KeyValueMap)
      → E.encoded_path (request_url_of E base bucket object query)
        ≡ target_path E (E.encoded_path base) bucket object
  unfolding request_url_of
  path_of_request base bucket [] query = path_of_parameters query _ ∙ path_of_bucket base bucket
  path_of_request base bucket (c ∷ object) query =
      path_of_parameters query _
      ∙ path_of_object (c ∷ object) _
      ∙ ap (λ path. below E path (c ∷ object)) (path_of_bucket base bucket)

  query_of_segments :
      (parts : List Str) (b : E.UrlBuilder)
      → E.encoded_query (E.build_url (foldl (add_segment E) b parts))
        ≡ E.encoded_query (E.build_url b)
  unfolding add_segment
  query_of_segments [] b = refl
  query_of_segments (part ∷ parts) b =
      query_of_segments parts (add_segment E b part)
      ∙ U.query-add_encoded_path_segment b (E.encode part)

  query_of_object :
      (object : Str) (b : E.UrlBuilder)
      → E.encoded_query (E.build_url (add_object E object b)) ≡ E.encoded_query (E.build_url b)
  unfolding add_object
  query_of_object object b = elim (Bool-cases (not (is_empty object) && last_is b'/' object)) [
    | inl slash ↦
        rw slash (U.query-add_path_segment _ [] ∙ query_of_segments (E.split object (str "/")) b)
    | inr plain ↦ rw plain (query_of_segments (E.split object (str "/")) b)
  ]

  query_of_bucket :
      (base : E.HttpUrl) (bucket : Str)
      → E.encoded_query (
          E.build_url (
            if is_empty bucket
            then E.new_builder base
            else add_segment E (E.new_builder base) bucket))
        ≡ E.encoded_query base
  unfolding add_segment
  query_of_bucket base [] = U.query-new_builder base
  query_of_bucket base (c ∷ bucket) =
      U.query-add_encoded_path_segment _ _ ∙ U.query-new_builder base

  -- With no parameters the query is the server's own.
  pub query_of_request :
      (base : E.HttpUrl) (bucket object : Str)
      → E.encoded_query (request_url_of E base bucket object []) ≡ E.encoded_query base
  unfolding request_url_of
  query_of_request base bucket [] = query_of_bucket base bucket
  query_of_request base bucket (c ∷ object) =
      query_of_object (c ∷ object) _ ∙ query_of_bucket base bucket
