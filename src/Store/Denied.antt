-- ===== src/Store/Denied.antt =====
-- `putObject` of a file by a client without keys, at a server that checks signatures.
use minioclient_cpp.Base.{◌≤◌, ◌≡◌, ◌≢◌, refl, ap, subst, ◌∙◌, false, [], ◌∷◌, length}
use minioclient_cpp.Text.{Str, str, ◌==◌, Str-discrete, lower}
use minioclient_cpp.Map.{KeyValueMap, insert}
use minioclient_cpp.Errors.{ErrorResponse, error_response, Result, ok, throw}
use minioclient_cpp.External.{Env}
use minioclient_cpp.External.Laws.{StartsBare}
use minioclient_cpp.Session.{World}
use minioclient_cpp.Client.Request.{has_keys, request_url_of}
use minioclient_cpp.Client.Request.Names.{IsTarget, create_request-ok}
use minioclient_cpp.Client.Request.Target.{query_of_request}
use minioclient_cpp.Client.Request.Headers.{header-assemble}
use minioclient_cpp.Client.Request.Own.{
  same_name-false, header_named-IsForeign, authorization-IsForeign,
}
use minioclient_cpp.Client.Execute.{prepare, execute}
use minioclient_cpp.Client.Execute.Prepare.{OnlyReads-prepare}
use minioclient_cpp.Client.Execute.Outcome.{concluded, execute_lem, settled, error_of}
use minioclient_cpp.Client.Execute.Signed.{content_type_of, unsigned}
use minioclient_cpp.Client.Execute.Target.{unsigned-Asks}
use minioclient_cpp.Client.Bucket.Exists.{region_of, with_region}
use minioclient_cpp.Client.Object.{
  min_multipart_size, with_content_type, or_plain, put_file, read_all,
}
use minioclient_cpp.Client.Object.Upload.{put_data_single}
use minioclient_cpp.Client.Object.ContentType.{with_content_type-given}
use minioclient_cpp.Store.{Contents, content_of}
use minioclient_cpp.Store.Outcome.{Untouched, Ended}
use minioclient_cpp.Store.Outcome.Put.{path_below, put_file-EndsUpload}
use minioclient_cpp.Store.Guarded.{Guards, IsLawful}

content_type-ne-authorization : (lower (str "Content-Type") == lower (str "Authorization")) ≡ false
unfolding Str-discrete str
content_type-ne-authorization = refl

-- The call ended with an error response.
abbrev pub IsDenied : {A : Type 0} → Result A → Type 0
IsDenied result = (e : ErrorResponse) × (result ≡ throw (error_response e))

-- The request of a client that lacks a key is not signed.
prepare-unsigned :
    {E : Env} (m : E.Method) (region bucket object : Str) (headers query : KeyValueMap) (body : Str)
    (w : World E)
    → IsTarget bucket object
    → has_keys E w.client ≡ false
    → (prepare m region bucket object headers query body w).0
      ≡ ok (unsigned m region bucket object headers query body w)
unfolding prepare
prepare-unsigned m region bucket object headers query body w target keyless =
    rw
      (
        create_request-ok m bucket object region headers query (content_type_of headers) body w
            target,
        keyless,
      )
      refl

module _ {E : Env} (W : IsLawful E) (A : StartsBare E) where
  -- It has no signature, if its caller gives a content type alone.
  unsigned-authorization :
      (m : E.Method) (region bucket object : Str) (headers : KeyValueMap) (t body : Str)
      (w : World E)
      → headers ≡ (str "Content-Type", t) ∷ []
      → E.header (unsigned m region bucket object headers [] body w) (str "Authorization") ≡ []
  unsigned-authorization m region bucket object headers t body w given =
      let url = request_url_of E w.client.base_url bucket object [] in
      header-assemble W.headers w.client m url headers _ _ (content_type_of headers) body
        (str "Authorization")
      ∙ header_named-IsForeign E W.lowers w.client url headers _ _ (str "Authorization")
          authorization-IsForeign
      ∙ rw
          (
            given,
            same_name-false E W.lowers (str "Content-Type") (str "Authorization")
                content_type-ne-authorization,
          )
          (A.header-blank_request url (str "Authorization"))

module _ {E : Env} {view : E.HttpClient → Contents} (W : IsLawful E) (A : StartsBare E)
    {region access_key secret_key : Str} (S : Guards E view region access_key secret_key)
    (bucket object : Str) (w : World E) where
  execute-IsDenied :
      (headers : KeyValueMap) (t body : Str)
      → headers ≡ (str "Content-Type", t) ∷ []
      → IsTarget bucket object
      → has_keys E w.client ≡ false
      → E.encoded_query w.client.base_url ≡ []
      → IsDenied (execute E.put (region_of E w) bucket object headers [] body (with_region E w)).0
  execute-IsDenied headers t body given target keyless unqueried =
      let u = with_region E w in
      let own = region_of E w in
      let r = unsigned E.put own bucket object headers [] body u in
      let asks = unsigned-Asks W.target W.body E.put own bucket object headers [] body u in
      let v = (prepare E.put own bucket object headers [] body u).1 in
      let (reply, replied, present, bad) =
        S.put-unsigned w.client.http_client r asks.method-same
          (ap E.encoded_query asks.url-same
            ∙ query_of_request W.urls w.client.base_url bucket object
            ∙ unqueried)
          (unsigned-authorization W A E.put own bucket object headers t body u given) in
      (
        error_of E bucket object reply,
        ap (λ x. x.0) (execute_lem E W.blank E.put own bucket object headers [] body u)
            ∙ ap (λ x. (concluded E W.blank bucket object x v).0)
                (prepare-unsigned E.put own bucket object headers [] body u target keyless)
            ∙ ap (λ (x : World E). settled E bucket object (E.exchange x.client.http_client r).0)
                ((OnlyReads-prepare E.put own bucket object headers [] body).at u)
            ∙ rw (replied, present, bad) refl,
      )

  put_file-IsDenied :
      (file content_type body : Str)
      → file ≢ []
      → read_all E.files file ≡ ok body
      → length body ≤ min_multipart_size
      → IsTarget bucket object
      → has_keys E w.client ≡ false
      → E.encoded_query w.client.base_url ≡ []
      → IsDenied (put_file bucket object file content_type w).0
  unfolding put_file
  put_file-IsDenied [] content_type body named content small target keyless unqueried =
      absurd (named refl)
  put_file-IsDenied (c ∷ file) content_type body named content small target keyless unqueried =
      let t = or_plain content_type in
      let headers = insert (str "Content-Type") t [] in
      let (e, denied) =
        execute-IsDenied (with_content_type headers) t body (with_content_type-given t) target
          keyless unqueried in
      (e, rw (content, put_data_single bucket object body headers w small) (rw denied refl))

  -- `putObject` of a file by a client that lacks a key, at a server that checks signatures, throws
  -- an `ErrorResponseException`, and the server holds what it held before. So it is for a target
  -- with allowed names, a file with a name, which can be read and has at most 5 MiB, and a URL
  -- without a query. It is taken of the server that it answers a PUT that it accepts with success
  -- and one without a signature with an error, and does each PUT as a whole or not at all
  -- (`Guards`), and of the outside code that a request starts without headers, and the laws
  -- collected in `IsLawful`.
  pub put_file-Denied :
      (file content_type body : Str)
      → file ≢ []
      → read_all E.files file ≡ ok body
      → length body ≤ min_multipart_size
      → IsTarget bucket object
      → has_keys E w.client ≡ false
      → E.encoded_query w.client.base_url ≡ []
      → let (result, v) = put_file bucket object file content_type w in
        IsDenied result × Untouched (view w.client.http_client) (view v.client.http_client)
  put_file-Denied file content_type body named content small target keyless unqueried =
      let (result, v) = put_file bucket object file content_type w in
      let path = path_below E bucket object w in
      let before = view w.client.http_client in
      let after = view v.client.http_client in
      let (e, denied) =
        put_file-IsDenied file content_type body named content small target keyless unqueried in
      (
        (e, denied),
        subst (λ x. Ended path (content_of (read_all E.files file)) x before after) denied
            (put_file-EndsUpload W.blank W.body W.target W.urls S.transacts bucket object w file
              content_type unqueried),
      )
