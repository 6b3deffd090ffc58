-- ===== src/Store/Guarded.antt =====
-- `putObject` of a file at a server that checks signatures.
use minioclient_cpp.Base.{
  suc, ◌≤◌, ◌≡◌, ◌≢◌, refl, sym, ap, subst, ◌∙◌, true, [], ◌∷◌, length, false,
}
use minioclient_cpp.Text.{Str, str}
use minioclient_cpp.Map.{insert, KeyValueMap}
use minioclient_cpp.Digest.{IsCrypto}
use minioclient_cpp.Errors.{ok}
use minioclient_cpp.External.{Env}
use minioclient_cpp.External.Laws.{
  KnowsBlank, KeepsBody, KeepsTarget, KeepsHeaders, KeepsNames, BuildsUrls, Joins, Lowers,
}
use minioclient_cpp.Session.{World}
use minioclient_cpp.Signer.Query.{HasParams, HasParams-nil}
use minioclient_cpp.Signer.Verify.{accepts}
use minioclient_cpp.Client.Request.{has_keys, request_url_of}
use minioclient_cpp.Client.Request.Names.{IsTarget}
use minioclient_cpp.Client.Request.Target.{path_of_request, query_of_request}
use minioclient_cpp.Client.Execute.{prepare, execute}
use minioclient_cpp.Client.Execute.Prepare.{OnlyReads-prepare}
use minioclient_cpp.Client.Execute.Outcome.{concluded, execute_lem, settled}
use minioclient_cpp.Client.Execute.Target.{unsigned-Asks}
use minioclient_cpp.Client.Execute.Verified.{prepare-accepts}
use minioclient_cpp.Client.History.Requests.{prepare-GoesTo}
use minioclient_cpp.Client.Bucket.Exists.{region_of, with_region}
use minioclient_cpp.Client.Object.{
  min_multipart_size, with_content_type, or_plain, put_file, read_all,
}
use minioclient_cpp.Client.Object.Upload.{put_data_single}
use minioclient_cpp.Store.{Contents, content_of, MayStore, AnswersPut}
use minioclient_cpp.Store.Outcome.{Transacts, Stored, Ended}
use minioclient_cpp.Store.Outcome.Put.{path_below, put_file-EndsUpload}

-- The server of a region knows a user's keys. It answers a PUT of the user with success if it
-- accepts the signature, and something may be put at the path; a PUT without a signature it
-- answers with an error; and it does each PUT as a whole or not at all.
pub record Guards (E : Env) (view : E.HttpClient → Contents) (region access_key secret_key : Str)
    : Type 0 where
  pub put-admitted :
      (h : E.HttpClient) (r : E.Request)
      → E.request_method r ≡ E.method_name E.put
      → E.encoded_query (E.request_url r) ≡ []
      → accepts E region access_key secret_key r ≡ true
      → MayStore E (view h) (E.encoded_path (E.request_url r))
      → AnswersPut E h r
  pub put-unsigned :
      (h : E.HttpClient) (r : E.Request)
      → E.request_method r ≡ E.method_name E.put
      → E.encoded_query (E.request_url r) ≡ []
      → E.header r (str "Authorization") ≡ []
      → (reply : E.Response) × ((E.exchange h r).0 ≡ ok reply)
        × (E.is_blank reply ≡ false)
        × (E.is_successful reply ≡ false)
  pub transacts : Transacts E view

-- What is relied on of the outside code.
pub record IsLawful (E : Env) : Type 0 where
  pub crypto_laws : IsCrypto E.crypto
  pub joins : Joins E.text
  pub lowers : Lowers E.text
  pub headers : KeepsHeaders E
  pub names : KeepsNames E
  pub target : KeepsTarget E
  pub body : KeepsBody E
  pub urls : BuildsUrls E
  pub blank : KnowsBlank E

module _ (E : Env) (view : E.HttpClient → Contents) (bucket object : Str) (w : World E) where
  -- The client is ready to put something there: its keys are given, its clock reads the same second
  -- twice, and its own URL has no query.
  pub record IsReady : Type 0 where
    pub target : IsTarget bucket object
    pub keyed : has_keys E w.client ≡ true
    pub unqueried : E.encoded_query w.client.base_url ≡ []
    pub second : w.clock (suc w.reads) ≡ w.clock w.reads
    pub may : MayStore E (view w.client.http_client) (path_below E bucket object w)

module _ {E : Env} {view : E.HttpClient → Contents} (W : IsLawful E) (bucket object : Str)
    (w : World E) (S : Guards E view (region_of E w) w.client.access_key w.client.secret_key)
    (ready : IsReady E view bucket object w) where
  execute-returns :
      (headers : KeyValueMap) (body : Str)
      → (reply : E.Response) × ((execute E.put
            (region_of E w)
            bucket
            object
            headers
            []
            body
            (with_region E w)).0
          ≡ ok reply)
  execute-returns headers body =
      let u = with_region E w in
      let base = w.client.base_url in
      let region = region_of E w in
      let url = request_url_of E base bucket object [] in
      let unqueried = query_of_request W.urls base bucket object ∙ ready.unqueried in
      let bare = unsigned-Asks W.target W.body E.put region bucket object headers [] body u in
      let (r, made, accepted) =
        prepare-accepts W.crypto_laws W.joins W.lowers W.headers W.names W.target W.body E.put
          region bucket object headers [] body u ready.target ready.keyed
          (subst (HasParams E) (sym bare.url-same) (HasParams-nil E url unqueried)) ready.second in
      let (here, method) =
        prepare-GoesTo W.target E.put region bucket object headers [] body u r made in
      let (reply, replied, given, good) =
        S.put-admitted w.client.http_client r method (ap E.encoded_query here ∙ unqueried) accepted
          (subst (MayStore E (view w.client.http_client))
            (sym (ap E.encoded_path here ∙ path_of_request W.urls base bucket object []))
            ready.may) in
      let v = (prepare E.put region bucket object headers [] body u).1 in
      let same = (OnlyReads-prepare E.put region bucket object headers [] body).at u in
      (
        reply,
        ap (λ x. x.0) (execute_lem E W.blank E.put region bucket object headers [] body u)
            ∙ ap (λ x. (concluded E W.blank bucket object x v).0) made
            ∙ ap (λ (t : World E). settled E bucket object (E.exchange t.client.http_client r).0)
                same
            ∙ rw (replied, given, good) refl,
      )

  put_file-returns :
      (file content_type body : Str)
      → file ≢ []
      → read_all E.files file ≡ ok body
      → length body ≤ min_multipart_size
      → (put_file bucket object file content_type w).0 ≡ ok tt
  unfolding put_file
  put_file-returns [] content_type body named content small = absurd (named refl)
  put_file-returns (c ∷ file) content_type body named content small =
      let headers = insert (str "Content-Type") (or_plain content_type) [] in
      let (reply, sent) = execute-returns (with_content_type headers) body in
      rw (content, put_data_single bucket object body headers w small) (rw sent refl)

  -- At a server that checks signatures, `putObject` of a file with a name, which can be read and
  -- has at most 5 MiB, returns, and the server then holds its content at the object's path, and all
  -- else as before. So it is for a client with the user's two keys, in the server's region, whose
  -- URL has no query and whose clock reads the same second twice, and for a target with allowed names, where something may be put at the path. It is
  -- taken of the server that it answers a PUT that it accepts with success and one without a
  -- signature with an error, and does each PUT as a whole or not at all (`Guards`), and of the
  -- outside code the laws collected in `IsLawful`.
  pub put_file-Stores :
      (file content_type body : Str)
      → file ≢ []
      → read_all E.files file ≡ ok body
      → length body ≤ min_multipart_size
      → let (result, v) = put_file bucket object file content_type w in
        (result ≡ ok tt)
        × Stored
            (path_below E bucket object w)
            body
            (view w.client.http_client)
            (view v.client.http_client)
  put_file-Stores file content_type body named content small =
      let returned = put_file-returns file content_type body named content small in
      let (result, v) = put_file bucket object file content_type w in
      let path = path_below E bucket object w in
      let before = view w.client.http_client in
      let after = view v.client.http_client in
      let ended =
        put_file-EndsUpload W.blank W.body W.target W.urls S.transacts bucket object w file
          content_type ready.unqueried in
      (
        returned,
        subst (λ x. Ended path body x before after) returned
            (subst (λ c. Ended path (content_of c) result before after) content ended),
      )
