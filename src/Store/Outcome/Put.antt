-- ===== src/Store/Outcome/Put.antt =====
-- `putObject` of a file at a server that may fail.
use minioclient_cpp.Base.{◌≡◌, inl, inr, refl, sym, ap, subst, ◌∙◌, [], ◌∷◌}
use minioclient_cpp.Text.{Str}
use minioclient_cpp.Map.{KeyValueMap}
use minioclient_cpp.Errors.{Result, ok, throw, Result-cases}
use minioclient_cpp.External.{Env}
use minioclient_cpp.External.Laws.{KnowsBlank, KeepsBody, KeepsTarget, BuildsUrls}
use minioclient_cpp.Session.{World}
use minioclient_cpp.Session.Frame.{SameButReads}
use minioclient_cpp.Client.Request.Target.{target_path, path_of_request, query_of_request}
use minioclient_cpp.Client.Execute.{prepare, execute}
use minioclient_cpp.Client.Execute.Body.{prepare-Carries}
use minioclient_cpp.Client.Execute.Prepare.{OnlyReads-prepare}
use minioclient_cpp.Client.Execute.Outcome.{after_sending, concluded, execute_lem}
use minioclient_cpp.Client.History.Requests.{prepare-GoesTo}
use minioclient_cpp.Client.Bucket.Exists.{region_of, with_region}
use minioclient_cpp.Client.Object.{no_encryption, with_content_type, put_data, put_file, read_all}
use minioclient_cpp.Client.Object.Upload.{put_data_lem}
use minioclient_cpp.Store.{Contents, content_of}
use minioclient_cpp.Store.Outcome.{
  Exchanged, Transacts, Ended, Untouched-Failed, settled-Ended, discarded-Ended,
}

module _ (E : Env) (bucket object : Str) where
  -- The path of the object on the client's server.
  abbrev pub path_below : World E → Str
  path_below w = target_path E (E.encoded_path w.client.base_url) bucket object

module _ {E : Env} {view : E.HttpClient → Contents} (B : KnowsBlank E) (K : KeepsBody E)
    (T : KeepsTarget E) (U : BuildsUrls E) (S : Transacts E view) (region bucket object : Str)
    (headers : KeyValueMap) (body : Str) where
  -- What the server holds in a state.
  abbrev held : World E → Contents
  held w = view w.client.http_client

  abbrev path_at : World E → Str
  path_at w = path_below E bucket object w

  concluded-Ended :
      (request : Result E.Request) (w v : World E)
      → SameButReads w v
      → ((r : E.Request)
          → request ≡ ok r
          → Exchanged E
              (path_at w)
              body
              (E.exchange w.client.http_client r).0
              (held w)
              (view (E.exchange w.client.http_client r).1))
      → let (outcome, u) = concluded E B bucket object request v in
        Ended (path_at w) body outcome (held w) (held u)
  concluded-Ended (throw e) w v same h =
      Untouched-Failed (path_at w) body e (held w) (held v)
        λ q. subst (λ u. held u q ≡ held w q) (sym same) refl
  concluded-Ended (ok r) w v same h =
      subst
        (λ (u : World E).
          let (outcome, t) = after_sending E B bucket object r u in
          Ended (path_at w) body outcome (held w) (held t))
        (sym same)
        (settled-Ended E bucket object (path_at w) body (held w) _
          (E.exchange w.client.http_client r).0 (h r refl))

  execute-Ended :
      (w : World E)
      → E.encoded_query w.client.base_url ≡ []
      → let (outcome, u) = execute E.put region bucket object headers [] body w in
        Ended (path_at w) body outcome (held w) (held u)
  execute-Ended w unqueried =
      let base = w.client.base_url in
      let (request, v) = prepare E.put region bucket object headers [] body w in
      subst (λ (x : Result E.Response × World E). Ended (path_at w) body x.0 (held w) (held x.1))
        (sym (execute_lem E B E.put region bucket object headers [] body w))
        (concluded-Ended request w v
          ((OnlyReads-prepare E.put region bucket object headers [] body).at w)
          λ r made.
            let (url, method) =
              prepare-GoesTo T E.put region bucket object headers [] body w r made in
            let carried =
              (prepare-Carries K E.put region bucket object headers [] body).at w r made in
            subst
              (λ p.
                Exchanged E p body (E.exchange w.client.http_client r).0 (held w)
                  (view (E.exchange w.client.http_client r).1))
              (ap E.encoded_path url ∙ path_of_request U base bucket object [])
              (subst
                (λ b.
                  Exchanged E (E.encoded_path (E.request_url r)) b
                    (E.exchange w.client.http_client r).0 (held w)
                    (view (E.exchange w.client.http_client r).1))
                carried
                (S.put-Exchanged w.client.http_client r method
                  (ap E.encoded_query url ∙ query_of_request U base bucket object ∙ unqueried))))

module _ (E : Env) (view : E.HttpClient → Contents) (bucket object body : Str) (w : World E) where
  -- How a call that was to put the body under the object's name has ended.
  abbrev pub EndsUpload : Result (Unit {0}) × World E → Type 0
  EndsUpload (result, v) =
      Ended (path_below E bucket object w) body result (view w.client.http_client)
        (view v.client.http_client)

module _ {E : Env} {view : E.HttpClient → Contents} (B : KnowsBlank E) (K : KeepsBody E)
    (T : KeepsTarget E) (U : BuildsUrls E) (S : Transacts E view) (bucket object : Str)
    (w : World E) where
  put_data-EndsUpload :
      (body : Str) (headers : KeyValueMap)
      → E.encoded_query w.client.base_url ≡ []
      → EndsUpload E view bucket object body w (put_data bucket object body headers no_encryption w)
  put_data-EndsUpload body headers unqueried = elim (put_data_lem bucket object body headers w) [
    | inl (small, same) ↦
        let headers = with_content_type headers in
        let u = with_region E w in
        let sent = execute E.put (region_of E w) bucket object headers [] body u in
        subst (EndsUpload E view bucket object body w) (sym same) (
          discarded-Ended (path_below E bucket object w) body (view w.client.http_client)
            (λ v. view v.client.http_client) sent.0 sent.1
            (execute-Ended B K T U S (region_of E w) bucket object headers body u unqueried))
    | inr (large, refused) ↦ subst (EndsUpload E view bucket object body w) (sym refused) λ q. refl
  ]

  -- What the end of `putObject` of a file says, at a server that does each PUT as a whole or not at
  -- all, under a URL without a query. If the call returns, the server holds the content of the file
  -- at the object's path, and all else as before. If it throws `NoResponseException`, or leaves by
  -- a failed `assert` or an undefined operation, either this is so, or nothing has changed. If it
  -- throws anything else, nothing has changed. It is taken of the outside code that requests keep
  -- their body, URL and method, that URLs are built as documented, that a default-constructed
  -- response is empty, and of the server that an answer of success means that the PUT was done, and
  -- any other answer that it was not.
  pub put_file-EndsUpload :
      (file content_type : Str)
      → E.encoded_query w.client.base_url ≡ []
      → EndsUpload E view bucket object
          (content_of (read_all E.files file))
          w
          (put_file bucket object file content_type w)
  unfolding put_file
  put_file-EndsUpload [] content_type unqueried = λ q. refl
  put_file-EndsUpload (c ∷ file) content_type unqueried =
      elim (Result-cases (read_all E.files (c ∷ file))) [
        | inl (body, content) ↦ rw content (put_data-EndsUpload body _ unqueried)
        | inr (e, failed) ↦
            rw failed (Untouched-Failed (path_below E bucket object w) [] e _ _ λ q. refl)
      ]
