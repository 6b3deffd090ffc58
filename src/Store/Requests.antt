-- ===== src/Store/Requests.antt =====
-- `execute` at a storage server.
use minioclient_cpp.Base.{◌≡◌, refl, sym, ap, subst, fun_ext, ◌∙◌, [], false}
use minioclient_cpp.Text.{Str}
use minioclient_cpp.Map.{KeyValueMap}
use minioclient_cpp.Errors.{Result}
use minioclient_cpp.External.{Env}
use minioclient_cpp.Session.{World}
use minioclient_cpp.Session.Frame.{SameButReads}
use minioclient_cpp.Session.Achieves.{Achieves}
use minioclient_cpp.Signer.Query.{HasParams-nil}
use minioclient_cpp.Client.Request.{request_url_of}
use minioclient_cpp.Client.Request.Names.{IsTarget}
use minioclient_cpp.Client.Request.Target.{path_of_request, query_of_request, target_path}
use minioclient_cpp.Client.Execute.{prepare, execute}
use minioclient_cpp.Client.Execute.Prepare.{OnlyReads-prepare}
use minioclient_cpp.Client.Execute.Outcome.{answered, after_sending, concluded, execute_lem}
use minioclient_cpp.Client.Execute.Target.{prepare-ok}
use minioclient_cpp.Store.{
  Contents, Store, stored, object_path, MayStore, Tells, IsReliable, Reflects,
}

-- The server, after content was put at a path.
unfoldable pub put_at : Str → Str → Store → Store
put_at path body s = record s { contents = stored path body s.contents }

module _ {E : Env} {view : E.HttpClient → Contents} where
  pub Reflects-reads :
      (s : Store) (w v : World E) → SameButReads w v → Reflects E view s w → Reflects E view s v
  Reflects-reads s w v same h = subst (Reflects E view s) (sym same) (record {
    rooted = h.rooted;
    unqueried = h.unqueried;
    region-same = h.region-same;
    contents-same = h.contents-same;
  })

  -- The server's own account is that of the state.
  pub account :
      (s : Store) (w : World E) → Reflects E view s w → view w.client.http_client ≡ s.contents
  account s w h = fun_ext h.contents-same

module _ {E : Env} {view : E.HttpClient → Contents} (R : IsReliable E view) (m : E.Method)
    (region bucket object : Str) (headers : KeyValueMap) (body : Str) (s : Store)
    (w : World E) where
  -- What is known of a request that was made for a server in the state `s`.
  pub record Made (r : E.Request) (v : World E) : Type 0 where
    pub path-same : E.encoded_path (E.request_url r) ≡ object_path E bucket object
    pub query-none : E.encoded_query (E.request_url r) ≡ []
    pub method-same : E.request_method r ≡ E.method_name m
    pub body-same : E.request_body r ≡ body
    pub serves : Reflects E view s v
    pub executed :
        execute m region bucket object headers [] body w ≡ after_sending E R.blank bucket object r v

  -- At such a server there is a request to send, and its outcome is that of `execute`.
  pub execute-Made :
      IsTarget bucket object → Reflects E view s w → (r : E.Request) × (v : World E) × Made r v
  execute-Made target h =
      let base = w.client.base_url in
      let (r, made, asks) =
        prepare-ok R.target R.body m region bucket object headers [] body w R.crypto_laws target (
          HasParams-nil E (request_url_of E base bucket object [])
            (query_of_request R.urls base bucket object ∙ h.unqueried)) in
      let v = (prepare m region bucket object headers [] body w).1 in
      (
        r,
        v,
        record {
          path-same =
              ap E.encoded_path asks.url-same
              ∙ path_of_request R.urls base bucket object []
              ∙ ap (λ root. target_path E root bucket object) h.rooted;
          query-none =
              ap E.encoded_query asks.url-same
              ∙ query_of_request R.urls base bucket object
              ∙ h.unqueried;
          method-same = asks.method-same;
          body-same = asks.body-same;
          serves =
              Reflects-reads s w v ((OnlyReads-prepare m region bucket object headers [] body).at w)
                h;
          executed =
              execute_lem E R.blank m region bucket object headers [] body w
              ∙ ap (λ x. concluded E R.blank bucket object x v) made;
        },
      )

module _ {E : Env} {view : E.HttpClient → Contents} (R : IsReliable E view)
    (region bucket object : Str) (headers : KeyValueMap) (body : Str) where
  sent-Reflects :
      (s t : Store) (r : E.Request) (v : World E)
      → Reflects E view s v
      → t.region ≡ s.region
      → ((q : Str) → view (E.exchange v.client.http_client r).1 q ≡ t.contents q)
      → Reflects E view t (after_sending E R.blank bucket object r v).1
  sent-Reflects s t r v h settled now = record {
    rooted = h.rooted;
    unqueried = h.unqueried;
    region-same = h.region-same ∙ sym settled;
    contents-same = now;
  }

  pub put-Achieves :
      (s : Store)
      → IsTarget bucket object
      → MayStore E s.contents (object_path E bucket object)
      → Achieves E
          (Reflects E view s)
          (execute E.put region bucket object headers [] body)
          λ _. Reflects E view (put_at (object_path E bucket object) body s)
  unfolding put_at
  put-Achieves s target may = record {
    at = λ w h.
        let (r, v, made) = execute-Made R E.put region bucket object headers body s w target h in
        let at_server = account s v made.serves in
        let path = E.encoded_path (E.request_url r) in
        let may_here : MayStore E (view v.client.http_client) path =
          subst (MayStore E (view v.client.http_client)) (sym made.path-same)
            (subst (λ c. MayStore E c (object_path E bucket object)) (sym at_server) may) in
        let (reply, replied, given, good) =
          R.server.put-answers v.client.http_client r made.method-same made.query-none may_here in
        (
          reply,
          ap (λ x. x.0) made.executed ∙ rw (replied, given, good),
          subst
              (λ (x : Result E.Response × World E).
                Reflects E view (put_at (object_path E bucket object) body s) x.1)
              (sym made.executed)
              (sent-Reflects s (put_at (object_path E bucket object) body s) r v made.serves refl
                λ q.
                  R.server.put-stores v.client.http_client r q made.method-same made.query-none
                    may_here
                  ∙ ap (λ p. stored p (E.request_body r) (view v.client.http_client) q)
                      made.path-same
                  ∙ ap (λ b. stored (object_path E bucket object) b (view v.client.http_client) q)
                      made.body-same
                  ∙ ap (λ c. stored (object_path E bucket object) body c q) at_server),
        );
  }

  -- What is known of the end of a HEAD request.
  pub record Told (s : Store) (w : World E) (reply : E.Response) : Type 0 where
    pub given : E.is_blank reply ≡ false
    pub tells : Tells E (s.contents (object_path E bucket object)) reply
    pub told :
        (execute E.head region bucket object headers [] body w).0 ≡ answered E bucket object reply
    pub serves : Reflects E view s (execute E.head region bucket object headers [] body w).1

  -- HEAD returns or throws by what is stored, and leaves the server as it was.
  pub head-Told :
      (s : Store) (w : World E)
      → IsTarget bucket object
      → Reflects E view s w
      → (reply : E.Response) × Told s w reply
  head-Told s w target h =
      let (r, v, made) = execute-Made R E.head region bucket object headers body s w target h in
      let (reply, replied, given, tells) =
        R.server.head-answers v.client.http_client r made.method-same made.query-none in
      (
        reply,
        record {
          given = given;
          tells =
              subst (λ c. Tells E c reply)
                (ap (view v.client.http_client) made.path-same
                  ∙ made.serves.contents-same (object_path E bucket object))
                tells;
          told = ap (λ x. x.0) made.executed ∙ rw replied;
          serves =
              subst (λ (x : Result E.Response × World E). Reflects E view s x.1) (sym made.executed)
                (sent-Reflects s s r v made.serves refl λ q.
                  R.server.head-keeps v.client.http_client r q made.method-same made.query-none
                  ∙ made.serves.contents-same q);
        },
      )
