-- ===== src/Client/History/Requests.antt =====
-- `execute` and `bucketExists` as steps of a history.
use minioclient_cpp.Base.{◌≡◌, ◌⊎◌, inl, inr, refl, ap, subst, sym, ◌∙◌, [], ◌∷◌, append-nil}
use minioclient_cpp.Text.{Str}
use minioclient_cpp.Map.{KeyValueMap}
use minioclient_cpp.Errors.{Result, ok, throw}
use minioclient_cpp.External.{Env}
use minioclient_cpp.External.Laws.{KnowsBlank, KeepsTarget}
use minioclient_cpp.Session.{World}
use minioclient_cpp.Session.Frame.{SameButReads}
use minioclient_cpp.Client.Request.{request_url_of}
use minioclient_cpp.Client.Request.Target.{assemble-target}
use minioclient_cpp.Client.Execute.{prepare, execute}
use minioclient_cpp.Client.Execute.Prepare.{OnlyReads-prepare}
use minioclient_cpp.Client.Execute.Signed.{content_type_of}
use minioclient_cpp.Client.Execute.Made.{prepare-Returns}
use minioclient_cpp.Client.Execute.Outcome.{concluded, execute_lem}
use minioclient_cpp.Client.History.{IsOurs, Follows, Evolves}

module _ {E : Env} (T : KeepsTarget E) where
  -- The request goes to a URL, by a method.
  abbrev pub GoesTo : E.HttpUrl → Str → E.Request → Type 0
  GoesTo url method r = (E.request_url r ≡ url) × (E.request_method r ≡ method)

  -- A request that the client can make goes to the URL below its own.
  pub prepare-GoesTo :
      (m : E.Method) (region bucket object : Str) (headers query : KeyValueMap) (body : Str)
      (w : World E) (r : E.Request)
      → (prepare m region bucket object headers query body w).0 ≡ ok r
      → GoesTo (request_url_of E w.client.base_url bucket object query) (E.method_name m) r
  prepare-GoesTo m region bucket object headers query body w r =
      let url = request_url_of E w.client.base_url bucket object query in
      prepare-Returns (GoesTo url (E.method_name m))
        (λ r text (u, n). (
          T.url-set_header _ _ _ ∙ T.url-from_request r ∙ u,
          T.method-set_header _ _ _ ∙ T.method-from_request r ∙ n,
        ))
        m region bucket object headers query body w r
        (assemble-target T w.client m url headers _ _ (content_type_of headers) body)

module _ {E : Env} (B : KnowsBlank E) (T : KeepsTarget E) where
  concluded-Follows :
      (bucket object : Str) (request : Result E.Request) (w v : World E)
      → SameButReads w v
      → ((r : E.Request) → request ≡ ok r → IsOurs E w.client.base_url r)
      → Follows E w (concluded E B bucket object request v).1
  concluded-Follows bucket object (ok r) w v same ours =
      subst (λ u. Follows E w (concluded E B bucket object (ok r) u).1) (sym same)
        (record {
          access_key-same = refl;
          secret_key-same = refl;
          user_agent-same = refl;
          base_url-same = refl;
          clock-same = refl;
          region-settles = inl refl;
          requests = r ∷ [];
          sent-grows = refl;
          requests-IsOurs = (ours r refl, tt);
          lines = _;
          output-grows = refl;
        })
  concluded-Follows bucket object (throw e) w v same ours = subst (Follows E w) (sym same) (record {
    access_key-same = refl;
    secret_key-same = refl;
    user_agent-same = refl;
    base_url-same = refl;
    clock-same = refl;
    region-settles = inl refl;
    requests = [];
    sent-grows = sym (append-nil w.sent);
    requests-IsOurs = tt;
    lines = [];
    output-grows = sym (append-nil w.output);
  })

  -- Every HEAD and every PUT that `execute` makes is a step of a history.
  pub execute-Evolves :
      (m : E.Method) (region bucket object : Str) (headers query : KeyValueMap) (body : Str)
      → (m ≡ E.head) ⊎ (m ≡ E.put)
      → Evolves E (execute m region bucket object headers query body)
  execute-Evolves m region bucket object headers query body known = record {
    at = λ w.
        let (request, v) = prepare m region bucket object headers query body w in
        subst (λ (x : Result E.Response × World E). Follows E w x.1)
          (sym (execute_lem E B m region bucket object headers query body w))
          (concluded-Follows bucket object request w v
            ((OnlyReads-prepare m region bucket object headers query body).at w)
            λ r made.
              let (url, method) =
                prepare-GoesTo T m region bucket object headers query body w r made in
              record {
                bucket = bucket;
                object = object;
                query = query;
                url-same = url;
                method-known = elim known [
                  | inl h ↦ inl (method ∙ ap E.method_name h)
                  | inr p ↦ inr (method ∙ ap E.method_name p)
                ];
              });
  }
