-- ===== src/Client/Execute/Target.antt =====
-- The request that a client makes: that there is one, and what it asks for.
use minioclient_cpp.Base.{suc, subst, ◌≡◌, refl, sym, ◌∙◌, Bool, true, false, if◌then◌else◌}
use minioclient_cpp.Text.{Str}
use minioclient_cpp.Map.{KeyValueMap}
use minioclient_cpp.Errors.{Result, ok}
use minioclient_cpp.Digest.{IsCrypto}
use minioclient_cpp.DateTime
use minioclient_cpp.DateTime.{amz_date_format}
use minioclient_cpp.External.{Env}
use minioclient_cpp.External.Laws.{KeepsBody, KeepsTarget}
use minioclient_cpp.Session.{World, pure}
use minioclient_cpp.Signer.{sign_v4}
use minioclient_cpp.Signer.Query.{HasParams}
use minioclient_cpp.Signer.Correct.{sign_v4-ok}
use minioclient_cpp.Client.Request.{has_keys, request_url_of, hashes}
use minioclient_cpp.Client.Request.Names.{IsTarget, create_request-ok}
use minioclient_cpp.Client.Request.Target.{assemble-target}
use minioclient_cpp.Client.Execute.{prepare}
use minioclient_cpp.Client.Execute.Body.{assemble-Carries}
use minioclient_cpp.Signer.Spec.{authorized}
use minioclient_cpp.Client.Execute.Signed.{content_type_of, unsigned}

module _ (E : Env) where
  -- What a request asks for: the URL, the method and the body.
  pub record Asks (url : E.HttpUrl) (method : E.Method) (body : Str) (r : E.Request) : Type 0 where
    pub url-same : E.request_url r ≡ url
    pub method-same : E.request_method r ≡ E.method_name method
    pub body-same : E.request_body r ≡ body

-- The action returns a request that asks for this.
abbrev MakesIn : (E : Env) → E.HttpUrl → E.Method → Str → Result E.Request → Type 0
MakesIn E url method body result = (r : E.Request) × (result ≡ ok r) × Asks E url method body r

module _ {E : Env} (T : KeepsTarget E) (K : KeepsBody E) where
  pub authorized-Asks :
      (url : E.HttpUrl) (method : E.Method) (body text : Str) (r : E.Request)
      → Asks E url method body r
      → Asks E url method body (authorized E r text)
  authorized-Asks url method body text r a = record {
    url-same = T.url-set_header _ _ _ ∙ T.url-from_request r ∙ a.url-same;
    method-same = T.method-set_header _ _ _ ∙ T.method-from_request r ∙ a.method-same;
    body-same = K.body-set_header _ _ _ ∙ K.body-from_request r ∙ a.body-same;
  }

  if_signed-MakesIn :
      (keyed : Bool) (url : E.HttpUrl) (method : E.Method) (body : Str) (r : E.Request)
      (region access_key secret_key : Str) (w : World E)
      → IsCrypto E.crypto
      → HasParams E url
      → Asks E url method body r
      → MakesIn E url method body
          ((if keyed then sign_v4 r region access_key secret_key else pure r) w).0
  if_signed-MakesIn false url method body r region access_key secret_key w L params a = (r, refl, a)
  if_signed-MakesIn true url method body r region access_key secret_key w L params a =
      let (text, signed) =
        sign_v4-ok w r region access_key secret_key L
          (subst (HasParams E) (sym a.url-same) params) in
      (_, signed, authorized-Asks url method body text r a)

module _ {E : Env} (T : KeepsTarget E) (K : KeepsBody E) (m : E.Method) (region bucket object : Str)
    (headers query : KeyValueMap) (body : Str) (w : World E) where
  pub unsigned-Asks :
      Asks E
        (request_url_of E w.client.base_url bucket object query)
        m
        body
        (unsigned m region bucket object headers query body w)
  unsigned-Asks =
      let url = request_url_of E w.client.base_url bucket object query in
      let hash = hashes E w.client m url query body in
      let date = DateTime.to_string (w.clock w.reads) amz_date_format in
      let t = content_type_of headers in
      let (same_url, same_method) = assemble-target T w.client m url headers hash date t body in
      record {
        url-same = same_url;
        method-same = same_method;
        body-same = assemble-Carries K w.client m url headers hash date t body;
      }

  -- For a target with allowed names and with query parameters that have names, the client makes a
  -- request, with keys or without: it has the method that was asked for, the URL of the bucket and
  -- the object below the client's own, and the body that was given. It is taken that HMAC gives 32
  -- bytes and that a request keeps the URL, the method and the body it was built with.
  pub prepare-ok :
      IsCrypto E.crypto
      → IsTarget bucket object
      → HasParams E (request_url_of E w.client.base_url bucket object query)
      → (r : E.Request) × ((prepare m region bucket object headers query body w).0 ≡ ok r)
        × Asks E (request_url_of E w.client.base_url bucket object query) m body r
  unfolding prepare
  prepare-ok L target params =
      rw
        (create_request-ok m bucket object region headers query (content_type_of headers) body w
          target)
        (if_signed-MakesIn T K (has_keys E w.client) _ m body
          (unsigned m region bucket object headers query body w) region w.client.access_key
          w.client.secret_key (record w { reads = suc w.reads }) L params unsigned-Asks)
