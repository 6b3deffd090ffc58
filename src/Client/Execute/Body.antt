-- ===== src/Client/Execute/Body.antt =====
-- The body that a request carries.
use minioclient_cpp.Base.{◌≡◌, refl, ◌∙◌, All}
use minioclient_cpp.Text.{Str}
use minioclient_cpp.Map.{KeyValueMap}
use minioclient_cpp.Errors.{Result, ok, throw}
use minioclient_cpp.External.{Env}
use minioclient_cpp.External.Laws.{KeepsBody}
use minioclient_cpp.Session.{World, MinioClient}
use minioclient_cpp.Session.Returns.{Returns}
use minioclient_cpp.Client.Request.{assemble}
use minioclient_cpp.Client.Execute.{prepare}
use minioclient_cpp.Client.Execute.Signed.{content_type_of}
use minioclient_cpp.Client.Execute.Made.{prepare-Returns}
use minioclient_cpp.Client.Execute.Sending.{requests_of}

module _ {E : Env} (K : KeepsBody E) where
  -- The request has a given body.
  abbrev pub Carries : Str → E.Request → Type 0
  Carries body r = E.request_body r ≡ body

  pub assemble-Carries :
      (c : MinioClient E) (m : E.Method) (url : E.HttpUrl) (headers : KeyValueMap)
      (hash : Str × Str) (date content_type body : Str)
      → Carries body (assemble E c m url headers hash date content_type body)
  unfolding assemble
  assemble-Carries c m url headers (sha, md5) date content_type body = K.body-set_body _ _ _

  pub prepare-Carries :
      (m : E.Method) (region bucket object : Str) (headers query : KeyValueMap) (body : Str)
      → Returns E (Carries body) (prepare m region bucket object headers query body)
  prepare-Carries m region bucket object headers query body = record {
    at = λ w r.
        prepare-Returns (Carries body)
          (λ r text h. K.body-set_header _ _ _ ∙ K.body-from_request r ∙ h) m region bucket object
          headers query body w r
          (assemble-Carries w.client m _ headers _ _ (content_type_of headers) body);
  }

  requests_of-Carries :
      (body : Str) (result : Result E.Request)
      → ((r : E.Request) → result ≡ ok r → Carries body r)
      → All (Carries body) (requests_of result)
  requests_of-Carries body (ok r) h = (h r refl, tt)
  requests_of-Carries body (throw e) h = tt

  -- The request that `execute` makes, if it makes one, carries the given body, signed or not.
  pub All-Carries :
      (m : E.Method) (region bucket object : Str) (headers query : KeyValueMap) (body : Str)
      (w : World E)
      → All (Carries body) (requests_of (prepare m region bucket object headers query body w).0)
  All-Carries m region bucket object headers query body w =
      requests_of-Carries body _ ((prepare-Carries m region bucket object headers query body).at w)
