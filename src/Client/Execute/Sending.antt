-- ===== src/Client/Execute/Sending.antt =====
-- What a call of `execute` sends, and what it leaves alone.
use minioclient_cpp.Base.{Option, ◌≡◌, refl, ap, ◌∙◌, sym, [], ◌∷◌, ◌++◌, List, append-nil}
use minioclient_cpp.Text.{Str}
use minioclient_cpp.Map.{KeyValueMap}
use minioclient_cpp.Errors.{Result, ok, throw}
use minioclient_cpp.External.{Env}
use minioclient_cpp.External.Laws.{KnowsBlank}
use minioclient_cpp.Session.{LogPrinter, MinioClient, World}
use minioclient_cpp.Client.Execute.{prepare, execute}
use minioclient_cpp.Client.Execute.Prepare.{OnlyReads-prepare}
use minioclient_cpp.Client.Execute.Outcome.{concluded, execute_lem}

-- The requests that a made request, or the failure to make one, leads to.
abbrev pub requests_of {ℓ} : {A : Type ℓ} → Result A → List A
requests_of (ok r) = r ∷ []
requests_of (throw e) = []

-- The members of the client but for `httpClient_`.
abbrev pub settings :
    {E : Env} → MinioClient E → Str × Str × Str × Str × Option LogPrinter × E.HttpUrl
settings c = (c.region, c.access_key, c.secret_key, c.user_agent, c.trace_stream, c.base_url)

module _ {E : Env} (B : KnowsBlank E) (m : E.Method) (region bucket object : Str)
    (headers query : KeyValueMap) (body : Str) (w : World E) where
  concluded-sent :
      (request : Result E.Request) (v : World E)
      → (concluded E B bucket object request v).1.sent ≡ v.sent ++ requests_of request
  concluded-sent (ok r) v = refl
  concluded-sent (throw e) v = sym (append-nil v.sent)

  -- `execute` sends the request that it makes, once, whatever the server answers, and sends
  -- nothing when it cannot make one. It is taken that a default-constructed response is empty.
  pub execute-sent :
      (execute m region bucket object headers query body w).1.sent
      ≡ w.sent ++ requests_of (prepare m region bucket object headers query body w).0
  execute-sent =
      ap (λ r. r.1.sent) (execute_lem E B m region bucket object headers query body w)
      ∙ concluded-sent (prepare m region bucket object headers query body w).0 _
      ∙ ap
          (λ (v : World E).
            v.sent ++ requests_of (prepare m region bucket object headers query body w).0)
          ((OnlyReads-prepare m region bucket object headers query body).at w)

  concluded-settings :
      (request : Result E.Request) (v : World E)
      → settings (concluded E B bucket object request v).1.client ≡ settings v.client
  concluded-settings (ok r) v = refl
  concluded-settings (throw e) v = refl

  -- `execute` changes no member of the client but the connection behind `httpClient_`. It is
  -- taken that a default-constructed response is empty.
  pub execute-settings :
      settings (execute m region bucket object headers query body w).1.client ≡ settings w.client
  execute-settings =
      ap (λ r. settings r.1.client) (execute_lem E B m region bucket object headers query body w)
      ∙ concluded-settings (prepare m region bucket object headers query body w).0 _
      ∙ ap (λ (v : World E). settings v.client)
          ((OnlyReads-prepare m region bucket object headers query body).at w)
