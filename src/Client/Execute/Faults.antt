-- ===== src/Client/Execute/Faults.antt =====
-- What making and signing a request throws: no error of the server.
use minioclient_cpp.Base.{Bool, true, false, inl, inr, subst, sym, ap, if◌then◌else◌}
use minioclient_cpp.Text.{Str}
use minioclient_cpp.Map.{KeyValueMap}
use minioclient_cpp.Errors.{Exn, error_response}
use minioclient_cpp.External.{Env}
use minioclient_cpp.Session.{this, pure}
use minioclient_cpp.Session.Fails.{FailsIn, Fails, Fails-bind}
use minioclient_cpp.Signer.{sign_v4}
use minioclient_cpp.Signer.Faults.{sign_v4-Fails}
use minioclient_cpp.Client.Request.{has_keys, create_request}
use minioclient_cpp.Client.Request.Names.{create_request_lem}
use minioclient_cpp.Client.Execute.{prepare}

-- The exception does not come from a response of the server.
abbrev pub IsLocal : Exn → Type 0
IsLocal (error_response r) = ⊥
IsLocal e = Unit

module _ {E : Env} where
  create_request-Fails :
      (m : E.Method) (bucket object region : Str) (headers query : KeyValueMap) (t body : Str)
      → Fails E IsLocal (create_request m bucket object region headers query t body)
  create_request-Fails m bucket object region headers query t body = record {
    at = λ w. elim (create_request_lem m bucket object region headers query t body w) [
      | inl (_, returned) ↦ subst (FailsIn IsLocal) (sym (ap (λ x. x.0) returned)) tt
      | inr (_, (text, thrown)) ↦ subst (FailsIn IsLocal) (sym (ap (λ x. x.0) thrown)) tt
    ];
  }

  if_signed-Fails :
      (signed : Bool) (r : E.Request) (region access_key secret_key : Str)
      → Fails E IsLocal (if signed then sign_v4 r region access_key secret_key else pure r)
  if_signed-Fails true r region access_key secret_key =
      sign_v4-Fails IsLocal tt tt r region access_key secret_key
  if_signed-Fails false r region access_key secret_key = record { at = λ w. tt }

  pub prepare-Fails :
      (m : E.Method) (region bucket object : Str) (headers query : KeyValueMap) (body : Str)
      → Fails E IsLocal (prepare m region bucket object headers query body)
  unfolding prepare
  prepare-Fails m region bucket object headers query body =
      Fails-bind IsLocal _ _ (create_request-Fails m bucket object region headers query _ body) λ r.
        Fails-bind IsLocal this _ (record { at = λ w. tt })
          λ c. if_signed-Fails (has_keys E c) r region c.access_key c.secret_key
