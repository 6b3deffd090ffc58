-- ===== src/Client/Execute/Prepare.antt =====
-- What making and signing a request touches.
use minioclient_cpp.Base.{refl, Bool, true, false, arith, if◌then◌else◌}
use minioclient_cpp.Text.{Str}
use minioclient_cpp.Map.{KeyValueMap}
use minioclient_cpp.External.{Env}
use minioclient_cpp.Session.{pure, this, now, parse_date_time}
use minioclient_cpp.Session.Frame.{OnlyReads, OnlyReads-bind}
use minioclient_cpp.Signer.{sign_v4}
use minioclient_cpp.Client.Request.{has_keys, create_request}
use minioclient_cpp.Client.Execute.{prepare}

module _ {E : Env} where
  OnlyReads-create_request :
      (m : E.Method) (bucket object region : Str) (headers query : KeyValueMap) (t body : Str)
      → OnlyReads (create_request {E = E} m bucket object region headers query t body)
  unfolding create_request now
  OnlyReads-create_request m bucket object region headers query t body = record {
    at = λ w. ground arith;
  }

  OnlyReads-sign_v4 :
      (r : E.Request) (region access_key secret_key : Str)
      → OnlyReads (sign_v4 {E = E} r region access_key secret_key)
  unfolding sign_v4 parse_date_time
  OnlyReads-sign_v4 r region access_key secret_key = record { at = λ w. ground arith }

  OnlyReads-if_signed :
      (signed : Bool) (r : E.Request) (region access_key secret_key : Str)
      → OnlyReads (if signed then sign_v4 {E = E} r region access_key secret_key else pure r)
  OnlyReads-if_signed true r region access_key secret_key =
      OnlyReads-sign_v4 r region access_key secret_key
  OnlyReads-if_signed false r region access_key secret_key = record { at = λ w. refl }

  pub OnlyReads-prepare :
      (m : E.Method) (region bucket object : Str) (headers query : KeyValueMap) (body : Str)
      → OnlyReads (prepare {E = E} m region bucket object headers query body)
  unfolding prepare
  OnlyReads-prepare m region bucket object headers query body =
      OnlyReads-bind _ _ (OnlyReads-create_request m bucket object region headers query _ body) λ r.
        OnlyReads-bind this _ (record { at = λ w. refl })
          λ c. OnlyReads-if_signed (has_keys E c) r region c.access_key c.secret_key
