-- ===== src/Client/Execute/Made.antt =====
-- What holds of the request that the client makes, signed or not.
use minioclient_cpp.Base.{◌≡◌, Bool, true, false, if◌then◌else◌, inl, inr}
use minioclient_cpp.Text.{Str}
use minioclient_cpp.Map.{KeyValueMap}
use minioclient_cpp.Errors.{ok}
use minioclient_cpp.External.{Env}
use minioclient_cpp.Session.{World, pure, lift, parse_date_time}
use minioclient_cpp.Session.Returns.{Returns, Returns-any, Returns-pure, Returns-bind, throw-ne-ok}
use minioclient_cpp.Signer.{sign, sign_v4}
use minioclient_cpp.Signer.Spec.{authorized}
use minioclient_cpp.Client.Request.{has_keys}
use minioclient_cpp.Client.Request.Names.{create_request_lem}
use minioclient_cpp.Client.Execute.{prepare}
use minioclient_cpp.Client.Execute.Signed.{content_type_of, unsigned}

module _ {E : Env} (P : E.Request → Type 0)
    (kept : (r : E.Request) (text : Str) → P r → P (authorized E r text)) where
  sign_v4-Returns :
      (r : E.Request) (region access_key secret_key : Str)
      → P r
      → Returns E P (sign_v4 r region access_key secret_key)
  unfolding sign_v4
  sign_v4-Returns r region access_key secret_key h =
      Returns-bind (λ _. Unit) P (parse_date_time _) _ (Returns-any _)
        λ date _.
          Returns-bind (λ _. Unit) P (lift (sign _)) _ (Returns-any _)
            λ signed _. Returns-pure P _ (kept r _ h)

  if_signed-Returns :
      (signed : Bool) (r : E.Request) (region access_key secret_key : Str)
      → P r
      → Returns E P (if signed then sign_v4 r region access_key secret_key else pure r)
  if_signed-Returns true r region access_key secret_key h =
      sign_v4-Returns r region access_key secret_key h
  if_signed-Returns false r region access_key secret_key h = Returns-pure P r h

  -- What holds of the request before it is signed, and is kept by signing, holds of the request.
  pub prepare-Returns :
      (m : E.Method) (region bucket object : Str) (headers query : KeyValueMap) (body : Str)
      (w : World E) (r : E.Request)
      → P (unsigned m region bucket object headers query body w)
      → (prepare m region bucket object headers query body w).0 ≡ ok r
      → P r
  unfolding prepare
  prepare-Returns m region bucket object headers query body w r h returned =
      elim (create_request_lem m bucket object region headers query (content_type_of headers) body
        w) [
          | inl (_, created) ↦
              (if_signed-Returns (has_keys E w.client)
                  (unsigned m region bucket object headers query body w) region w.client.access_key
                  w.client.secret_key h).at
                _ r (rw created at returned)
          | inr (_, (text, thrown)) ↦ absurd (throw-ne-ok (rw thrown at returned))
        ]
