-- ===== src/Client/Execute/Late.antt =====
-- What the client signs when its clock moves on between the two readings.
use minioclient_cpp.Base.{suc, ◌≡◌, ◌≢◌, ◌⊎◌, inl, inr, sym, ap, ◌∙◌, true, false, Bool-cases}
use minioclient_cpp.Text.{Str}
use minioclient_cpp.Map.{KeyValueMap}
use minioclient_cpp.Errors.{ok}
use minioclient_cpp.Digest.{IsCrypto}
use minioclient_cpp.DateTime.{DateTime}
use minioclient_cpp.DateTime.Distinct.{to_string-injective}
use minioclient_cpp.External.{Env}
use minioclient_cpp.External.Laws.{KeepsHeaders, KeepsBody, KeepsTarget, KeepsNames, Lowers, Joins}
use minioclient_cpp.Session.{World}
use minioclient_cpp.Signer.Query.{HasParams}
use minioclient_cpp.Signer.Spec.{authorized, derived_key, text_to_sign}
use minioclient_cpp.Signer.Verify.{accepts, accepts-expected}
use minioclient_cpp.Signer.Signature.{SharesCode, same_signed, same_stamp}
use minioclient_cpp.Client.Request.{has_keys}
use minioclient_cpp.Client.Request.Names.{IsTarget}
use minioclient_cpp.Client.Request.Payload.{sha_name}
use minioclient_cpp.Client.Execute.{prepare}
use minioclient_cpp.Client.Execute.Signed.{unsigned, prepare_signed}
use minioclient_cpp.Client.Execute.Verified.{authorized-expected, signed_at}

module _ {E : Env} (m : E.Method) (region bucket object : Str) (headers query : KeyValueMap)
    (body : Str) (w : World E) where
  -- The text that is signed at a time.
  abbrev text_at : DateTime → Str
  text_at date =
      let r = unsigned m region bucket object headers query body w in
      text_to_sign E r (E.header r sha_name) date region

  -- The texts for the two readings differ and share an HMAC, each under its day's key.
  abbrev pub ReadingsShareCode : Type 0
  ReadingsShareCode =
      let date : DateTime = w.clock w.reads in
      let later : DateTime = w.clock (suc w.reads) in
      SharesCode E.crypto (derived_key E.crypto w.client.secret_key later region) (text_at later)
        (derived_key E.crypto w.client.secret_key date region) (text_at date)

module _ {E : Env} (C : IsCrypto E.crypto) (J : Joins E.text) (L : Lowers E.text)
    (H : KeepsHeaders E) (N : KeepsNames E) (T : KeepsTarget E) (K : KeepsBody E) (m : E.Method)
    (region bucket object : Str) (headers query : KeyValueMap) (body : Str) (w : World E) where
  abbrev request_at : E.Request
  request_at =
      authorized E (unsigned m region bucket object headers query body w) (
        signed_at C J L H N T K m region bucket object headers query body w (w.clock (suc w.reads)))

  -- If the server accepts it, then it was signed in the second of its header.
  accepted-SameCode :
      has_keys E w.client ≡ true
      → accepts E region w.client.access_key w.client.secret_key request_at ≡ true
      → ((w.clock (suc w.reads)).time ≡ (w.clock w.reads).time)
        ⊎ ReadingsShareCode m region bucket object headers query body w
  accepted-SameCode keyed accepted =
      let r = unsigned m region bucket object headers query body w in
      let sha = E.header r sha_name in
      let date : DateTime = w.clock w.reads in
      let later : DateTime = w.clock (suc w.reads) in
      let key = w.client.access_key in
      let secret = w.client.secret_key in
      let text =
        signed_at C J L H N T K m region bucket object headers query body w
          (w.clock (suc w.reads)) in
      let same =
        sym (H.header-set_header (E.from_request r) _ text)
        ∙ accepts-expected E region key secret request_at accepted
        ∙ authorized-expected C J L H N T K m region bucket object headers query body w text
            keyed in
      elim (same_signed E r r sha sha region later date C key secret same) [
        | inl texts ↦
            inl (to_string-injective later date (same_stamp E r r sha sha region later date texts))
        | inr shared ↦ inr shared
      ]

  -- The request of a client with both keys, whose clock moves on to another second between its two
  -- readings, is not accepted by a server that has the secret key; unless the two texts, for the
  -- one reading and for the other, differ and share an HMAC, each under its day's key. So it is
  -- for a target with allowed names and with query
  -- parameters that have names. It is taken that HMAC gives 32 bytes, that `join` and `tolower` are
  -- the documented ones, and that a request keeps the headers, names, URL, method and body it was
  -- built with.
  pub prepare-refused :
      IsTarget bucket object
      → has_keys E w.client ≡ true
      → HasParams E (E.request_url (unsigned m region bucket object headers query body w))
      → (w.clock (suc w.reads)).time ≢ (w.clock w.reads).time
      → (r : E.Request) × ((prepare m region bucket object headers query body w).0 ≡ ok r)
        × ((accepts E region w.client.access_key w.client.secret_key r ≡ false)
            ⊎ ReadingsShareCode m region bucket object headers query body w)
  prepare-refused target keyed params moved = (
    request_at,
    ap (λ x. x.0)
        (prepare_signed m region bucket object headers query body w C J target keyed params L N),
    elim (Bool-cases (accepts E region w.client.access_key w.client.secret_key request_at)) [
      | inl accepted ↦ elim (accepted-SameCode keyed accepted) [
        | inl still ↦ absurd (moved still)
        | inr shared ↦ inr shared
      ]
      | inr refused ↦ inl refused
    ],
  )
