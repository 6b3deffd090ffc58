-- ===== src/Client/Object/Accepted.antt =====
-- When an upload returns.
use minioclient_cpp.Client.Bucket.Exists.{region_of, with_region}
use minioclient_cpp.Session.Frame.{SameButReads}
use minioclient_cpp.Base.{
  ◌≡◌, refl, sym, ap, subst, ◌∙◌, true, false, Option, none, some, List, [], ◌∷◌, ◌++◌, Bool-cases,
  inl, inr,
}
use minioclient_cpp.Text.{Str}
use minioclient_cpp.Map.{KeyValueMap}
use minioclient_cpp.Errors.{Exn, Result, ok, throw}
use minioclient_cpp.External.{Env}
use minioclient_cpp.External.Laws.{KnowsBlank, KeepsBody, KeepsTarget}
use minioclient_cpp.Session.{World}
use minioclient_cpp.Session.Returns.{ok_inj, throw-ne-ok}
use minioclient_cpp.Session.Ensures.{Ensures, Ensures-bind}
use minioclient_cpp.Client.Request.{request_url_of}
use minioclient_cpp.Client.Execute.{prepare, execute, what}
use minioclient_cpp.Client.Execute.Body.{prepare-Carries, Carries}
use minioclient_cpp.Client.Execute.Prepare.{OnlyReads-prepare}
use minioclient_cpp.Client.Execute.Outcome.{
  answered, settled, settled_throw, concluded, execute_lem,
}
use minioclient_cpp.Client.History.Requests.{prepare-GoesTo, GoesTo}
use minioclient_cpp.Client.Object.{put_data, put_file, read_all, with_content_type, no_encryption}
use minioclient_cpp.Client.Object.Upload.{put_data_lem}

-- The last request that was sent is for this method, bucket, object, query and body, and the
-- server's answer to it, from which the present connection comes, was a success.
pub record Accepted (E : Env) (m : E.Method) (bucket object : Str) (query : KeyValueMap)
    (body : Str) (v : World E) : Type 0 where
  pub server : E.HttpClient
  pub request : E.Request
  pub reply : E.Response
  pub before : List E.Request
  pub sent-last : v.sent ≡ before ++ request ∷ []
  pub method-same : E.request_method request ≡ E.method_name m
  pub url-same : E.request_url request ≡ request_url_of E v.client.base_url bucket object query
  pub body-same : E.request_body request ≡ body
  pub replied : E.exchange server request ≡ (ok reply, v.client.http_client)
  pub given : E.is_blank reply ≡ false
  pub good : E.is_successful reply ≡ true

module _ (E : Env) (bucket object : Str) where
  answered-ok :
      (r a : E.Response)
      → answered E bucket object r ≡ ok a
      → (r ≡ a) × (E.is_blank a ≡ false) × (E.is_successful a ≡ true)
  answered-ok r a h = elim (Bool-cases (E.is_blank r)) [
    | inl blank ↦ absurd (throw-ne-ok (rw blank at h))
    | inr given ↦ elim (Bool-cases (E.is_successful r)) [
      | inl good ↦
          let same : r ≡ a = ok_inj (rw (given, good) at h) in
          (same, ap E.is_blank (sym same) ∙ given, ap E.is_successful (sym same) ∙ good)
      | inr bad ↦ absurd (throw-ne-ok (rw (given, bad) at h))
    ]
  ]

  settled_throw-ne-ok :
      (e : Exn) (text : Option Str) (a : E.Response) → ¬ (settled_throw E e text ≡ ok a)
  settled_throw-ne-ok e none a h = throw-ne-ok h
  settled_throw-ne-ok e (some text) a h = throw-ne-ok h

  settled-ok :
      (outcome : Result E.Response) (a : E.Response)
      → settled E bucket object outcome ≡ ok a
      → (outcome ≡ ok a) × (E.is_blank a ≡ false) × (E.is_successful a ≡ true)
  settled-ok (ok r) a h = let (same, given, good) = answered-ok r a h in (ap ok same, given, good)
  settled-ok (throw e) a h = absurd (settled_throw-ne-ok e (what e) a h)

module _ {E : Env} (B : KnowsBlank E) (K : KeepsBody E) (T : KeepsTarget E) where
  concluded-Accepted :
      (m : E.Method) (bucket object : Str) (query : KeyValueMap) (body : Str)
      (request : Result E.Request) (w v : World E) (a : E.Response)
      → SameButReads w v
      → ((r : E.Request)
          → request ≡ ok r
          → GoesTo T (request_url_of E w.client.base_url bucket object query) (E.method_name m) r
            × Carries K body r)
      → (concluded E B bucket object request v).0 ≡ ok a
      → Accepted E m bucket object query body (concluded E B bucket object request v).1
  concluded-Accepted m bucket object query body (throw e) w v a same ours h = absurd (throw-ne-ok h)
  concluded-Accepted m bucket object query body (ok r) w v a same ours h =
      let ((url, method), carries) = ours r refl in
      let (replied, given, good) =
        settled-ok E bucket object (E.exchange v.client.http_client r).0 a h in
      record {
        server = v.client.http_client;
        request = r;
        reply = a;
        before = v.sent;
        sent-last = refl;
        method-same = method;
        url-same =
            url
            ∙ ap (λ (u : World E). request_url_of E u.client.base_url bucket object query)
                (sym same);
        body-same = carries;
        replied = λ i. (replied i, (E.exchange v.client.http_client r).1);
        given = given;
        good = good;
      }

  -- `execute` returns only for a request that the server has accepted.
  pub execute-Ensures :
      (m : E.Method) (region bucket object : Str) (headers query : KeyValueMap) (body : Str)
      → Ensures E
          (execute m region bucket object headers query body)
          λ _. Accepted E m bucket object query body
  execute-Ensures m region bucket object headers query body = record {
    at = λ w a h.
        let (request, v) = prepare m region bucket object headers query body w in
        let run = execute_lem E B m region bucket object headers query body w in
        subst (λ (x : Result E.Response × World E). Accepted E m bucket object query body x.1)
          (sym run)
          (concluded-Accepted m bucket object query body request w v a
            ((OnlyReads-prepare m region bucket object headers query body).at w)
            (λ r made. (
              prepare-GoesTo T m region bucket object headers query body w r made,
              (prepare-Carries K m region bucket object headers query body).at w r made,
            ))
            (ap (λ x. x.0) (sym run) ∙ h));
  }

  put_data-Ensures :
      (bucket object body : Str) (headers : KeyValueMap)
      → Ensures E
          (put_data bucket object body headers no_encryption)
          λ _. Accepted E E.put bucket object [] body
  put_data-Ensures bucket object body headers = record {
    at = λ w a h. elim (put_data_lem bucket object body headers w) [
      | inl (_, single) ↦
          subst (λ (x : Result (Unit {0}) × World E). Accepted E E.put bucket object [] body x.1)
            (sym single)
            ((Ensures-bind (λ _. Accepted E E.put bucket object [] body) _ _ _
                (execute-Ensures E.put (region_of E w) bucket object (with_content_type headers) []
                  body)
                λ _ u c q _. q).at
              (with_region E w) a (ap (λ x. x.0) (sym single) ∙ h))
      | inr (_, refused) ↦ absurd (throw-ne-ok (ap (λ x. x.0) (sym refused) ∙ h))
    ];
  }

  -- `putObject` of a file returns only if the file could be read and the last request that was sent
  -- is a PUT of its content at the object's URL, which the server has answered with success. It is
  -- taken that a default-constructed response is empty and that a request keeps the URL, the method
  -- and the body it was built with.
  pub put_file-Ensures :
      (bucket object file content_type : Str)
      → Ensures E (put_file bucket object file content_type) λ _ v.
        (body : Str) × (read_all E.files file ≡ ok body) × Accepted E E.put bucket object [] body v
  unfolding put_file
  put_file-Ensures bucket object [] content_type = record { at = λ w a h. absurd (throw-ne-ok h) }
  put_file-Ensures bucket object (c ∷ file) content_type =
      Ensures-bind (λ body _. read_all E.files (c ∷ file) ≡ ok body) _ _ _
        (record { at = λ w body h. h })
        λ body u a content h. (body, content, (put_data-Ensures bucket object body _).at u a h)
