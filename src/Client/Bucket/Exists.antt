-- ===== src/Client/Bucket/Exists.antt =====
-- What `bucketExists` answers, from what the server answers.
use minioclient_cpp.Base.{
  ◌≡◌, ◌≢◌, refl, ap, ◌∙◌, Bool, true, false, ◌||◌, Option, none, some, [], ◌∷◌, arith, eqb, ite,
  is_empty, if◌then◌else◌,
}
use minioclient_cpp.Text.{Str, str, ◌==◌}
use minioclient_cpp.Errors.{
  Code-discrete, no_such_bucket, Exn, error_response, no_response, Result, ok, throw, error_of_code,
  error_of_texts,
}
use minioclient_cpp.External.{Env}
use minioclient_cpp.External.Laws.{KnowsBlank}
use minioclient_cpp.Session.{World}
use minioclient_cpp.Session.Fails.{FailsIn}
use minioclient_cpp.Client.Execute.{code_of_status, what, prepare}
use minioclient_cpp.Client.Execute.Prepare.{OnlyReads-prepare}
use minioclient_cpp.Client.Execute.Faults.{IsLocal, prepare-Fails}
use minioclient_cpp.Client.Execute.Outcome.{
  error_code_text, has_error_text, error_of, settled, settled_throw, answered, concluded,
  execute_lem,
}
use minioclient_cpp.Client.Bucket.{us_east_1, get_region, execute_head, existence, bucket_exists}

module _ (E : Env) where
  -- The server says that the bucket is not there: by the text in the body, or, when the body has no
  -- such text, by the status 404 or 409.
  abbrev pub says_missing : E.Response → Bool
  says_missing r =
      if has_error_text E r
      then error_code_text E r == str "NoSuchBucket"
      else eqb (E.code r) 404 || eqb (E.code r) 409

  -- The answer about a bucket with a name.
  abbrev pub presence_in : Str → E.Response → Result Bool
  presence_in bucket r =
      if E.is_blank r
      then throw (no_response (str "No response"))
      else if E.is_successful r
      then ok true
      else if says_missing r
      then ok false
      else throw (error_response (error_of E bucket [] r))

  abbrev presence_throw : Exn → Option Str → Result Bool
  presence_throw e none = throw e
  presence_throw e (some text) = throw (no_response (str "No response"))

  abbrev pub presence : Str → Result E.Response → Result Bool
  presence bucket (ok r) = presence_in bucket r
  presence bucket (throw e) = presence_throw e (what e)

  error_code_lem :
      (bucket : Str) (r : E.Response)
      → bucket ≢ []
      → ite (Code-discrete (error_of E bucket [] r).code no_such_bucket) true false ≡ says_missing r
  unfolding error_of_code error_of_texts code_of_status
  error_code_lem [] r ne = absurd (ne refl)
  error_code_lem (c ∷ bucket) r ne = ground arith

  pub existence-world : (r : Result E.Response) (v : World E) → (existence r v).1 ≡ v
  unfolding existence
  existence-world (ok r) v = refl
  existence-world (throw (error_response e)) v = ground arith
  existence-world (throw e) v = refl

  pub existence_lem :
      (bucket : Str) (r : E.Response) (v : World E)
      → bucket ≢ []
      → (existence (answered E bucket [] r) v).0 ≡ presence_in bucket r
  unfolding existence error_of_code error_of_texts code_of_status
  existence_lem [] r v ne = absurd (ne refl)
  existence_lem (c ∷ bucket) r v ne = ground arith

  existence_throw :
      (e : Exn) (text : Option Str) (v : World E)
      → what e ≡ text
      → (existence (settled_throw E e text) v).0 ≡ presence_throw e text
  unfolding existence
  existence_throw (error_response r) none v h = cc
  existence_throw e none v h = refl
  existence_throw e (some t) v h = refl

  existence-settled :
      (bucket : Str) (outcome : Result E.Response) (v : World E)
      → bucket ≢ []
      → (existence (settled E bucket [] outcome) v).0 ≡ presence bucket outcome
  existence-settled bucket (ok r) v ne = existence_lem bucket r v ne
  existence-settled bucket (throw e) v ne = existence_throw e (what e) v refl

  -- The region under which the client looks, and the state in which it keeps it.
  abbrev pub region_of : World E → Str
  region_of w = if is_empty w.client.region then us_east_1 else w.client.region

  abbrev pub with_region : World E → World E
  with_region w = record w { client = record w.client { region = region_of w } }

  -- The answer, from the request that is made, or the failure to make one.
  abbrev pub asked : Str → Result E.Request → E.HttpClient → Result Bool
  asked bucket (ok r) http_client = presence bucket (E.exchange http_client r).0
  asked bucket (throw e) http_client = throw e

  existence-IsLocal :
      (e : Exn) (v : World E) → IsLocal e → (existence {E = E} (throw e) v).0 ≡ throw e
  unfolding existence
  existence-IsLocal (error_response r) v h = absurd h
  existence-IsLocal e v h = refl

  existence-concluded :
      (B : KnowsBlank E) (bucket : Str) (request : Result E.Request) (v : World E)
      → bucket ≢ []
      → FailsIn IsLocal request
      → (existence (concluded E B bucket [] request v).0 (concluded E B bucket [] request v).1).0
        ≡ asked bucket request v.client.http_client
  existence-concluded B bucket (ok r) v ne h =
      existence-settled bucket (E.exchange v.client.http_client r).0 _ ne
  existence-concluded B bucket (throw e) v ne h = existence-IsLocal e v h

module _ {E : Env} (B : KnowsBlank E) where
  -- For a bucket with a name: if the request can be made, `bucketExists` returns true for a
  -- response that reports success, and false for an error response that says that the bucket is
  -- missing. For any other error response it throws that error, for an empty response, or when the
  -- HTTP client throws a standard exception, `NoResponseException`. If the request cannot be made,
  -- it throws what making it throws. It is taken that a default-constructed response is empty.
  pub bucket_exists_lem :
      (bucket : Str) (w : World E)
      → bucket ≢ []
      → (bucket_exists bucket w).0
        ≡ asked E bucket
            (prepare E.head (region_of E w) bucket [] [] [] [] (with_region E w)).0
            w.client.http_client
  unfolding bucket_exists execute_head get_region
  bucket_exists_lem bucket w ne =
      let u = with_region E w in
      let request = (prepare E.head (region_of E w) bucket [] [] [] [] u).0 in
      ap (λ x. (existence x.0 x.1).0) (execute_lem E B E.head (region_of E w) bucket [] [] [] [] u)
      ∙ existence-concluded E B bucket request _ ne
          ((prepare-Fails E.head (region_of E w) bucket [] [] [] []).at u)
      ∙ ap (λ (v : World E). asked E bucket request v.client.http_client)
          ((OnlyReads-prepare E.head (region_of E w) bucket [] [] [] []).at u)
