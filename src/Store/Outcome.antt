-- ===== src/Store/Outcome.antt =====
-- Uploads at a server that may fail: what the end of a call says of what is stored.
pub mod Put
use minioclient_cpp.Base.{
  ◌≤◌, ◌≡◌, ◌≢◌, ◌⊎◌, inl, inr, refl, sym, ap, subst, ◌∙◌, Bool, true, false, Option, none, some,
  [], ◌∷◌, arith, leb, length, if◌then◌else◌, Bool-cases, is_empty,
}
use minioclient_cpp.Text.{Str, str}
use minioclient_cpp.Map.{KeyValueMap}
use minioclient_cpp.Errors.{
  Exn, error_response, region_conflict, no_response, invalid_bucket_name, invalid_endpoint,
  invalid_port, runtime_error, invalid_argument, length_error, bad_alloc, http_error, abort,
  undefined, Result, ok, throw, Result-cases,
}
use minioclient_cpp.External.{Env}
use minioclient_cpp.External.Laws.{KnowsBlank, KeepsBody, KeepsTarget, BuildsUrls}
use minioclient_cpp.Session.{World, M, continue, ◌>>=◌, pure}
use minioclient_cpp.Session.Frame.{SameButReads}
use minioclient_cpp.Client.Request.Target.{target_path, path_of_request, query_of_request}
use minioclient_cpp.Client.Execute.{prepare, execute, what}
use minioclient_cpp.Client.Execute.Body.{prepare-Carries}
use minioclient_cpp.Client.Execute.Prepare.{OnlyReads-prepare}
use minioclient_cpp.Client.Execute.Outcome.{
  answered, settled, settled_throw, after_sending, concluded, execute_lem,
}
use minioclient_cpp.Client.History.Requests.{prepare-GoesTo}
use minioclient_cpp.Client.Bucket.Exists.{region_of, with_region}
use minioclient_cpp.Client.Object.{
  min_multipart_size, no_encryption, with_content_type, put_data, put_file, read_all,
}
use minioclient_cpp.Client.Object.Upload.{put_data_lem}
use minioclient_cpp.Store.{Contents, content_of, stored}

-- Nothing was stored.
abbrev pub Untouched : Contents → Contents → Type 0
Untouched before after = (q : Str) → after q ≡ before q

-- The body was stored at the path, and all else is as before.
abbrev pub Stored : Str → Str → Contents → Contents → Type 0
Stored path body before after = (q : Str) → after q ≡ stored path body before q

-- One of the two, and no telling which.
abbrev pub Unknown : Str → Str → Contents → Contents → Type 0
Unknown path body before after = Untouched before after ⊎ Stored path body before after

module _ (E : Env) where
  -- What a PUT has done, by the answer: a success has stored, an error has not, and when no answer
  -- came it is not known.
  abbrev pub Replied : Str → Str → E.Response → Contents → Contents → Type 0
  Replied path body reply before after =
      if E.is_blank reply
      then Unknown path body before after
      else if E.is_successful reply
      then Stored path body before after
      else Untouched before after

  abbrev pub Exchanged : Str → Str → Result E.Response → Contents → Contents → Type 0
  Exchanged path body (ok reply) before after = Replied path body reply before after
  Exchanged path body (throw e) before after = Unknown path body before after

  -- The server does each PUT without a query as a whole or not at all.
  pub record Transacts (view : E.HttpClient → Contents) : Type 0 where
    pub put-Exchanged :
        (h : E.HttpClient) (r : E.Request)
        → E.request_method r ≡ E.method_name E.put
        → E.encoded_query (E.request_url r) ≡ []
        → Exchanged
            (E.encoded_path (E.request_url r))
            (E.request_body r)
            (E.exchange h r).0
            (view h)
            (view (E.exchange h r).1)

-- What an exception says of an upload: it ended without an answer, or with an error.
abbrev pub Failed : Str → Str → Exn → Contents → Contents → Type 0
Failed path body (no_response t) before after = Unknown path body before after
Failed path body abort before after = Unknown path body before after
Failed path body undefined before after = Unknown path body before after
Failed path body e before after = Untouched before after

abbrev pub Ended : {A : Type 0} → Str → Str → Result A → Contents → Contents → Type 0
Ended path body (ok a) before after = Stored path body before after
Ended path body (throw e) before after = Failed path body e before after

pub Untouched-Failed :
    (path body : Str) (e : Exn) (before after : Contents)
    → Untouched before after
    → Failed path body e before after
Untouched-Failed path body (no_response t) before after h = inl h
Untouched-Failed path body abort before after h = inl h
Untouched-Failed path body undefined before after h = inl h
Untouched-Failed path body (error_response t) before after h = h
Untouched-Failed path body (region_conflict t) before after h = h
Untouched-Failed path body (invalid_bucket_name t) before after h = h
Untouched-Failed path body (invalid_endpoint t) before after h = h
Untouched-Failed path body (invalid_port t) before after h = h
Untouched-Failed path body (runtime_error t) before after h = h
Untouched-Failed path body (invalid_argument t) before after h = h
Untouched-Failed path body (length_error t) before after h = h
Untouched-Failed path body bad_alloc before after h = h
Untouched-Failed path body (http_error t) before after h = h

module _ (E : Env) (bucket object path body : Str) (before after : Contents) where
  answered-Ended :
      (reply : E.Response)
      → Replied E path body reply before after
      → Ended path body (answered E bucket object reply) before after
  answered-Ended reply h = elim (Bool-cases (E.is_blank reply)) [
    | inl blank ↦ rw blank (rw blank at h)
    | inr given ↦ elim (Bool-cases (E.is_successful reply)) [
      | inl good ↦ rw (given, good) (rw (given, good) at h)
      | inr bad ↦ rw (given, bad) (rw (given, bad) at h)
    ]
  ]

  rethrown-Ended :
      (e : Exn) (text : Option Str)
      → what e ≡ text
      → Unknown path body before after
      → Ended path body (settled_throw E e text) before after
  rethrown-Ended e (some text) _ h = h
  rethrown-Ended abort none _ h = h
  rethrown-Ended undefined none _ h = h
  rethrown-Ended (error_response r) none t h = absurd cc
  rethrown-Ended (region_conflict t) none e h = absurd cc
  rethrown-Ended (no_response t) none e h = absurd cc
  rethrown-Ended (invalid_bucket_name t) none e h = absurd cc
  rethrown-Ended (invalid_endpoint t) none e h = absurd cc
  rethrown-Ended (invalid_port t) none e h = absurd cc
  rethrown-Ended (runtime_error t) none e h = absurd cc
  rethrown-Ended (invalid_argument t) none e h = absurd cc
  rethrown-Ended (length_error t) none e h = absurd cc
  rethrown-Ended bad_alloc none e h = absurd cc
  rethrown-Ended (http_error t) none e h = absurd cc

  pub settled-Ended :
      (outcome : Result E.Response)
      → Exchanged E path body outcome before after
      → Ended path body (settled E bucket object outcome) before after
  settled-Ended (ok reply) h = answered-Ended reply h
  settled-Ended (throw e) h = rethrown-Ended e (what e) refl h

module _ {E : Env} (path body : Str) (before : Contents) (view : World E → Contents) where
  pub discarded-Ended :
      {A : Type 0} (result : Result A) (w : World E)
      → Ended path body result before (view w)
      → let (outcome, v) = continue result (λ _. pure (tt {0})) w in
        Ended path body outcome before (view v)
  discarded-Ended (ok a) w h = h
  discarded-Ended (throw e) w h = h
