-- ===== src/Store.antt =====
-- The contract of the storage server: what it holds, and how it answers the two kinds of request
-- that the client makes. The server stands behind `External.Http.exchange`.
pub mod Requests
pub mod Methods
pub mod Upload
pub mod Program
pub mod Repeat
pub mod Calls
pub mod Outcome
pub mod Guarded
pub mod Denied
use minioclient_cpp.Base.{◌≡◌, ◌≢◌, true, false, Option, none, some, [], if◌then◌else◌, is_empty}
use minioclient_cpp.Text.{Str, str, ◌==◌}
use minioclient_cpp.Digest.{IsCrypto}
use minioclient_cpp.Errors.{Result, ok, throw}
use minioclient_cpp.External.{Env}
use minioclient_cpp.External.Laws.{KnowsBlank, KeepsBody, KeepsTarget, BuildsUrls}
use minioclient_cpp.Session.{World}
use minioclient_cpp.Client.Request.Names.{IsName}
use minioclient_cpp.Client.Request.Target.{target_path}

-- What was put at each path, if anything was.
abbrev pub Contents : Type 0
Contents = Str → Option Str

-- One path given new content.
unfoldable pub stored : Str → Str → Contents → Contents
stored path body c q = if q == path then some body else c q

-- What a file was read to hold; nothing, if it could not be read.
abbrev pub content_of : Result Str → Str
content_of (ok body) = body
content_of (throw e) = []

-- The client and the server together, as a user of the client sees them.
pub record Store : Type 0 where
  pub region : Str
  pub contents : Contents

module _ (E : Env) where
  abbrev pub bucket_path : Str → Str
  bucket_path bucket = target_path E (str "/") bucket []

  abbrev pub object_path : Str → Str → Str
  object_path bucket object = target_path E (str "/") bucket object

  -- Where something may be put: a bucket that is not there yet, and an object in a bucket that is.
  pub data MayStore (c : Contents) : Str → Type 0 where
    new_bucket :
        (bucket : Str)
        → IsName bucket
        → c (bucket_path bucket) ≡ none
        → MayStore c (bucket_path bucket)
    in_bucket :
        (bucket object : Str)
        → IsName bucket
        → object ≢ []
        → c (bucket_path bucket) ≢ none
        → MayStore c (object_path bucket object)

  -- The answer to a question about a path: the status 404 without a body if nothing is there.
  abbrev pub Tells : Option Str → E.Response → Type 0
  Tells none r = (E.is_successful r ≡ false) × (E.code r ≡ 404) × (E.response_body r ≡ [])
  Tells (some content) r = E.is_successful r ≡ true

  abbrev pub AnswersHead : Contents → E.HttpClient → E.Request → Type 0
  AnswersHead c h r =
      (reply : E.Response) × ((E.exchange h r).0 ≡ ok reply)
      × (E.is_blank reply ≡ false)
      × Tells (c (E.encoded_path (E.request_url r))) reply

  abbrev pub AnswersPut : E.HttpClient → E.Request → Type 0
  AnswersPut h r =
      (reply : E.Response) × ((E.exchange h r).0 ≡ ok reply)
      × (E.is_blank reply ≡ false)
      × (E.is_successful reply ≡ true)

  -- The server of a client holds `view` of it: HEAD without a query tells whether something is at
  -- the path and changes nothing, PUT without a query puts the body at the path where it may.
  pub record ServesStore (view : E.HttpClient → Contents) : Type 0 where
    pub head-answers :
        (h : E.HttpClient) (r : E.Request)
        → E.request_method r ≡ E.method_name E.head
        → E.encoded_query (E.request_url r) ≡ []
        → AnswersHead (view h) h r
    pub head-keeps :
        (h : E.HttpClient) (r : E.Request) (q : Str)
        → E.request_method r ≡ E.method_name E.head
        → E.encoded_query (E.request_url r) ≡ []
        → view (E.exchange h r).1 q ≡ view h q
    pub put-answers :
        (h : E.HttpClient) (r : E.Request)
        → E.request_method r ≡ E.method_name E.put
        → E.encoded_query (E.request_url r) ≡ []
        → MayStore (view h) (E.encoded_path (E.request_url r))
        → AnswersPut h r
    pub put-stores :
        (h : E.HttpClient) (r : E.Request) (q : Str)
        → E.request_method r ≡ E.method_name E.put
        → E.encoded_query (E.request_url r) ≡ []
        → MayStore (view h) (E.encoded_path (E.request_url r))
        → view (E.exchange h r).1 q
          ≡ stored (E.encoded_path (E.request_url r)) (E.request_body r) (view h) q

  -- The outside code, with such a server.
  pub record IsReliable (view : E.HttpClient → Contents) : Type 0 where
    pub blank : KnowsBlank E
    pub body : KeepsBody E
    pub target : KeepsTarget E
    pub urls : BuildsUrls E
    pub crypto_laws : IsCrypto E.crypto
    pub server : ServesStore view

  -- The client is at the root of a server, and the two are in the state `s`.
  pub record Reflects (view : E.HttpClient → Contents) (s : Store) (w : World E) : Type 0 where
    pub rooted : E.encoded_path w.client.base_url ≡ str "/"
    pub unqueried : E.encoded_query w.client.base_url ≡ []
    pub region-same : w.client.region ≡ s.region
    pub contents-same : (path : Str) → view w.client.http_client path ≡ s.contents path
