-- ===== src/Client/History/Steps.antt =====
-- Sequences of calls of the client's public methods, and the states that they lead to.
use minioclient_cpp.Base.{◌≡◌, ◌≢◌, inl, inr, sym, subst, ℕ, []}
use minioclient_cpp.Text.{Str}
use minioclient_cpp.External.{Env}
use minioclient_cpp.External.Laws.{KnowsBlank, KeepsTarget}
use minioclient_cpp.Session.{World}
use minioclient_cpp.Client.Construct.{trace_on}
use minioclient_cpp.Client.Bucket.{bucket_exists, make_bucket}
use minioclient_cpp.Client.Object.{put_file, forward_object}
use minioclient_cpp.Client.History.{Follows, Follows-refl, Follows-trans}
use minioclient_cpp.Client.History.Methods.{
  trace_on-Evolves, bucket_exists-Evolves, make_bucket-Evolves, put_file-Evolves,
  forward_object-Evolves,
}

-- One call of a public method, from one state to another, whether it returned or threw.
pub data Step (E : Env) (w v : World E) : Type 0 where
  traced : (stream : ℕ) → v ≡ (trace_on stream w).1 → Step E w v
  asked_for : (bucket : Str) → v ≡ (bucket_exists bucket w).1 → Step E w v
  made : (bucket region : Str) → v ≡ (make_bucket bucket region w).1 → Step E w v
  put :
      (bucket object file content_type : Str)
      → v ≡ (put_file bucket object file content_type w).1
      → Step E w v
  forwarded : (request : E.Request) → v ≡ (forward_object request w).1 → Step E w v

-- Any number of calls, in any order.
pub data Reaches (E : Env) (w : World E) : World E → Type 0 where
  at_once : Reaches E w w
  by_call : {u v : World E} → Reaches E w u → Step E u v → Reaches E w v

module _ {E : Env} (B : KnowsBlank E) (T : KeepsTarget E) where
  step-Follows : (w v : World E) → Step E w v → Follows E w v
  step-Follows w v (traced stream same) =
      subst (Follows E w) (sym same) ((trace_on-Evolves stream).at w)
  step-Follows w v (asked_for bucket same) =
      subst (Follows E w) (sym same) ((bucket_exists-Evolves B T bucket).at w)
  step-Follows w v (made bucket region same) =
      subst (Follows E w) (sym same) ((make_bucket-Evolves B T bucket region).at w)
  step-Follows w v (put bucket object file content_type same) =
      subst (Follows E w) (sym same) ((put_file-Evolves B T bucket object file content_type).at w)
  step-Follows w v (forwarded request same) =
      subst (Follows E w) (sym same) ((forward_object-Evolves B T request).at w)

  -- Whatever public methods are called, in any order and however each ends: the client's keys,
  -- agent and URL stay, its region stays or, if there was none, becomes us-east-1, and what was
  -- sent and written before is still there, followed by HEAD and PUT requests to URLs that are
  -- built of the client's own. It is taken that a default-constructed response is empty and that
  -- a request keeps the URL and the method it was built with.
  pub reaches-Follows : (w v : World E) → Reaches E w v → Follows E w v
  reaches-Follows w v at_once = Follows-refl w
  reaches-Follows w v (by_call {u} r s) =
      Follows-trans w u v (reaches-Follows w u r) (step-Follows u v s)

  -- A client with a region keeps it over any calls.
  pub region-kept :
      (w v : World E) → Reaches E w v → w.client.region ≢ [] → v.client.region ≡ w.client.region
  region-kept w v r given = elim (reaches-Follows w v r).region-settles [
    | inl same ↦ same
    | inr (none_yet, _) ↦ absurd (given none_yet)
  ]
