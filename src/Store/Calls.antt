-- ===== src/Store/Calls.antt =====
-- Sequences of calls of the public methods at a storage server, against what they are to do.
use minioclient_cpp.Base.{
  ◌≤◌, ◌≡◌, ◌≢◌, ◌⊎◌, refl, ap, ap₂, ◌∙◌, Bool, Option, none, some, List, [], ◌∷◌, length,
}
use minioclient_cpp.Text.{Str, str}
use minioclient_cpp.Errors.{ok}
use minioclient_cpp.External.{Env}
use minioclient_cpp.Session.{World, M, ◌>>=◌, ◌>>◌, pure}
use minioclient_cpp.Session.Achieves.{Achieves, Achieves-pure, Achieves-bind}
use minioclient_cpp.Client.Request.Names.{IsName}
use minioclient_cpp.Client.Bucket.{bucket_exists, make_bucket}
use minioclient_cpp.Client.Object.{
  min_multipart_size, bucket_and_object, put_file, read_all, forward_object,
}
use minioclient_cpp.Store.{Contents, Store, content_of, bucket_path, IsReliable, Reflects}
use minioclient_cpp.Store.Methods.{
  settled_in, is_there, with_bucket, with_object, bucket_exists-Achieves, make_bucket-Achieves,
  put_file-Achieves, forward_object-Achieves,
}

-- A call of a public method, with its arguments.
pub data Call (E : Env) : Type 0 where
  ask : (bucket : Str) → Call E
  make : (bucket region : Str) → Call E
  put : (bucket object file content_type : Str) → Call E
  forward : (request : E.Request) → Call E

module _ (E : Env) where
  abbrev forwarded_to : Option (Str × Str) → Str → Store → Store
  forwarded_to none body s = s
  forwarded_to (some (bucket, object)) body s = with_object E bucket object body s

  abbrev path_parts : E.Request → List Str
  path_parts r = E.split (E.encoded_path (E.request_url r)) (str "/")

  -- The specification: the state after a call.
  abbrev pub after_call : Call E → Store → Store
  after_call (ask bucket) s = settled_in s
  after_call (make bucket region) s = with_bucket E bucket s
  after_call (put bucket object file content_type) s =
      with_object E bucket object (content_of (read_all E.files file)) s
  after_call (forward r) s = forwarded_to (bucket_and_object (path_parts r)) (E.request_body r) s

  -- What the call returns, if it returns something.
  abbrev pub answer_to : Call E → Store → Option Bool
  answer_to (ask bucket) s = some (is_there E bucket s)
  answer_to (make bucket region) s = none
  answer_to (put bucket object file content_type) s = none
  answer_to (forward r) s = none

  -- There is a bucket for the object, and the data is small enough for one part.
  abbrev pub HasRoom : Str → Str → Str → Store → Type 0
  HasRoom bucket object body s =
      IsName bucket
      × (object ≢ [])
      × (s.contents (bucket_path E bucket) ≢ none)
      × (length body ≤ min_multipart_size)

  -- What a call is allowed for.
  abbrev pub IsAllowed : Call E → Store → Type 0
  IsAllowed (ask bucket) s = IsName bucket
  IsAllowed (make bucket region) s =
      IsName bucket
      × ((region ≡ []) ⊎ (region ≡ s.region))
      × (s.contents (bucket_path E bucket) ≡ none)
  IsAllowed (put bucket object file content_type) s =
      (file ≢ [])
      × ((body : Str) × (read_all E.files file ≡ ok body) × HasRoom bucket object body s)
  IsAllowed (forward r) s =
      (bucket : Str) × (object : Str) × (path_parts r ≡ bucket ∷ object ∷ [])
      × HasRoom bucket object (E.request_body r) s

  -- One call after the other: each is allowed when its turn comes.
  abbrev pub AreAllowed : List (Call E) → Store → Type 0
  AreAllowed [] s = Unit
  AreAllowed (call ∷ calls) s = IsAllowed call s × AreAllowed calls (after_call call s)

  pub after_calls : List (Call E) → Store → Store
  after_calls [] s = s
  after_calls (call ∷ calls) s = after_calls calls (after_call call s)

  pub answers_to : List (Call E) → Store → List (Option Bool)
  answers_to [] s = []
  answers_to (call ∷ calls) s = answer_to call s ∷ answers_to calls (after_call call s)

  -- The calls of the client's methods.
  abbrev pub perform : Call E → M E (Option Bool)
  perform (ask bucket) = do is_exist ← bucket_exists bucket; pure (some is_exist)
  perform (make bucket region) = do make_bucket bucket region; pure none
  perform (put bucket object file content_type) = do
    put_file bucket object file content_type
    pure none
  perform (forward r) = do forward_object r; pure none

  pub perform_all : List (Call E) → M E (List (Option Bool))
  perform_all [] = pure []
  perform_all (call ∷ calls) = do
    answer ← perform call
    answers ← perform_all calls
    pure (answer ∷ answers)

module _ {E : Env} {view : E.HttpClient → Contents} (R : IsReliable E view) where
  -- The state is this one, and the value that one.
  abbrev Gives : {A : Type 0} → A → Store → A → World E → Type 0
  Gives a s b v = (b ≡ a) × Reflects E view s v

  quietly :
      (s t : Store) (m : M E (Unit {0}))
      → Achieves E (Reflects E view s) m (λ _. Reflects E view t)
      → Achieves E (Reflects E view s) (m >>= λ _. pure none) (Gives {A = Option Bool} none t)
  quietly s t m h =
      Achieves-bind (Reflects E view s) (λ _. Reflects E view t) (Gives none t) m _ h
        λ _. Achieves-pure (Reflects E view t) none (Gives none t) λ v q. (refl, q)

  perform-Achieves :
      (call : Call E) (s : Store)
      → IsAllowed E call s
      → Achieves E
          (Reflects E view s)
          (perform E call)
          (Gives (answer_to E call s) (after_call E call s))
  perform-Achieves (ask bucket) s named =
      Achieves-bind (Reflects E view s) _ _ _ _ (bucket_exists-Achieves R bucket named s)
        λ b. Achieves-pure _ (some b) _ λ v (same, q). (ap some same, q)
  perform-Achieves (make bucket region) s (named, own, missing) =
      quietly s (with_bucket E bucket s) _
        (make_bucket-Achieves R bucket named region s own missing)
  perform-Achieves (put bucket object file content_type) s
        (given, (body, content, (named, known, there, small))) =
      rw content (
        quietly s (with_object E bucket object body s) _ (
          put_file-Achieves R bucket object named file content_type body s given content known there
            small))
  perform-Achieves (forward r) s (bucket, object, two, (named, known, there, small)) = rw two (
      quietly s (with_object E bucket object (E.request_body r) s) _
        (forward_object-Achieves R bucket object named r s two known there small))

  prepend :
      (x a : Option Bool) (rest : List (Option Bool)) (s t : Store) (m : M E (List (Option Bool)))
      → x ≡ a
      → Achieves E (Reflects E view s) m (Gives rest t)
      → Achieves E (Reflects E view s) (m >>= λ xs. pure (x ∷ xs)) (Gives (a ∷ rest) t)
  prepend x a rest s t m same h =
      Achieves-bind (Reflects E view s) (Gives rest t) (Gives (a ∷ rest) t) m _ h λ xs.
        Achieves-pure (Gives rest t xs) (x ∷ xs) (Gives (a ∷ rest) t) λ v (again, k).
          (ap₂ (λ (y : Option Bool) (ys : List (Option Bool)). y ∷ ys) same again, k)

  perform_all-Achieves :
      (calls : List (Call E)) (s : Store)
      → AreAllowed E calls s
      → Achieves E
          (Reflects E view s)
          (perform_all E calls)
          (Gives (answers_to E calls s) (after_calls E calls s))
  unfolding perform_all answers_to after_calls
  perform_all-Achieves [] s allowed = Achieves-pure _ [] _ λ v q. (refl, q)
  perform_all-Achieves (call ∷ calls) s (now, later) =
      Achieves-bind _ _ (Gives (answers_to E (call ∷ calls) s) (after_calls E (call ∷ calls) s)) _ _
        (perform-Achieves call s now)
        λ answer. record {
          at = λ v (same, q).
              (prepend answer (answer_to E call s) _ (after_call E call s) _ (perform_all E calls)
                  same (perform_all-Achieves calls (after_call E call s) later)).at
                v q;
        }

  -- Any sequence of calls of `bucketExists`, `makeBucket`, `putObject` of a file and `forwardObject`,
  -- each allowed when its turn comes, refines the specification: every call returns, `bucketExists`
  -- with the truth, and at the end the server holds what the specification says. Allowed are names
  -- of buckets of 3 to 63 characters; for `makeBucket`, a bucket that is not there, and no region or
  -- the client's own; for the uploads, an object with a name, in a bucket that is there, and data of
  -- at most 5 MiB from a file with a name that can be read, or from a request whose path has two
  -- parts; and the client's URL has the path "/" and no query. It is taken of the server that it answers HEAD and PUT as a storage server does, and of
  -- the outside code that it keeps the laws collected in `IsReliable`.
  pub perform_all_refines :
      (calls : List (Call E)) (s : Store) (w : World E)
      → AreAllowed E calls s
      → Reflects E view s w
      → ((perform_all E calls w).0 ≡ ok (answers_to E calls s))
        × Reflects E view (after_calls E calls s) (perform_all E calls w).1
  perform_all_refines calls s w allowed h =
      let (answers, returned, (same, k)) = (perform_all-Achieves calls s allowed).at w h in
      (returned ∙ ap ok same, k)
