-- ===== src/Store/Methods.antt =====
-- The public methods of the client, as operations on what the server holds.
use minioclient_cpp.Base.{
  ◌⊎◌, inr, ◌≤◌, ◌≡◌, ◌≢◌, refl, sym, ap, subst, ◌∙◌, Bool, true, false, Option, none, some, [],
  ◌∷◌, length, if◌then◌else◌, is_empty, inl, arith, ◌++◌,
}
use minioclient_cpp.Text.{Str, str, find, search_for, starts_with, ◌==◌}
use minioclient_cpp.Map.{KeyValueMap}
use minioclient_cpp.Errors.{ok}
use minioclient_cpp.External.{Env}
use minioclient_cpp.Session.{World, M, ◌>>=◌, pure}
use minioclient_cpp.Session.Achieves.{Achieves, Achieves-pure, Achieves-bind}
use minioclient_cpp.Client.Request.Names.{IsName}
use minioclient_cpp.Client.Execute.{execute, extract}
use minioclient_cpp.Client.Bucket.{
  us_east_1, bucket_configuration, get_region, execute_head, existence, bucket_exists, make_bucket,
}
use minioclient_cpp.Client.Bucket.Exists.{
  existence-world, presence_in, existence_lem, region_of, with_region,
}
use minioclient_cpp.Client.Bucket.Region.{make_bucket_agrees}
use minioclient_cpp.Client.Object.{
  min_multipart_size, no_encryption, with_content_type, put_data, put_file, read_all,
  forward_object,
}
use minioclient_cpp.Client.Object.Upload.{put_data_single}
use minioclient_cpp.Store.{
  Contents, Store, bucket_path, object_path, new_bucket, in_bucket, Tells, IsReliable, Reflects,
}
use minioclient_cpp.Store.Requests.{put_at, put-Achieves, head-Told}

-- The specification: a client without a region takes us-east-1 when it asks for one.
unfoldable pub settled_in : Store → Store
settled_in s = record s { region = if is_empty s.region then us_east_1 else s.region }

abbrev pub is_some : Option Str → Bool
is_some none = false
is_some (some content) = true

-- What is put for a bucket: nothing in us-east-1, and else a text that names the region.
abbrev pub bucket_text : Str → Str
bucket_text [] = []
bucket_text (c ∷ region) =
    if c ∷ region == str "us-east-1"
    then []
    else str
        "<?xml version=\"1.0\"?><CreateBucketConfiguration xmlns=\"http://s3.amazonaws.com/doc/2006-03-01/\"><LocationConstraint>"
      ++ (c ∷ region ++ str "</LocationConstraint></CreateBucketConfiguration>")

bucket_configuration_lem : (region : Str) → bucket_configuration region ≡ bucket_text region
unfolding bucket_configuration str
bucket_configuration_lem [] = refl
bucket_configuration_lem (c ∷ region) = refl

module _ (E : Env) where
  -- The specification of `bucketExists`: whether something was put at the bucket's path.
  abbrev pub is_there : Str → Store → Bool
  is_there bucket s = is_some (s.contents (bucket_path E bucket))

  -- The specification of `makeBucket` with no region, or the client's own: the text for that
  -- region is put there.
  unfoldable pub with_bucket : Str → Store → Store
  unfolding put_at
  with_bucket bucket s = put_at (bucket_path E bucket) (bucket_text s.region) s

  -- The specification of `putObject`: the data is put at the object's path.
  unfoldable pub with_object : Str → Str → Str → Store → Store
  unfolding put_at settled_in
  with_object bucket object body s = put_at (object_path E bucket object) body (settled_in s)

  extract-nil :
      (extract [] (str "<Code>") (str "</Code>") ≡ [])
      × (extract [] (str "<Message>") (str "</Message>") ≡ [])
  unfolding extract find search_for starts_with str
  extract-nil = (refl, refl)

  presence-Tells :
      (bucket : Str) (content : Option Str) (r : E.Response)
      → E.is_blank r ≡ false
      → Tells E content r
      → presence_in E bucket r ≡ ok (is_some content)
  presence-Tells bucket none r given (bad, missing, empty) =
      rw (given, bad, missing, empty) (rw (extract-nil.0, extract-nil.1))
  presence-Tells bucket (some content) r given good = rw (given, good)

  IsName-ne-nil : (bucket : Str) → IsName bucket → bucket ≢ []
  IsName-ne-nil [] h e = omega (arith, h.0)
  IsName-ne-nil (c ∷ bucket) h e = cc

module _ {E : Env} {view : E.HttpClient → Contents} where
  pub settle-Reflects :
      (s : Store) (w : World E)
      → Reflects E view s w
      → Reflects E view (settled_in s) (with_region E w)
  unfolding settled_in
  settle-Reflects s w h = record {
    rooted = h.rooted;
    unqueried = h.unqueried;
    region-same = ap (λ own. if is_empty own then us_east_1 else own) h.region-same;
    contents-same = h.contents-same;
  }

module _ {E : Env} where
  -- The action returns nothing in particular, in a state where `Q` holds.
  abbrev Ends : M E (Unit {0}) → (World E → Type 0) → World E → Type 0
  Ends m Q w = (a : Unit {0}) × ((m w).0 ≡ ok a) × Q (m w).1

  discarding :
      {A : Type 0} (P : World E → Type 0) (m : M E A) (Q : World E → Type 0)
      → Achieves E P m (λ _. Q)
      → Achieves E P (m >>= λ _. pure (tt {0})) (λ _. Q)
  discarding P m Q h =
      Achieves-bind P (λ _. Q) (λ _. Q) m _ h λ _. Achieves-pure Q tt (λ _. Q) λ v q. q

module _ {E : Env} {view : E.HttpClient → Contents} (R : IsReliable E view) (bucket : Str)
    (named : IsName bucket) where
  pub bucket_exists-Achieves :
      (s : Store)
      → Achieves E
          (Reflects E view s)
          (bucket_exists bucket)
          λ b v. (b ≡ is_there E bucket s) × Reflects E view (settled_in s) v
  unfolding bucket_exists execute_head get_region settled_in
  bucket_exists-Achieves s = record {
    at = λ w h.
        let u = with_region E w in
        let (reply, t) =
          head-Told R (region_of E w) bucket [] [] [] (settled_in s) u (inl named)
            (settle-Reflects s w h) in
        let (outcome, v) = execute E.head (region_of E w) bucket [] [] [] [] u in
        (
          is_there E bucket s,
          ap (λ r. (existence r v).0) t.told
              ∙ existence_lem E bucket reply v (IsName-ne-nil E bucket named)
              ∙ presence-Tells E bucket (s.contents (bucket_path E bucket)) reply t.given t.tells,
          (
            refl,
            subst (Reflects E view (settled_in s)) (sym (existence-world E outcome v)) t.serves,
          ),
        );
  }

  pub make_bucket-Achieves :
      (given : Str) (s : Store)
      → (given ≡ []) ⊎ (given ≡ s.region)
      → s.contents (bucket_path E bucket) ≡ none
      → Achieves E
          (Reflects E view s)
          (make_bucket bucket given)
          λ _. Reflects E view (with_bucket E bucket s)
  unfolding with_bucket
  make_bucket-Achieves given s own missing = record {
    at = λ w h.
        let path = bucket_path E bucket in
        let config = bucket_configuration w.client.region in
        rw
          (make_bucket_agrees bucket given w (elim own [
            | inl none_given ↦ inl none_given
            | inr same ↦ inr (same ∙ sym h.region-same)
          ]))
          (subst
            (λ own.
              Ends (execute E.put us_east_1 bucket [] [] [] config >>= λ _. pure tt)
                (Reflects E view (put_at path own s)) w)
            (bucket_configuration_lem w.client.region ∙ ap bucket_text h.region-same)
            ((discarding (Reflects E view s) _ (Reflects E view (put_at path config s)) (
                put-Achieves R us_east_1 bucket [] [] config s (inl named)
                  (new_bucket bucket named missing))).at
              w h));
  }

module _ {E : Env} {view : E.HttpClient → Contents} (R : IsReliable E view) (bucket object : Str)
    (named : IsName bucket) where
  pub put_data-Achieves :
      (body : Str) (headers : KeyValueMap) (s : Store)
      → object ≢ []
      → s.contents (bucket_path E bucket) ≢ none
      → length body ≤ min_multipart_size
      → Achieves E
          (Reflects E view s)
          (put_data bucket object body headers no_encryption)
          λ _. Reflects E view (with_object E bucket object body s)
  unfolding with_object settled_in
  put_data-Achieves body headers s known there small = record {
    at = λ w h. rw (put_data_single bucket object body headers w small) (
        (discarding (Reflects E view (settled_in s)) _
            (Reflects E view (with_object E bucket object body s))
            (put-Achieves R (region_of E w) bucket object (with_content_type headers) body
              (settled_in s) (inl named) (in_bucket bucket object named known there))).at
          (with_region E w) (settle-Reflects s w h));
  }

  pub put_file-Achieves :
      (file content_type body : Str) (s : Store)
      → file ≢ []
      → read_all E.files file ≡ ok body
      → object ≢ []
      → s.contents (bucket_path E bucket) ≢ none
      → length body ≤ min_multipart_size
      → Achieves E
          (Reflects E view s)
          (put_file bucket object file content_type)
          λ _. Reflects E view (with_object E bucket object body s)
  unfolding put_file
  put_file-Achieves [] content_type body s given content known there small = absurd (given refl)
  put_file-Achieves (c ∷ file) content_type body s given content known there small =
      rw content (put_data-Achieves body _ s known there small)

  pub forward_object-Achieves :
      (request : E.Request) (s : Store)
      → E.split (E.encoded_path (E.request_url request)) (str "/") ≡ bucket ∷ object ∷ []
      → object ≢ []
      → s.contents (bucket_path E bucket) ≢ none
      → length (E.request_body request) ≤ min_multipart_size
      → Achieves E
          (Reflects E view s)
          (forward_object request)
          λ _. Reflects E view (with_object E bucket object (E.request_body request) s)
  unfolding forward_object
  forward_object-Achieves request s two known there small =
      rw (two, forward_object) (put_data-Achieves (E.request_body request) _ s known there small)
