-- ===== src/Store/Upload.antt =====
-- `upload` of client.cpp at a storage server.
use minioclient_cpp.Base.{
  ◌≤◌, ◌≡◌, ◌≢◌, refl, sym, Bool, true, false, ℕ, none, some, List, [], ◌∷◌, ◌++◌, length,
  if◌then◌else◌, inl, inr, arith, Bool-cases, Option,
}
use minioclient_cpp.Text.{Str, str}
use minioclient_cpp.Errors.{ok}
use minioclient_cpp.External.{Env}
use minioclient_cpp.Session.{World, print, cout}
use minioclient_cpp.Session.Achieves.{Achieves, Achieves-bind}
use minioclient_cpp.Client.Request.Names.{IsName}
use minioclient_cpp.Client.Construct.{trace_on}
use minioclient_cpp.Client.Bucket.{make_bucket}
use minioclient_cpp.Client.Object.{min_multipart_size, put_file_plain, read_all}
use minioclient_cpp.Main.{bucket_name, file_path, remote_name, success, upload}
use minioclient_cpp.Store.{Contents, Store, stored, bucket_path, object_path, IsReliable, Reflects}
use minioclient_cpp.Store.Requests.{put_at}
use minioclient_cpp.Store.Methods.{
  settled_in, is_some, is_there, with_bucket, with_object, bucket_exists-Achieves,
  make_bucket-Achieves, put_file-Achieves,
}

bucket_name-IsName : IsName bucket_name
unfolding str
bucket_name-IsName = (omega arith, omega arith)

file_path-ne-nil : file_path ≢ []
unfolding str
file_path-ne-nil e = cc

remote_name-ne-nil : remote_name ≢ []
unfolding str
remote_name-ne-nil e = cc

stored-same : (path body : Str) (c : Contents) → stored path body c path ≡ some body
unfolding stored
stored-same path body c = ground arith

module _ (E : Env) where
  -- The specification of the run: the bucket is made if it is not there, and the file put in it.
  unfoldable pub ensured : Store → Store
  ensured s =
      if is_there E bucket_name s then settled_in s else with_bucket E bucket_name (settled_in s)

  unfoldable pub uploaded : Str → Store → Store
  unfolding ensured
  uploaded body s = with_object E bucket_name remote_name body (ensured s)

  is_some-ne-none : (content : Option Str) → is_some content ≡ true → content ≢ none
  is_some-ne-none none h e = cc
  is_some-ne-none (some b) h e = cc

  is_some-none : (content : Option Str) → false ≡ is_some content → content ≡ none
  is_some-none none h = refl
  is_some-none (some b) h = cc

  pub ensured-there : (s : Store) → (ensured s).contents (bucket_path E bucket_name) ≢ none
  unfolding ensured with_bucket put_at settled_in
  ensured-there s = elim (Bool-cases (is_there E bucket_name s)) [
    | inl there ↦ rw there (is_some-ne-none (s.contents (bucket_path E bucket_name)) there)
    | inr missing ↦ rw missing (rw stored-same λ e. cc)
  ]

  -- The file is there after the run.
  pub uploaded-there :
      (body : Str) (s : Store)
      → (uploaded body s).contents (object_path E bucket_name remote_name) ≡ some body
  unfolding uploaded with_object put_at
  uploaded-there body s = stored-same (object_path E bucket_name remote_name) body _

  -- The last that was written is that the upload was a success.
  abbrev pub TellsSuccess : World E → Type 0
  TellsSuccess w = (before : List (ℕ × Str)) × (w.output ≡ before ++ (cout, success) ∷ [])

module _ {E : Env} {view : E.HttpClient → Contents} (s : Store) where
  trace_on-Achieves :
      (stream : ℕ) → Achieves E (Reflects E view s) (trace_on stream) λ _. Reflects E view s
  unfolding trace_on
  trace_on-Achieves stream = record {
    at = λ w h. (
      tt,
      refl,
      record {
        rooted = h.rooted;
        unqueried = h.unqueried;
        region-same = h.region-same;
        contents-same = h.contents-same;
      },
    );
  }

  print-Achieves :
      (stream : ℕ) (text : Str)
      → Achieves E (Reflects E view s) (print stream text) λ _ v.
        Reflects E view s v
        × ((before : List (ℕ × Str)) × (v.output ≡ before ++ (stream, text) ∷ []))
  unfolding print
  print-Achieves stream text = record {
    at = λ w h. (
      tt,
      refl,
      (
        record {
          rooted = h.rooted;
          unqueried = h.unqueried;
          region-same = h.region-same;
          contents-same = h.contents-same;
        },
        (w.output, refl),
      ),
    );
  }

module _ {E : Env} {view : E.HttpClient → Contents} (R : IsReliable E view) where
  ensured-Achieves :
      (s : Store) (is_exist : Bool) (text : Str)
      → is_exist ≡ is_there E bucket_name s
      → Achieves E
          (Reflects E view (settled_in s))
          (if is_exist then print cout text else make_bucket bucket_name [])
          λ _. Reflects E view (ensured E s)
  unfolding ensured settled_in
  ensured-Achieves s true text same = record {
    at = λ w h.
        rw (sym same)
          (let (a, e, (k, _)) = (print-Achieves (settled_in s) cout text).at w h in (a, e, k));
  }
  ensured-Achieves s false text same = record {
    at = λ w h. rw (sym same) (
        (make_bucket-Achieves R bucket_name bucket_name-IsName [] (settled_in s) (inl refl)
            (is_some-none E (s.contents (bucket_path E bucket_name)) same)).at
          w h);
  }

  -- The block under `try`, from a server in the state `s`.
  pub upload-Achieves :
      (s : Store) (body : Str)
      → read_all E.files file_path ≡ ok body
      → length body ≤ min_multipart_size
      → Achieves E
          (Reflects E view s)
          upload
          λ _ v. Reflects E view (uploaded E body s) v × TellsSuccess E v
  unfolding upload put_file_plain uploaded
  upload-Achieves s body content small =
      Achieves-bind _ (λ _. Reflects E view s) _ _ _ (trace_on-Achieves s cout)
        λ _.
          Achieves-bind _ _ _ _ _ (bucket_exists-Achieves R bucket_name bucket_name-IsName s)
            λ is_exist.
              Achieves-bind _ (λ _. Reflects E view (ensured E s)) _ _ _
                (record { at = λ w (same, h). (ensured-Achieves s is_exist _ same).at w h })
                λ _.
                  Achieves-bind _ (λ _. Reflects E view (uploaded E body s)) _ _ _
                    (put_file-Achieves R bucket_name remote_name bucket_name-IsName file_path []
                      body (ensured E s) file_path-ne-nil content remote_name-ne-nil
                      (ensured-there E s) small)
                    λ _. print-Achieves (uploaded E body s) cout success
