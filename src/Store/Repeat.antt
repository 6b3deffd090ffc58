-- ===== src/Store/Repeat.antt =====
-- Two runs of `upload` in a row.
use minioclient_cpp.Base.{◌≤◌, ◌≡◌, ◌≢◌, refl, sym, ◌∙◌, true, Option, none, some, arith, length}
use minioclient_cpp.Text.{Str}
use minioclient_cpp.Errors.{ok}
use minioclient_cpp.External.{Env}
use minioclient_cpp.Session.{World}
use minioclient_cpp.Client.Object.{min_multipart_size, read_all}
use minioclient_cpp.Main.{bucket_name, file_path, remote_name, upload}
use minioclient_cpp.Store.{Contents, Store, stored, bucket_path, object_path, IsReliable, Reflects}
use minioclient_cpp.Store.Requests.{put_at}
use minioclient_cpp.Store.Methods.{settled_in, is_some, is_there, with_object}
use minioclient_cpp.Store.Upload.{ensured, ensured-there, uploaded, upload-Achieves}

stored-twice :
    (path body : Str) (c : Contents) (q : Str)
    → stored path body (stored path body c) q ≡ stored path body c q
unfolding stored
stored-twice path body c q = ground arith

stored-ne-none :
    (path body : Str) (c : Contents) (q : Str) → c q ≢ none → stored path body c q ≢ none
unfolding stored
stored-ne-none path body c q ne = ground (arith, ne)

ne-none-is_some : (content : Option Str) → content ≢ none → is_some content ≡ true
ne-none-is_some none ne = absurd (ne refl)
ne-none-is_some (some b) ne = refl

module _ (E : Env) (body : Str) (s : Store) where
  uploaded-is_there : is_there E bucket_name (uploaded E body s) ≡ true
  unfolding uploaded with_object put_at settled_in
  uploaded-is_there = ne-none-is_some _ (
      stored-ne-none (object_path E bucket_name remote_name) body (ensured E s).contents
        (bucket_path E bucket_name) (ensured-there E s))

  uploaded-twice :
      (q : Str) → (uploaded E body (uploaded E body s)).contents q ≡ (uploaded E body s).contents q
  unfolding uploaded ensured with_object put_at settled_in
  uploaded-twice q = rw uploaded-is_there (stored-twice _ body _ q)

module _ {E : Env} {view : E.HttpClient → Contents} (R : IsReliable E view) where
  -- A second run of the client's `upload`, after a first at a server in any state, also returns,
  -- and changes nothing of what the server holds, when the file "client.cpp" can be read and has at
  -- most 5 MiB, and the client's URL has the path "/" and no query. It is taken of the server that it answers HEAD and PUT as a storage server does,
  -- and of the outside code that it keeps the laws collected in `IsReliable`.
  pub upload_idem :
      (s : Store) (body : Str) (w : World E)
      → read_all E.files file_path ≡ ok body
      → length body ≤ min_multipart_size
      → Reflects E view s w
      → let (first, v) = upload w in
        let (second, u) = upload v in
        (first ≡ ok tt)
        × (second ≡ ok tt)
        × ((path : Str) → view u.client.http_client path ≡ view v.client.http_client path)
  upload_idem s body w content small h =
      let (_, first, (once, _)) = (upload-Achieves R s body content small).at w h in
      let v = (upload w).1 in
      let (_, second, (twice, _)) =
        (upload-Achieves R (uploaded E body s) body content small).at v once in
      (
        first,
        second,
        λ path.
            twice.contents-same path ∙ uploaded-twice E body s path ∙ sym (once.contents-same path),
      )
