-- ===== src/Client/Bucket.antt =====
-- `getRegion`, `executeHead`, `bucketExists` and `makeBucket`, with `executePut`.
pub mod Exists
pub mod Region
use minioclient_cpp.Base.{
  Bool, true, false, not, ◌&&◌, ◌||◌, [], ◌∷◌, ◌++◌, ite, if◌then◌else◌, is_empty,
}
use minioclient_cpp.Text.{Str, str, ◌==◌}
use minioclient_cpp.Map.{KeyValueMap}
use minioclient_cpp.Errors.{
  Code, Code-discrete, no_such_bucket, ErrorResponse, Exn, error_response, region_conflict, Result,
  ok, throw,
}
use minioclient_cpp.External.{Env}
use minioclient_cpp.Session.{World, MinioClient, M, ◌>>=◌, ◌>>◌, pure, raise, this}
use minioclient_cpp.Client.Execute.{execute}

abbrev pub us_east_1 : Str
us_east_1 = str "us-east-1"

-- `makeBucket`'s test on the region it chose, against the client's.
abbrev pub conflicts : Str → Str → Bool
conflicts chosen own = not (is_empty chosen) && not (chosen == own)

-- The region that `makeBucket` chooses.
abbrev pub chosen_region : Str → Str → Str
chosen_region given own = if is_empty given then own else given

-- `configString`
unfoldable pub bucket_configuration : Str → Str
bucket_configuration reg =
    if is_empty reg || reg == us_east_1
    then []
    else str "<?xml version=\"1.0\"?><CreateBucketConfiguration "
      ++ (str "xmlns=\"http://s3.amazonaws.com/doc/2006-03-01/"
          ++ (str "\"><LocationConstraint>"
              ++ (reg ++ str "</LocationConstraint></CreateBucketConfiguration>")))

module _ {E : Env} where
  -- `getRegion`, which does not read the bucket's name
  unfoldable pub get_region : Str → M E Str
  get_region bucket w =
      let region = if is_empty w.client.region then us_east_1 else w.client.region in
      (ok region, record w { client = record w.client { region = region } })

  -- `executeHead` with headers
  unfoldable pub execute_head_with : Str → Str → KeyValueMap → M E E.Response
  execute_head_with bucket object headers = do
    region ← get_region bucket
    execute E.head region bucket object headers [] []

  -- `executeHead`
  unfoldable pub execute_head : Str → Str → M E E.Response
  execute_head bucket object = do
    region ← get_region bucket
    execute E.head region bucket object [] [] []

  -- `executePut` with a region
  unfoldable pub execute_put_in : Str → Str → KeyValueMap → KeyValueMap → Str → Str → M E E.Response
  execute_put_in bucket object headers query region body =
      execute E.put region bucket object headers query body

  -- `executePut`
  unfoldable pub execute_put : Str → Str → KeyValueMap → KeyValueMap → Str → M E E.Response
  execute_put bucket object headers query body = do
    region ← get_region bucket
    execute_put_in bucket object headers query region body

  -- What `bucketExists` makes of the end of its `try` block.
  unfoldable pub existence : Result E.Response → M E Bool
  existence (ok response) = pure true
  existence (throw (error_response e)) =
      ite (Code-discrete e.code no_such_bucket) (pure false) (raise (error_response e))
  existence (throw e) = raise e

  -- `bucketExists`
  unfoldable pub bucket_exists : Str → M E Bool
  bucket_exists bucket w = existence (execute_head bucket [] w).0 (execute_head bucket [] w).1

  -- `makeBucket`
  unfoldable pub make_bucket : Str → Str → M E Unit
  make_bucket bucket region = do
    c ← this
    if conflicts (chosen_region region c.region) c.region
        then raise
            (region_conflict (str "passed region conflicts with the one previously specified"))
        else (do
          execute_put_in bucket [] [] [] us_east_1
              (bucket_configuration (chosen_region region c.region))
          pure tt)
