-- ===== src/Tests/Buckets.antt =====
-- Calls on buckets, and what they send and trace.
use minioclient_cpp.Base.{ap, ◌∙◌, ℕ, ◌≡◌, refl, false, [], ◌∷◌, ◌++◌, List}
use minioclient_cpp.Text.{Str, str, find}
use minioclient_cpp.Errors.{ok, throw}
use minioclient_cpp.Session.{◌>>◌}
use minioclient_cpp.Client.Execute.{end_http, prepare, execute, extract}
use minioclient_cpp.Client.Execute.Outcome.{start_http, concluded}
use minioclient_cpp.Client.Execute.Whole.{execute-concluded}
use minioclient_cpp.Client.Execute.Sending.{requests_of, execute-sent}
use minioclient_cpp.Client.Execute.Bracket.{chunk, execute_bracket}
use minioclient_cpp.Client.Bucket.{
  us_east_1, bucket_configuration, get_region, bucket_exists, make_bucket,
}
use minioclient_cpp.Client.Bucket.Exists.{asked, bucket_exists_lem}
use minioclient_cpp.Client.Bucket.Region.{conflict_error, make_bucket_history}
use minioclient_cpp.Sample.{sample}
use minioclient_cpp.Sample.Lawful.{sample-KnowsBlank}
use minioclient_cpp.Tests.Setting.{missing, us, printer, fresh_world, new_world, name, ne-nil}
use minioclient_cpp.Tests.Requests.{head_request, head_prepared}

bucket_exists_example :
    (bucket_exists {E = sample} name fresh_world).0
    ≡ asked sample name (prepare {E = sample} sample.head us name [] [] [] [] fresh_world).0 missing
bucket_exists_example = bucket_exists_lem sample-KnowsBlank name fresh_world (ne-nil refl)

-- The server's 404 is the answer "no".
missing_bucket : (bucket_exists {E = sample} name fresh_world).0 ≡ ok false
unfolding extract find str
missing_bucket =
    bucket_exists_lem sample-KnowsBlank name fresh_world (ne-nil refl)
    ∙ ap (λ request. asked sample name request missing) head_prepared

execute-sent_example :
    (execute {E = sample} sample.head us name [] [] [] [] fresh_world).1.sent
    ≡ [] ++ requests_of (prepare {E = sample} sample.head us name [] [] [] [] fresh_world).0
execute-sent_example = execute-sent sample-KnowsBlank sample.head us name [] [] [] [] fresh_world

execute_bracket_example :
    (inside : List (ℕ × Str)) × ((execute {E = sample} sample.head us name [] [] [] []
        fresh_world).1.output
      ≡ [] ++ chunk printer start_http ∷ (inside ++ chunk printer end_http ∷ []))
execute_bracket_example =
    execute_bracket sample-KnowsBlank sample.head us name [] [] [] [] fresh_world printer
      head_request refl head_prepared tt

execute_example :
    execute {E = sample} sample.head us name [] [] [] [] fresh_world
    ≡ concluded sample sample-KnowsBlank name []
        (prepare {E = sample} sample.head us name [] [] [] [] fresh_world).0
        (record fresh_world {
          reads = (prepare {E = sample} sample.head us name [] [] [] [] fresh_world).1.reads;
        })
execute_example = execute-concluded sample-KnowsBlank sample.head us name [] [] [] [] fresh_world

make_bucket_history_example :
    (make_bucket {E = sample} name us_east_1 new_world ≡ (throw conflict_error, new_world))
    × (make_bucket {E = sample} name us_east_1 (get_region name new_world).1
        ≡ (do
          execute sample.put us_east_1 name [] [] [] (bucket_configuration us_east_1)
          λ v. (ok tt, v))
            (get_region name new_world).1)
make_bucket_history_example = make_bucket_history name name new_world refl
