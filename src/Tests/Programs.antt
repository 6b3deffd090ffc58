-- ===== src/Tests/Programs.antt =====
-- Constructors, runs of the command line client, and times.
use minioclient_cpp.Base.{ℕ, ◌≤◌, ◌≡◌, ◌≢◌, ◌⊎◌, length, true, none, some, List, [], ◌∷◌, ◌++◌}
use minioclient_cpp.Text.{Str, str, starts_with}
use minioclient_cpp.Text.Decimal.{pos}
use minioclient_cpp.DateTime.{Tm, signer_date_format, amz_date_format, gmtime, to_string}
use minioclient_cpp.DateTime.Calendar.{IsDate, IsTime, civil_of_tm, seconds_of_tm}
use minioclient_cpp.DateTime.Stamp.{day_text, time_text, to_string_lem, to_string-seconds}
use minioclient_cpp.Session.Sends.{SendsAtMost}
use minioclient_cpp.Client.Construct.{
  construct, construct_default, construct_with_port, construct_in_region, construct_secure,
}
use minioclient_cpp.Client.Construct.Made.{Makes, construct-Makes, constructors-Makes}
use minioclient_cpp.Client.Bucket.{bucket_exists, make_bucket}
use minioclient_cpp.Client.Object.{put_file, forward_object}
use minioclient_cpp.Client.Sends.{SendsAtMost-methods}
use minioclient_cpp.Main.{Process, parse_calls, no_arguments, main, run, usage, write_to}
use minioclient_cpp.Main.Options.{last_given, given, IsComplete, parse_calls_lem, main-exit}
use minioclient_cpp.Main.Flow.{main-sent}
use minioclient_cpp.Sample.{sample}
use minioclient_cpp.Sample.Lawful.{sample-KnowsBlank, sample-BuildsUrls, sample-KeepsServers}
use minioclient_cpp.Tests.Setting.{small_request, us, name, moment, clock_at}

construct-Makes_example :
    Makes sample
      (pos 9000)
      us
      us
      []
      true
      none
      name
      (construct sample name (pos 9000) us us [] true none)
construct-Makes_example =
    construct-Makes sample-BuildsUrls sample-KeepsServers name (pos 9000) us us [] true none

constructors-Makes_example :
    Makes sample
      (pos 80)
      us
      name
      us
      true
      none
      name
      (construct_in_region sample name (pos 80) us name us true)
    × Makes sample
        (pos 80)
        us
        name
        []
        true
        none
        name
        (construct_secure sample name (pos 80) us name true)
    × Makes sample
        (pos 80)
        us
        name
        []
        (starts_with name (str "https://"))
        none
        name
        (construct_with_port sample name (pos 80) us name)
    × Makes sample
        (pos 0)
        us
        name
        []
        (starts_with name (str "https://"))
        none
        name
        (construct_default sample name us name)
constructors-Makes_example =
    constructors-Makes sample-BuildsUrls sample-KeepsServers name (pos 80) us name us true

-- The endpoint twice, and a key that nobody knows.
abbrev calls : List (ℕ × Str)
calls = (b'm', us) ∷ (b'm', name) ∷ (1, []) ∷ []

abbrev idle : Process sample
idle = record { clock = clock_at; reads = 0; output = []; sent = [] }

parse_calls_example : parse_calls calls no_arguments ≡ record {
  minioendpoint = last_given b'm' calls [];
  minioaccesskey = last_given b'a' calls [];
  miniosecret = last_given b'k' calls [];
}
parse_calls_example = parse_calls_lem calls no_arguments

main-exit_example :
    (IsComplete (given calls)
      × (main calls idle
          ≡ run
              (construct_default sample
                (given calls).minioendpoint
                (given calls).minioaccesskey
                (given calls).miniosecret)
              idle)
      × ((main calls idle).0 ≢ some 1))
    ⊎ ((¬ IsComplete (given calls)) × (main calls idle ≡ (some 1, write_to 2 usage idle)))
main-exit_example = main-exit calls idle

main-sent_example :
    (requests : List sample.Request) × ((main calls idle).1.sent ≡ [] ++ requests)
    × (length requests ≤ 3)
main-sent_example = main-sent sample-KnowsBlank calls idle

SendsAtMost-methods_example :
    SendsAtMost sample 1 (bucket_exists name)
    × SendsAtMost sample 1 (make_bucket name us)
    × SendsAtMost sample 1 (put_file name us us us)
    × SendsAtMost sample 1 (forward_object small_request)
SendsAtMost-methods_example = SendsAtMost-methods sample-KnowsBlank name us us us us small_request

to_string-seconds_example :
    (tm : Tm) × (to_string moment amz_date_format ≡ day_text tm ++ time_text tm)
    × IsDate (civil_of_tm tm)
    × IsTime tm
    × (seconds_of_tm tm ≡ 1543246641)
to_string-seconds_example = to_string-seconds moment

to_string_example :
    (to_string moment signer_date_format ≡ day_text (gmtime 1543246641))
    × (to_string moment amz_date_format
        ≡ to_string moment signer_date_format ++ time_text (gmtime 1543246641))
to_string_example = to_string_lem moment
