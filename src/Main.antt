-- ===== src/Main.antt =====
-- client.cpp: the command line client, over the calls of `parse_opt` that `argp_parse` makes for a
-- command line that it accepts.
pub mod Options
pub mod Flow
pub mod Success
use minioclient_cpp.DateTime.{DateTime}
use minioclient_cpp.Base.{
  ℕ, Bool, ◌||◌, Option, none, some, List, [], ◌∷◌, ◌++◌, eqb, if◌then◌else◌, is_empty,
}
use minioclient_cpp.Text.{Str, str, c_text}
use minioclient_cpp.Errors.{Exn, Result, ok, throw}
use minioclient_cpp.External.{Env}
use minioclient_cpp.Session.{MinioClient, World, M, ◌>>=◌, ◌>>◌, pure, print, cout, cerr}
use minioclient_cpp.Client.Construct.{construct_default, trace_on}
use minioclient_cpp.Client.Execute.{what}
use minioclient_cpp.Client.Bucket.{bucket_exists, make_bucket}
use minioclient_cpp.Client.Object.{put_file_plain}

pub record Arguments : Type 0 where
  pub minioendpoint : Str
  pub minioaccesskey : Str
  pub miniosecret : Str

-- `ARGP_ERR_UNKNOWN`, which is `E2BIG`
abbrev pub argp_err_unknown : ℕ
argp_err_unknown = 7

-- `parse_opt`: its result, and what `state->input` then holds.
unfoldable pub parse_opt : ℕ → Str → Arguments → ℕ × Arguments
parse_opt key arg args =
    if eqb key b'm'
    then (0, record args { minioendpoint = arg })
    else if eqb key b'a'
    then (0, record args { minioaccesskey = arg })
    else if eqb key b'k'
    then (0, record args { miniosecret = arg })
    else (argp_err_unknown, args)

-- What `args` holds after some calls of `parse_opt`, for options and for argp's own keys: a call
-- that does not know its key leaves `args` alone.
unfoldable pub parse_calls : List (ℕ × Str) → Arguments → Arguments
parse_calls [] args = args
parse_calls ((key, arg) ∷ calls) args = parse_calls calls (parse_opt key arg args).1

abbrev pub no_arguments : Arguments
no_arguments = record { minioendpoint = []; minioaccesskey = []; miniosecret = [] }

-- The test at the head of `main`.
abbrev pub lacks_argument : Arguments → Bool
lacks_argument args =
    is_empty args.minioendpoint || is_empty args.minioaccesskey || is_empty args.miniosecret

-- What the program has outside the client.
pub record Process (E : Env) : Type 0 where
  pub clock : ℕ → DateTime
  pub reads : ℕ
  pub output : List (ℕ × Str)
  pub sent : List E.Request

abbrev pub usage : Str
usage = str "All arguments required: -m http[s]://<host>:<port> -a <ACCESSKEY> -k <SECRETKEY>\n"

abbrev pub bucket_name : Str
bucket_name = str "asiatripy"

abbrev pub file_path : Str
file_path = str "client.cpp"

abbrev pub remote_name : Str
remote_name = str "content.txt"

abbrev pub success : Str
success =
    file_path
    ++ (str " is successfully uploaded as '"
        ++ (remote_name ++ (str "' to '" ++ (bucket_name ++ str "' bucket.\n"))))

module _ {E : Env} where
  abbrev pub write_to : ℕ → Str → Process E → Process E
  write_to stream text p = record p { output = p.output ++ (stream, text) ∷ [] }

  abbrev pub with_client : MinioClient E → Process E → World E
  with_client c p = record {
    client = c;
    clock = p.clock;
    reads = p.reads;
    output = p.output;
    sent = p.sent;
  }

  abbrev pub after_client : World E → Process E
  after_client w = record { clock = w.clock; reads = w.reads; output = w.output; sent = w.sent }

  -- The block under `try`, once the client is made.
  unfoldable pub upload : M E Unit
  upload = do
    trace_on cout
    is_exist ← bucket_exists bucket_name
    if is_exist then print cout (str "Bucket already exists.\n") else make_bucket bucket_name []
    put_file_plain bucket_name remote_name file_path
    print cout success

  -- `catch (const std::exception &e)`; an exception of another kind ends the program.
  abbrev pub report : Option Str → Process E → Option ℕ × Process E
  report none p = (none, p)
  report (some text) p = (some 0, write_to cerr (c_text text ++ str "\n") p)

  abbrev pub finish : Result (Unit {0}) → Process E → Option ℕ × Process E
  finish (ok _) p = (some 0, p)
  finish (throw e) p = report (what e) p

  abbrev pub run : Result (MinioClient E) → Process E → Option ℕ × Process E
  run (throw e) p = report (what e) p
  run (ok c) p = let (result, w) = upload (with_client c p) in finish result (after_client w)

  -- `main`: the exit code, or `none` if an exception leaves it.
  unfoldable pub main : List (ℕ × Str) → Process E → Option ℕ × Process E
  unfolding parse_calls
  main calls p =
      let args = parse_calls calls no_arguments in
      if lacks_argument args
      then (some 1, write_to cerr usage p)
      else run (construct_default E args.minioendpoint args.minioaccesskey args.miniosecret) p
