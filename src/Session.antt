-- ===== src/Session.antt =====
-- The state that the client runs in, and its methods as actions: each returns or throws, and keeps
-- what it did before it threw. The client's fields are those of class `MinioClient`; logprinter.h
-- is here too.
pub mod Trace
pub mod Frame
pub mod Sends
pub mod Returns
pub mod Fails
pub mod Achieves
pub mod Ensures
use minioclient_cpp.Base.{ℕ, suc, Option, none, some, List, [], ◌∷◌, ◌++◌}
use minioclient_cpp.Text.{Str, str}
use minioclient_cpp.Errors.{Exn, Result, ok, throw}
use minioclient_cpp.DateTime.{DateTime}
use minioclient_cpp.External.{Env}

-- `LogPrinter`: a reference to an output stream, by its number.
pub record LogPrinter : Type 0 where
  pub stream : ℕ

-- `std::cout`, which shares its text with `stdout`, and `std::cerr`.
abbrev pub cout : ℕ
cout = 1

abbrev pub cerr : ℕ
cerr = 2

pub record MinioClient (E : Env) : Type 0 where
  pub region : Str
  pub access_key : Str
  pub secret_key : Str
  pub user_agent : Str
  pub trace_stream : Option LogPrinter
  pub http_client : E.HttpClient
  pub base_url : E.HttpUrl

-- The clock gives the reading `clock n` at the n-th call of `std::time`; `reads` counts the calls.
-- `output` holds what was written to each stream, `sent` the requests given to the HTTP client.
pub record World (E : Env) : Type 0 where
  pub client : MinioClient E
  pub clock : ℕ → DateTime
  pub reads : ℕ
  pub output : List (ℕ × Str)
  pub sent : List E.Request

abbrev pub M : Env → Type 0 → Type 0
M E A = World E → Result A × World E

module _ {E : Env} {A B : Type 0} where
  abbrev pub continue : Result A → (A → M E B) → M E B
  continue (ok a) f w = f a w
  continue (throw e) f w = (throw e, w)

  infixl 5 ◌>>=◌ ◌>>◌
  abbrev pub ◌>>=◌ : M E A → (A → M E B) → M E B
  ◌>>=◌ m f w = continue (m w).0 f (m w).1

  abbrev pub ◌>>◌ : M E A → M E B → M E B
  m >> n = m >>= λ _. n

module _ {E : Env} {A : Type 0} where
  abbrev pub pure : A → M E A
  pure a w = (ok a, w)

  abbrev pub raise : Exn → M E A
  raise e w = (throw e, w)

  abbrev pub lift : Result A → M E A
  lift r w = (r, w)

module _ {E : Env} where
  abbrev pub this : M E (MinioClient E)
  this w = (ok w.client, w)

  abbrev write : ℕ → Str → World E → World E
  write stream text w = record w { output = w.output ++ (stream, text) ∷ [] }

  -- `LogPrinter::println`
  unfoldable pub println : LogPrinter → Str → M E Unit
  println p line w = (ok tt, write p.stream (line ++ str "\n") w)

  -- `printf` and `std::cout <<`, `std::cerr <<`
  unfoldable pub print : ℕ → Str → M E Unit
  print stream text w = (ok tt, write stream text w)

  -- the lines that are printed `if (traceStream_ != nullptr)`
  abbrev trace_to : Option LogPrinter → List Str → M E Unit
  trace_to none lines w = (ok tt, w)
  trace_to (some p) [] w = (ok tt, w)
  trace_to (some p) (line ∷ lines) w = trace_to (some p) lines (println p line w).1

  unfoldable pub trace : List Str → M E Unit
  unfolding println
  trace lines w = trace_to w.client.trace_stream lines w

  -- `DateTime()`, by `std::time(nullptr)`
  unfoldable pub now : M E DateTime
  now w = (ok (w.clock w.reads), record w { reads = suc w.reads })

  -- `DateTime::parseDateTime` does not read its argument.
  unfoldable pub parse_date_time : Str → M E DateTime
  unfolding now
  parse_date_time text = now

  -- `httpClient_.newCall(request).execute()`: what it returned or threw
  unfoldable pub new_call : E.Request → M E (Result E.Response)
  new_call request w =
      let (outcome, http_client) = E.exchange w.client.http_client request in
      (
        ok outcome,
        record w {
          client = record w.client { http_client = http_client };
          sent = w.sent ++ request ∷ [];
        },
      )
