-- ===== src/Client/Execute/Outcome.antt =====
-- `execute` on every branch: what it returns or throws, sends and writes.
use minioclient_cpp.Base.{
  ℕ, ◌≡◌, ◌∙◌, Bool, not, ◌||◌, Option, none, some, List, [], ◌∷◌, ◌++◌, append_assoc, append-nil,
  Bool-cases, inl, inr, if◌then◌else◌, is_empty,
}
use minioclient_cpp.Text.{Str, str, c_text}
use minioclient_cpp.Text.Decimal.{decimal}
use minioclient_cpp.Map.{KeyValueMap}
use minioclient_cpp.Errors.{
  ErrorResponse, error_of_code, error_of_texts, Exn, error_response, no_response, Result, ok, throw,
  Result-cases,
}
use minioclient_cpp.External.{Env}
use minioclient_cpp.External.Laws.{KnowsBlank}
use minioclient_cpp.Session.{LogPrinter, World, M, ◌>>=◌, ◌>>◌, print, cout, new_call, trace}
use minioclient_cpp.Session.Trace.{printed, printed-append, trace_lem}
use minioclient_cpp.Client.Execute.{
  end_http, caught, extract, code_of_status, what, handle_error, received, answer, prepare, execute,
}

abbrev pub start_http : Str
start_http = str "---------START-HTTP---------"

module _ (E : Env) where
  -- The two texts that the body of an error response may hold.
  abbrev pub error_code_text : E.Response → Str
  error_code_text r = extract (E.response_body r) (str "<Code>") (str "</Code>")

  abbrev pub error_message_text : E.Response → Str
  error_message_text r = extract (E.response_body r) (str "<Message>") (str "</Message>")

  abbrev pub has_error_text : E.Response → Bool
  has_error_text r = not (is_empty (error_code_text r)) || not (is_empty (error_message_text r))

  -- The error that a response without success stands for.
  abbrev pub error_of : Str → Str → E.Response → ErrorResponse
  error_of bucket object r =
      if has_error_text r
      then error_of_texts (error_code_text r) (error_message_text r)
      else error_of_code (code_of_status (E.code r) object bucket)

  -- The lines of the trace for such a response, before the last one.
  abbrev error_lines : E.Response → List Str
  error_lines r =
      if has_error_text r
      then []
      else if is_empty (E.response_body r)
      then []
      else E.response_body r ∷ []

  abbrev status_lines : E.Response → List Str
  status_lines r = (E.protocol r ++ (str " " ++ decimal (E.code r))) ∷ E.response_headers r ∷ []

  -- The lines for any response, before the last one.
  abbrev pub answer_lines : E.Response → List Str
  answer_lines r =
      if E.is_blank r
      then str "<NO RESPONSE>" ∷ []
      else if E.is_successful r
      then status_lines r
      else status_lines r ++ error_lines r

  abbrev pub answered : Str → Str → E.Response → Result E.Response
  answered bucket object r =
      if E.is_blank r
      then throw (no_response (str "No response"))
      else if E.is_successful r
      then ok r
      else throw (error_response (error_of bucket object r))

  handle_error_lem :
      (object bucket : Str) (r : E.Response) (w : World E)
      → handle_error object bucket r w ≡ (
        ok (error_of bucket object r),
        record w {
          output = w.output ++ printed w.client.trace_stream (error_lines r ++ end_http ∷ []);
        },
      )
  unfolding handle_error
  handle_error_lem object bucket r w = elim (Bool-cases (has_error_text r)) [
    | inl h ↦ rw h (rw trace_lem)
    | inr h ↦ rw h (elim (Bool-cases (is_empty (E.response_body r))) [
      | inl k ↦ rw k (rw trace_lem)
      | inr k ↦ rw k (rw trace_lem)
    ])
  ]

  answer_lem :
      (bucket object : Str) (r : E.Response) (w : World E)
      → answer bucket object r w ≡ (
        answered bucket object r,
        record w {
          output = w.output ++ printed w.client.trace_stream (answer_lines r ++ end_http ∷ []);
        },
      )
  unfolding answer
  answer_lem bucket object r w = elim (Bool-cases (E.is_blank r)) [
    | inl blank ↦ rw blank (rw trace_lem)
    | inr given ↦ rw given (elim (Bool-cases (E.is_successful r)) [
      | inl good ↦ rw (good, trace_lem) (rw (trace_lem, append_assoc, ← printed-append))
      | inr bad ↦
          rw (bad, trace_lem) (rw (handle_error_lem, append_assoc, ← printed-append, append_assoc))
    ])
  ]

  -- The result of `execute`, of what the call of the HTTP client returned or threw.
  abbrev pub settled_throw : Exn → Option Str → Result E.Response
  settled_throw e none = throw e
  settled_throw e (some text) = throw (no_response (str "No response"))

  abbrev pub settled : Str → Str → Result E.Response → Result E.Response
  settled bucket object (ok r) = answered bucket object r
  settled bucket object (throw e) = settled_throw e (what e)

  -- What is written before the call and after it.
  abbrev pub log_before : Option LogPrinter → E.Request → List (ℕ × Str)
  log_before p r = printed p (start_http ∷ E.status_line r ∷ E.header_string r ∷ [])

  abbrev pub log_throw : Option LogPrinter → Option Str → List (ℕ × Str)
  log_throw p none = []
  log_throw p (some text) =
      (cout, str "MinioClient::execute Error: " ++ (c_text text ++ str "\n"))
      ∷ printed p (str "<NO RESPONSE>" ∷ end_http ∷ [])

  abbrev pub log_after : Option LogPrinter → Result E.Response → List (ℕ × Str)
  log_after p (ok r) = printed p (answer_lines r ++ end_http ∷ [])
  log_after p (throw e) = log_throw p (what e)

module _ (E : Env) (B : KnowsBlank E) where
  after_throw :
      (bucket object : Str) (e : Exn) (text : Option Str) (w : World E)
      → (caught e text >>= answer bucket object) w ≡ (
        settled_throw E e text,
        record w { output = w.output ++ log_throw E w.client.trace_stream text },
      )
  unfolding print answer
  after_throw bucket object e none w = rw append-nil
  after_throw bucket object e (some t) w =
      rw (B.is_blank-blank_response, trace_lem) (rw append_assoc)

  after_call :
      (bucket object : Str) (outcome : Result E.Response) (w : World E)
      → (received outcome >>= answer bucket object) w ≡ (
        settled E bucket object outcome,
        record w { output = w.output ++ log_after E w.client.trace_stream outcome },
      )
  unfolding received
  after_call bucket object (ok r) w = answer_lem E bucket object r w
  after_call bucket object (throw e) w = after_throw bucket object e (what e) w

  -- The state after a request has been given to the HTTP client.
  abbrev pub after_sending : Str → Str → E.Request → World E → Result E.Response × World E
  after_sending bucket object r w =
      let (outcome, http_client) = E.exchange w.client.http_client r in
      (
        settled E bucket object outcome,
        record w {
          client = record w.client { http_client = http_client };
          sent = w.sent ++ r ∷ [];
          output =
              w.output
              ++ (log_before E w.client.trace_stream r
                  ++ log_after E w.client.trace_stream outcome);
        },
      )

  abbrev pub concluded : Str → Str → Result E.Request → World E → Result E.Response × World E
  concluded bucket object (ok r) w = after_sending bucket object r w
  concluded bucket object (throw e) w = (throw e, w)

  -- All that `execute` does with the request that it has made.
  abbrev sending : Str → Str → E.Request → M E E.Response
  sending bucket object r = do
    trace (start_http ∷ E.status_line r ∷ E.header_string r ∷ [])
    outcome ← new_call r
    response ← received outcome
    answer bucket object response

  sending_lem :
      (bucket object : Str) (r : E.Request) (w : World E)
      → sending bucket object r w ≡ after_sending bucket object r w
  unfolding new_call
  sending_lem bucket object r w =
      rw trace_lem
        (after_call bucket object (E.exchange w.client.http_client r).0 _ ∙ rw append_assoc)

  -- `execute` throws what making the request throws, and then does nothing more. Else it sends
  -- that one request, and the outcome decides the result and the text that is written.
  -- It is taken that a default-constructed response is empty.
  pub execute_lem :
      (m : E.Method) (region bucket object : Str) (headers query : KeyValueMap) (body : Str)
      (w : World E)
      → let (request, v) = prepare m region bucket object headers query body w in
        execute m region bucket object headers query body w ≡ concluded bucket object request v
  unfolding execute
  execute_lem m region bucket object headers query body w =
      elim (Result-cases (prepare m region bucket object headers query body w).0) [
        | inl (r, e) ↦ rw e (sending_lem bucket object r _)
        | inr (e, p) ↦ rw p
      ]
