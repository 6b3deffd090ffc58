-- ===== src/Client/Execute/Bracket.antt =====
-- The first and the last line of the trace of a call of `execute`.
use minioclient_cpp.Base.{ℕ, ◌≡◌, ◌≢◌, refl, ap, ap₂, ◌∙◌, Option, none, some, List, [], ◌∷◌, ◌++◌}
use minioclient_cpp.Text.{Str, str}
use minioclient_cpp.Map.{KeyValueMap}
use minioclient_cpp.Errors.{Result, ok, throw}
use minioclient_cpp.External.{Env}
use minioclient_cpp.External.Laws.{KnowsBlank}
use minioclient_cpp.Session.{LogPrinter, World}
use minioclient_cpp.Session.Trace.{printed, printed-append}
use minioclient_cpp.Client.Execute.{end_http, what, prepare, execute}
use minioclient_cpp.Client.Execute.Prepare.{OnlyReads-prepare}
use minioclient_cpp.Client.Execute.Outcome.{
  start_http, answer_lines, log_throw, log_after, concluded, execute_lem,
}

abbrev pub chunk : LogPrinter → Str → ℕ × Str
chunk p line = (p.stream, line ++ str "\n")

-- The call of the HTTP client neither aborts the program nor is undefined.
abbrev pub IsCaught {ℓ} : {A : Type ℓ} → Result A → Type 0
IsCaught (ok a) = Unit
IsCaught (throw e) = what e ≢ none

module _ (E : Env) (p : LogPrinter) where
  log_throw-closes :
      (text : Option Str)
      → text ≢ none
      → (body : List (ℕ × Str)) × (log_throw E (some p) text ≡ body ++ chunk p end_http ∷ [])
  log_throw-closes none ne = absurd (ne refl)
  log_throw-closes (some t) ne = (_ ∷ _ ∷ [], refl)

  log_after-closes :
      (outcome : Result E.Response)
      → IsCaught outcome
      → (body : List (ℕ × Str)) × (log_after E (some p) outcome ≡ body ++ chunk p end_http ∷ [])
  log_after-closes (ok r) h = (
    printed (some p) (answer_lines E r),
    printed-append (some p) (answer_lines E r) (end_http ∷ []),
  )
  log_after-closes (throw e) h = log_throw-closes (what e) h

module _ {E : Env} (B : KnowsBlank E) (m : E.Method) (region bucket object : Str)
    (headers query : KeyValueMap) (body : Str) (w : World E) where
  -- With a trace stream, a call of `execute` that makes its request writes the opening line first
  -- and the closing line last, whatever the server answers and whatever standard exception the
  -- HTTP client throws. It is taken that a default-constructed response is empty.
  pub execute_bracket :
      (p : LogPrinter) (r : E.Request)
      → w.client.trace_stream ≡ some p
      → (prepare m region bucket object headers query body w).0 ≡ ok r
      → IsCaught (E.exchange w.client.http_client r).0
      → (inside : List (ℕ × Str)) × ((execute m region bucket object headers query body w).1.output
          ≡ w.output ++ chunk p start_http ∷ (inside ++ chunk p end_http ∷ []))
  execute_bracket p r traced made fine =
      let (after, closes) = log_after-closes E p (E.exchange w.client.http_client r).0 fine in
      (
        chunk p (E.status_line r) ∷ chunk p (E.header_string r) ∷ after,
        ap (λ x. x.1.output) (execute_lem E B m region bucket object headers query body w)
            ∙ ap₂ (λ q v. (concluded E B bucket object q v).1.output) made
                ((OnlyReads-prepare m region bucket object headers query body).at w)
            ∙ rw (traced, closes),
      )
