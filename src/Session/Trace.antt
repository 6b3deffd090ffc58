-- ===== src/Session/Trace.antt =====
-- The text that `trace` writes.
use minioclient_cpp.Base.{
  ℕ, ◌≡◌, refl, ap, ◌∙◌, Option, none, some, List, [], ◌∷◌, ◌++◌, append-nil, append_assoc,
}
use minioclient_cpp.Text.{Str, str}
use minioclient_cpp.Errors.{ok}
use minioclient_cpp.External.{Env}
use minioclient_cpp.Session.{LogPrinter, World, println, trace_to, trace}

-- The lines on the stream of a printer, each with its newline.
abbrev pub printed : Option LogPrinter → List Str → List (ℕ × Str)
printed none lines = []
printed (some p) [] = []
printed (some p) (line ∷ lines) = (p.stream, line ++ str "\n") ∷ printed (some p) lines

pub printed-append :
    (p : Option LogPrinter) (ls ms : List Str) → printed p (ls ++ ms) ≡ printed p ls ++ printed p ms
printed-append none ls ms = refl
printed-append (some p) [] ms = refl
printed-append (some p) (l ∷ ls) ms =
    ap (◌∷◌ (p.stream, l ++ str "\n")) (printed-append (some p) ls ms)

module _ {E : Env} where
  trace_to_lem :
      (p : Option LogPrinter) (lines : List Str) (w : World E)
      → trace_to p lines w ≡ (ok tt, record w { output = w.output ++ printed p lines })
  unfolding println
  trace_to_lem none lines w = rw append-nil
  trace_to_lem (some p) [] w = rw append-nil
  trace_to_lem (some p) (line ∷ lines) w =
      trace_to_lem (some p) lines (println p line w).1 ∙ rw append_assoc

  -- With a trace stream, `trace` writes its lines there, and else does nothing.
  pub trace_lem :
      (lines : List Str) (w : World E)
      → trace lines w
        ≡ (ok tt, record w { output = w.output ++ printed w.client.trace_stream lines })
  unfolding trace
  trace_lem lines w = trace_to_lem w.client.trace_stream lines w
