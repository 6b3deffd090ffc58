-- ===== src/Client/Execute/Whole.antt =====
-- A whole call of `execute`, from the state before it.
use minioclient_cpp.Base.{◌≡◌, ap, ◌∙◌}
use minioclient_cpp.Text.{Str}
use minioclient_cpp.Map.{KeyValueMap}
use minioclient_cpp.External.{Env}
use minioclient_cpp.External.Laws.{KnowsBlank}
use minioclient_cpp.Session.{World}
use minioclient_cpp.Client.Execute.{prepare, execute}
use minioclient_cpp.Client.Execute.Prepare.{OnlyReads-prepare}
use minioclient_cpp.Client.Execute.Outcome.{concluded, execute_lem}

-- Making the request reads the clock and changes nothing else. If it throws, then so does
-- `execute`, and the state is that before the call but for the count of the clock's readings:
-- nothing is sent, nothing written, and the client is as before. Else the request is sent, once,
-- and what the server returns or throws decides the result and what is written: the opening lines
-- of the trace, and then those for a success, for an error, or for no answer, where the text of a
-- caught exception is printed first. It is taken that a default-constructed response is empty.
pub execute-concluded :
    {E : Env} (B : KnowsBlank E) (m : E.Method) (region bucket object : Str)
    (headers query : KeyValueMap) (body : Str) (w : World E)
    → let (request, v) = prepare m region bucket object headers query body w in
      execute m region bucket object headers query body w
      ≡ concluded E B bucket object request (record w { reads = v.reads })
execute-concluded {E} B m region bucket object headers query body w =
    execute_lem E B m region bucket object headers query body w
    ∙ ap (concluded E B bucket object (prepare m region bucket object headers query body w).0)
        ((OnlyReads-prepare m region bucket object headers query body).at w)
