-- ===== src/Client/Execute.antt =====
-- `extract`, `handleError`, `execute`, `executePut` and `executeHead`.
pub mod Extract
pub mod Prepare
pub mod Outcome
pub mod Whole
pub mod Sending
pub mod Bracket
pub mod Signed
pub mod Made
pub mod Headers
pub mod Verified
pub mod Late
pub mod Body
pub mod Faults
pub mod Target
use minioclient_cpp.Base.{
  ℕ, ◌+◌, ◌-◌, Bool, true, false, not, ◌&&◌, ◌||◌, Option, none, some, List, [], ◌∷◌, ◌++◌, eqb,
  if◌then◌else◌, length, is_empty,
}
use minioclient_cpp.Text.{Str, str, find, substr, c_text}
use minioclient_cpp.Text.Decimal.{decimal}
use minioclient_cpp.Map.{KeyValueMap, lookup}
use minioclient_cpp.Errors.{
  Code, no_such_bucket, no_such_key, resource_not_found, redirect, invalid_uri, method_not_allowed,
  resource_conflict, access_denied, unknown_error, ErrorResponse, error_of_code, error_of_texts,
  Exn, error_response, region_conflict, no_response, invalid_bucket_name, invalid_endpoint,
  invalid_port, runtime_error, invalid_argument, length_error, bad_alloc, http_error, abort,
  undefined, Result, ok, throw,
}
use minioclient_cpp.External.{Env}
use minioclient_cpp.Session.{World, M, ◌>>=◌, ◌>>◌, pure, raise, this, trace, print, cout, new_call}
use minioclient_cpp.Signer.{sign_v4}
use minioclient_cpp.Client.Request.{has_keys, create_request}

abbrev pub end_http : Str
end_http = str "----------END-HTTP----------"

-- `extract`, by its two searches: `pos2` is where the end token was found, and `pos1` where the
-- begin token was.
abbrev pub cut : Str → ℕ → Option ℕ → Str
cut source pos1 none = []
cut source pos1 (some pos2) = substr source pos1 (pos2 - pos1)

abbrev pub cut_after : Str → Str → Str → Option ℕ → Str
cut_after source begin_token end_token none = []
cut_after source begin_token end_token (some pos1) =
    let start = pos1 + length begin_token in cut source start (find source end_token start)

unfoldable pub extract : Str → Str → Str → Str
extract source begin_token end_token =
    cut_after source begin_token end_token (find source begin_token 0)

-- The `switch` on the status of a response whose body holds no error.
unfoldable pub code_of_status : ℕ → Str → Str → Code
code_of_status status object bucket =
    if eqb status 307
    then redirect
    else if eqb status 400
    then invalid_uri
    else if eqb status 404
    then (if not (is_empty object)
        then no_such_key
        else if not (is_empty bucket)
        then no_such_bucket
        else resource_not_found)
    else if eqb status 501 || eqb status 405
    then method_not_allowed
    else if eqb status 409
    then (if not (is_empty bucket) then no_such_bucket else resource_conflict)
    else if eqb status 403
    then access_denied
    else unknown_error

-- `what()` of an exception that `catch (const std::exception &)` takes.
abbrev pub what : Exn → Option Str
what (error_response r) = some r.what
what (region_conflict t) = some t
what (no_response t) = some t
what (invalid_bucket_name t) = some t
what (invalid_endpoint t) = some t
what (invalid_port t) = some t
what (runtime_error t) = some t
what (invalid_argument t) = some t
what (length_error t) = some t
what bad_alloc = some (str "std::bad_alloc")
what (http_error t) = some t
what abort = none
what undefined = none

module _ {E : Env} where
  -- `handleError`
  unfoldable pub handle_error : Str → Str → E.Response → M E ErrorResponse
  unfolding extract
  handle_error object bucket response =
      let message = E.response_body response in
      let ecode = extract message (str "<Code>") (str "</Code>") in
      let emsg = extract message (str "<Message>") (str "</Message>") in
      if not (is_empty ecode) || not (is_empty emsg)
      then (do trace (end_http ∷ []); pure (error_of_texts ecode emsg))
      else (do
        trace (if is_empty message then end_http ∷ [] else message ∷ end_http ∷ [])
        pure (error_of_code (code_of_status (E.code response) object bucket)))

  -- The `catch` around the call: an exception with a text is printed, by
  -- `%s`, and leaves an empty response.
  abbrev pub caught : Exn → Option Str → M E E.Response
  caught e none = raise e
  caught e (some text) = do
    print cout (str "MinioClient::execute Error: " ++ (c_text text ++ str "\n"))
    pure E.blank_response

  unfoldable pub received : Result E.Response → M E E.Response
  received (ok response) = pure response
  received (throw e) = caught e (what e)

  -- What `execute` does with the response.
  unfoldable pub answer : Str → Str → E.Response → M E E.Response
  answer bucket object response =
      if E.is_blank response
      then (do trace (str "<NO RESPONSE>" ∷ end_http ∷ []); raise (no_response (str "No response")))
      else (do
        trace (
            (E.protocol response ++ (str " " ++ decimal (E.code response)))
            ∷ E.response_headers response
            ∷ [])
        if E.is_successful response
            then (do trace (end_http ∷ []); pure response)
            else (do e ← handle_error object bucket response; raise (error_response e)))

  -- The request that is sent, signed if the client has both keys.
  unfoldable pub prepare :
      E.Method → Str → Str → Str → KeyValueMap → KeyValueMap → Str → M E E.Request
  prepare method region bucket object headers query body = do
    let content_type : Str = elim (lookup (str "Content-Type") headers) [ none ↦ [] | some t ↦ t ]
    request ← create_request method bucket object region headers query content_type body
    c ← this
    if has_keys E c then sign_v4 request region c.access_key c.secret_key else pure request

  -- `execute`; the value is the `HttpResponse` of the response.
  unfoldable pub execute :
      E.Method → Str → Str → Str → KeyValueMap → KeyValueMap → Str → M E E.Response
  execute method region bucket object headers query body = do
    request ← prepare method region bucket object headers query body
    trace
        (str "---------START-HTTP---------" ∷ E.status_line request ∷ E.header_string request ∷ [])
    outcome ← new_call request
    response ← received outcome
    answer bucket object response
