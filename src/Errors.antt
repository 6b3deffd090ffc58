-- ===== src/Errors.antt =====
-- minioexceptions.h: the error codes, the exception classes, and what may be thrown.
use minioclient_cpp.Base.{◌≡◌, refl, ◌⊎◌, inl, inr, ◌++◌, if◌then◌else◌}
use minioclient_cpp.Text.{Str, str, ◌==◌}
use minioclient_cpp.Text.Decimal.{ℤ, to_string}

-- `ErrorCode::Code`
pub data Code : Type 0 where
  no_error no_such_bucket no_such_key resource_not_found redirect invalid_uri : Code
  method_not_allowed resource_conflict access_denied unknown_error : Code

pub Code-discrete : Discrete Code
Code-discrete = hlevel

-- `ErrorCode::toString`
unfoldable pub code_text : Code → Str
code_text no_error = str "No error"
code_text no_such_bucket = str "No such bucket"
code_text no_such_key = str "No such key"
code_text resource_not_found = str "Resource not found"
code_text redirect = str "Redirect"
code_text invalid_uri = str "Invalid URI"
code_text method_not_allowed = str "Method not allowed"
code_text resource_conflict = str "Resource conflict"
code_text access_denied = str "Access denied"
code_text unknown_error = str "Unknown error"

-- `ErrorResponseException`: its code, and the text of `what()`.
pub record ErrorResponse : Type 0 where
  pub code : Code
  pub what : Str

-- `ErrorResponseException(ErrorCode::Code)`
unfoldable pub error_of_code : Code → ErrorResponse
unfolding code_text
error_of_code c = record { code = c; what = str "Response error: " ++ code_text c }

-- `ErrorResponseException(ecode, msg)`
unfoldable pub error_of_texts : Str → Str → ErrorResponse
error_of_texts ecode msg = record {
  code = if ecode == str "NoSuchBucket" then no_such_bucket else unknown_error;
  what = ecode ++ (str ": " ++ msg);
}

-- What leaves a function otherwise than by `return`. Each class but the last two derives from
-- `std::exception`, and carries the text of `what()`. `abort` is a failed `assert`, and
-- `undefined` an operation that the language gives no meaning.
pub data Exn : Type 0 where
  error_response : ErrorResponse → Exn
  region_conflict no_response invalid_bucket_name invalid_endpoint invalid_port : Str → Exn
  runtime_error invalid_argument length_error : Str → Exn
  -- `std::bad_alloc`
  bad_alloc : Exn
  -- an exception of the HTTP library
  http_error : Str → Exn
  abort undefined : Exn

-- `InvalidBucketNameException(name, msg)` and `InvalidEndpointException(name, msg)`
abbrev pub named : Str → Str → Str
named name msg = name ++ (str " : " ++ msg)

-- `InvalidPortException(port, msg)`
abbrev pub bad_port : ℤ → Str → Exn
bad_port port msg = invalid_port (to_string port ++ (str " : " ++ msg))

pub data Result {ℓ} (A : Type ℓ) : Type ℓ where
  ok : A → Result A
  throw : Exn → Result A

infixl 5 ◌>>=◌
abbrev pub ◌>>=◌ {ℓ κ} : {A : Type ℓ} {B : Type κ} → Result A → (A → Result B) → Result B
ok a >>= f = f a
throw e >>= f = throw e

pub Result-cases {ℓ} :
    {A : Type ℓ} (r : Result A) → ((a : A) × (r ≡ ok a)) ⊎ ((e : Exn) × (r ≡ throw e))
Result-cases (ok a) = inl (a, refl)
Result-cases (throw e) = inr (e, refl)
