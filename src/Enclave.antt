-- ===== src/Enclave.antt =====
-- files.h and logprinter.h as they are compiled under `ENCLAVED`.
use minioclient_cpp.Base.{ℕ, ◌≡◌, ◌≢◌, refl, [], ◌∷◌, ◌++◌, All, arith}
use minioclient_cpp.Text.{Str, str, c_text}
use minioclient_cpp.Errors.{undefined, Result, ok}
use minioclient_cpp.External.{Env}
use minioclient_cpp.Session.{LogPrinter, World, M, ◌>>◌, raise, print, println, cout}

-- `Files::size`
unfoldable pub enclave_size : Str → ℕ
enclave_size name = 0

-- `Files::readAll`
unfoldable pub enclave_read_all : Str → Result Str
enclave_read_all name = ok []

module _ {E : Env} where
  -- `basic_ostream::operator<<`: it prints to `stdout`, and then runs off its end without the
  -- reference that it promises.
  unfoldable pub enclave_write : Str → M E Unit
  enclave_write s = do print cout (c_text s); raise undefined

  -- `LogPrinter::println`
  unfoldable pub enclave_println : LogPrinter → Str → M E Unit
  enclave_println p line = enclave_write (line ++ str "\n")

c_text-same : (s : Str) → All (λ c. c ≢ 0) s → c_text s ≡ s
unfolding c_text
c_text-same [] h = refl
c_text-same (c ∷ s) (h, hs) = ground (arith, c_text-same s hs)

-- A line without NUL, on a stream that is `stdout`, is written as `println` writes it.
enclave_println-same :
    {E : Env} (p : LogPrinter) (line : Str) (w : World E)
    → p.stream ≡ cout
    → All (λ c. c ≢ 0) (line ++ str "\n")
    → (enclave_println p line w).1 ≡ (println p line w).1
unfolding enclave_println enclave_write print println
enclave_println-same p line w same given = rw (c_text-same (line ++ str "\n") given, same)
