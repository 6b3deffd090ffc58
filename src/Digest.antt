-- ===== src/Digest.antt =====
-- digest.h and digest.hpp. OpenSSL's own functions are the parameter `Crypto`.
pub mod Hex
use Prim.Native.Nat.{bit_and}
use minioclient_cpp.Base.{
  ℕ, zero, suc, ◌+◌, ◌/◌, ◌<◌, ◌≡◌, [], ◌∷◌, length, is_empty, eqb, if◌then◌else◌, All,
}
use minioclient_cpp.Text.{Str, str}
use minioclient_cpp.Errors.{Result, ok, throw, abort}

pub record Crypto : Type 0 where
  -- `HMAC_Init_ex`, `HMAC_Update`, `HMAC_Final` under `EVP_sha256()`: the 32-byte buffer and `len`
  pub hmac : Str → Str → Str × ℕ
  -- `MD5_Init`, `MD5_Update`, `MD5_Final`: the buffer `hash`
  pub md5 : Str → Str
  -- `SHA256_Init`, `SHA256_Update`, `SHA256_Final`
  pub sha256 : Str → Str
  -- what a `BIO_f_base64` filter with `BIO_FLAGS_BASE64_NO_NL` leaves in memory
  pub base64 : Str → Str

abbrev pub IsByte : ℕ → Type 0
IsByte c = c < 256

-- The sizes that OpenSSL documents for the results, which are bytes.
pub record IsCrypto (C : Crypto) : Type 0 where
  pub hmac-len : (k d : Str) → (C.hmac k d).1 ≡ 32
  pub length-hmac : (k d : Str) → length (C.hmac k d).0 ≡ 32
  pub hmac-IsByte : (k d : Str) → All IsByte (C.hmac k d).0
  pub length-md5 : (d : Str) → length (C.md5 d) ≡ 16
  pub length-sha256 : (d : Str) → length (C.sha256 d) ≡ 32
  pub sha256-IsByte : (d : Str) → All IsByte (C.sha256 d)

-- `dict[i]`; no index of the program is out of bounds.
pub char_at : Str → ℕ → ℕ
char_at [] i = 0
char_at (c ∷ s) zero = c
char_at (c ∷ s) (suc i) = char_at s i

abbrev pub dict : Str
dict = str "0123456789abcdef"

-- The characters for a byte: its high half, `dict[(c & 0xf0) >> 4]`, then its low half.
unfoldable pub high_char : ℕ → ℕ
unfolding char_at str
high_char c = char_at dict (bit_and c 0xf0 / 16)

-- `dict[c & 0x0f]`
unfoldable pub low_char : ℕ → ℕ
unfolding char_at str
low_char c = char_at dict (bit_and c 0x0f)

unfoldable pub base16_encode : Str → Str
unfolding high_char low_char
base16_encode [] = []
base16_encode (c ∷ s) = high_char c ∷ low_char c ∷ base16_encode s

module _ (C : Crypto) where
  -- The `assert` on `len` stands before the return.
  unfoldable pub hmac_sha256 : Str → Str → Result Str
  hmac_sha256 k content =
      let (hmac, len) = C.hmac k content in if eqb len 32 then ok hmac else throw abort

  unfoldable pub base64_encode : Str → Str
  base64_encode s = if is_empty s then [] else C.base64 s

  unfoldable pub md5_hash : Str → Str
  md5_hash input = C.md5 input

  unfoldable pub sha256_hash : Str → Str
  sha256_hash input = C.sha256 input

  unfoldable pub md5_base64 : Str → Str
  unfolding md5_hash base64_encode
  md5_base64 content = base64_encode (md5_hash content)

  unfoldable pub sha256_base64 : Str → Str
  unfolding sha256_hash base64_encode
  sha256_base64 content = base64_encode (sha256_hash content)

  unfoldable pub md5_base16 : Str → Str
  unfolding md5_hash base16_encode
  md5_base16 content = base16_encode (md5_hash content)

  unfoldable pub sha256_base16 : Str → Str
  unfolding sha256_hash base16_encode
  sha256_base16 content = base16_encode (sha256_hash content)
