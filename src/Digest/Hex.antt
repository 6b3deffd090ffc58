-- ===== src/Digest/Hex.antt =====
-- `base16_encode`: two lower-case hexadecimal digits for each byte, from which the bytes read back.
use mathlib.Core.Option
use mathlib.Core.Bool.{and-eq-true_iff}
use minioclient_cpp.Base.{
  ℕ, zero, suc, ◌+◌, ◌*◌, ◌-◌, ◌<◌, ◌≡◌, refl, ap, Bool, true, ◌&&◌, ◌||◌, Option, none, some, [],
  ◌∷◌, arith, leb, eqb, eqb_iff, if◌then◌else◌, length, All,
}
use minioclient_cpp.Text.{Str}
use minioclient_cpp.Digest.{
  Crypto, IsCrypto, IsByte, high_char, low_char, base16_encode, sha256_base16,
}

-- The value of a hexadecimal digit.
abbrev pub is_hex : ℕ → Bool
is_hex c = leb b'0' c && leb c b'9' || leb b'a' c && leb c b'f'

abbrev hex_value : ℕ → ℕ
hex_value c = if leb c b'9' then c - b'0' else c - b'a' + 10

-- Reads pairs of hexadecimal digits; `none` if the text is not made of such pairs.
pub base16_decode : Str → Option Str
base16_decode [] = some []
base16_decode (h ∷ []) = none
base16_decode (h ∷ l ∷ s) =
    if is_hex h && is_hex l
    then Option.map (λ t. (hex_value h * 16 + hex_value l) ∷ t) (base16_decode s)
    else none

reads_back : ℕ → Bool
reads_back c =
    is_hex (high_char c)
    && is_hex (low_char c)
    && eqb (hex_value (high_char c) * 16 + hex_value (low_char c)) c

all_below : ℕ → Bool
all_below zero = true
all_below (suc n) = reads_back n && all_below n

all_below_sound : (n c : ℕ) → all_below n ≡ true → c < n → reads_back c ≡ true
unfolding all_below
all_below_sound zero c h lt = elim lt [ ]
all_below_sound (suc n) c h lt = ground (arith, all_below_sound n c)

byte_table : all_below 256 ≡ true
unfolding all_below reads_back high_char low_char
byte_table = refl

open_reads_back :
    (c : ℕ)
    → reads_back c ≡ true
    → (is_hex (high_char c)
        && is_hex (low_char c)
        && eqb (hex_value (high_char c) * 16 + hex_value (low_char c)) c)
      ≡ true
unfolding reads_back
open_reads_back c h = h

-- The two characters of a byte are digits, and stand for the byte.
byte_digits :
    (c : ℕ)
    → IsByte c
    → (is_hex (high_char c) ≡ true)
      × (is_hex (low_char c) ≡ true)
      × (hex_value (high_char c) * 16 + hex_value (low_char c) ≡ c)
byte_digits c h =
    let (digits, same) =
      (and-eq-true_iff _ _).0 (open_reads_back c (all_below_sound 256 c byte_table h)) in
    let (high, low) = (and-eq-true_iff _ _).0 digits in (high, low, (eqb_iff _ _).0 same)

-- Encoding doubles the length.
pub length-base16_encode : (s : Str) → length (base16_encode s) ≡ 2 * length s
unfolding base16_encode
length-base16_encode [] = refl
length-base16_encode (c ∷ s) = omega (arith, length-base16_encode s)

abbrev pub IsHex : ℕ → Type 0
IsHex c = is_hex c ≡ true

-- The text of bytes is made of lower-case hexadecimal digits.
pub base16_encode-IsHex : (s : Str) → All IsByte s → All IsHex (base16_encode s)
unfolding base16_encode
base16_encode-IsHex [] h = tt
base16_encode-IsHex (c ∷ s) (b, h) =
    let (high, low, _) = byte_digits c b in (high, (low, base16_encode-IsHex s h))

-- Bytes read back from their hexadecimal text, so that no two texts of bytes share one; a byte is
-- a number below 256.
pub base16_decode-encode : (s : Str) → All IsByte s → base16_decode (base16_encode s) ≡ some s
unfolding base16_encode base16_decode
base16_decode-encode [] h = refl
base16_decode-encode (c ∷ s) (b, h) =
    let (high, low, same) = byte_digits c b in
    rw (high, low, base16_decode-encode s h) (ap (λ (n : ℕ). some (n ∷ s)) same)

module _ (C : Crypto) (L : IsCrypto C) where
  -- The hash that a request carries is 64 hexadecimal digits, which give back the hash. SHA-256
  -- is taken to give 32 bytes.
  pub sha256_base16_lem :
      (s : Str)
      → (length (sha256_base16 C s) ≡ 64) × (base16_decode (sha256_base16 C s) ≡ some (C.sha256 s))
  unfolding sha256_base16
  sha256_base16_lem s = (
    omega (arith, length-base16_encode (C.sha256 s), L.length-sha256 s),
    base16_decode-encode (C.sha256 s) (L.sha256-IsByte s),
  )
