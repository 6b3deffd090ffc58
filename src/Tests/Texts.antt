-- ===== src/Tests/Texts.antt =====
-- Texts, maps, dates and the canonical headers.
use mathlib.Core.List.{Nodup, Nodup-nil, Nodup-cons, mem_of_ne_of_mem, not-mem-nil, Perm, Permᴰ}
use minioclient_cpp.Base.{◌≡◌, ◌≢◌, ◌↔◌, refl, map, if◌then◌else◌, none, some, [], ◌∷◌, arith}
use minioclient_cpp.Text.{Str, str}
use minioclient_cpp.Text.Decimal.{decimal, value_of, value_of-decimal}
use minioclient_cpp.Map.{lookup, insert, keys}
use minioclient_cpp.Map.Laws.{IsSorted, insert_comm}
use minioclient_cpp.Digest.{base16_encode}
use minioclient_cpp.Digest.Hex.{base16_decode, base16_decode-encode}
use minioclient_cpp.DateTime
use minioclient_cpp.DateTime.{amz_date_format, DateTime, Civil, civil_of_days}
use minioclient_cpp.Signer.{Signer, new_signer, is_ignored, set_canonical_headers}
use minioclient_cpp.Signer.Headers.{
  semicolons, last_value, header_names, set_canonical_headers_lem, set_canonical_headers-perm,
}
use minioclient_cpp.Client.Execute.{extract}
use minioclient_cpp.Client.Execute.Extract.{Between, extract_iff}
use minioclient_cpp.Sample.{Message, sample}
use minioclient_cpp.Tests.Setting.{small_request, name, us, ne-nil, moment, first_moment}

new_year : DateTime.to_string moment amz_date_format ≡ str "20181126T153721Z"
unfolding DateTime.to_string str
new_year = refl

leap_day :
    DateTime.to_string (record { time = 951782400; fits = omega arith }) amz_date_format
    ≡ str "20000229T000000Z"
unfolding DateTime.to_string str
leap_day = refl

epoch : ◌≡◌ {A = Civil} (civil_of_days 0) (record { year = 1970; month = 1; day = 1 })
unfolding civil_of_days
epoch = refl

value_of-decimal_example : value_of (decimal 1543246641) ≡ 1543246641
value_of-decimal_example = value_of-decimal 1543246641

base16_decode-encode_example : base16_decode (base16_encode name) ≡ some name
base16_decode-encode_example =
    base16_decode-encode name (omega arith, (omega arith, (omega arith, tt)))

insert_comm_example : insert name us (insert us name []) ≡ insert us name (insert name us [])
insert_comm_example = insert_comm name us us name [] tt (λ e. cc)

abbrev signer : Signer sample
signer = new_signer {E = sample} small_request [] first_moment us name name []

set_canonical_headers_example :
    IsSorted (set_canonical_headers signer).canonical_headers
    × ((k : Str)
        → lookup k (set_canonical_headers signer).canonical_headers ≡ (
            if is_ignored k
            then none
            else last_value sample (sample.headers small_request) (header_names signer) k))
    × ((set_canonical_headers signer).signed_headers
        ≡ semicolons (keys (set_canonical_headers signer).canonical_headers))
set_canonical_headers_example = set_canonical_headers_lem signer (refl, refl)

extract_example :
    (extract (b'x' ∷ b'(' ∷ b'a' ∷ b')' ∷ []) (b'(' ∷ []) (b')' ∷ []) ≡ b'a' ∷ [])
    ↔ Between (b'x' ∷ b'(' ∷ b'a' ∷ b')' ∷ []) (b'(' ∷ []) (b')' ∷ []) (b'a' ∷ [])
extract_example =
    extract_iff (b'x' ∷ b'(' ∷ b'a' ∷ b')' ∷ []) (b'(' ∷ []) (b')' ∷ []) (b'a' ∷ []) (ne-nil refl)

-- The two requests hold the same headers in another order.
abbrev first_order : Message
first_order = record small_request { fields = (name, us) ∷ (us, name) ∷ [] }

abbrev second_order : Message
second_order = record small_request { fields = (us, name) ∷ (name, us) ∷ [] }

same_values :
    (k : Str)
    → sample.header_of (sample.headers first_order) k
      ≡ sample.header_of (sample.headers second_order) k
unfolding lookup
same_values k = ground arith

orders-Perm : Perm (name ∷ us ∷ []) (us ∷ name ∷ [])
orders-Perm = ∣ Permᴰ.swap refl refl ∣₁

name-ne-us : sample.tolower name ≢ sample.tolower us
name-ne-us e = cc

names-Nodup : Nodup (map sample.tolower (name ∷ us ∷ []))
names-Nodup =
    Nodup-cons.1
      (λ m. not-mem-nil (mem_of_ne_of_mem name-ne-us m), Nodup-cons.1 (not-mem-nil, Nodup-nil))

set_canonical_headers-perm_example :
    let s = new_signer {E = sample} first_order [] first_moment us name name [] in
    let t = new_signer {E = sample} second_order [] first_moment us name name [] in
    ((set_canonical_headers s).canonical_headers ≡ (set_canonical_headers t).canonical_headers)
    × ((set_canonical_headers s).signed_headers ≡ (set_canonical_headers t).signed_headers)
set_canonical_headers-perm_example =
    set_canonical_headers-perm (new_signer {E = sample} first_order [] first_moment us name name [])
      (new_signer {E = sample} second_order [] first_moment us name name []) (refl, refl)
      (refl, refl) orders-Perm same_values names-Nodup
