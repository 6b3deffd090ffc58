-- ===== src/Tests/Signing.antt =====
-- Signing at concrete requests.
use minioclient_cpp.Base.{ap, arith, ◌≡◌, ◌≢◌, refl, [], ◌∷◌}
use minioclient_cpp.Text.{Str, str, Str-discrete}
use minioclient_cpp.Map.{lookup, insert}
use minioclient_cpp.Errors.{ok}
use minioclient_cpp.Signer.{sign_v4}
use minioclient_cpp.Signer.Query.{query_text, query_map, HasParams}
use minioclient_cpp.Signer.Canonical.{IsPlain}
use minioclient_cpp.Signer.Binding.{Binds, IsSigned, said_hash, sign_v4-binds}
use minioclient_cpp.Signer.Spec.{signed_entries, signed_map, authorization_text}
use minioclient_cpp.Signer.Correct.{sign_v4_lem}
use minioclient_cpp.Sample.{Message, join_entries, sample, split_text}
use minioclient_cpp.Sample.Lawful.{sample-IsCrypto, sample-Joins, sample-KeepsHeaders}
use minioclient_cpp.Tests.Setting.{us, name, fresh_world, small_request, ne-nil, moment}

small_request-HasParams : HasParams sample (sample.request_url small_request)
unfolding split_text str Str-discrete
small_request-HasParams = (ne-nil refl, tt)

small_request-signed_map : signed_map sample small_request [] ≢ []
unfolding signed_entries insert Str-discrete str
small_request-signed_map = ne-nil refl

sign_v4_example : sign_v4 small_request (b'r' ∷ []) (b'k' ∷ []) (b's' ∷ []) fresh_world ≡ (
  ok (
      sample.build_request (
        sample.set_header (sample.from_request small_request) (str "Authorization") (
          authorization_text sample small_request
            (sample.header small_request (str "x-amz-content-sha256"))
            moment
            (b'r' ∷ [])
            (b'k' ∷ [])
            (b's' ∷ [])))),
  record fresh_world { reads = 1 },
)
sign_v4_example =
    sign_v4_lem fresh_world small_request (b'r' ∷ []) (b'k' ∷ []) (b's' ∷ []) sample-IsCrypto
      sample-Joins small_request-HasParams small_request-signed_map

small_request-IsPlain :
    IsPlain sample small_request (sample.header small_request (str "x-amz-content-sha256"))
unfolding split_text str Str-discrete signed_entries insert query_text query_map lookup join_entries
small_request-IsPlain = omega arith

-- A request that differs in its body alone, of which it states no hash.
abbrev other_body : Message
other_body = record small_request { body = name }

abbrev small_text : Str
small_text =
    authorization_text sample small_request
      (sample.header small_request (str "x-amz-content-sha256")) moment us us us

signed_small : IsSigned sample small_request us us us fresh_world small_text
signed_small = (
  _,
  ap (λ x. x.0)
      (sign_v4_lem fresh_world small_request us us us sample-IsCrypto sample-Joins
        small_request-HasParams small_request-signed_map),
  sample-KeepsHeaders.header-set_header (sample.from_request small_request) _ _,
)

signed_other : IsSigned sample other_body us us us fresh_world small_text
signed_other = (
  _,
  ap (λ x. x.0)
      (sign_v4_lem fresh_world other_body us us us sample-IsCrypto sample-Joins
        small_request-HasParams small_request-signed_map),
  sample-KeepsHeaders.header-set_header (sample.from_request other_body) _ _,
)

sign_v4-binds_example :
    Binds sample small_request other_body
      (said_hash sample small_request)
      (said_hash sample other_body)
      us
      us
      moment
      moment
sign_v4-binds_example =
    sign_v4-binds sample-IsCrypto sample-Joins sample-KeepsHeaders small_request other_body us us us
      fresh_world fresh_world small_text small_request-HasParams small_request-HasParams
      small_request-signed_map small_request-signed_map small_request-IsPlain small_request-IsPlain
      signed_small signed_other
