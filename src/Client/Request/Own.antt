-- ===== src/Client/Request/Own.antt =====
-- Headers that the client does not set itself.
use minioclient_cpp.Base.{◌≡◌, refl, Bool, true, false, not, ◌&&◌, is_empty}
use minioclient_cpp.Text.{Str, str, ◌==◌, Str-discrete, lower}
use minioclient_cpp.Map.{KeyValueMap}
use minioclient_cpp.External.{Env}
use minioclient_cpp.External.Laws.{Lowers}
use minioclient_cpp.Session.{MinioClient}
use minioclient_cpp.Client.Request.Payload.{date_name, sha_name}
use minioclient_cpp.Client.Request.Headers.{same_name, caller_header, header_named}

and-false : (b c : Bool) → c ≡ false → (b && c) ≡ false
and-false true c h = h
and-false false c h = refl

-- The name is none of those that the client sets.
abbrev pub IsForeign : Str → Type 0
IsForeign j =
    ((lower date_name == lower j) ≡ false)
    × ((lower sha_name == lower j) ≡ false)
    × ((lower (str "User-Agent") == lower j) ≡ false)
    × ((lower (str "Host") == lower j) ≡ false)
    × ((lower (str "Content-MD5") == lower j) ≡ false)

pub content_type-IsForeign : IsForeign (str "Content-Type")
unfolding Str-discrete str
content_type-IsForeign = (refl, refl, refl, refl, refl)

pub authorization-IsForeign : IsForeign (str "Authorization")
unfolding Str-discrete str
authorization-IsForeign = (refl, refl, refl, refl, refl)

module _ (E : Env) (L : Lowers E.text) where
  pub same_name-false : (k j : Str) → (lower k == lower j) ≡ false → same_name E k j ≡ false
  same_name-false k j apart = rw (L.tolower_lem k, L.tolower_lem j) apart

  -- Such a header is what the caller gave.
  pub header_named-IsForeign :
      (c : MinioClient E) (url : E.HttpUrl) (headers : KeyValueMap) (hash : Str × Str)
      (date j : Str)
      → IsForeign j
      → header_named E c url headers hash date j
        ≡ caller_header E headers j (E.header (E.build_request (E.set_url E.blank_request url)) j)
  header_named-IsForeign c url headers (sha, md5) date j
        (date_apart, sha_apart, agent_apart, host_apart, md5_apart) =
      rw
        (
          same_name-false date_name j date_apart,
          and-false (not (is_empty sha)) _ (same_name-false sha_name j sha_apart),
          same_name-false (str "User-Agent") j agent_apart,
          same_name-false (str "Host") j host_apart,
          and-false (not (is_empty md5)) _ (same_name-false (str "Content-MD5") j md5_apart),
        )
        refl
