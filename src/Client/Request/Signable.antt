-- ===== src/Client/Request/Signable.antt =====
-- What a made request has to sign: names of headers that differ without case, and one that is never
-- ignored.
use minioclient_cpp.Base.{subst, ◌∷◌, ◌≡◌, ◌≢◌, refl, sym, ◌∙◌, true, false, [], arith}
use minioclient_cpp.Text.{Str, str, ◌==◌, Str-discrete, lower}
use minioclient_cpp.Map.{KeyValueMap}
use minioclient_cpp.External.{Env, TextUtils}
use minioclient_cpp.External.Laws.{KeepsNames, Lowers, has_name}
use minioclient_cpp.Session.{MinioClient}
use minioclient_cpp.Signer.{is_ignored}
use minioclient_cpp.Signer.Spec.{signed_map}
use minioclient_cpp.Signer.Verify.{is_signed, is_signed_lem, signed_map-ne-nil}
use minioclient_cpp.Client.Request.{set_if_given, assemble}
use minioclient_cpp.Client.Request.Payload.{date_name, sha_name}

-- Texts that differ without capitals.
pub tolower-ne :
    {T : TextUtils}
    → Lowers T
    → (a b : Str) → (lower a == lower b) ≡ false
    → T.tolower a ≢ T.tolower b
tolower-ne L a b apart e =
    let same : lower a ≡ lower b = sym (L.tolower_lem a) ∙ e ∙ L.tolower_lem b in
    ground (arith, same, apart)

pub date-ne-sha : (lower date_name == lower sha_name) ≡ false
unfolding Str-discrete str
date-ne-sha = refl

pub authorization-ne-sha : (lower (str "Authorization") == lower sha_name) ≡ false
unfolding Str-discrete str
authorization-ne-sha = refl

pub authorization-ne-date : (lower (str "Authorization") == lower date_name) ≡ false
unfolding Str-discrete str
authorization-ne-date = refl

host-ne-others :
    ((lower date_name == str "host") ≡ false)
    × ((lower sha_name == str "host") ≡ false)
    × ((lower (str "User-Agent") == str "host") ≡ false)
unfolding Str-discrete str
host-ne-others = (refl, refl, refl)

lower-host : lower (str "Host") ≡ str "host"
unfolding str
lower-host = refl

host-signed : is_ignored (str "host") ≡ false
unfolding is_ignored Str-discrete str
host-signed = refl

module _ {E : Env} (L : Lowers E.text) (N : KeepsNames E) where
  -- The host is a header of what is built.
  abbrev HasHost : E.RequestBuilder → Type 0
  HasHost b = has_name E.tolower (E.names (E.headers (E.build_request b))) (str "host") ≡ true

  tolower-ne-host : (k : Str) → (lower k == str "host") ≡ false → E.tolower k ≢ str "host"
  tolower-ne-host k apart e =
      let same : lower k ≡ str "host" = sym (L.tolower_lem k) ∙ e in ground (arith, same, apart)

  HasHost-set :
      (b : E.RequestBuilder) (k v : Str)
      → (lower k == str "host") ≡ false
      → HasHost b
      → HasHost (E.set_header b k v)
  HasHost-set b k v apart h = N.names-set_header_ne b k v (str "host") (tolower-ne-host k apart) ∙ h

  HasHost-set_if_given :
      (b : E.RequestBuilder) (k v : Str)
      → (lower k == str "host") ≡ false
      → HasHost b
      → HasHost (set_if_given E b k v)
  HasHost-set_if_given b k [] apart h = h
  HasHost-set_if_given b k (c ∷ v) apart h = HasHost-set b k (c ∷ v) apart h

  HasHost-own : (b : E.RequestBuilder) (v : Str) → HasHost (E.set_header b (str "Host") v)
  HasHost-own b v =
      subst
        (λ k.
          has_name E.tolower (E.names (E.headers (E.build_request (E.set_header b (str "Host") v))))
            k
          ≡ true)
        (L.tolower_lem (str "Host") ∙ lower-host) (N.names-set_header b (str "Host") v)

  host-in-assemble :
      (c : MinioClient E) (m : E.Method) (url : E.HttpUrl) (headers : KeyValueMap)
      (hash : Str × Str) (date content_type body : Str)
      → has_name E.tolower
          (E.names (E.headers (assemble E c m url headers hash date content_type body)))
          (str "host")
        ≡ true
  unfolding assemble
  host-in-assemble c m url headers (sha, md5) date content_type body =
      let (date_apart, sha_apart, agent_apart) = host-ne-others in
      rw (N.names-set_body, N.names-set_method)
        (HasHost-set _ date_name date date_apart (
          HasHost-set_if_given _ sha_name sha sha_apart
            (HasHost-set _ (str "User-Agent") c.user_agent agent_apart (HasHost-own _ _))))

  -- The host of a made request is signed.
  pub assemble-is_signed :
      (c : MinioClient E) (m : E.Method) (url : E.HttpUrl) (headers : KeyValueMap)
      (hash : Str × Str) (date content_type body : Str)
      → is_signed E (assemble E c m url headers hash date content_type body) (str "host") ≡ true
  assemble-is_signed c m url headers hash date content_type body =
      is_signed_lem E _ (str "host") (host-in-assemble c m url headers hash date content_type body)
        host-signed

  -- So a made request always has a header to sign.
  pub assemble-signed_map :
      (c : MinioClient E) (m : E.Method) (url : E.HttpUrl) (headers : KeyValueMap)
      (hash : Str × Str) (date content_type body sha : Str)
      → signed_map E (assemble E c m url headers hash date content_type body) sha ≢ []
  assemble-signed_map c m url headers hash date content_type body sha =
      signed_map-ne-nil E _ sha (str "host")
        (assemble-is_signed c m url headers hash date content_type body)
