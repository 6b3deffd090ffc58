-- ===== src/Client/Construct/Made.antt =====
-- The client that the constructors make: its URL, keys and region.
use minioclient_cpp.Base.{
  ℕ, zero, suc, ◌≡◌, ◌⊎◌, inl, inr, refl, sym, ap, subst, ◌∙◌, Bool, true, false, Option, none,
  some, [],
}
use minioclient_cpp.Text.{Str, str, starts_with}
use minioclient_cpp.Text.Decimal.{ℤ, pos, negsuc}
use minioclient_cpp.Errors.{Exn, Result, ok, throw}
use minioclient_cpp.External.{Env}
use minioclient_cpp.External.Laws.{BuildsUrls, KeepsServers}
use minioclient_cpp.Session.{MinioClient}
use minioclient_cpp.Client.Construct.{
  base_of, or_new_client, construct, construct_in_region, construct_secure, construct_with_port,
  construct_default,
}
use minioclient_cpp.Client.Construct.Outcome.{
  IsPort, Serves, IsServed, client_of, construct_lem, construct_with_port_lem,
}

module _ (E : Env) where
  -- The URL in the scheme that `secure` asks for.
  abbrev in_scheme : Bool → E.HttpUrl → E.HttpUrl
  in_scheme true url = E.build_url (E.set_scheme (E.new_builder url) E.https_scheme)
  in_scheme false url = E.build_url (E.set_scheme (E.new_builder url) E.http_scheme)

  -- The port is the one that is asked for; for 0 it is what setting the scheme gives.
  abbrev HasPort : ℤ → Bool → E.HttpUrl → E.HttpUrl → Type 0
  HasPort (pos zero) secure url base = E.port base ≡ E.port (in_scheme secure url)
  HasPort (pos (suc n)) secure url base = E.port base ≡ suc n
  HasPort (negsuc n) secure url base = ⊥

  -- The URL of the client stands for the server of the endpoint.
  pub record IsBase (port : ℤ) (secure : Bool) (url base : E.HttpUrl) : Type 0 where
    pub is_https-secure : E.is_https base ≡ secure
    pub port-asked : HasPort port secure url base
    pub host-same : E.host base ≡ E.host url
    pub path-same : E.encoded_path base ≡ E.encoded_path url
    pub query-same : E.encoded_query base ≡ E.encoded_query url

  abbrev given_or_new : Option E.HttpClient → E.HttpClient
  given_or_new none = E.new_client
  given_or_new (some http_client) = http_client

  module _ (port : ℤ) (access_key secret_key region : Str) (secure : Bool)
      (http_client : Option E.HttpClient) (endpoint : Str) where
    -- The client is for the URL of the endpoint, and has what was given.
    abbrev Holds : E.HttpUrl → MinioClient E → Type 0
    Holds url c =
        IsBase port secure url c.base_url
        × (c ≡ record {
          region = region;
          access_key = access_key;
          secret_key = secret_key;
          user_agent = str "A-SKY WriterProxy 0.0001";
          trace_stream = none;
          http_client = given_or_new http_client;
          base_url = c.base_url;
        })

    -- There is such a client for an endpoint that is served, and an exception for any other.
    abbrev pub Makes : Result (MinioClient E) → Type 0
    Makes result =
        (IsServed E port access_key secret_key region secure http_client endpoint
          × ((url : E.HttpUrl) × Serves E endpoint url
              × ((c : MinioClient E) × (result ≡ ok c) × Holds url c)))
        ⊎ ((¬ IsServed E port access_key secret_key region secure http_client endpoint)
            × ((e : Exn) × (result ≡ throw e)))

  given_or_new_lem :
      (http_client : Option E.HttpClient) → or_new_client E http_client ≡ given_or_new http_client
  given_or_new_lem none = refl
  given_or_new_lem (some http_client) = refl

module _ {E : Env} (U : BuildsUrls E) (S : KeepsServers E) where
  in_scheme-is_https :
      (secure : Bool) (url : E.HttpUrl) → E.is_https (in_scheme E secure url) ≡ secure
  in_scheme-is_https true url = S.is_https-https (E.new_builder url)
  in_scheme-is_https false url = S.is_https-http (E.new_builder url)

  base_of-nil :
      (secure : Bool) (url : E.HttpUrl) → base_of E (pos zero) secure url ≡ in_scheme E secure url
  base_of-nil true url = refl
  base_of-nil false url = refl

  in_scheme-IsBase :
      (secure : Bool) (url : E.HttpUrl) → IsBase E (pos zero) secure url (in_scheme E secure url)
  in_scheme-IsBase true url = record {
    is_https-secure = in_scheme-is_https true url;
    port-asked = refl;
    host-same = S.host-set_scheme _ _ ∙ S.host-new_builder url;
    path-same = U.path-set_scheme _ _ ∙ U.path-new_builder url;
    query-same = U.query-set_scheme _ _ ∙ U.query-new_builder url;
  }
  in_scheme-IsBase false url = record {
    is_https-secure = in_scheme-is_https false url;
    port-asked = refl;
    host-same = S.host-set_scheme _ _ ∙ S.host-new_builder url;
    path-same = U.path-set_scheme _ _ ∙ U.path-new_builder url;
    query-same = U.query-set_scheme _ _ ∙ U.query-new_builder url;
  }

  with_port-IsBase :
      (n : ℕ) (secure : Bool) (url : E.HttpUrl)
      → IsBase E (pos (suc n)) secure url (base_of E (pos (suc n)) secure url)
  with_port-IsBase n secure url =
      let b = in_scheme-IsBase secure url in
      record {
        is_https-secure =
            S.is_https-set_port _ _ ∙ ap E.is_https (base_of-nil secure url) ∙ b.is_https-secure;
        port-asked = S.port-set_port _ _;
        host-same = S.host-set_port _ _ ∙ ap E.host (base_of-nil secure url) ∙ b.host-same;
        path-same = U.path-set_port _ _ ∙ ap E.encoded_path (base_of-nil secure url) ∙ b.path-same;
        query-same =
            U.query-set_port _ _ ∙ ap E.encoded_query (base_of-nil secure url) ∙ b.query-same;
      }

  base_of-IsBase :
      (port : ℤ) (secure : Bool) (url : E.HttpUrl)
      → IsPort port
      → IsBase E port secure url (base_of E port secure url)
  base_of-IsBase (pos zero) secure url h =
      subst (IsBase E (pos zero) secure url) (sym (base_of-nil secure url))
        (in_scheme-IsBase secure url)
  base_of-IsBase (pos (suc n)) secure url h = with_port-IsBase n secure url
  base_of-IsBase (negsuc n) secure url h = absurd h

  -- The constructor makes a client exactly if the endpoint is not empty, the port is from 0 to
  -- 65535, and the endpoint parses to a URL with the path "/"; in every other case it throws. The
  -- URL of the client is HTTPS exactly if `secure` is set; it has the given port, or for 0 the one
  -- that it has once the scheme is set, and the host, path and query of the endpoint. The client holds the
  -- keys and the region as given, the given HTTP client or else a new one, and no trace stream. It
  -- is taken that the URL builder sets the scheme and the port that it is given, and leaves all
  -- else alone.
  pub construct-Makes :
      (endpoint : Str) (port : ℤ) (access_key secret_key region : Str) (secure : Bool)
      (http_client : Option E.HttpClient)
      → Makes E port access_key secret_key region secure http_client endpoint
          (construct E endpoint port access_key secret_key region secure http_client)
  construct-Makes endpoint port access_key secret_key region secure http_client =
      elim (construct_lem E port access_key secret_key region secure http_client endpoint) [
        | inl (served, (url, here, made)) ↦ inl (
          served,
          (
            url,
            here,
            (
              client_of E port access_key secret_key region secure http_client url,
              made,
              (
                base_of-IsBase port secure url served.1,
                ap
                    (λ h. record (client_of E port access_key secret_key region secure none url) {
                      http_client = h;
                    })
                    (given_or_new_lem E http_client),
              ),
            ),
          ),
        )
        | inr thrown ↦ inr thrown
      ]

  -- The four other constructors make a client, or throw, as the first one does. Where no HTTP
  -- client is given, it is a new one; where no region is given, it is empty; where `secure` is not
  -- given, the URL of the client is HTTPS exactly if the endpoint starts with "https://"; and
  -- where no port is given, it is the one that the URL has once the scheme is set. It is taken
  -- that the URL builder sets the scheme and the port that it is given, and leaves all else alone.
  pub constructors-Makes :
      (endpoint : Str) (port : ℤ) (access_key secret_key region : Str) (secure : Bool)
      → Makes E port access_key secret_key region secure none endpoint
          (construct_in_region E endpoint port access_key secret_key region secure)
        × Makes E port access_key secret_key [] secure none endpoint
            (construct_secure E endpoint port access_key secret_key secure)
        × Makes E port access_key secret_key []
            (starts_with endpoint (str "https://"))
            none
            endpoint
            (construct_with_port E endpoint port access_key secret_key)
        × Makes E
            (pos 0)
            access_key
            secret_key
            []
            (starts_with endpoint (str "https://"))
            none
            endpoint
            (construct_default E endpoint access_key secret_key)
  unfolding construct_in_region construct_secure
  constructors-Makes endpoint port access_key secret_key region secure =
      let https = starts_with endpoint (str "https://") in
      let (with_port, default) = construct_with_port_lem E endpoint port access_key secret_key in
      (
        construct-Makes endpoint port access_key secret_key region secure none,
        construct-Makes endpoint port access_key secret_key [] secure none,
        subst (Makes E port access_key secret_key [] https none endpoint) (sym with_port)
            (construct-Makes endpoint port access_key secret_key [] https none),
        subst (Makes E (pos 0) access_key secret_key [] https none endpoint) (sym default)
            (construct-Makes endpoint (pos 0) access_key secret_key [] https none),
      )
