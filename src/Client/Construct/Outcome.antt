-- ===== src/Client/Construct/Outcome.antt =====
-- When the constructors make a client, and what they throw.
use mathlib.Core.Option
use minioclient_cpp.Base.{
  ℕ, suc, ◌+◌, ◌≤◌, ◌≡◌, ◌≢◌, ◌⊎◌, inl, inr, refl, ap, ◌∙◌, Bool, true, false, none, some, Option,
  [], ◌∷◌, arith, Bool-cases, eqb,
}
use minioclient_cpp.Text.{Str, str, starts_with, search_for, find, ◌==◌}
use minioclient_cpp.Text.Decimal.{ℤ, pos, negsuc}
use minioclient_cpp.Text.Find.{find-append}
use minioclient_cpp.Errors.{Exn, Result, ok, throw, Result-cases, invalid_endpoint, bad_port, named}
use minioclient_cpp.External.{Env}
use minioclient_cpp.Session.{MinioClient}
use minioclient_cpp.Client.Construct.{
  default_user_agent, out_of_range, base_of, or_new_client, construct, construct_with_port,
  construct_default, is_start,
}

-- The ports that the constructor takes.
abbrev pub IsPort : ℤ → Type 0
IsPort (pos n) = n ≤ 65535
IsPort (negsuc n) = ⊥

out_of_range_lem :
    (port : ℤ)
    → ((out_of_range port ≡ false) × IsPort port) ⊎ ((out_of_range port ≡ true) × ¬ IsPort port)
out_of_range_lem (pos n) = ground arith
out_of_range_lem (negsuc n) = inr (refl, λ h. h)

module _ (E : Env) where
  -- The URL of an endpoint with no path behind it.
  abbrev pub Serves : Str → E.HttpUrl → Type 0
  Serves endpoint url = (E.parse_url endpoint ≡ ok url) × (E.encoded_path url ≡ str "/")

  -- The client that is made.
  abbrev pub client_of :
      ℤ → Str → Str → Str → Bool → Option E.HttpClient → E.HttpUrl → MinioClient E
  client_of port access_key secret_key region secure http_client url = record {
    region = region;
    access_key = access_key;
    secret_key = secret_key;
    user_agent = default_user_agent;
    trace_stream = none;
    http_client = or_new_client E http_client;
    base_url = base_of E port secure url;
  }

  module _ (port : ℤ) (access_key secret_key region : Str) (secure : Bool)
      (http_client : Option E.HttpClient) where
    abbrev pub constructed : Str → Result (MinioClient E)
    constructed endpoint = construct E endpoint port access_key secret_key region secure http_client

    -- The condition under which there is a client.
    abbrev pub IsServed : Str → Type 0
    IsServed endpoint = (endpoint ≢ []) × IsPort port × ((url : E.HttpUrl) × Serves endpoint url)

    constructed-bad_port :
        (c : ℕ) (endpoint : Str)
        → out_of_range port ≡ true
        → constructed (c ∷ endpoint)
          ≡ throw (bad_port port (str "port must be in range of 1 to 65535"))
    unfolding construct
    constructed-bad_port c endpoint bad = rw bad

    constructed-unparsed :
        (c : ℕ) (endpoint : Str) (e : Exn)
        → out_of_range port ≡ false
        → E.parse_url (c ∷ endpoint) ≡ throw e
        → constructed (c ∷ endpoint) ≡ throw e
    unfolding construct
    constructed-unparsed c endpoint e fine failed = rw (fine, failed)

    constructed-path :
        (c : ℕ) (endpoint : Str) (url : E.HttpUrl)
        → out_of_range port ≡ false
        → E.parse_url (c ∷ endpoint) ≡ ok url
        → (E.encoded_path url == str "/") ≡ false
        → constructed (c ∷ endpoint)
          ≡ throw (invalid_endpoint (named (c ∷ endpoint) (str "no path allowed in endpoint")))
    unfolding construct
    constructed-path c endpoint url fine parsed other = rw (fine, parsed, other)

    constructed-ok :
        (c : ℕ) (endpoint : Str) (url : E.HttpUrl)
        → out_of_range port ≡ false
        → E.parse_url (c ∷ endpoint) ≡ ok url
        → (E.encoded_path url == str "/") ≡ true
        → constructed (c ∷ endpoint)
          ≡ ok (client_of port access_key secret_key region secure http_client url)
    unfolding construct
    constructed-ok c endpoint url fine parsed same = rw (fine, parsed, same)

    -- The constructor makes a client exactly if the endpoint is not empty, the port is from 0 to
    -- 65535, and the endpoint parses to a URL with the path "/"; the client then holds the keys and
    -- the region as given, no trace stream, and the URL with the scheme for `secure` and the port,
    -- if that is not 0. In every other case it throws.
    pub construct_lem :
        (endpoint : Str)
        → (IsServed endpoint
            × ((url : E.HttpUrl) × Serves endpoint url
                × (constructed endpoint
                    ≡ ok (client_of port access_key secret_key region secure http_client url))))
          ⊎ ((¬ IsServed endpoint) × ((e : Exn) × (constructed endpoint ≡ throw e)))
    unfolding construct
    construct_lem [] = inr (λ (ne, _, _). ne refl, (_, refl))
    construct_lem (c ∷ endpoint) = elim (out_of_range_lem port) [
      | inr (bad, no_port) ↦
          inr (λ (_, given, _). no_port given, (_, constructed-bad_port c endpoint bad))
      | inl (fine, is_port) ↦ elim (Result-cases (E.parse_url (c ∷ endpoint))) [
        | inr (e, failed) ↦
            inr (λ (_, _, (v, (parsed, _))). cc, (e, constructed-unparsed c endpoint e fine failed))
        | inl (url, parsed) ↦ elim (Bool-cases (E.encoded_path url == str "/")) [
          | inl same ↦
              let serves : Serves (c ∷ endpoint) url = (parsed, ground arith) in
              inl (
                (λ e. cc, is_port, (url, serves)),
                (url, serves, constructed-ok c endpoint url fine parsed same),
              )
          | inr other ↦ inr (
            λ (_, _, (v, (again, slash))). ground arith,
            (_, constructed-path c endpoint url fine parsed other),
          )
        ]
      ]
    ]

is_start-later : (found : Option ℕ) → is_start (Option.map suc found) ≡ false
is_start-later none = refl
is_start-later (some i) = ground arith

is_start-search : (t s : Str) → is_start (search_for t s) ≡ starts_with s t
unfolding search_for
is_start-search t [] = ground arith
is_start-search t (c ∷ s) = elim (Bool-cases (starts_with (c ∷ s) t)) [
  | inl here ↦ rw here
  | inr not_here ↦ rw not_here (is_start-later (search_for t s))
]

is_start-shift : (found : Option ℕ) → is_start (Option.map (λ i. 0 + i) found) ≡ is_start found
is_start-shift none = refl
is_start-shift (some i) = ap (λ (n : ℕ). eqb n 0) (omega arith)

is_start-find : (s t : Str) → is_start (find s t 0) ≡ starts_with s t
is_start-find s t =
    ap is_start (find-append [] t s) ∙ is_start-shift (search_for t s) ∙ is_start-search t s

-- The constructors that take no `secure` use HTTPS exactly for an endpoint that starts with
-- "https://", with no region; the one that takes no port leaves the URL's port alone, as the
-- port 0 does.
pub construct_with_port_lem :
    (E : Env) (endpoint : Str) (port : ℤ) (access_key secret_key : Str)
    → (construct_with_port E endpoint port access_key secret_key
        ≡ construct E endpoint port access_key secret_key []
            (starts_with endpoint (str "https://"))
            none)
      × (construct_default E endpoint access_key secret_key
          ≡ construct E endpoint
              (pos 0)
              access_key
              secret_key
              []
              (starts_with endpoint (str "https://"))
              none)
unfolding construct_default
construct_with_port_lem E endpoint port access_key secret_key =
    let same = is_start-find endpoint (str "https://") in
    (
      ap (λ secure. construct E endpoint port access_key secret_key [] secure none) same,
      ap (λ secure. construct E endpoint (pos 0) access_key secret_key [] secure none) same,
    )
