-- ===== src/External/Laws.antt =====
-- What the program relies on in the code outside the repository.
use minioclient_cpp.Base.{
  ℕ, ◌≡◌, ◌≢◌, true, [], ◌∷◌, ◌++◌, eqb, if◌then◌else◌, Bool, false, List, ◌||◌,
}
use minioclient_cpp.Text.{Str, ◌==◌, lower}
use minioclient_cpp.Map.{KeyValueMap}
use minioclient_cpp.External.{TextUtils, Env}

-- A request holds the headers that its builder was given, under names compared without case, and
-- the other setters leave them alone.
pub record KeepsHeaders (E : Env) : Type 0 where
  pub header-case :
      (r : E.Request) (k j : Str) → E.tolower k ≡ E.tolower j → E.header r k ≡ E.header r j
  pub header-set_header :
      (b : E.RequestBuilder) (k v : Str) → E.header (E.build_request (E.set_header b k v)) k ≡ v
  pub header-set_header_ne :
      (b : E.RequestBuilder) (k v j : Str)
      → E.tolower k ≢ E.tolower j
      → E.header (E.build_request (E.set_header b k v)) j ≡ E.header (E.build_request b) j
  pub header-set_method :
      (b : E.RequestBuilder) (m j : Str)
      → E.header (E.build_request (E.set_method b m)) j ≡ E.header (E.build_request b) j
  pub header-set_body :
      (b : E.RequestBuilder) (t d j : Str)
      → E.header (E.build_request (E.set_body b t d)) j ≡ E.header (E.build_request b) j
  pub header-from_request :
      (r : E.Request) (j : Str) → E.header (E.build_request (E.from_request r)) j ≡ E.header r j

-- A request starts without headers.
pub record StartsBare (E : Env) : Type 0 where
  pub header-blank_request :
      (u : E.HttpUrl) (j : Str) → E.header (E.build_request (E.set_url E.blank_request u)) j ≡ []

-- Whether one of the names is `k`, compared without case; `k` has no capitals.
unfoldable pub has_name : (Str → Str) → List Str → Str → Bool
has_name tolower [] k = false
has_name tolower (name ∷ names) k = k == tolower name || has_name tolower names k

-- The headers of a request have the values that `header` gives, a header more adds its name alone,
-- under whatever case, and the other setters add none.
pub record KeepsNames (E : Env) : Type 0 where
  pub header_of-headers : (r : E.Request) (k : Str) → E.header_of (E.headers r) k ≡ E.header r k
  pub names-set_header :
      (b : E.RequestBuilder) (k v : Str)
      → has_name E.tolower
          (E.names (E.headers (E.build_request (E.set_header b k v))))
          (E.tolower k)
        ≡ true
  pub names-set_header_ne :
      (b : E.RequestBuilder) (k v j : Str)
      → E.tolower k ≢ j
      → has_name E.tolower (E.names (E.headers (E.build_request (E.set_header b k v)))) j
        ≡ has_name E.tolower (E.names (E.headers (E.build_request b))) j
  pub names-set_method :
      (b : E.RequestBuilder) (m : Str)
      → E.names (E.headers (E.build_request (E.set_method b m)))
        ≡ E.names (E.headers (E.build_request b))
  pub names-set_body :
      (b : E.RequestBuilder) (t d : Str)
      → E.names (E.headers (E.build_request (E.set_body b t d)))
        ≡ E.names (E.headers (E.build_request b))
  pub names-from_request :
      (r : E.Request)
      → E.names (E.headers (E.build_request (E.from_request r))) ≡ E.names (E.headers r)

-- A request holds the body that its builder was given, and the other setters leave it alone.
pub record KeepsBody (E : Env) : Type 0 where
  pub body-set_body :
      (b : E.RequestBuilder) (t d : Str) → E.request_body (E.build_request (E.set_body b t d)) ≡ d
  pub body-set_header :
      (b : E.RequestBuilder) (k v : Str)
      → E.request_body (E.build_request (E.set_header b k v)) ≡ E.request_body (E.build_request b)
  pub body-from_request :
      (r : E.Request) → E.request_body (E.build_request (E.from_request r)) ≡ E.request_body r

-- A request holds the URL and the method that its builder was given, and the other setters leave
-- them alone.
pub record KeepsTarget (E : Env) : Type 0 where
  pub url-set_url :
      (b : E.RequestBuilder) (u : E.HttpUrl) → E.request_url (E.build_request (E.set_url b u)) ≡ u
  pub url-set_header :
      (b : E.RequestBuilder) (k v : Str)
      → E.request_url (E.build_request (E.set_header b k v)) ≡ E.request_url (E.build_request b)
  pub url-set_method :
      (b : E.RequestBuilder) (m : Str)
      → E.request_url (E.build_request (E.set_method b m)) ≡ E.request_url (E.build_request b)
  pub url-set_body :
      (b : E.RequestBuilder) (t d : Str)
      → E.request_url (E.build_request (E.set_body b t d)) ≡ E.request_url (E.build_request b)
  pub url-from_request :
      (r : E.Request) → E.request_url (E.build_request (E.from_request r)) ≡ E.request_url r
  pub method-set_method :
      (b : E.RequestBuilder) (m : Str) → E.request_method (E.build_request (E.set_method b m)) ≡ m
  pub method-set_header :
      (b : E.RequestBuilder) (k v : Str)
      → E.request_method (E.build_request (E.set_header b k v))
        ≡ E.request_method (E.build_request b)
  pub method-set_body :
      (b : E.RequestBuilder) (t d : Str)
      → E.request_method (E.build_request (E.set_body b t d)) ≡ E.request_method (E.build_request b)
  pub method-from_request :
      (r : E.Request) → E.request_method (E.build_request (E.from_request r)) ≡ E.request_method r

-- A path, with one more segment: a slash stands between the two, once.
unfoldable pub join_path : Str → Str → Str
join_path [] segment = b'/' ∷ segment
join_path (c ∷ []) segment = if eqb c b'/' then c ∷ segment else c ∷ b'/' ∷ segment
join_path (c ∷ d ∷ path) segment = c ∷ join_path (d ∷ path) segment

-- What the steps of a URL builder do to the path and to the query of the URL that is built.
pub record BuildsUrls (E : Env) : Type 0 where
  pub path-new_builder :
      (u : E.HttpUrl) → E.encoded_path (E.build_url (E.new_builder u)) ≡ E.encoded_path u
  pub path-set_scheme :
      (b : E.UrlBuilder) (s : Str)
      → E.encoded_path (E.build_url (E.set_scheme b s)) ≡ E.encoded_path (E.build_url b)
  pub path-set_port :
      (b : E.UrlBuilder) (n : ℕ)
      → E.encoded_path (E.build_url (E.set_port b n)) ≡ E.encoded_path (E.build_url b)
  pub path-add_encoded_path_segment :
      (b : E.UrlBuilder) (s : Str)
      → E.encoded_path (E.build_url (E.add_encoded_path_segment b s))
        ≡ join_path (E.encoded_path (E.build_url b)) s
  pub path-add_path_segment-nil :
      (b : E.UrlBuilder)
      → E.encoded_path (E.build_url (E.add_path_segment b []))
        ≡ join_path (E.encoded_path (E.build_url b)) []
  pub path-add_encoded_query_parameter :
      (b : E.UrlBuilder) (k v : Str)
      → E.encoded_path (E.build_url (E.add_encoded_query_parameter b k v))
        ≡ E.encoded_path (E.build_url b)
  pub query-new_builder :
      (u : E.HttpUrl) → E.encoded_query (E.build_url (E.new_builder u)) ≡ E.encoded_query u
  pub query-set_scheme :
      (b : E.UrlBuilder) (s : Str)
      → E.encoded_query (E.build_url (E.set_scheme b s)) ≡ E.encoded_query (E.build_url b)
  pub query-set_port :
      (b : E.UrlBuilder) (n : ℕ)
      → E.encoded_query (E.build_url (E.set_port b n)) ≡ E.encoded_query (E.build_url b)
  pub query-add_encoded_path_segment :
      (b : E.UrlBuilder) (s : Str)
      → E.encoded_query (E.build_url (E.add_encoded_path_segment b s))
        ≡ E.encoded_query (E.build_url b)
  pub query-add_path_segment :
      (b : E.UrlBuilder) (s : Str)
      → E.encoded_query (E.build_url (E.add_path_segment b s)) ≡ E.encoded_query (E.build_url b)

-- A URL builder sets the scheme and the port that it is given, and leaves the host alone.
pub record KeepsServers (E : Env) : Type 0 where
  pub is_https-https :
      (b : E.UrlBuilder) → E.is_https (E.build_url (E.set_scheme b E.https_scheme)) ≡ true
  pub is_https-http :
      (b : E.UrlBuilder) → E.is_https (E.build_url (E.set_scheme b E.http_scheme)) ≡ false
  pub is_https-set_port :
      (b : E.UrlBuilder) (n : ℕ)
      → E.is_https (E.build_url (E.set_port b n)) ≡ E.is_https (E.build_url b)
  pub port-set_port : (b : E.UrlBuilder) (n : ℕ) → E.port (E.build_url (E.set_port b n)) ≡ n
  pub host-new_builder : (u : E.HttpUrl) → E.host (E.build_url (E.new_builder u)) ≡ E.host u
  pub host-set_scheme :
      (b : E.UrlBuilder) (s : Str)
      → E.host (E.build_url (E.set_scheme b s)) ≡ E.host (E.build_url b)
  pub host-set_port :
      (b : E.UrlBuilder) (n : ℕ) → E.host (E.build_url (E.set_port b n)) ≡ E.host (E.build_url b)

-- A default-constructed response is empty.
pub record KnowsBlank (E : Env) : Type 0 where
  pub is_blank-blank_response : E.is_blank E.blank_response ≡ true

-- `join` writes each entry as key, middle, value, and a separator between two entries.
pub record Joins (T : TextUtils) : Type 0 where
  pub join_map-nil : (s m : Str) → T.join_map s m [] ≡ []
  pub join_map-one : (s m k v : Str) → T.join_map s m ((k, v) ∷ []) ≡ k ++ (m ++ v)
  pub join_map-cons :
      (s m k v i w : Str) (rest : KeyValueMap)
      → T.join_map s m ((k, v) ∷ (i, w) ∷ rest)
        ≡ k ++ (m ++ (v ++ (s ++ T.join_map s m ((i, w) ∷ rest))))

-- `tolower` replaces the capitals of ASCII, as that of the C library does.
pub record Lowers (T : TextUtils) : Type 0 where
  pub tolower_lem : (s : Str) → T.tolower s ≡ lower s
