-- ===== src/Client/Execute/Headers.antt =====
-- The headers of the request that the client sends.
use minioclient_cpp.Base.{
  ◌≡◌, ◌≢◌, refl, ap, ap₂, ◌∙◌, ℕ, Bool, true, false, not, ◌&&◌, ◌||◌, none, some, [], ◌∷◌, ◌++◌,
  eqb, arith, is_empty, if◌then◌else◌,
}
use minioclient_cpp.Text.{Str, str}
use minioclient_cpp.Text.Decimal.{decimal}
use minioclient_cpp.Map.{KeyValueMap, lookup}
use minioclient_cpp.Errors.{ok}
use minioclient_cpp.Digest.{md5_base64, sha256_base16}
use minioclient_cpp.DateTime
use minioclient_cpp.DateTime.{amz_date_format}
use minioclient_cpp.External.{Env}
use minioclient_cpp.External.Laws.{KeepsHeaders}
use minioclient_cpp.Session.{World, MinioClient}
use minioclient_cpp.Client.Request.{has_keys, hashes, host_header, request_url_of, should_omit_port}
use minioclient_cpp.Client.Request.Headers.{same_name, caller_header, header_named, header-assemble}
use minioclient_cpp.Client.Request.Payload.{payload_hash}
use minioclient_cpp.Client.Execute.{prepare}
use minioclient_cpp.Client.Execute.Signed.{content_type_of}
use minioclient_cpp.Client.Execute.Made.{prepare-Returns}

-- Both keys are there.
abbrev pub is_keyed : Str → Str → Bool
is_keyed [] secret_key = false
is_keyed (a ∷ access_key) [] = false
is_keyed (a ∷ access_key) (s ∷ secret_key) = true

-- The port that a scheme has if none is said.
abbrev default_port : Bool → ℕ
default_port true = 443
default_port false = 80

module _ (E : Env) where
  -- The host, with its port unless that is the scheme's own.
  abbrev host_text : E.HttpUrl → Str
  host_text url =
      if eqb (E.port url) (default_port (E.is_https url))
      then E.host url
      else E.host url ++ (str ":" ++ decimal (E.port url))

  -- The MD5 that the client states, by whether it signs, whether it is HTTPS, and whether many
  -- objects are deleted: signing over HTTP only for such a deletion, else for any body but the
  -- empty one. The empty text stands for no MD5.
  abbrev md5_text : Bool → Bool → Bool → Str → Str
  md5_text true false false body = []
  md5_text true false true body = md5_base64 E.crypto body
  md5_text true true deletes [] = []
  md5_text true true deletes (c ∷ body) = md5_base64 E.crypto (c ∷ body)
  md5_text false secure deletes [] = []
  md5_text false secure deletes (c ∷ body) = md5_base64 E.crypto (c ∷ body)

  -- The hash that it states; the empty text stands for none.
  abbrev hash_text : Bool → E.HttpUrl → Str → Str
  hash_text true url body = payload_hash E url body
  hash_text false url body = []

  abbrev deletes_many : E.Method → KeyValueMap → Bool
  deletes_many m query =
      E.method_eq m E.post && (elim (lookup (str "delete") query) [ none ↦ false | some v ↦ true ])

  -- The header named `j`, by precedence: the date, the hash, the agent, the host, the MD5, each if
  -- the client states it, then the caller's last of the name, and what a new request has.
  abbrev pub header_said :
      MinioClient E → E.Method → E.HttpUrl → KeyValueMap → KeyValueMap → Str → Str → Str → Str
  header_said c m url headers query body date j =
      let keyed = is_keyed c.access_key c.secret_key in
      let sha = hash_text keyed url body in
      let md5 = md5_text keyed (E.is_https url) (deletes_many m query) body in
      if same_name E (str "x-amz-date") j
      then date
      else if not (is_empty sha) && same_name E (str "x-amz-content-sha256") j
      then sha
      else if same_name E (str "User-Agent") j
      then c.user_agent
      else if same_name E (str "Host") j
      then host_text url
      else if not (is_empty md5) && same_name E (str "Content-MD5") j
      then md5
      else caller_header E headers j (E.header (E.build_request (E.set_url E.blank_request url)) j)

  port_omitted :
      (secure : Bool) (port : ℕ)
      → (secure && eqb port 443 || not secure && eqb port 80) ≡ eqb port (default_port secure)
  port_omitted secure port = ground arith

  host_lem : (url : E.HttpUrl) → host_header E url ≡ host_text url
  unfolding should_omit_port
  host_lem url =
      ap (λ b. if b then E.host url else E.host url ++ (str ":" ++ decimal (E.port url)))
        (port_omitted (E.is_https url) (E.port url))

  hash_cases :
      (keyed secure deletes : Bool) (sha body : Str)
      → ◌≡◌ {A = Str × Str}
          (let md5_of_body = if is_empty body then [] else md5_base64 E.crypto body in
            if keyed
            then if secure
              then (str "UNSIGNED-PAYLOAD", md5_of_body)
              else if deletes
              then (sha, md5_base64 E.crypto body)
              else (sha, [])
            else ([], md5_of_body))
          (
            (if keyed then if secure then str "UNSIGNED-PAYLOAD" else sha else []),
            md5_text keyed secure deletes body,
          )
  hash_cases true true deletes sha [] = refl
  hash_cases true true deletes sha (c ∷ body) = refl
  hash_cases true false true sha body = refl
  hash_cases true false false sha body = refl
  hash_cases false secure deletes sha [] = refl
  hash_cases false secure deletes sha (c ∷ body) = refl

  hash_text_lem :
      (keyed : Bool) (url : E.HttpUrl) (body : Str)
      → (if keyed then payload_hash E url body else []) ≡ hash_text keyed url body
  hash_text_lem true url body = refl
  hash_text_lem false url body = refl

  keyed_lem : (a s : Str) → (not (is_empty a) && not (is_empty s)) ≡ is_keyed a s
  keyed_lem [] s = refl
  keyed_lem (c ∷ a) [] = refl
  keyed_lem (c ∷ a) (d ∷ s) = refl

  hashes_lem :
      (c : MinioClient E) (m : E.Method) (url : E.HttpUrl) (query : KeyValueMap) (body : Str)
      → hashes E c m url query body ≡ (
        hash_text (is_keyed c.access_key c.secret_key) url body,
        md5_text (is_keyed c.access_key c.secret_key) (E.is_https url) (deletes_many m query) body,
      )
  unfolding hashes
  hashes_lem c m url query body =
      let keyed = has_keys E c in
      let deletes = deletes_many m query in
      hash_cases keyed (E.is_https url) deletes (sha256_base16 E.crypto body) body
      ∙ ap₂ (λ (s t : Str). (s, t)) (hash_text_lem keyed url body) refl
      ∙ ap (λ k. (hash_text k url body, md5_text k (E.is_https url) deletes body))
          (keyed_lem c.access_key c.secret_key)

module _ {E : Env} (K : KeepsHeaders E) (m : E.Method) (region bucket object : Str)
    (headers query : KeyValueMap) (body : Str) (w : World E) where
  -- The headers, with the texts as `createRequest` computes them.
  pub prepare-header_named :
      (r : E.Request) (j : Str)
      → (prepare m region bucket object headers query body w).0 ≡ ok r
      → E.tolower (str "Authorization") ≢ E.tolower j
      → E.header r j
        ≡ header_named E w.client
            (request_url_of E w.client.base_url bucket object query)
            headers
            (hashes E w.client m
              (request_url_of E w.client.base_url bucket object query)
              query
              body)
            (DateTime.to_string (w.clock w.reads) amz_date_format)
            j
  prepare-header_named r j returned other =
      let url = request_url_of E w.client.base_url bucket object query in
      let hash = hashes E w.client m url query body in
      let date = DateTime.to_string (w.clock w.reads) amz_date_format in
      prepare-Returns (λ q. E.header q j ≡ header_named E w.client url headers hash date j)
        (λ q text h. K.header-set_header_ne _ _ _ j other ∙ K.header-from_request q j ∙ h) m region
        bucket object headers query body w r
        (header-assemble K w.client m url headers hash date (content_type_of headers) body j)
        returned

  -- Each header but `Authorization` of a request that the client makes, signed or not, named
  -- without case. The date of the clock's reading, the agent and the host are the client's own,
  -- whatever the caller gives under their names; the host has the URL's port, unless that is 443
  -- for HTTPS or 80 for HTTP. With both keys the hash is the client's own, too: the SHA-256 of the
  -- body, or over HTTPS the text UNSIGNED-PAYLOAD. The MD5 is that of the body, if it is not
  -- empty; but with both keys over HTTP there is one only for a POST with a parameter `delete`,
  -- and then also of the empty body. Where the client states no hash or no MD5, or an empty
  -- one, and for every other name, the header is the caller's last of its name. It is taken that a
  -- request keeps the headers it was built with.
  pub prepare-headers :
      (r : E.Request) (j : Str)
      → (prepare m region bucket object headers query body w).0 ≡ ok r
      → E.tolower (str "Authorization") ≢ E.tolower j
      → E.header r j
        ≡ header_said E w.client m
            (request_url_of E w.client.base_url bucket object query)
            headers
            query
            body
            (DateTime.to_string (w.clock w.reads) amz_date_format)
            j
  prepare-headers r j returned other =
      let url = request_url_of E w.client.base_url bucket object query in
      prepare-header_named r j returned other
      ∙ rw (hashes_lem E w.client m url query body, host_lem E url) refl
