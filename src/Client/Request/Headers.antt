-- ===== src/Client/Request/Headers.antt =====
-- Every header of a made request.
use mathlib.Core.List.{foldl}
use minioclient_cpp.Base.{
  ◌≡◌, refl, sym, ap, ◌∙◌, Bool, true, false, not, ◌&&◌, [], ◌∷◌, is_empty, if◌then◌else◌, ite,
}
use minioclient_cpp.Text.{Str, str, ◌==◌, Str-discrete}
use minioclient_cpp.Map.{KeyValueMap}
use minioclient_cpp.External.{Env}
use minioclient_cpp.External.Laws.{KeepsHeaders}
use minioclient_cpp.Session.{MinioClient}
use minioclient_cpp.Client.Request.{set_entry, set_if_given, host_header, assemble}
use minioclient_cpp.Client.Request.Payload.{date_name, sha_name}

module _ (E : Env) where
  -- The names are the same without case.
  abbrev pub same_name : Str → Str → Bool
  same_name k j = E.tolower k == E.tolower j

  -- A header of the caller, of those named `j` the last; else `other`.
  abbrev pub caller_header : KeyValueMap → Str → Str → Str
  caller_header [] j other = other
  caller_header ((k, v) ∷ headers) j other =
      caller_header headers j (if same_name k j then v else other)

  -- The header named `j`, by precedence: the date, the hash if there is one, the agent, the host,
  -- the MD5 if there is one, what the caller gave, and what a new request has.
  abbrev pub header_named : MinioClient E → E.HttpUrl → KeyValueMap → Str × Str → Str → Str → Str
  header_named c url headers (sha, md5) date j =
      if same_name date_name j
      then date
      else if not (is_empty sha) && same_name sha_name j
      then sha
      else if same_name (str "User-Agent") j
      then c.user_agent
      else if same_name (str "Host") j
      then host_header E url
      else if not (is_empty md5) && same_name (str "Content-MD5") j
      then md5
      else caller_header headers j (E.header (E.build_request (E.set_url E.blank_request url)) j)

module _ {E : Env} (K : KeepsHeaders E) where
  header-set :
      (b : E.RequestBuilder) (k v j : Str)
      → E.header (E.build_request (E.set_header b k v)) j
        ≡ (if same_name E k j then v else E.header (E.build_request b) j)
  header-set b k v j =
      elim (Str-discrete (E.tolower k) (E.tolower j))
        as (λ d.
          E.header (E.build_request (E.set_header b k v)) j
          ≡ (if ite d true false then v else E.header (E.build_request b) j)) [
            | yes same ↦ sym (K.header-case _ k j same) ∙ K.header-set_header b k v
            | no other ↦ K.header-set_header_ne b k v j other
          ]

  header-set_if_given :
      (b : E.RequestBuilder) (k v j : Str)
      → E.header (E.build_request (set_if_given E b k v)) j
        ≡ (if not (is_empty v) && same_name E k j then v else E.header (E.build_request b) j)
  header-set_if_given b k [] j = refl
  header-set_if_given b k (c ∷ v) j = header-set b k (c ∷ v) j

  header-entries :
      (headers : KeyValueMap) (b : E.RequestBuilder) (j : Str)
      → E.header (E.build_request (foldl (set_entry E) b headers)) j
        ≡ caller_header E headers j (E.header (E.build_request b) j)
  header-entries [] b j = refl
  header-entries ((k, v) ∷ headers) b j =
      header-entries headers (E.set_header b k v) j
      ∙ ap (caller_header E headers j) (header-set b k v j)

  pub header-assemble :
      (c : MinioClient E) (m : E.Method) (url : E.HttpUrl) (headers : KeyValueMap)
      (hash : Str × Str) (date content_type body j : Str)
      → E.header (assemble E c m url headers hash date content_type body) j
        ≡ header_named E c url headers hash date j
  unfolding assemble
  header-assemble c m url headers (sha, md5) date content_type body j = rw (
    K.header-set_body, K.header-set_method, header-set, header-set_if_given, header-set, header-set,
    header-set_if_given, header-entries,
  )
