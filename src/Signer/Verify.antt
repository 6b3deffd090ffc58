-- ===== src/Signer/Verify.antt =====
-- The other side of Signature Version 4: how a server that knows the secret key checks a request,
-- from what the request holds and nothing else.
use mathlib.Core.Option.{or_else}
use mathlib.Core.Bool.{and-eq-true_iff}
use minioclient_cpp.Base.{
  subst, ◌-◌, ◌≡◌, ◌≢◌, refl, sym, ap, ◌∙◌, Bool, true, false, ◌&&◌, none, some, List, [], ◌∷◌,
  arith, if◌then◌else◌, take, length, Bool-cases, inl, inr, ◌++◌, Option,
}
use minioclient_cpp.Text.{Str, str, ◌==◌, Str-discrete}
use minioclient_cpp.Map.{lookup}
use minioclient_cpp.Map.Laws.{eq_of_lookup, IsSorted}
use minioclient_cpp.Digest.{sha256_base16}
use minioclient_cpp.External.{Env}
use minioclient_cpp.External.Laws.{KeepsHeaders, KeepsNames, KeepsTarget, Lowers, has_name}
use minioclient_cpp.Signer.{is_ignored}
use minioclient_cpp.Signer.Headers.{last_value, lookup-collect_headers, collect_headers-IsSorted}
use minioclient_cpp.Signer.Spec.{
  collect_headers-signed_entries, signing_method, signed_map, authorization_at, authorized,
}

same_of_eq : (s t : Str) → (s == t) ≡ true → s ≡ t
same_of_eq s t h = ground arith

abbrev pub is_some : Option Str → Bool
is_some none = false
is_some (some value) = true

module _ (E : Env) where
  -- The day of a time like 20181126T153721Z.
  abbrev pub day_of : Str → Str
  day_of stamp = take (length stamp - 8) stamp

  -- The header `Authorization` that a request must have, for a region and a key.
  abbrev pub expected : E.Request → Str → Str → Str → Str
  expected r region access_key secret_key =
      let stamp = E.header r (str "x-amz-date") in
      authorization_at E r (E.header r (str "x-amz-content-sha256")) stamp (day_of stamp) region
        access_key secret_key

  -- The hash is that of the body, or is left out, which is allowed over HTTPS.
  abbrev pub has_right_hash : E.Request → Bool
  has_right_hash r =
      let hash = E.header r (str "x-amz-content-sha256") in
      if E.is_https (E.request_url r)
      then hash == str "UNSIGNED-PAYLOAD"
      else hash == sha256_base16 E.crypto (E.request_body r)

  -- A header is signed.
  abbrev pub is_signed : E.Request → Str → Bool
  is_signed r k = is_some (lookup k (signed_map E r []))

  -- The server's decision; the host must be signed.
  unfoldable pub accepts : Str → Str → Str → E.Request → Bool
  accepts region access_key secret_key r =
      is_signed r (str "host")
      && has_right_hash r
      && E.header r (str "Authorization") == expected r region access_key secret_key

  header-ne-nil : (s : Str) → signing_method ++ s ≢ []
  unfolding str
  header-ne-nil s e = cc

  -- A request that is accepted has the header that is expected.
  pub accepts-expected :
      (region access_key secret_key : Str) (r : E.Request)
      → accepts region access_key secret_key r ≡ true
      → E.header r (str "Authorization") ≡ expected r region access_key secret_key
  unfolding accepts
  accepts-expected region access_key secret_key r h =
      same_of_eq _ _ ((and-eq-true_iff (is_signed r (str "host") && has_right_hash r) _).0 h).1

  pub accepts-ne-nil :
      (region access_key secret_key : Str) (r : E.Request)
      → accepts region access_key secret_key r ≡ true
      → E.header r (str "Authorization") ≢ []
  accepts-ne-nil region access_key secret_key r h none_given =
      header-ne-nil _ (sym (accepts-expected region access_key secret_key r h) ∙ none_given)

  abbrev request_names : E.Request → List Str
  request_names r = E.names (E.headers r)

  last_value-none :
      (h : E.Headers) (names : List Str) (k : Str)
      → has_name E.tolower names k ≡ false
      → last_value E h names k ≡ none
  unfolding last_value has_name or_else
  last_value-none h [] k e = refl
  last_value-none h (name ∷ names) k e = ground (arith, last_value-none h names k)

  last_value-some :
      (h : E.Headers) (names : List Str) (k : Str)
      → has_name E.tolower names k ≡ true
      → (name : Str) × (E.tolower name ≡ k) × (last_value E h names k ≡ some (E.header_of h name))
  unfolding last_value has_name or_else
  last_value-some h [] k e = absurd (cc)
  last_value-some h (name ∷ names) k e = elim (Bool-cases (has_name E.tolower names k)) [
    | inl later ↦
        let (other, same, found) = last_value-some h names k later in (other, same, rw found)
    | inr first ↦
        let here : (k == E.tolower name) ≡ true = ground (arith, first, e) in
        (name, ground (arith, here), rw (last_value-none h names k first, here))
  ]

  -- Under a name, the two lists hold the same value, or both none.
  last_value-same :
      (h g : E.Headers) (names others : List Str) (k : Str)
      → has_name E.tolower names k ≡ has_name E.tolower others k
      → ((a b : Str) → E.tolower a ≡ k → E.tolower b ≡ k → E.header_of h a ≡ E.header_of g b)
      → last_value E h names k ≡ last_value E g others k
  last_value-same h g names others k same values = elim (Bool-cases (has_name E.tolower names k)) [
    | inl there ↦
        let (a, here, found) = last_value-some h names k there in
        let (b, also, given) = last_value-some g others k (sym same ∙ there) in
        found ∙ ap some (values a b here also) ∙ sym given
    | inr missing ↦
        last_value-none h names k missing ∙ sym (last_value-none g others k (sym same ∙ missing))
  ]

  -- The signed headers, by name.
  lookup-signed_map :
      (r : E.Request) (k : Str)
      → lookup k (signed_map E r []) ≡ (
          if is_ignored k
          then lookup k []
          else or_else (last_value E (E.headers r) (request_names r) k) (lookup k []))
  lookup-signed_map r k =
      ap (lookup k) (sym (collect_headers-signed_entries E (E.headers r) (request_names r) []))
      ∙ lookup-collect_headers E (E.headers r) (request_names r) [] k

  signed_map-IsSorted : (r : E.Request) → IsSorted (signed_map E r [])
  signed_map-IsSorted r =
      subst IsSorted (collect_headers-signed_entries E (E.headers r) (request_names r) [])
        (collect_headers-IsSorted E (E.headers r) (request_names r) [] tt)

  -- A header that is there, and is not ignored, is signed.
  pub is_signed_lem :
      (r : E.Request) (k : Str)
      → has_name E.tolower (request_names r) k ≡ true
      → is_ignored k ≡ false
      → is_signed r k ≡ true
  unfolding lookup or_else
  is_signed_lem r k there signed =
      let (a, here, found) = last_value-some (E.headers r) (request_names r) k there in
      let value : lookup k (signed_map E r []) ≡ some (E.header_of (E.headers r) a) =
        lookup-signed_map r k ∙ rw (signed, found) refl in
      ap is_some value

  -- So there is something to sign.
  pub signed_map-ne-nil :
      (r : E.Request) (sha k : Str) → is_signed r k ≡ true → signed_map E r sha ≢ []
  unfolding lookup
  signed_map-ne-nil r sha k signed none_signed =
      let empty : is_signed r k ≡ false = ap (λ m. is_some (lookup k m)) none_signed in absurd (cc)

  -- Requests whose headers that are signed agree are signed alike.
  pub signed_map-same :
      (r q : E.Request) (sha : Str)
      → ((k : Str)
          → is_ignored k ≡ false
          → last_value E (E.headers r) (request_names r) k
            ≡ last_value E (E.headers q) (request_names q) k)
      → signed_map E r sha ≡ signed_map E q sha
  unfolding lookup
  signed_map-same r q sha same =
      eq_of_lookup _ _ (signed_map-IsSorted r) (signed_map-IsSorted q)
        λ k. lookup-signed_map r k ∙ signed_value k ∙ sym (lookup-signed_map q k)
    where
      signed_value :
          (k : Str)
          → (if is_ignored k
              then none
              else or_else (last_value E (E.headers r) (request_names r) k) none)
            ≡ (if is_ignored k
                then none
                else or_else (last_value E (E.headers q) (request_names q) k) none)
      signed_value k = elim (Bool-cases (is_ignored k)) [
        | inl ignored ↦ rw ignored
        | inr signed ↦ rw (signed, same k signed)
      ]

module _ {E : Env} (K : KeepsHeaders E) (N : KeepsNames E) (T : KeepsTarget E)
    (L : Lowers E.text) where
  authorization_lower : E.tolower (str "Authorization") ≡ str "authorization"
  unfolding str
  authorization_lower = L.tolower_lem (str "Authorization")

  authorization-ignored : is_ignored (str "authorization") ≡ true
  unfolding is_ignored Str-discrete str
  authorization-ignored = refl

  signed-ne-authorization : (k : Str) → is_ignored k ≡ false → E.tolower (str "Authorization") ≢ k
  signed-ne-authorization k signed e =
      let same : k ≡ str "authorization" = sym e ∙ authorization_lower in
      let ignored : is_ignored k ≡ true = ap is_ignored same ∙ authorization-ignored in cc

  -- The header `Authorization` is not signed.
  pub signed_map-authorized :
      (r : E.Request) (text sha : Str) → signed_map E (authorized E r text) sha ≡ signed_map E r sha
  signed_map-authorized r text sha = signed_map-same E (authorized E r text) r sha λ k signed.
      let apart = signed-ne-authorization k signed in
      last_value-same E _ _ _ _ k
        (N.names-set_header_ne (E.from_request r) (str "Authorization") text k apart
          ∙ ap (λ names. has_name E.tolower names k) (N.names-from_request r))
        λ a b here also.
          N.header_of-headers _ a
          ∙ K.header-set_header_ne _ _ _ a (λ e. apart (e ∙ here))
          ∙ K.header-from_request r a
          ∙ K.header-case r a b (here ∙ sym also)
          ∙ sym (N.header_of-headers r b)
