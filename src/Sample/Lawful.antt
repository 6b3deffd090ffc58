-- ===== src/Sample/Lawful.antt =====
-- The laws of the outside code for the sample.
use minioclient_cpp.Map.{KeyValueMap, insert, keys, lookup}
use minioclient_cpp.Text.{Str, lower, lower_char, str, Str-discrete}
use minioclient_cpp.Base.{ℕ, zero, suc, ◌≡◌, refl, ap, arith, length, All, [], ap₂, ◌∷◌, ◌≢◌, true}
use minioclient_cpp.Map.Laws.{lookup-insert}
use minioclient_cpp.Digest.{IsByte, IsCrypto}
use minioclient_cpp.External.Laws.{
  KeepsTarget, BuildsUrls, KeepsBody, KeepsHeaders, KnowsBlank, Joins, KeepsNames, Lowers, has_name,
  StartsBare, KeepsServers,
}
use minioclient_cpp.Errors.{Result}
use minioclient_cpp.Sample.{
  Message, Reply, Script, play_next, sample_over, fill, join_entries, sample, sample_crypto,
  sample_text,
}

length-fill : (n c : ℕ) → length (fill n c) ≡ n
unfolding fill
length-fill zero c = refl
length-fill (suc n) c = ap suc (length-fill n c)

fill-IsByte : (n c : ℕ) → IsByte c → All IsByte (fill n c)
unfolding fill
fill-IsByte zero c h = tt
fill-IsByte (suc n) c h = (h, fill-IsByte n c h)

pub sample-IsCrypto : IsCrypto sample_crypto
sample-IsCrypto = record {
  hmac-len = λ k d. refl;
  length-hmac = λ k d. length-fill 32 _;
  hmac-IsByte = λ k d. fill-IsByte 32 _ (omega arith);
  length-md5 = λ d. length-fill 16 _;
  length-sha256 = λ d. length-fill 32 _;
  sha256-IsByte = λ d. fill-IsByte 32 _ (omega arith);
}

pub sample-Joins : Joins sample_text
unfolding join_entries
sample-Joins = record {
  join_map-nil = λ s m. refl;
  join_map-one = λ s m k v. refl;
  join_map-cons = λ s m k v i w rest. refl;
}

lower_char_idem : (c : ℕ) → lower_char (lower_char c) ≡ lower_char c
lower_char_idem c = ground arith

lower_idem : (s : Str) → lower (lower s) ≡ lower s
lower_idem [] = refl
lower_idem (c ∷ s) = ap₂ (λ d t. d ∷ t) (lower_char_idem c) (lower_idem s)

-- An entry more adds its key to the keys.
has_name-insert :
    (k v j : Str) (m : KeyValueMap)
    → lower k ≢ j
    → has_name lower (keys (insert (lower k) v m)) j ≡ has_name lower (keys m) j
unfolding has_name insert
has_name-insert k v j [] ne = ground (arith, ne, lower_idem k)
has_name-insert k v j ((i, w) ∷ m) ne = ground (arith, ne, lower_idem k, has_name-insert k v j m ne)

has_name-inserted :
    (k v : Str) (m : KeyValueMap) → has_name lower (keys (insert (lower k) v m)) (lower k) ≡ true
unfolding has_name insert
has_name-inserted k v [] = ground (arith, lower_idem k)
has_name-inserted k v ((i, w) ∷ m) = ground (arith, lower_idem k, has_name-inserted k v m)

pub sample-Lowers : Lowers sample_text
sample-Lowers = record { tolower_lem = λ s. refl }

module _ (C : Type 0) (new_client : C) (exchange : C → Message → Result Reply × C) where
  pub over-KnowsBlank : KnowsBlank (sample_over C new_client exchange)
  over-KnowsBlank = record { is_blank-blank_response = refl }

  pub over-KeepsHeaders : KeepsHeaders (sample_over C new_client exchange)
  over-KeepsHeaders = record {
    header-case = λ r k j same. rw same;
    header-set_header = λ b k v. rw lookup-insert (ground arith);
    header-set_header_ne = λ b k v j ne. rw lookup-insert (ground arith);
    header-set_method = λ b m j. refl;
    header-set_body = λ b t d j. refl;
    header-from_request = λ r j. refl;
  }

  pub over-StartsBare : StartsBare (sample_over C new_client exchange)
  unfolding lookup
  over-StartsBare = record { header-blank_request = λ u j. refl }

  pub over-KeepsBody : KeepsBody (sample_over C new_client exchange)
  over-KeepsBody = record {
    body-set_body = λ b t d. refl;
    body-set_header = λ b k v. refl;
    body-from_request = λ r. refl;
  }

  pub over-KeepsNames : KeepsNames (sample_over C new_client exchange)
  over-KeepsNames = record {
    header_of-headers = λ r k. refl;
    names-set_header = λ b k v. has_name-inserted k v b.fields;
    names-set_method = λ b m. refl;
    names-set_body = λ b t d. refl;
    names-set_header_ne = λ b k v j ne. has_name-insert k v j b.fields ne;
    names-from_request = λ r. refl;
  }

  pub over-KeepsTarget : KeepsTarget (sample_over C new_client exchange)
  over-KeepsTarget = record {
    url-set_url = λ b u. refl;
    url-set_header = λ b k v. refl;
    url-set_method = λ b m. refl;
    url-set_body = λ b t d. refl;
    url-from_request = λ r. refl;
    method-set_method = λ b m. refl;
    method-set_header = λ b k v. refl;
    method-set_body = λ b t d. refl;
    method-from_request = λ r. refl;
  }

  pub over-BuildsUrls : BuildsUrls (sample_over C new_client exchange)
  over-BuildsUrls = record {
    path-new_builder = λ u. refl;
    path-set_scheme = λ b s. refl;
    path-set_port = λ b n. refl;
    path-add_encoded_path_segment = λ b s. refl;
    path-add_path_segment-nil = λ b. refl;
    path-add_encoded_query_parameter = λ b k v. refl;
    query-new_builder = λ u. refl;
    query-set_scheme = λ b s. refl;
    query-set_port = λ b n. refl;
    query-add_encoded_path_segment = λ b s. refl;
    query-add_path_segment = λ b s. refl;
  }

pub sample-KnowsBlank : KnowsBlank sample
sample-KnowsBlank = over-KnowsBlank Script [] play_next

pub sample-KeepsHeaders : KeepsHeaders sample
sample-KeepsHeaders = over-KeepsHeaders Script [] play_next

pub sample-KeepsBody : KeepsBody sample
sample-KeepsBody = over-KeepsBody Script [] play_next

pub sample-KeepsNames : KeepsNames sample
sample-KeepsNames = over-KeepsNames Script [] play_next

pub sample-KeepsTarget : KeepsTarget sample
sample-KeepsTarget = over-KeepsTarget Script [] play_next

pub sample-BuildsUrls : BuildsUrls sample
sample-BuildsUrls = over-BuildsUrls Script [] play_next

pub sample-KeepsServers : KeepsServers sample
unfolding str Str-discrete
sample-KeepsServers = record {
  is_https-https = λ b. refl;
  is_https-http = λ b. refl;
  is_https-set_port = λ b n. refl;
  port-set_port = λ b n. refl;
  host-new_builder = λ u. refl;
  host-set_scheme = λ b s. refl;
  host-set_port = λ b n. refl;
}
