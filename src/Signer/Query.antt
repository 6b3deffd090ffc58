-- ===== src/Signer/Query.antt =====
-- The canonical query: `setCanonicalQueryString`.
use minioclient_cpp.Base.{◌≡◌, ◌≢◌, refl, List, [], ◌∷◌, if◌then◌else◌, All, Bool-cases, inl, inr}
use minioclient_cpp.Text.{Str, str, ◌==◌, Str-discrete}
use minioclient_cpp.Map.{KeyValueMap, insert}
use minioclient_cpp.Map.Laws.{IsSorted, insert-IsSorted}
use minioclient_cpp.Errors.{ok}
use minioclient_cpp.External.{Env}
use minioclient_cpp.Signer.{Signer, add_tokens, add_params, set_canonical_query_string}

-- The name and the value that a parameter's tokens stand for.
abbrev pub name_of : List Str → Str
name_of [] = []
name_of (k ∷ _) = k

abbrev pub value_of : List Str → Str
value_of [] = []
value_of (k ∷ []) = []
value_of (k ∷ v ∷ _) = v

module _ (E : Env) where
  abbrev pub HasName : Str → Type 0
  HasName param = E.split param (str "=") ≢ []

  -- A parameter given twice keeps its last value.
  unfoldable pub query_map : KeyValueMap → List Str → KeyValueMap
  query_map m [] = m
  query_map m (param ∷ params) =
      let tokens = E.split param (str "=") in
      query_map (insert (name_of tokens) (value_of tokens) m) params

  pub query_map-IsSorted :
      (params : List Str) (m : KeyValueMap) → IsSorted m → IsSorted (query_map m params)
  unfolding query_map
  query_map-IsSorted [] m s = s
  query_map-IsSorted (param ∷ params) m s = query_map-IsSorted params _ (insert-IsSorted _ _ m s)

  add_tokens_lem :
      (m : KeyValueMap) (tokens : List Str)
      → tokens ≢ []
      → add_tokens m tokens ≡ ok (insert (name_of tokens) (value_of tokens) m)
  add_tokens_lem m [] ne = absurd (ne refl)
  add_tokens_lem m (k ∷ []) ne = refl
  add_tokens_lem m (k ∷ v ∷ rest) ne = refl

  pub add_params_lem :
      (params : List Str) (m : KeyValueMap)
      → All HasName params
      → add_params E m params ≡ ok (query_map m params)
  unfolding add_params query_map
  add_params_lem [] m h = refl
  add_params_lem (param ∷ params) m (p, h) =
      rw (add_tokens_lem m (E.split param (str "=")) p) (add_params_lem params _ h)

  -- The query that is signed: empty, or its parameters in ascending order of names.
  unfoldable pub query_text : E.HttpUrl → Str
  query_text url =
      let query = E.encoded_query url in
      if query == []
      then []
      else E.join_map (str "&") (str "=") (query_map [] (E.split query (str "&")))

  -- The parameters of a query, if it is not empty.
  abbrev pub params_of : E.HttpUrl → List Str
  params_of url =
      let query = E.encoded_query url in if query == [] then [] else E.split query (str "&")

  abbrev pub HasParams : E.HttpUrl → Type 0
  HasParams url = All HasName (params_of url)

  -- A URL without a query has no parameters.
  pub HasParams-nil : (url : E.HttpUrl) → E.encoded_query url ≡ [] → HasParams url
  unfolding Str-discrete
  HasParams-nil url h = rw h tt

pub set_canonical_query_string_lem :
    {E : Env} (s : Signer E)
    → HasParams E s.url
    → set_canonical_query_string s ≡ ok (record s { canonical_query_string = query_text E s.url })
unfolding set_canonical_query_string query_text
set_canonical_query_string_lem {E} s h = elim (Bool-cases (E.encoded_query s.url == [])) [
  | inl none_given ↦ rw none_given
  | inr query ↦
      rw query
        (rw (add_params_lem E (E.split (E.encoded_query s.url) (str "&")) [] (rw query at h)))
]
