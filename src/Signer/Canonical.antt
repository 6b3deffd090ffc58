-- ===== src/Signer/Canonical.antt =====
-- The canonical request, and its parts.
use minioclient_cpp.Base.{◌≡◌, ◌≢◌, refl, sym, ap, ◌∙◌, List, [], ◌∷◌, ◌++◌, map, All}
use minioclient_cpp.Text.{Str, str, between}
use minioclient_cpp.Text.Split.{Lacks, cut_at, between-injective}
use minioclient_cpp.Map.{KeyValueMap, keys}
use minioclient_cpp.External.{Env}
use minioclient_cpp.Signer.Query.{query_text}
use mathlib.Core.List.{head-eq_of_cons-eq, tail-eq_of_cons-eq}
use minioclient_cpp.Signer.Spec.{
  below_method, canonical_lines, newline, header_line, signed_map, canonical_text,
}

newline_lem : newline ≡ b'\n' ∷ []
unfolding str
newline_lem = refl

colon_lem : str ":" ≡ b':' ∷ []
unfolding str
colon_lem = refl

-- The end of a canonical request: the header lines, an empty line, the names and the hash.
abbrev tail_lines : KeyValueMap → Str → Str → List Str
tail_lines m names sha = map header_line m ++ [] ∷ names ∷ sha ∷ []

abbrev pub HasPlainNames : KeyValueMap → Type 0
HasPlainNames m = All (Lacks b':') (keys m)

header_line-injective :
    (k v j u : Str)
    → Lacks b':' k
    → Lacks b':' j
    → header_line (k, v) ≡ header_line (j, u)
    → (k ≡ j) × (v ≡ u)
header_line-injective k v j u hk hj e =
    cut_at b':' k j v u hk hj
      (ap (λ c. k ++ (c ++ v)) (sym colon_lem) ∙ e ∙ ap (λ c. j ++ (c ++ u)) colon_lem)

header_line-ne-nil : (k v : Str) → header_line (k, v) ≢ []
unfolding str
header_line-ne-nil [] v e = cc
header_line-ne-nil (x ∷ k) v e = cc

tail_lines-injective :
    (m n : KeyValueMap) (names others sha hash : Str)
    → HasPlainNames m
    → HasPlainNames n
    → tail_lines m names sha ≡ tail_lines n others hash
    → (m ≡ n) × (sha ≡ hash)
tail_lines-injective [] [] names others sha hash hm hn e = (refl, cc)
tail_lines-injective [] ((j, u) ∷ n) names others sha hash hm hn e =
    absurd (header_line-ne-nil j u (sym (head-eq_of_cons-eq e)))
tail_lines-injective ((k, v) ∷ m) [] names others sha hash hm hn e =
    absurd (header_line-ne-nil k v (head-eq_of_cons-eq e))
tail_lines-injective ((k, v) ∷ m) ((j, u) ∷ n) names others sha hash hm hn e =
    let (name, value) = header_line-injective k v j u hm.0 hn.0 (head-eq_of_cons-eq e) in
    let (rest, same) =
      tail_lines-injective m n names others sha hash hm.1 hn.1 (tail-eq_of_cons-eq e) in
    (cc, same)

module _ (E : Env) where
  -- The lines of the canonical request hold no line break, and the names no colon.
  abbrev pub IsPlain : E.Request → Str → Type 0
  IsPlain r sha = All (Lacks b'\n') (canonical_lines E r sha) × HasPlainNames (signed_map E r sha)

  -- The two requests agree in the parts that are signed.
  pub record SignsSame (r q : E.Request) (sha hash : Str) : Type 0 where
    pub method-same : E.request_method r ≡ E.request_method q
    pub path-same : E.encoded_path (E.request_url r) ≡ E.encoded_path (E.request_url q)
    pub query-same : query_text E (E.request_url r) ≡ query_text E (E.request_url q)
    pub headers-same : signed_map E r sha ≡ signed_map E q hash
    pub hash-same : sha ≡ hash

  pub canonical_text-injective :
      (r q : E.Request) (sha hash : Str)
      → IsPlain r sha
      → IsPlain q hash
      → canonical_text E r sha ≡ canonical_text E q hash
      → SignsSame r q sha hash
  canonical_text-injective r q sha hash (hr, nr) (hq, nq) e =
      let lines =
        between-injective b'\n' (E.request_method r) (E.request_method q) (below_method E r sha)
          (below_method E q hash) hr hq
          (ap (λ c. between c (canonical_lines E r sha)) (sym newline_lem)
            ∙ e
            ∙ ap (λ c. between c (canonical_lines E q hash)) newline_lem) in
      let rest = tail-eq_of_cons-eq lines in
      let below = tail-eq_of_cons-eq rest in
      let (headers, same) =
        tail_lines-injective (signed_map E r sha) (signed_map E q hash) _ _ sha hash nr nq
          (tail-eq_of_cons-eq below) in
      record {
        method-same = head-eq_of_cons-eq lines;
        path-same = head-eq_of_cons-eq rest;
        query-same = head-eq_of_cons-eq below;
        headers-same = headers;
        hash-same = same;
      }
