-- ===== src/Signer/Headers.antt =====
-- The canonical headers: `setCanonicalHeaders`.
use mathlib.Core.Logic.{∥∥₁_elim}
use mathlib.Core.List.{Perm, Nodup, Nodup-cons, Permᴰ, mem-cons_self}
use mathlib.Core.List.Perm
use mathlib.Core.List.Permᴰ
use mathlib.Core.Option.{or_else}
use minioclient_cpp.Base.{
  ℕ, suc, ◌-◌, ◌≡◌, ◌≢◌, refl, sym, ap, ◌∙◌, Option, none, some, List, [], ◌∷◌, ◌++◌, arith,
  if◌then◌else◌, length, ap₂, Bool-cases, inl, inr, take, append-nil, append_assoc, length-append,
  take-length-append, map,
}
use minioclient_cpp.Text.{Str, ◌==◌, between, Str-discrete}
use minioclient_cpp.Map.{KeyValueMap, insert, lookup, keys}
use minioclient_cpp.Map.Laws.{IsSorted, insert-IsSorted, lookup-insert, insert_comm}
use minioclient_cpp.External.{Env}
use minioclient_cpp.Signer.{
  Signer, is_ignored, append_keys, erase_last, add_header, collect_headers, set_canonical_headers,
}

-- The names in order, with a semicolon between two of them.
abbrev pub semicolons : List Str → Str
semicolons = between (b';' ∷ [])

-- What the loop has written after the entries of a map.
abbrev terminated : List Str → Str
terminated [] = []
terminated (k ∷ ks) = k ++ b';' ∷ terminated ks

append_keys-terminated : (s : Str) (m : KeyValueMap) → append_keys s m ≡ s ++ terminated (keys m)
unfolding append_keys
append_keys-terminated s [] = sym (append-nil s)
append_keys-terminated s ((k, v) ∷ m) =
    append_keys-terminated (s ++ (k ++ b';' ∷ [])) m ∙ simp append_assoc

terminated-semicolons :
    (k : Str) (ks : List Str) → terminated (k ∷ ks) ≡ semicolons (k ∷ ks) ++ b';' ∷ []
terminated-semicolons k [] = refl
terminated-semicolons k (j ∷ ks) = rw (terminated-semicolons j ks) (simp append_assoc)

erase_last-concat : (s : Str) (c : ℕ) → erase_last (s ++ c ∷ []) ≡ s
erase_last-concat [] c = refl
erase_last-concat (x ∷ s) c =
    let size : suc (length (s ++ c ∷ [])) - 1 ≡ length (x ∷ s) =
      omega (arith, length-append s (c ∷ [])) in
    ap (λ (n : ℕ). take n (x ∷ (s ++ c ∷ []))) size ∙ take-length-append (x ∷ s) (c ∷ [])

erase_last-terminated : (ks : List Str) → erase_last (terminated ks) ≡ semicolons ks
erase_last-terminated [] = refl
erase_last-terminated (k ∷ ks) =
    ap erase_last (terminated-semicolons k ks) ∙ erase_last-concat (semicolons (k ∷ ks)) b';'

pub erase_last-append_keys : (m : KeyValueMap) → erase_last (append_keys [] m) ≡ semicolons (keys m)
erase_last-append_keys m =
    ap erase_last (append_keys-terminated [] m) ∙ erase_last-terminated (keys m)

KeyValueMap-set : IsSet KeyValueMap
KeyValueMap-set = hlevel Str-discrete

module _ (E : Env) (h : E.Headers) where
  -- The value of the last header in the list whose lower-case name is `k`.
  unfoldable pub last_value : List Str → Str → Option Str
  last_value [] k = none
  last_value (name ∷ names) k =
      or_else (last_value names k) (if k == E.tolower name then some (E.header_of h name) else none)

  pub lookup-collect_headers :
      (names : List Str) (m : KeyValueMap) (k : Str)
      → lookup k (collect_headers E h m names)
        ≡ (if is_ignored k then lookup k m else or_else (last_value names k) (lookup k m))
  unfolding collect_headers last_value or_else
  lookup-collect_headers [] m k = ground arith
  lookup-collect_headers (name ∷ names) m k = ground (
    arith,
    lookup-collect_headers names m k,
    lookup-collect_headers names (insert (E.tolower name) (E.header_of h name) m) k,
    lookup-insert k (E.tolower name) (E.header_of h name) m,
  )

  add_header-IsSorted :
      (name : Str) (m : KeyValueMap) → IsSorted m → IsSorted (add_header E h m name)
  unfolding add_header
  add_header-IsSorted name m s = elim (Bool-cases (is_ignored (E.tolower name))) [
    | inl skip ↦ rw skip s
    | inr keep ↦ rw keep (insert-IsSorted (E.tolower name) (E.header_of h name) m s)
  ]

  pub collect_headers-IsSorted :
      (names : List Str) (m : KeyValueMap) → IsSorted m → IsSorted (collect_headers E h m names)
  unfolding collect_headers
  collect_headers-IsSorted [] m s = s
  collect_headers-IsSorted (name ∷ names) m s =
      collect_headers-IsSorted names (add_header E h m name) (add_header-IsSorted name m s)

  add_header_comm :
      (a b : Str) (m : KeyValueMap)
      → IsSorted m
      → E.tolower a ≢ E.tolower b
      → add_header E h (add_header E h m a) b ≡ add_header E h (add_header E h m b) a
  unfolding add_header
  add_header_comm a b m s ne = ground (
    arith,
    insert_comm (E.tolower b) (E.tolower a) (E.header_of h b) (E.header_of h a) m s
        (λ e. ne (sym e)),
  )

  collect_headers-Permᴰ :
      {xs ys : List Str} (m : KeyValueMap)
      → Permᴰ xs ys
      → Nodup (map E.tolower xs)
      → IsSorted m
      → collect_headers E h m xs ≡ collect_headers E h m ys
  unfolding collect_headers
  collect_headers-Permᴰ m Permᴰ.nil d s = refl
  collect_headers-Permᴰ m (Permᴰ.cons {a} {b} {l₁} {l₂} e p) d s =
      collect_headers-Permᴰ (add_header E h m a) p (Nodup-cons.0 d).1 (add_header-IsSorted a m s)
      ∙ ap (λ c. collect_headers E h (add_header E h m c) l₂) e
  collect_headers-Permᴰ m (Permᴰ.swap {a} {b} {a'} {b'} {l} e f) d s =
      ap (λ n. collect_headers E h n l)
        (add_header_comm a b m s (λ same. (Nodup-cons.0 d).0 (rw same mem-cons_self)))
      ∙ ap₂ (λ x y. collect_headers E h (add_header E h (add_header E h m x) y) l) f e
  collect_headers-Permᴰ m (Permᴰ.trans p q) d s =
      collect_headers-Permᴰ m p d s
      ∙ collect_headers-Permᴰ m q (Perm.nodup ∣ Permᴰ.map E.tolower p ∣₁ d) s

  -- Header lists that differ in order alone give one map, if no two names agree without case.
  collect_headers-Perm :
      {xs ys : List Str}
      → Perm xs ys
      → Nodup (map E.tolower xs)
      → collect_headers E h [] xs ≡ collect_headers E h [] ys
  collect_headers-Perm p d = ∥∥₁_elim p (KeyValueMap-set _ _) (λ q. collect_headers-Permᴰ [] q d tt)

-- The object before `setCanonicalHeaders`, as the constructor leaves it.
abbrev pub HasNoHeaders : {E : Env} → Signer E → Type 0
HasNoHeaders s = (s.canonical_headers ≡ []) × (s.signed_headers ≡ [])

abbrev pub header_names : {E : Env} → Signer E → List Str
header_names {E} s = E.names (E.headers s.request)

-- From a new signer, `setCanonicalHeaders` gives a map in ascending order of lower-case names,
-- which holds for each name that is not ignored the value of the last header of that name, and
-- nothing for an ignored name; `signedHeaders_` lists its names in order, joined by semicolons.
pub set_canonical_headers_lem :
    {E : Env} (s : Signer E)
    → HasNoHeaders s
    → IsSorted (set_canonical_headers s).canonical_headers
      × ((k : Str)
          → lookup k (set_canonical_headers s).canonical_headers ≡ (
              if is_ignored k then none else last_value E (E.headers s.request) (header_names s) k))
      × ((set_canonical_headers s).signed_headers
          ≡ semicolons (keys (set_canonical_headers s).canonical_headers))
unfolding set_canonical_headers lookup or_else
set_canonical_headers_lem {E} s (no_headers, no_names) =
    let h = E.headers s.request in
    (
      rw no_headers (collect_headers-IsSorted E h (header_names s) [] tt),
      λ k. rw no_headers (ground (arith, lookup-collect_headers E h (header_names s) [] k)),
      rw no_names
          (erase_last-append_keys (collect_headers E h s.canonical_headers (header_names s))),
    )

module _ (E : Env) (h h' : E.Headers) (same : (k : Str) → E.header_of h k ≡ E.header_of h' k) where
  collect_headers-values :
      (names : List Str) (m : KeyValueMap)
      → collect_headers E h m names ≡ collect_headers E h' m names
  unfolding collect_headers
  collect_headers-values [] m = refl
  collect_headers-values (name ∷ names) m =
      rw (same name) (collect_headers-values names (add_header E h' m name))

-- Two requests whose headers differ in order alone have the same canonical headers and the same
-- `signedHeaders_`, if no two of their names agree without case.
pub set_canonical_headers-perm :
    {E : Env} (s t : Signer E)
    → HasNoHeaders s
    → HasNoHeaders t
    → Perm (header_names s) (header_names t)
    → ((k : Str) → E.header_of (E.headers s.request) k ≡ E.header_of (E.headers t.request) k)
    → Nodup (map E.tolower (header_names s))
    → ((set_canonical_headers s).canonical_headers ≡ (set_canonical_headers t).canonical_headers)
      × ((set_canonical_headers s).signed_headers ≡ (set_canonical_headers t).signed_headers)
unfolding set_canonical_headers
set_canonical_headers-perm {E} s t (hs, ns) (ht, nt) p values d =
    let same_map : collect_headers E (E.headers s.request) [] (header_names s)
        ≡ collect_headers E (E.headers t.request) [] (header_names t) =
      collect_headers-Perm E (E.headers s.request) p d
      ∙ collect_headers-values E _ _ values (header_names t) [] in
    (rw (hs, ht) same_map, rw (hs, ht, ns, nt) (ap (λ m. erase_last (append_keys [] m)) same_map))
