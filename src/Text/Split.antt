-- ===== src/Text/Split.antt =====
-- Texts that are put together with a separator, and their parts.
use mathlib.Core.List.{head-eq_of_cons-eq, tail-eq_of_cons-eq}
use minioclient_cpp.Base.{
  take, take-length-append, ℕ, ◌≡◌, ◌≢◌, refl, sym, ap, ap₂, ◌∙◌, List, [], ◌∷◌, ◌++◌, arith,
  length, drop, All, length-append, drop-length-append,
}
use minioclient_cpp.Text.{Str, between}

-- The byte is not in the text.
abbrev pub Lacks : ℕ → Str → Type 0
Lacks c s = All (λ x. x ≢ c) s

Lacks-ne : (c : ℕ) (s t u : Str) → Lacks c s → s ≢ t ++ c ∷ u
Lacks-ne c [] [] u h e = cc
Lacks-ne c [] (y ∷ t) u h e = cc
Lacks-ne c (x ∷ s) [] u h e = h.0 (head-eq_of_cons-eq e)
Lacks-ne c (x ∷ s) (y ∷ t) u h e = Lacks-ne c s t u h.1 (tail-eq_of_cons-eq e)

-- Two texts are cut in the same way at the first separator.
pub cut_at :
    (c : ℕ) (s t u v : Str) → Lacks c s → Lacks c t → s ++ c ∷ u ≡ t ++ c ∷ v → (s ≡ t) × (u ≡ v)
cut_at c [] [] u v hs ht e = (refl, tail-eq_of_cons-eq e)
cut_at c [] (y ∷ t) u v hs ht e = absurd (ht.0 (sym (head-eq_of_cons-eq e)))
cut_at c (x ∷ s) [] u v hs ht e = absurd (hs.0 (head-eq_of_cons-eq e))
cut_at c (x ∷ s) (y ∷ t) u v hs ht e =
    let (same, rest) = cut_at c s t u v hs.1 ht.1 (tail-eq_of_cons-eq e) in
    (ap₂ (λ (z : ℕ) (r : Str). z ∷ r) (head-eq_of_cons-eq e) same, rest)

-- The lines of a text of at least one line are determined, if no line holds the separator.
pub between-injective :
    (c : ℕ) (s t : Str) (ss ts : List Str)
    → All (Lacks c) (s ∷ ss)
    → All (Lacks c) (t ∷ ts)
    → between (c ∷ []) (s ∷ ss) ≡ between (c ∷ []) (t ∷ ts)
    → ◌≡◌ {A = List Str} (s ∷ ss) (t ∷ ts)
between-injective c s t [] [] hs ht e = ap (λ (r : Str). r ∷ []) e
between-injective c s t [] (t' ∷ ts) hs ht e = absurd (Lacks-ne c s t _ hs.0 e)
between-injective c s t (s' ∷ ss) [] hs ht e = absurd (Lacks-ne c t s _ ht.0 (sym e))
between-injective c s t (s' ∷ ss) (t' ∷ ts) hs ht e =
    let (same, rest) = cut_at c s t _ _ hs.0 ht.0 e in
    ap₂ (λ (x : Str) (xs : List Str). x ∷ xs) same (between-injective c s' t' ss ts hs.1 ht.1 rest)

-- So are the ends of two texts, if they are of one length.
pub same_end : (s t u v : Str) → length u ≡ length v → s ++ u ≡ t ++ v → u ≡ v
same_end s t u v size e =
    let sizes : length s ≡ length t =
      omega (arith, size, ap length e, length-append s u, length-append t v) in
    sym (drop-length-append s u)
    ∙ ap₂ (λ (n : ℕ) (r : Str). drop n r) sizes e
    ∙ drop-length-append t v

-- And so are the beginnings.
pub same_start : (s t u v : Str) → length u ≡ length v → s ++ u ≡ t ++ v → s ≡ t
same_start s t u v size e =
    let sizes : length s ≡ length t =
      omega (arith, size, ap length e, length-append s u, length-append t v) in
    sym (take-length-append s u)
    ∙ ap₂ (λ (n : ℕ) (r : Str). take n r) sizes e
    ∙ take-length-append t v
