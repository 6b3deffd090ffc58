-- ===== src/Text/Find.antt =====
-- Occurrences of a text in another, and `find`.
use mathlib.Core.Option
use minioclient_cpp.Base.{
  ℕ, suc, ◌+◌, ◌≤◌, ◌≡◌, refl, ap, true, false, some, [], ◌∷◌, ◌++◌, arith, length, drop,
  drop-length-append, length-append, Bool-cases, inl, inr, subst,
}
use minioclient_cpp.Text.{Str, starts_with, search_for, find}

pub starts_with-append : (s t : Str) → starts_with (s ++ t) s ≡ true
unfolding starts_with
starts_with-append [] t = refl
starts_with-append (x ∷ s) t = ground (arith, starts_with-append s t)

pub starts_with-split : (s t : Str) → starts_with s t ≡ true → (u : Str) × (s ≡ t ++ u)
unfolding starts_with
starts_with-split s [] h = (s, refl)
starts_with-split [] (y ∷ t) h = absurd cc
starts_with-split (x ∷ s) (y ∷ t) h =
    let (u, e) = starts_with-split s t (ground arith) in (u, ground (arith, e))

-- `t` does not occur in `pre ++ t` before its end: no earlier position matches.
abbrev pub IsFirst : Str → Str → Str → Type 0
IsFirst [] t rest = Unit
IsFirst (c ∷ pre) t rest = (starts_with (c ∷ (pre ++ rest)) t ≡ false) × IsFirst pre t rest

pub search_for-first :
    (pre t post : Str)
    → IsFirst pre t (t ++ post)
    → search_for t (pre ++ (t ++ post)) ≡ some (length pre)
unfolding search_for
search_for-first [] [] [] h = refl
search_for-first [] [] (c ∷ post) h = refl
search_for-first [] (c ∷ t) post h = rw (starts_with-append (c ∷ t) post)
search_for-first (c ∷ pre) t post (h, hs) = rw (h, search_for-first pre t post hs)

-- Where `t` first stands in `s`.
pub record FirstOf (t s : Str) (i : ℕ) : Type 0 where
  pub pre : Str
  pub post : Str
  pub splits : s ≡ pre ++ (t ++ post)
  pub position : length pre ≡ i
  pub first : IsFirst pre t (t ++ post)

FirstOf-here : (t s : Str) → starts_with s t ≡ true → FirstOf t s 0
FirstOf-here t s h =
    let (u, e) = starts_with-split s t h in
    record { pre = []; post = u; splits = e; position = refl; first = tt }

FirstOf-cons :
    (t s : Str) (c i : ℕ)
    → starts_with (c ∷ s) t ≡ false
    → FirstOf t s i
    → FirstOf t (c ∷ s) (suc i)
FirstOf-cons t s c i h f = record {
  pre = c ∷ f.pre;
  post = f.post;
  splits = ap (◌∷◌ c) f.splits;
  position = ap suc f.position;
  first = (rw (← f.splits) h, f.first);
}

-- Whatever `search_for` finds is an occurrence, and the first one.
pub search_for-FirstOf : (t s : Str) (i : ℕ) → search_for t s ≡ some i → FirstOf t s i
unfolding search_for
search_for-FirstOf t [] i h = elim (Bool-cases (starts_with [] t)) [
  | inl here ↦ let e : 0 ≡ i = ground arith in subst (FirstOf t []) e (FirstOf-here t [] here)
  | inr not_here ↦ ground arith
]
search_for-FirstOf t (c ∷ s) i h = elim (Bool-cases (starts_with (c ∷ s) t)) [
  | inl here ↦
      let e : 0 ≡ i = ground arith in subst (FirstOf t (c ∷ s)) e (FirstOf-here t (c ∷ s) here)
  | inr not_here ↦
      let (j, found, same) = (Option.map-eq-some_iff _ _).0 (rw not_here at h) in
      subst (FirstOf t (c ∷ s)) same
        (FirstOf-cons t s c j not_here (search_for-FirstOf t s j found))
]

-- A text with `t` in it is found.
pub search_for-total : (pre t post : Str) → (i : ℕ) × (search_for t (pre ++ (t ++ post)) ≡ some i)
unfolding search_for
search_for-total [] [] [] = (0, refl)
search_for-total [] [] (c ∷ post) = (0, refl)
search_for-total [] (c ∷ t) post = (0, rw (starts_with-append (c ∷ t) post))
search_for-total (c ∷ pre) t post = elim (Bool-cases (starts_with (c ∷ (pre ++ (t ++ post))) t)) [
  | inl here ↦ (0, rw here)
  | inr not_here ↦ let (i, found) = search_for-total pre t post in (suc i, rw (not_here, found))
]

find_from :
    (s t : Str) (pos : ℕ)
    → pos ≤ length s
    → find s t pos ≡ Option.map (λ i. pos + i) (search_for t (drop pos s))
unfolding find
find_from s t pos h = ground arith

-- `find` from the end of a known prefix.
pub find-append :
    (done t s : Str)
    → find (done ++ s) t (length done) ≡ Option.map (λ i. length done + i) (search_for t s)
find-append done t s = rw (
  find_from (done ++ s) t (length done) (omega (arith, length-append done s)),
  drop-length-append,
)
