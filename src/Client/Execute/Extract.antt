-- ===== src/Client/Execute/Extract.antt =====
-- `extract` against a description of the text between two tokens.
use mathlib.Core.Option
use minioclient_cpp.Base.{
  ℕ, ◌+◌, ◌≡◌, ◌≢◌, refl, sym, ap, ◌∙◌, Option, none, some, [], ◌++◌, arith, append_assoc, length,
  take, take-length-append, drop-length-append, length-append, subst, ap₂, ◌↔◌, Option-cases, inl,
  inr,
}
use minioclient_cpp.Text.{Str, search_for, find}
use minioclient_cpp.Text.Find.{IsFirst, FirstOf, search_for-first, search_for-FirstOf, find-append}
use minioclient_cpp.Client.Execute.{cut, cut_after, extract}

-- What `cut` gives after a known beginning.
abbrev up_to : Str → Option ℕ → Str
up_to s none = []
up_to s (some i) = take i s

cut-append :
    (done s : Str) (found : Option ℕ)
    → cut (done ++ s) (length done) (Option.map (λ i. length done + i) found) ≡ up_to s found
cut-append done s none = refl
cut-append done s (some i) = rw (drop-length-append done s) (ap (λ (n : ℕ). take n s) (omega arith))

cut-search :
    (done s end_token : Str)
    → cut (done ++ s) (length done) (find (done ++ s) end_token (length done))
      ≡ up_to s (search_for end_token s)
cut-search done s end_token =
    ap (cut (done ++ s) (length done)) (find-append done end_token s)
    ∙ cut-append done s (search_for end_token s)

find_first :
    (pre t post : Str)
    → IsFirst pre t (t ++ post)
    → find (pre ++ (t ++ post)) t 0 ≡ some (length pre)
find_first pre t post h =
    find-append [] t (pre ++ (t ++ post))
    ∙ rw (search_for-first pre t post h) (ap some (omega arith))

-- The rest of the search, once the begin token is found.
cut_after-append :
    (pre b s e : Str)
    → cut_after (pre ++ (b ++ s)) b e (some (length pre)) ≡ up_to s (search_for e s)
cut_after-append pre b s e =
    rw (← append_assoc pre b s, ← length-append pre b) (cut-search (pre ++ b) s e)

-- The text of `source` between its first begin token and the first end token after that.
pub extract-between :
    (pre begin_token mid end_token post : Str)
    → IsFirst pre begin_token (begin_token ++ (mid ++ (end_token ++ post)))
    → IsFirst mid end_token (end_token ++ post)
    → extract (pre ++ (begin_token ++ (mid ++ (end_token ++ post)))) begin_token end_token ≡ mid
unfolding extract
extract-between pre b mid e post hb he =
    ap (cut_after (pre ++ (b ++ (mid ++ (e ++ post)))) b e)
      (find_first pre b (mid ++ (e ++ post)) hb)
    ∙ cut_after-append pre b (mid ++ (e ++ post)) e
    ∙ ap (up_to (mid ++ (e ++ post))) (search_for-first mid e post he)
    ∙ take-length-append mid (e ++ post)

-- Where `mid` stands between the tokens.
pub record Between (source b e mid : Str) : Type 0 where
  pub pre : Str
  pub post : Str
  pub splits : source ≡ pre ++ (b ++ (mid ++ (e ++ post)))
  pub first_begin : IsFirst pre b (b ++ (mid ++ (e ++ post)))
  pub first_end : IsFirst mid e (e ++ post)

take-FirstOf : {t s : Str} {i : ℕ} (f : FirstOf t s i) → take i s ≡ f.pre
take-FirstOf f = ap₂ take (sym f.position) f.splits ∙ take-length-append f.pre _

up_to-split :
    (s e mid : Str)
    → up_to s (search_for e s) ≡ mid
    → mid ≢ []
    → (post : Str) × (s ≡ mid ++ (e ++ post)) × IsFirst mid e (e ++ post)
up_to-split s e mid h ne = elim (Option-cases (search_for e s)) [
  | inl missing ↦ absurd (ne (sym (rw missing at h)))
  | inr (i, found) ↦
      let f = search_for-FirstOf e s i found in
      let same : f.pre ≡ mid = sym (take-FirstOf f) ∙ (rw found at h) in
      (
        f.post,
        subst (λ m. s ≡ m ++ (e ++ f.post)) same f.splits,
        subst (λ m. IsFirst m e (e ++ f.post)) same f.first,
      )
]

find-FirstOf : (s t : Str) (i : ℕ) → find s t 0 ≡ some i → FirstOf t s i
find-FirstOf s t i h =
    let (j, found, same) = (Option.map-eq-some_iff _ _).0 (sym (find-append [] t s) ∙ h) in
    subst (FirstOf t s) (omega (arith, same)) (search_for-FirstOf t s j found)

Between-FirstOf :
    (source b e mid : Str) (i : ℕ) (f : FirstOf b source i)
    → cut_after source b e (some i) ≡ mid
    → mid ≢ []
    → Between source b e mid
Between-FirstOf source b e mid i f h ne =
    let located : up_to f.post (search_for e f.post) ≡ mid =
      sym (cut_after-append f.pre b f.post e)
      ∙ ap₂ (λ s n. cut_after s b e (some n)) (sym f.splits) f.position
      ∙ h in
    let (post, splits, first) = up_to-split f.post e mid located ne in
    record {
      pre = f.pre;
      post = post;
      splits = f.splits ∙ ap (λ s. f.pre ++ (b ++ s)) splits;
      first_begin = subst (λ s. IsFirst f.pre b (b ++ s)) splits f.first;
      first_end = first;
    }

-- `extract` gives a text that is not empty exactly when the source holds it between its first
-- begin token and the first end token after that one.
pub extract_iff :
    (source b e mid : Str) → mid ≢ [] → (extract source b e ≡ mid) ↔ Between source b e mid
unfolding extract
extract_iff source b e mid ne = (
  λ h. elim (Option-cases (find source b 0)) [
    | inl missing ↦ absurd (ne (sym (rw missing at h)))
    | inr (i, found) ↦
        Between-FirstOf source b e mid i (find-FirstOf source b i found) (rw found at h) ne
  ],
  λ t.
      ap (λ s. extract s b e) t.splits
      ∙ extract-between t.pre b mid e t.post t.first_begin t.first_end,
)
