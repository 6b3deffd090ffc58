-- ===== src/Client/History.antt =====
-- What any sequence of calls of the client's methods leaves true.
pub mod Requests
pub mod Methods
pub mod Steps
use minioclient_cpp.Base.{
  ◌≡◌, ◌≢◌, ◌⊎◌, inl, inr, refl, sym, ap, subst, ◌∙◌, List, [], ◌∷◌, ◌++◌, append-nil, append_assoc,
  All, All-append, ℕ,
}
use minioclient_cpp.Text.{Str, str}
use minioclient_cpp.Map.{KeyValueMap}
use minioclient_cpp.Errors.{Result, ok, throw}
use minioclient_cpp.External.{Env}
use minioclient_cpp.Session.{World, M, continue, ◌>>=◌}
use minioclient_cpp.Client.Request.{request_url_of}
use minioclient_cpp.Client.Bucket.{us_east_1}
use minioclient_cpp.Client.Bucket.Region.{us_east_1-ne-nil}

module _ (E : Env) where
  -- A HEAD or PUT request to a URL that is built of the client's.
  pub record IsOurs (base : E.HttpUrl) (r : E.Request) : Type 0 where
    pub bucket : Str
    pub object : Str
    pub query : KeyValueMap
    pub url-same : E.request_url r ≡ request_url_of E base bucket object query
    pub method-known :
        (E.request_method r ≡ E.method_name E.head) ⊎ (E.request_method r ≡ E.method_name E.put)

  -- The region is that of before, or the one that an empty region is settled to.
  abbrev pub Settles : Str → Str → Type 0
  Settles before after = (after ≡ before) ⊎ ((before ≡ []) × (after ≡ us_east_1))

  Settles-trans : (a b c : Str) → Settles a b → Settles b c → Settles a c
  Settles-trans a b c (inl p) (inl q) = inl (q ∙ p)
  Settles-trans a b c (inl p) (inr (q, r)) = inr (sym p ∙ q, r)
  Settles-trans a b c (inr (p, q)) (inl r) = inr (p, r ∙ q)
  Settles-trans a b c (inr (p, q)) (inr (r, s)) = absurd (us_east_1-ne-nil (sym q ∙ r))

  -- From `w` to `v` the client's keys, agent, URL and clock are the same, its region is at most
  -- settled, and what was sent and written is still there, with requests of the client's own.
  pub record Follows (w v : World E) : Type 0 where
    pub access_key-same : v.client.access_key ≡ w.client.access_key
    pub secret_key-same : v.client.secret_key ≡ w.client.secret_key
    pub user_agent-same : v.client.user_agent ≡ w.client.user_agent
    pub base_url-same : v.client.base_url ≡ w.client.base_url
    pub clock-same : v.clock ≡ w.clock
    pub region-settles : Settles w.client.region v.client.region
    pub requests : List E.Request
    pub sent-grows : v.sent ≡ w.sent ++ requests
    pub requests-IsOurs : All (IsOurs w.client.base_url) requests
    pub lines : List (ℕ × Str)
    pub output-grows : v.output ≡ w.output ++ lines

grown : {A : Type 0} (a b c xs ys : List A) → b ≡ a ++ xs → c ≡ b ++ ys → c ≡ a ++ (xs ++ ys)
grown a b c xs ys p q = q ∙ ap (λ z. z ++ ys) p ∙ append_assoc a xs ys

module _ {E : Env} where
  pub Follows-refl : (w : World E) → Follows E w w
  Follows-refl w = record {
    access_key-same = refl;
    secret_key-same = refl;
    user_agent-same = refl;
    base_url-same = refl;
    clock-same = refl;
    region-settles = inl refl;
    requests = [];
    sent-grows = sym (append-nil w.sent);
    requests-IsOurs = tt;
    lines = [];
    output-grows = sym (append-nil w.output);
  }

  pub Follows-trans : (u v w : World E) → Follows E u v → Follows E v w → Follows E u w
  Follows-trans u v w f g = record {
    access_key-same = g.access_key-same ∙ f.access_key-same;
    secret_key-same = g.secret_key-same ∙ f.secret_key-same;
    user_agent-same = g.user_agent-same ∙ f.user_agent-same;
    base_url-same = g.base_url-same ∙ f.base_url-same;
    clock-same = g.clock-same ∙ f.clock-same;
    region-settles =
        Settles-trans E u.client.region v.client.region w.client.region f.region-settles
          g.region-settles;
    requests = f.requests ++ g.requests;
    sent-grows = grown u.sent v.sent w.sent f.requests g.requests f.sent-grows g.sent-grows;
    requests-IsOurs =
        All-append (IsOurs E u.client.base_url) f.requests g.requests f.requests-IsOurs
          (subst (λ base. All (IsOurs E base) g.requests) f.base_url-same g.requests-IsOurs);
    lines = f.lines ++ g.lines;
    output-grows = grown u.output v.output w.output f.lines g.lines f.output-grows g.output-grows;
  }

-- From every state, whether it returns or throws, `m` leads to a state that follows.
pub record Evolves (E : Env) {A : Type 0} (m : M E A) : Type 0 where
  pub at : (w : World E) → Follows E w (m w).1

module _ {E : Env} {A B : Type 0} where
  continue-Follows :
      (f : A → M E B) (w v : World E) (r : Result A)
      → Follows E w v
      → ((a : A) → Evolves E (f a))
      → Follows E w (continue r f v).1
  continue-Follows f w v (ok a) h k = Follows-trans w v (f a v).1 h ((k a).at v)
  continue-Follows f w v (throw e) h k = h

  pub Evolves-bind :
      (m : M E A) (f : A → M E B) → Evolves E m → ((a : A) → Evolves E (f a)) → Evolves E (m >>= f)
  Evolves-bind m f hm hf = record { at = λ w. continue-Follows f w (m w).1 (m w).0 (hm.at w) hf }
