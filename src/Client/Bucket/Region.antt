-- ===== src/Client/Bucket/Region.antt =====
-- The client's region, in `getRegion` and `makeBucket`.
use minioclient_cpp.Base.{
  ◌≡◌, ◌≢◌, ◌↔◌, ◌⊎◌, inl, inr, refl, sym, ap, ◌∙◌, true, false, [], ◌∷◌, arith, if◌then◌else◌,
  is_empty,
}
use minioclient_cpp.Text.{Str, str}
use minioclient_cpp.Errors.{Exn, region_conflict, ok, throw}
use minioclient_cpp.External.{Env}
use minioclient_cpp.Session.{World, ◌>>=◌, ◌>>◌}
use minioclient_cpp.Client.Execute.{execute}
use minioclient_cpp.Client.Bucket.{
  us_east_1, conflicts, chosen_region, bucket_configuration, get_region, execute_put_in,
  make_bucket,
}

abbrev pub conflict_error : Exn
conflict_error = region_conflict (str "passed region conflicts with the one previously specified")

pub us_east_1-ne-nil : us_east_1 ≢ []
unfolding str
us_east_1-ne-nil e = cc

-- The test refuses a given region that is not the client's own, and nothing else.
pub conflicts_iff :
    (given own : Str)
    → (conflicts (chosen_region given own) own ≡ true) ↔ ((given ≢ []) × (given ≢ own))
conflicts_iff [] own = ground arith
conflicts_iff (c ∷ given) own = ground arith

chosen_region_same :
    (given own : Str) → (given ≡ []) ⊎ (given ≡ own) → chosen_region given own ≡ own
chosen_region_same [] own same = refl
chosen_region_same (c ∷ given) own same = ground arith

conflicts_self : (own : Str) → conflicts own own ≡ false
conflicts_self own = ground arith

abbrev settle : Str → Str
settle own = if is_empty own then us_east_1 else own

settle-ne-nil : (own : Str) → settle own ≢ []
settle-ne-nil [] e = us_east_1-ne-nil e
settle-ne-nil (c ∷ own) e = cc

settle_idem : (own : Str) → settle (settle own) ≡ settle own
unfolding str
settle_idem [] = refl
settle_idem (c ∷ own) = refl

settle_cases : (own : Str) → (own ≡ []) ⊎ (settle own ≡ own)
settle_cases [] = inl refl
settle_cases (c ∷ own) = inr refl

module _ {E : Env} where
  -- The state with another region of the client.
  abbrev in_region : Str → World E → World E
  in_region own w = record w { client = record w.client { region = own } }

  -- `getRegion` returns a region that is not empty, keeps it in the client, and from then on
  -- returns it again without a change; if the client had a region before, nothing changes at all.
  pub get_region_settles :
      (a b : Str) (w : World E)
      → let (region, v) = get_region a w in
        (region ≡ ok v.client.region)
        × (v.client.region ≢ [])
        × (get_region b v ≡ (region, v))
        × ((w.client.region ≡ []) ⊎ (v ≡ w))
  unfolding get_region
  get_region_settles a b w =
      let own = w.client.region in
      (
        refl,
        settle-ne-nil own,
        ap (λ (r : Str). (ok r, in_region r w)) (settle_idem own),
        elim (settle_cases own) [
          | inl none_yet ↦ inl none_yet
          | inr same ↦ inr (ap (λ (r : Str). in_region r w) same)
        ],
      )

  make_bucket_conflict :
      (bucket given : Str) (w : World E)
      → given ≢ []
      → given ≢ w.client.region
      → make_bucket bucket given w ≡ (throw conflict_error, w)
  unfolding make_bucket
  make_bucket_conflict bucket given w ne other =
      rw ((conflicts_iff given w.client.region).1 (ne, other))

  pub make_bucket_agrees :
      (bucket given : Str) (w : World E)
      → (given ≡ []) ⊎ (given ≡ w.client.region)
      → make_bucket bucket given w
        ≡ (do
          execute E.put us_east_1 bucket [] [] [] (bucket_configuration w.client.region)
          λ v. (ok tt, v))
            w
  unfolding make_bucket execute_put_in
  make_bucket_agrees bucket given w same =
      rw (chosen_region_same given w.client.region same, conflicts_self)

  -- On a client with no region, `makeBucket` refuses "us-east-1", and after any call that has
  -- settled the region it does not refuse it.
  pub make_bucket_history :
      (bucket other : Str) (w : World E)
      → w.client.region ≡ []
      → (make_bucket bucket us_east_1 w ≡ (throw conflict_error, w))
        × (make_bucket bucket us_east_1 (get_region other w).1
            ≡ (do
              execute E.put us_east_1 bucket [] [] [] (bucket_configuration us_east_1)
              λ v. (ok tt, v))
                (get_region other w).1)
  unfolding get_region
  make_bucket_history bucket other w none_yet =
      let v = in_region (settle w.client.region) w in
      let settled : settle w.client.region ≡ us_east_1 = rw none_yet in
      (
        make_bucket_conflict bucket us_east_1 w us_east_1-ne-nil
            (λ e. us_east_1-ne-nil (e ∙ none_yet)),
        make_bucket_agrees bucket us_east_1 v (inr (sym settled))
            ∙ ap
                (λ own.
                  (execute E.put us_east_1 bucket [] [] [] (bucket_configuration own) >>= λ _ u.
                  (ok tt, u))
                    v)
                settled,
      )
