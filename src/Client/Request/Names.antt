-- ===== src/Client/Request/Names.antt =====
-- Which names `createRequest` accepts.
use minioclient_cpp.Base.{
  suc, ◌≤◌, ◌≡◌, ◌⊎◌, inl, inr, refl, ltb, ◌||◌, Bool-cases, [], ◌∷◌, arith, length,
}
use minioclient_cpp.Text.{Str}
use minioclient_cpp.Map.{KeyValueMap}
use minioclient_cpp.Errors.{named, invalid_bucket_name, ok, throw}
use minioclient_cpp.DateTime
use minioclient_cpp.DateTime.{amz_date_format}
use minioclient_cpp.External.{Env}
use minioclient_cpp.Session.{World, now}
use minioclient_cpp.Client.Request.{
  length_message, check_bucket_name, check_target, request_url_of, hashes, assemble, create_request,
}

-- The lengths that `checkBucketName` allows.
abbrev pub IsName : Str → Type 0
IsName name = (3 ≤ length name) × (length name ≤ 63)

-- `checkBucketName` returns exactly for the names of 3 to 63 characters, and throws for any other.
pub check_bucket_name_lem :
    (name : Str)
    → ((check_bucket_name name ≡ ok tt) × IsName name)
      ⊎ (((text : Str) × (check_bucket_name name ≡ throw (invalid_bucket_name text)))
          × ¬ IsName name)
unfolding check_bucket_name
check_bucket_name_lem [] = inr ((_, refl), λ (h, _). absurd (omega arith))
check_bucket_name_lem (c ∷ name) =
    elim (Bool-cases (ltb (suc (length name)) 3 || ltb 63 (suc (length name)))) [
      | inl bad ↦ inr ((named (c ∷ name) length_message, rw bad), ground arith)
      | inr good ↦ inl (rw good, ground arith)
    ]

IsName-nil : ¬ IsName []
IsName-nil h = omega arith

-- A bucket of an allowed length, or neither a bucket nor an object.
abbrev pub IsTarget : Str → Str → Type 0
IsTarget bucket object = IsName bucket ⊎ ((bucket ≡ []) × (object ≡ []))

-- What the tests at the head of `createRequest` decide.
check_target_lem :
    (bucket object : Str)
    → ((check_target bucket object ≡ ok tt) × IsTarget bucket object)
      ⊎ (((text : Str) × (check_target bucket object ≡ throw (invalid_bucket_name text)))
          × ¬ IsTarget bucket object)
unfolding check_target
check_target_lem [] [] = inl (refl, inr (refl, refl))
check_target_lem [] (c ∷ object) = inr ((_, refl), ground arith)
check_target_lem (c ∷ bucket) object = elim (check_bucket_name_lem (c ∷ bucket)) [
  | inl (fine, name) ↦ inl (fine, inl name)
  | inr (thrown, not_name) ↦ inr (thrown, ground (arith, not_name))
]

module _ {E : Env} (m : E.Method) (bucket object region : Str) (headers query : KeyValueMap)
    (content_type body : Str) (w : World E) where
  -- The request that `createRequest` makes in a state.
  abbrev pub made : E.Request
  made =
      let url = request_url_of E w.client.base_url bucket object query in
      assemble E w.client m url headers (hashes E w.client m url query body)
        (DateTime.to_string (w.clock w.reads) amz_date_format) content_type body

  -- For a target, `createRequest` reads the clock once and returns the request; for anything else
  -- it throws `InvalidBucketNameException`, and has then not even read the clock.
  pub create_request_lem :
      (IsTarget bucket object
        × (create_request m bucket object region headers query content_type body w
            ≡ (ok made, record w { reads = suc w.reads })))
      ⊎ ((¬ IsTarget bucket object)
          × ((text : Str) × (create_request m bucket object region headers query content_type body w
                ≡ (throw (invalid_bucket_name text), w))))
  unfolding create_request now
  create_request_lem = elim (check_target_lem bucket object) [
    | inl (fine, target) ↦ inl (target, rw fine)
    | inr ((text, thrown), not_target) ↦ inr (not_target, (text, rw thrown))
  ]

  pub create_request-ok :
      IsTarget bucket object
      → create_request m bucket object region headers query content_type body w
        ≡ (ok made, record w { reads = suc w.reads })
  create_request-ok target = elim create_request_lem [
    | inl (_, returned) ↦ returned
    | inr (not_target, _) ↦ absurd (not_target target)
  ]
