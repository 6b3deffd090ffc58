-- ===== src/Session/Sends.antt =====
-- How many requests an action sends.
use minioclient_cpp.Base.{
  ℕ, ◌+◌, ◌≤◌, ◌≡◌, sym, ◌∙◌, List, [], ◌++◌, arith, ap, append-nil, append_assoc, length,
  length-append,
}
use minioclient_cpp.Errors.{Result, ok, throw}
use minioclient_cpp.External.{Env}
use minioclient_cpp.Session.{World, M, continue, ◌>>=◌}

-- From every state `m` sends at most `n` requests after those already sent, returning or not.
pub record SendsAtMost (E : Env) {A : Type 0} (n : ℕ) (m : M E A) : Type 0 where
  pub at :
      (w : World E)
      → (requests : List E.Request) × ((m w).1.sent ≡ w.sent ++ requests) × (length requests ≤ n)

module _ {E : Env} {A : Type 0} where
  -- An action that leaves the sent requests alone.
  pub SendsAtMost-none : (m : M E A) → ((w : World E) → (m w).1.sent ≡ w.sent) → SendsAtMost E 0 m
  SendsAtMost-none m h = record { at = λ w. ([], h w ∙ sym (append-nil w.sent), omega arith) }

  pub SendsAtMost-weaken : (n k : ℕ) (m : M E A) → n ≤ k → SendsAtMost E n m → SendsAtMost E k m
  SendsAtMost-weaken n k m le h = record {
    at = λ w. let (requests, same, bound) = h.at w in (requests, same, omega (arith, le, bound));
  }

module _ {E : Env} {A B : Type 0} where
  continue-sends :
      (n k : ℕ) (f : A → M E B) (w v : World E) (r : Result A) (requests : List E.Request)
      → v.sent ≡ w.sent ++ requests
      → length requests ≤ n
      → ((a : A) → SendsAtMost E k (f a))
      → (more : List E.Request) × ((continue r f v).1.sent ≡ w.sent ++ more) × (length more ≤ n + k)
  continue-sends n k f w v (throw e) requests same bound h = (requests, same, omega (arith, bound))
  continue-sends n k f w v (ok a) requests same bound h =
      let (more, again, small) = (h a).at v in
      (
        requests ++ more,
        again ∙ ap (λ s. s ++ more) same ∙ append_assoc w.sent requests more,
        omega (arith, bound, small, length-append requests more),
      )

  -- One action after another.
  pub SendsAtMost-bind :
      (n k : ℕ) (m : M E A) (f : A → M E B)
      → SendsAtMost E n m
      → ((a : A) → SendsAtMost E k (f a))
      → SendsAtMost E (n + k) (m >>= f)
  SendsAtMost-bind n k m f hm hf = record {
    at = λ w.
        let (requests, same, bound) = hm.at w in
        continue-sends n k f w (m w).1 (m w).0 requests same bound hf;
  }
