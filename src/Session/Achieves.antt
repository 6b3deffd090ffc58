-- ===== src/Session/Achieves.antt =====
-- Actions that return, with what they need before and what holds after.
use minioclient_cpp.Base.{◌≡◌, refl}
use minioclient_cpp.Errors.{Result, ok}
use minioclient_cpp.External.{Env}
use minioclient_cpp.Session.{World, M, continue, ◌>>=◌, pure}

-- From every state where `P` holds `m` returns a value, and `Q` holds of it and of the state after.
pub record Achieves (E : Env) {A : Type 0} (P : World E → Type 0) (m : M E A)
    (Q : A → World E → Type 0) : Type 0 where
  pub at : (w : World E) → P w → (a : A) × ((m w).0 ≡ ok a) × Q a (m w).1

module _ {E : Env} {A : Type 0} where
  pub Achieves-pure :
      (P : World E → Type 0) (a : A) (Q : A → World E → Type 0)
      → ((w : World E) → P w → Q a w)
      → Achieves E P (pure a) Q
  Achieves-pure P a Q h = record { at = λ w p. (a, refl, h w p) }

module _ {E : Env} {A B : Type 0} where
  continue-Achieves :
      (Q : A → World E → Type 0) (R : B → World E → Type 0) (f : A → M E B) (v : World E)
      (r : Result A) (a : A)
      → r ≡ ok a
      → Q a v
      → Achieves E (Q a) (f a) R
      → (b : B) × ((continue r f v).0 ≡ ok b) × R b (continue r f v).1
  continue-Achieves Q R f v r a returned q h = rw returned (h.at v q)

  -- One action after another: what the first leaves is what the second needs.
  pub Achieves-bind :
      (P : World E → Type 0) (Q : A → World E → Type 0) (R : B → World E → Type 0) (m : M E A)
      (f : A → M E B)
      → Achieves E P m Q
      → ((a : A) → Achieves E (Q a) (f a) R)
      → Achieves E P (m >>= f) R
  Achieves-bind P Q R m f hm hf = record {
    at = λ w p.
        let (a, returned, q) = hm.at w p in
        continue-Achieves Q R f (m w).1 (m w).0 a returned q (hf a);
  }
