-- ===== src/Session/Ensures.antt =====
-- What holds after an action that has returned.
use minioclient_cpp.Base.{◌≡◌, refl}
use minioclient_cpp.Errors.{Result, ok, throw}
use minioclient_cpp.External.{Env}
use minioclient_cpp.Session.{World, M, continue, ◌>>=◌}
use minioclient_cpp.Session.Returns.{throw-ne-ok}

-- Whenever `m` returns, from any state, `Q` holds of the value and of the state after.
pub record Ensures (E : Env) {A : Type 0} (m : M E A) (Q : A → World E → Type 0) : Type 0 where
  pub at : (w : World E) (a : A) → (m w).0 ≡ ok a → Q a (m w).1

module _ {E : Env} {A : Type 0} where
  pub Ensures-any : (m : M E A) → Ensures E m λ _ _. Unit
  Ensures-any m = record { at = λ w a h. tt }

module _ {E : Env} {A B : Type 0} where
  continue-Ensures :
      (Q : A → World E → Type 0) (R : B → World E → Type 0) (f : A → M E B) (v : World E)
      (r : Result A) (b : B)
      → ((a : A) → r ≡ ok a → Q a v)
      → ((a : A) (u : World E) (c : B) → Q a u → (f a u).0 ≡ ok c → R c (f a u).1)
      → (continue r f v).0 ≡ ok b
      → R b (continue r f v).1
  continue-Ensures Q R f v (ok a) b q k h = k a v b (q a refl) h
  continue-Ensures Q R f v (throw e) b q k h = absurd (throw-ne-ok h)

  -- One action after another: the second may use what the first has ensured.
  pub Ensures-bind :
      (Q : A → World E → Type 0) (R : B → World E → Type 0) (m : M E A) (f : A → M E B)
      → Ensures E m Q
      → ((a : A) (u : World E) (c : B) → Q a u → (f a u).0 ≡ ok c → R c (f a u).1)
      → Ensures E (m >>= f) R
  Ensures-bind Q R m f hm hf = record {
    at = λ w b h. continue-Ensures Q R f (m w).1 (m w).0 b (hm.at w) hf h;
  }

  -- What the last of two actions ensures, whatever the first did.
  pub Ensures-last :
      (R : B → World E → Type 0) (m : M E A) (f : A → M E B)
      → ((a : A) → Ensures E (f a) R)
      → Ensures E (m >>= f) R
  Ensures-last R m f h =
      Ensures-bind (λ _ _. Unit) R m f (Ensures-any m) λ a u c _ returned. (h a).at u c returned
