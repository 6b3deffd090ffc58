-- ===== src/Session/Fails.antt =====
-- What holds of every exception that an action throws.
use minioclient_cpp.Errors.{Exn, Result, ok, throw, ◌>>=◌}
use minioclient_cpp.External.{Env}
use minioclient_cpp.Session
use minioclient_cpp.Session.{World, M, continue}

-- The exception of a result, if there is one, satisfies `P`.
abbrev pub FailsIn {ℓ} : {A : Type ℓ} → (Exn → Type 0) → Result A → Type 0
FailsIn P (ok a) = Unit
FailsIn P (throw e) = P e

pub FailsIn-bind :
    {A B : Type 0} (P : Exn → Type 0) (m : Result A) (f : A → Result B)
    → FailsIn P m
    → ((a : A) → FailsIn P (f a))
    → FailsIn P (m >>= f)
FailsIn-bind P (ok a) f h k = k a
FailsIn-bind P (throw e) f h k = h

-- Every exception that `m` throws, from any state, satisfies `P`.
pub record Fails (E : Env) {A : Type 0} (P : Exn → Type 0) (m : M E A) : Type 0 where
  pub at : (w : World E) → FailsIn P (m w).0

module _ {E : Env} {A B : Type 0} where
  continue-Fails :
      (P : Exn → Type 0) (f : A → M E B) (v : World E) (r : Result A)
      → FailsIn P r
      → ((a : A) → Fails E P (f a))
      → FailsIn P (continue r f v).0
  continue-Fails P f v (ok a) h k = (k a).at v
  continue-Fails P f v (throw e) h k = h

  pub Fails-bind :
      (P : Exn → Type 0) (m : M E A) (f : A → M E B)
      → Fails E P m
      → ((a : A) → Fails E P (f a))
      → Fails E P (Session.◌>>=◌ m f)
  Fails-bind P m f hm hf = record { at = λ w. continue-Fails P f (m w).1 (m w).0 (hm.at w) hf }
