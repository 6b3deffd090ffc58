-- ===== src/Session/Returns.antt =====
-- What holds of every value that an action returns.
use minioclient_cpp.Base.{◌≡◌, subst, refl}
use minioclient_cpp.Errors.{Exn, Result, ok, throw}
use minioclient_cpp.External.{Env}
use minioclient_cpp.Session.{World, M, continue, ◌>>=◌, pure}

pub ok_inj : {A : Type 0} {a b : A} → ok a ≡ ok b → a ≡ b
ok_inj h = cc

pub throw-ne-ok : {A : Type 0} {e : Exn} {a : A} → ¬ (throw e ≡ ok a)
throw-ne-ok h = cc

-- Every value that `m` returns, from any state, satisfies `P`.
pub record Returns (E : Env) {A : Type 0} (P : A → Type 0) (m : M E A) : Type 0 where
  pub at : (w : World E) (a : A) → (m w).0 ≡ ok a → P a

module _ {E : Env} {A : Type 0} where
  -- Nothing is said.
  pub Returns-any : (m : M E A) → Returns E (λ _. Unit) m
  Returns-any m = record { at = λ w a h. tt }

  pub Returns-pure : (P : A → Type 0) (a : A) → P a → Returns E P (pure a)
  Returns-pure P a p = record { at = λ w b h. subst P (ok_inj h) p }

module _ {E : Env} {A B : Type 0} where
  continue-Returns :
      (Q : A → Type 0) (P : B → Type 0) (f : A → M E B) (v : World E) (r : Result A) (b : B)
      → ((a : A) → r ≡ ok a → Q a)
      → ((a : A) → Q a → Returns E P (f a))
      → (continue r f v).0 ≡ ok b
      → P b
  continue-Returns Q P f v (ok a) b q k h = (k a (q a refl)).at v b h
  continue-Returns Q P f v (throw e) b q k h = absurd (throw-ne-ok h)

  pub Returns-bind :
      (Q : A → Type 0) (P : B → Type 0) (m : M E A) (f : A → M E B)
      → Returns E Q m
      → ((a : A) → Q a → Returns E P (f a))
      → Returns E P (m >>= f)
  Returns-bind Q P m f hm hf = record {
    at = λ w b h. continue-Returns Q P f (m w).1 (m w).0 b (hm.at w) hf h;
  }
