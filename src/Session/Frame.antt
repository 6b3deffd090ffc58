-- ===== src/Session/Frame.antt =====
-- Actions that touch nothing but the clock.
use minioclient_cpp.Base.{◌≡◌, refl, inl, inr, arith}
use minioclient_cpp.Text.{Str}
use minioclient_cpp.Errors.{Result, ok, throw, Result-cases}
use minioclient_cpp.External.{Env}
use minioclient_cpp.Session.{World, M, continue, ◌>>=◌, pure, parse_date_time}

-- The state with another count of clock readings.
abbrev pub SameButReads : {E : Env} → World E → World E → Type 0
SameButReads w v = v ≡ record w { reads = v.reads }

-- From every state, whether it returns or throws, `m` leaves all but the readings as it was.
pub record OnlyReads {E : Env} {A : Type 0} (m : M E A) : Type 0 where
  pub at : (w : World E) → SameButReads w (m w).1

module _ {E : Env} {A B : Type 0} where
  continue-SameButReads :
      (f : A → M E B) (w v : World E) (r : Result A)
      → SameButReads w v
      → ((a : A) → OnlyReads (f a))
      → SameButReads w (continue r f v).1
  continue-SameButReads f w v (ok a) h k = ground (arith, (k a).at v)
  continue-SameButReads f w v (throw e) h k = h

  pub OnlyReads-bind :
      (m : M E A) (f : A → M E B) → OnlyReads m → ((a : A) → OnlyReads (f a)) → OnlyReads (m >>= f)
  OnlyReads-bind m f hm hf = record {
    at = λ w. continue-SameButReads f w (m w).1 (m w).0 (hm.at w) hf;
  }

pub OnlyReads-parse_date_time : {E : Env} (text : Str) → OnlyReads {E = E} (parse_date_time text)
unfolding parse_date_time
OnlyReads-parse_date_time text = record { at = λ w. refl }

-- A result that is thrown away does not change the state.
pub discard-world :
    {E : Env} {A : Type 0} (m : M E A) (w : World E) → ((m >>= λ _. pure tt) w).1 ≡ (m w).1
discard-world m w = elim (Result-cases (m w).0) [
  | inl (a, returned) ↦ rw returned
  | inr (e, thrown) ↦ rw thrown
]
