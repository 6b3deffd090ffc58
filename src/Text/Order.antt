-- ===== src/Text/Order.antt =====
-- The laws of `operator<` on strings.
use minioclient_cpp.Base.{◌≡◌, refl, true, false, [], ◌∷◌, arith}
use minioclient_cpp.Text.{Str, before}

pub before_irrefl : (s : Str) → before s s ≡ false
unfolding before
before_irrefl [] = refl
before_irrefl (x ∷ s) = ground (arith, before_irrefl s)

pub before_trans : (s t u : Str) → before s t ≡ true → before t u ≡ true → before s u ≡ true
unfolding before
before_trans [] [] u h k = cc
before_trans [] (y ∷ t) [] h k = cc
before_trans [] (y ∷ t) (z ∷ u) h k = refl
before_trans (x ∷ s) [] u h k = cc
before_trans (x ∷ s) (y ∷ t) [] h k = cc
before_trans (x ∷ s) (y ∷ t) (z ∷ u) h k = ground (arith, before_trans s t u)

pub before_total : (s t : Str) → before s t ≡ false → before t s ≡ false → s ≡ t
unfolding before
before_total [] [] h k = refl
before_total [] (y ∷ t) h k = cc
before_total (x ∷ s) [] h k = cc
before_total (x ∷ s) (y ∷ t) h k = ground (arith, before_total s t)

pub before_asymm : (s t : Str) → before s t ≡ true → before t s ≡ false
unfolding before
before_asymm [] [] h = refl
before_asymm [] (y ∷ t) h = refl
before_asymm (x ∷ s) [] h = cc
before_asymm (x ∷ s) (y ∷ t) h = ground (arith, before_asymm s t)
