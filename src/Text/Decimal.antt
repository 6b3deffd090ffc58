-- ===== src/Text/Decimal.antt =====
-- `std::to_string`, its length and its inverse.
use mathlib.Core.List.{foldl}
use minioclient_cpp.Base.{
  ℕ, zero, suc, ◌+◌, ◌*◌, ◌/◌, ◌%◌, ◌-◌, ◌<◌, ◌≤◌, ◌^◌, true, length, ◌≡◌, [], ◌∷◌, arith, ltb,
  if◌then◌else◌, ap, ◌∙◌, Bool-cases, inl, inr, All,
}
use minioclient_cpp.Text.{Str}

-- `negsuc n` is -(n + 1).
pub data ℤ : Type 0 where
  pos : ℕ → ℤ
  negsuc : ℕ → ℤ

abbrev pub digit : ℕ → ℕ
digit n = 48 + n % 10

-- The digits of `n` in front of `acc`, with fuel above `n`.
unfoldable pub digits_onto : ℕ → ℕ → Str → Str
digits_onto zero n acc = acc
digits_onto (suc fuel) n acc =
    let rest = digits_onto fuel (n / 10) (digit n ∷ acc) in if ltb n 10 then digit n ∷ acc else rest

-- `std::to_string` of a number that is not negative.
unfoldable pub decimal : ℕ → Str
unfolding digits_onto
decimal n = digits_onto (suc n) n []

-- `std::to_string(int)`
unfoldable pub to_string : ℤ → Str
unfolding decimal
to_string (pos n) = decimal n
to_string (negsuc n) = b'-' ∷ decimal (suc n)

abbrev read_digit : ℕ → ℕ → ℕ
read_digit n c = n * 10 + (c - 48)

-- The number that a text of digits stands for.
pub value_of : Str → ℕ
value_of = foldl read_digit 0

value-digits_onto :
    (fuel n : ℕ) (acc : Str)
    → n < fuel
    → foldl read_digit 0 (digits_onto fuel n acc) ≡ foldl read_digit n acc
unfolding digits_onto
value-digits_onto zero n acc h = elim h [ ]
value-digits_onto (suc fuel) n acc h = elim (Bool-cases (ltb n 10)) [
  | inl small ↦ rw small (ap (λ (k : ℕ). foldl read_digit k acc) (ground arith))
  | inr large ↦ rw large (
      value-digits_onto fuel (n / 10) (digit n ∷ acc) (ground arith)
      ∙ ap (λ (k : ℕ). foldl read_digit k acc) (omega arith))
]

-- The decimal text of a number reads back as the number.
pub value_of-decimal : (n : ℕ) → value_of (decimal n) ≡ n
unfolding value_of decimal
value_of-decimal n = value-digits_onto (suc n) n [] (omega arith)

length-digits_onto :
    (fuel n k : ℕ) (acc : Str)
    → n < 10 ^ suc k
    → length (digits_onto fuel n acc) ≤ suc k + length acc
unfolding digits_onto
length-digits_onto zero n k acc h = omega arith
length-digits_onto (suc fuel) n zero acc h =
    let small : ltb n 10 ≡ true = ground arith in rw small (omega arith)
length-digits_onto (suc fuel) n (suc k) acc h = elim (Bool-cases (ltb n 10)) [
  | inl small ↦ rw small (omega arith)
  | inr large ↦
      rw large (omega (arith, length-digits_onto fuel (n / 10) k (digit n ∷ acc) (omega arith)))
]

-- A number below a power of ten has no more digits than the power.
pub length-decimal : (n k : ℕ) → n < 10 ^ suc k → length (decimal n) ≤ suc k
unfolding decimal
length-decimal n k h = omega (arith, length-digits_onto (suc n) n k [] h)

digits_onto-All :
    (P : ℕ → Type 0)
    → ((n : ℕ) → P (digit n))
    → (fuel n : ℕ) (acc : Str) → All P acc
    → All P (digits_onto fuel n acc)
unfolding digits_onto
digits_onto-All P h zero n acc k = k
digits_onto-All P h (suc fuel) n acc k = elim (Bool-cases (ltb n 10)) [
  | inl small ↦ rw small (h n, k)
  | inr large ↦ rw large (digits_onto-All P h fuel (n / 10) (digit n ∷ acc) (h n, k))
]

-- What holds of the ten digits holds of all that is printed.
pub decimal-All : (P : ℕ → Type 0) → ((n : ℕ) → P (digit n)) → (n : ℕ) → All P (decimal n)
unfolding decimal
decimal-All P h n = digits_onto-All P h (suc n) n [] tt
