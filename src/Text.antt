-- ===== src/Text.antt =====
-- `std::string` as the sequence of its bytes, and the operations of it that the program uses.
pub mod Order
pub mod Find
pub mod Decimal
pub mod Split
use Prim.Native.Char.{code}
use minioclient_cpp.Base.{
  leb, map, ℕ, zero, suc, ◌+◌, String, Bool, true, false, ◌&&◌, Option, none, some, List, [], ◌∷◌,
  ◌++◌, ◌≡◌, refl, sym, ite, ℕ_discrete, ltb, eqb, if◌then◌else◌, length, take, drop,
}
use mathlib.Core.Option
use mathlib.Core.List.{cons≢nil, tail-eq_of_cons-eq, head-eq_of_cons-eq}

-- A `char` is its bit pattern, below 256. `std::vector<char>` has the same model.
abbrev pub Str : Type 0
Str = List ℕ

-- A literal of the source. Shut, so that a literal stays one term in a proof.
unfoldable pub str : String → Str
str String.[] = []
str (String.◌∷◌ c s) = code c ∷ str s

cons_discrete :
    {x y : ℕ} {s t : Str} → Dec (x ≡ y) → Dec (s ≡ t) → Dec (◌≡◌ {A = Str} (x ∷ s) (y ∷ t))
cons_discrete (yes p) (yes q) = yes (λ i. p i ∷ q i)
cons_discrete (yes p) (no n) = no (λ e. n (tail-eq_of_cons-eq e))
cons_discrete (no n) _ = no (λ e. n (head-eq_of_cons-eq e))

unfoldable pub Str-discrete : Discrete Str
unfolding ℕ_discrete cons_discrete
Str-discrete [] [] = yes refl
Str-discrete [] (y ∷ t) = no (λ e. cons≢nil (sym e))
Str-discrete (x ∷ s) [] = no (λ e. cons≢nil e)
Str-discrete (x ∷ s) (y ∷ t) = cons_discrete (ℕ_discrete x y) (Str-discrete s t)

-- `operator==`
infix 50 ◌==◌
abbrev pub ◌==◌ : Str → Str → Bool
s == t = ite (Str-discrete s t) true false

-- `operator<`: the bytes are compared as unsigned, and a prefix comes first.
unfoldable pub before : Str → Str → Bool
before [] [] = false
before [] (y ∷ t) = true
before (x ∷ s) [] = false
before (x ∷ s) (y ∷ t) = if ltb x y then true else if ltb y x then false else before s t

-- Whether `s` begins with `t`.
unfoldable pub starts_with : Str → Str → Bool
starts_with s [] = true
starts_with [] (y ∷ t) = false
starts_with (x ∷ s) (y ∷ t) = eqb x y && starts_with s t

-- The position of the first occurrence of `t` in `s`.
unfoldable pub search_for : Str → Str → Option ℕ
unfolding starts_with
search_for t [] = if starts_with [] t then some 0 else none
search_for t (x ∷ s) = if starts_with (x ∷ s) t then some 0 else Option.map suc (search_for t s)

-- `s.find(t, pos)`; `npos` is `none`.
unfoldable pub find : Str → Str → ℕ → Option ℕ
unfolding search_for
find s t pos =
    if ltb (length s) pos then none else Option.map (λ i. pos + i) (search_for t (drop pos s))

-- `s.substr(pos, n)` for `pos` at most the size.
abbrev pub substr : Str → ℕ → ℕ → Str
substr s pos n = take n (drop pos s)

-- The texts of a list, with `sep` between two of them.
abbrev pub between : Str → List Str → Str
between sep [] = []
between sep (s ∷ []) = s
between sep (s ∷ t ∷ ts) = s ++ (sep ++ between sep (t ∷ ts))

-- A text without capitals: those of ASCII are replaced by their small letters.
abbrev pub lower_char : ℕ → ℕ
lower_char c = if leb b'A' c && leb c b'Z' then c + 32 else c

abbrev pub lower : Str → Str
lower = map lower_char

-- A text as a `char *` that ends at its first NUL: what `%s`, and `<<` of a `c_str()`, print.
unfoldable pub c_text : Str → Str
c_text [] = []
c_text (c ∷ s) = let rest = c_text s in if eqb c 0 then [] else c ∷ rest
