-- ===== src/Map/Laws.antt =====
-- Lookups and the order of entries after `insert`.
use minioclient_cpp.Base.{◌≡◌, ◌≢◌, refl, true, some, none, [], ◌∷◌, arith, if◌then◌else◌}
use minioclient_cpp.Text.{Str, ◌==◌, before}
use minioclient_cpp.Text.Order.{before_irrefl, before_trans, before_total}
use minioclient_cpp.Map.{KeyValueMap, lookup, insert}

-- Every key of the map comes after `k`.
abbrev pub IsBelow : Str → KeyValueMap → Type 0
IsBelow k [] = Unit
IsBelow k ((j, _) ∷ m) = (before k j ≡ true) × IsBelow k m

abbrev pub IsSorted : KeyValueMap → Type 0
IsSorted [] = Unit
IsSorted ((k, _) ∷ m) = IsBelow k m × IsSorted m

pub lookup-insert :
    (j k v : Str) (m : KeyValueMap)
    → lookup j (insert k v m) ≡ (if j == k then some v else lookup j m)
unfolding lookup insert
lookup-insert j k v [] = refl
lookup-insert j k v ((i, w) ∷ m) = ground (arith, lookup-insert j k v m)

insert-IsBelow :
    (i k v : Str) (m : KeyValueMap) → before i k ≡ true → IsBelow i m → IsBelow i (insert k v m)
unfolding insert
insert-IsBelow i k v [] h b = (h, tt)
insert-IsBelow i k v ((j, w) ∷ m) h b = ground (arith, insert-IsBelow i k v m)

IsBelow-trans : (i k : Str) (m : KeyValueMap) → before i k ≡ true → IsBelow k m → IsBelow i m
IsBelow-trans i k [] h b = tt
IsBelow-trans i k ((j, w) ∷ m) h (p, b) = (before_trans i k j h p, IsBelow-trans i k m h b)

pub insert-IsSorted : (k v : Str) (m : KeyValueMap) → IsSorted m → IsSorted (insert k v m)
unfolding insert
insert-IsSorted k v [] s = (tt, tt)
insert-IsSorted k v ((j, w) ∷ m) (b, s) =
    ground (
      arith,
      insert-IsSorted k v m s,
      insert-IsBelow j k v m,
      IsBelow-trans k j m,
      before_total k j,
    )

lookup_below : (k : Str) (m : KeyValueMap) → IsBelow k m → lookup k m ≡ none
unfolding lookup
lookup_below k [] b = refl
lookup_below k ((j, w) ∷ m) (p, b) = ground (arith, lookup_below k m b, before_irrefl k)

-- A map is its lookups: the order of entries carries no more information.
pub eq_of_lookup :
    (m n : KeyValueMap) → IsSorted m → IsSorted n → ((k : Str) → lookup k m ≡ lookup k n) → m ≡ n
unfolding lookup
eq_of_lookup [] [] s t h = refl
eq_of_lookup [] ((j, w) ∷ n) s t h = ground (arith, h j)
eq_of_lookup ((i, v) ∷ m) [] s t h = ground (arith, h i)
eq_of_lookup ((i, v) ∷ m) ((j, w) ∷ n) (b, s) (c, t) h =
    let same_key : i ≡ j = ground (
      arith,
      h i,
      h j,
      before_total i j,
      lookup_below i n,
      lookup_below j m,
      IsBelow-trans i j n,
      IsBelow-trans j i m,
    ) in
    let same_value : v ≡ w = ground (arith, same_key, h i) in
    let same_tail : m ≡ n =
      eq_of_lookup m n s t
        λ k. ground (arith, same_key, h k, lookup_below i m b, lookup_below j n c) in
    ground (arith, same_key, same_value, same_tail)

-- Entries of different keys may be inserted in either order.
pub insert_comm :
    (j k v w : Str) (m : KeyValueMap)
    → IsSorted m
    → j ≢ k
    → insert j v (insert k w m) ≡ insert k w (insert j v m)
insert_comm j k v w m s ne =
    eq_of_lookup _ _ (insert-IsSorted j v _ (insert-IsSorted k w m s))
      (insert-IsSorted k w _ (insert-IsSorted j v m s)) λ i. simp lookup-insert (ground arith)
