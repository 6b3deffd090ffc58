-- ===== src/Map.antt =====
-- `std::map<std::string, std::string>` (`KeyValueMap`): the entries in ascending order of keys.
pub mod Laws
use minioclient_cpp.Base.{Option, none, some, List, [], ◌∷◌, map, if◌then◌else◌}
use minioclient_cpp.Text.{Str, ◌==◌, before}

abbrev pub KeyValueMap : Type 0
KeyValueMap = List (Str × Str)

-- `m.find(k)`, with `none` for `end()`.
unfoldable pub lookup : Str → KeyValueMap → Option Str
lookup k [] = none
lookup k ((j, v) ∷ m) = if k == j then some v else lookup k m

-- `m[k] = v`
unfoldable pub insert : Str → Str → KeyValueMap → KeyValueMap
insert k v [] = (k, v) ∷ []
insert k v ((j, w) ∷ m) =
    if k == j then (k, v) ∷ m else if before k j then (k, v) ∷ (j, w) ∷ m else (j, w) ∷ insert k v m

abbrev pub keys : KeyValueMap → List Str
keys = map (λ (k, _). k)
