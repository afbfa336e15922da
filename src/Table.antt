-- ===== src/Table.antt =====
-- `std::unordered_map` as a list of entries, with the equality of keys as an argument. A map has no
-- two entries of one key, and its iteration order is the list's.
pub mod Laws
use cpplox.Prelude.{Bool, Option, none, some, List, [], ◌∷◌, if◌then◌else◌}

module _ {K V : Type 0} (eq : K → K → Bool) where
  -- `find`
  unfoldable pub lookup : K → List (K × V) → Option V
  lookup k [] = none
  lookup k ((j, v) ∷ m) = if eq j k then some v else lookup k m

  -- `m[k] = v`
  unfoldable pub assign : K → V → List (K × V) → List (K × V)
  assign k v [] = (k, v) ∷ []
  assign k v ((j, w) ∷ m) = if eq j k then (k, v) ∷ m else (j, w) ∷ assign k v m

  -- `m.erase(k)`
  unfoldable pub erase : K → List (K × V) → List (K × V)
  erase k [] = []
  erase k ((j, v) ∷ m) = if eq j k then erase k m else (j, v) ∷ erase k m

  -- `m.insert(begin, end)`: a key that is there keeps its value.
  unfoldable pub insert_all : List (K × V) → List (K × V) → List (K × V)
  unfolding lookup assign
  insert_all [] m = m
  insert_all ((k, v) ∷ entries) m =
      insert_all entries (elim (lookup k m) [ none ↦ assign k v m | some _ ↦ m ])
