-- ===== src/TidMap.antt =====
-- ummu_utils.cpp, and ummu_map.c, which passes its calls on: the map from tids. The `unordered_map` is
-- the list of its entries, newest first; iteration follows the list.
pub mod Laws
use openeuler_ummu.Base.{ℕ, ◌+◌, ◌==◌, if◌then◌else◌, Option, none, some, List, [], ◌∷◌}

module _ {ℓ} {V : Type ℓ} where
  -- `find`
  unfoldable pub hashmap_get : List (ℕ × V) → ℕ → Option V
  hashmap_get [] key = none
  hashmap_get ((k, v) ∷ map) key =
      let rest = hashmap_get map key in if k == key then some v else rest

  -- The map and the status; -1 is the status 1.
  unfoldable pub hashmap_insert : List (ℕ × V) → ℕ → V → List (ℕ × V) × ℕ
  unfolding hashmap_get
  hashmap_insert map key value = elim (hashmap_get map key) [
    | none ↦ ((key, value) ∷ map, 0)
    | some v ↦ (map, 1)
  ]

  -- The map, and how many entries were erased.
  unfoldable pub hashmap_del : List (ℕ × V) → ℕ → List (ℕ × V) × ℕ
  hashmap_del [] key = ([], 0)
  hashmap_del ((k, v) ∷ map) key =
      let (map', n) = hashmap_del map key in if k == key then (map', n + 1) else ((k, v) ∷ map', n)

  -- A write through the pointer that `hashmap_get` returned.
  unfoldable pub hashmap_write : List (ℕ × V) → ℕ → V → List (ℕ × V)
  hashmap_write [] key value = []
  hashmap_write ((k, v) ∷ map) key value =
      let rest = hashmap_write map key value in if k == key then (k, value) ∷ map else (k, v) ∷ rest

  -- the calls of ummu_map.c
  abbrev pub ummu_map_get : List (ℕ × V) → ℕ → Option V
  ummu_map_get map key = hashmap_get map key

  abbrev pub ummu_map_insert : List (ℕ × V) → ℕ → V → List (ℕ × V) × ℕ
  ummu_map_insert map key value = hashmap_insert map key value

  abbrev pub ummu_map_del : List (ℕ × V) → ℕ → List (ℕ × V) × ℕ
  ummu_map_del map key = hashmap_del map key
