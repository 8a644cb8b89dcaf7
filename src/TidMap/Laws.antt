-- ===== src/TidMap/Laws.antt =====
-- What the map holds after each operation.
use mathlib.Core.Option.{some-injective}
use openeuler_ummu.Base.{
  ℕ, Bool-cases, ◌⊎◌, inl, inr, sym, ◌∙◌, ◌≡◌, refl, arith, ◌==◌, if◌then◌else◌, Bool, true, false,
  Option, none, some, List, [], ◌∷◌,
}
use openeuler_ummu.TidMap.{hashmap_get, hashmap_insert, hashmap_del, hashmap_write}

module _ {ℓ} {V : Type ℓ} where
  abbrev pub is_some : Option V → Bool
  is_some none = false
  is_some (some v) = true

  pub insert_fresh :
      (map : List (ℕ × V)) (key : ℕ) (value : V)
      → hashmap_get map key ≡ none
      → hashmap_insert map key value ≡ ((key, value) ∷ map, 0)
  unfolding hashmap_insert
  insert_fresh map key value e = rw (hashmap_insert, e) refl

  pub insert_taken :
      (map : List (ℕ × V)) (key : ℕ) (value v : V)
      → hashmap_get map key ≡ some v
      → hashmap_insert map key value ≡ (map, 1)
  unfolding hashmap_insert
  insert_taken map key value v e = rw (hashmap_insert, e) refl

  pub get-del :
      (map : List (ℕ × V)) (key other : ℕ)
      → hashmap_get ((hashmap_del map key).0) other
        ≡ (if key == other then none else hashmap_get map other)
  unfolding hashmap_del hashmap_get
  get-del [] key other = ground arith
  get-del ((k, v) ∷ map) key other = ground (arith, get-del map key other)

  pub get-write :
      (map : List (ℕ × V)) (key : ℕ) (value : V) (other : ℕ)
      → is_some (hashmap_get (hashmap_write map key value) other) ≡ is_some (hashmap_get map other)
  unfolding hashmap_write hashmap_get
  get-write [] key value other = refl
  get-write ((k, v) ∷ map) key value other = ground (arith, get-write map key value other)

  -- what is found after a write was written, or was there
  pub found-write :
      (map : List (ℕ × V)) (key : ℕ) (value : V) (other : ℕ) (found : V)
      → hashmap_get (hashmap_write map key value) other ≡ some found
      → (value ≡ found) ⊎ (hashmap_get map other ≡ some found)
  unfolding hashmap_write hashmap_get
  found-write [] key value other found h = inr h
  found-write ((k, v) ∷ map) key value other found h = elim (Bool-cases (k == key)) [
    | inl e ↦ elim (Bool-cases (k == other)) [
      | inl o ↦ inl (some-injective value found (sym (rw (e, o) refl) ∙ h))
      | inr o ↦ inr (rw o (sym (rw (e, o) refl) ∙ h))
    ]
    | inr e ↦ elim (Bool-cases (k == other)) [
      | inl o ↦ inr (rw o (sym (rw (e, o) refl) ∙ h))
      | inr o ↦ rw o (found-write map key value other found (sym (rw (e, o) refl) ∙ h))
    ]
  ]
