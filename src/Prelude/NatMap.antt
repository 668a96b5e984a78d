-- ===== src/Prelude/NatMap.antt =====
-- std::unordered_map with number keys, as an association list with at most one entry a key. The
-- names are qualified: `NatMap.find`. The order of the entries stands for the iteration order.
use Prim.Native.Nat.{ℕ}
use mathlib.Core.Path.{◌≡◌, refl}
use mathlib.Core.Option.{Option, none, some}
use mathlib.Core.List.{List, [], ◌∷◌}
use native.Mathlib.Omega.{arith}
use turbo_core_dist_ai_clush.Prelude.Tests.{◌==◌, if◌then◌else◌}

module _ {ℓ} {V : Type ℓ} where
  -- `m.find(key)`, as the value found
  unfoldable pub find : List (ℕ × V) → ℕ → Option V
  find [] key = none
  find ((k, value) ∷ rest) key = if k == key then some value else find rest key

  -- `m[key] = value`
  unfoldable pub assign : List (ℕ × V) → ℕ → V → List (ℕ × V)
  assign [] key value = (key, value) ∷ []
  assign ((k, old) ∷ rest) key value =
      if k == key then (k, value) ∷ rest else (k, old) ∷ assign rest key value

  -- `m.erase(key)`
  unfoldable pub erase : List (ℕ × V) → ℕ → List (ℕ × V)
  erase [] key = []
  erase ((k, value) ∷ rest) key = if k == key then erase rest key else (k, value) ∷ erase rest key

  pub find-assign :
      (m : List (ℕ × V)) (key : ℕ) (value : V) (other : ℕ)
      → find (assign m key value) other ≡ (if key == other then some value else find m other)
  unfolding find assign
  find-assign [] key value other = refl
  find-assign ((k, old) ∷ rest) key value other = ground (arith, find-assign rest key value other)

  pub find-erase :
      (m : List (ℕ × V)) (key other : ℕ)
      → find (erase m key) other ≡ (if key == other then none else find m other)
  unfolding find erase
  find-erase [] key other = ground arith
  find-erase ((k, value) ∷ rest) key other = ground (arith, find-erase rest key other)

  pub find-assign_same :
      (m : List (ℕ × V)) (key : ℕ) (value : V) → find (assign m key value) key ≡ some value
  find-assign_same m key value = ground (arith, find-assign m key value key)

  pub find-erase_same : (m : List (ℕ × V)) (key : ℕ) → find (erase m key) key ≡ none
  find-erase_same m key = ground (arith, find-erase m key key)

  -- A key that a map does not have is entered and erased: the map is as it was.
  pub find-erase-assign :
      (m : List (ℕ × V)) (key : ℕ) (value : V) (other : ℕ)
      → find m key ≡ none
      → find (erase (assign m key value) key) other ≡ find m other
  find-erase-assign m key value other free =
      ground (arith, free, find-erase (assign m key value) key other, find-assign m key value other)

  pub find-erase-erase :
      (m : List (ℕ × V)) (key other : ℕ)
      → find (erase (erase m key) key) other ≡ find (erase m key) other
  find-erase-erase m key other =
      ground (arith, find-erase (erase m key) key other, find-erase m key other)
