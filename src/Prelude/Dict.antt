-- ===== src/Prelude/Dict.antt =====
-- std::unordered_map with std::string keys, as an association list with at most one entry a key.
-- The order of the entries stands for the iteration order, which the standard leaves open.
use Prim.Native.String.{String}
use text.Mathlib.Text.{◌==◌}
use text.Mathlib.TextEquality.{eq_iff}
use mathlib.Core.Path.{◌≡◌, refl}
use mathlib.Core.Logic.{inl, inr}
use mathlib.Core.Bool.{Bool, true, false}
use mathlib.Core.Option.{Option, none, some}
use mathlib.Core.List.{List, [], ◌∷◌}
use native.Mathlib.Omega.{arith}
use turbo_core_dist_ai_clush.Prelude.Tests.{if◌then◌else◌, Bool-cases}

-- Every operation takes the map first, as the member functions do.
abbrev pub StringMap {ℓ} : Type ℓ → Type ℓ
StringMap V = List (String × V)

module _ {ℓ} {V : Type ℓ} where
  -- `m.find(key)`, as the value found
  unfoldable pub find : StringMap V → String → Option V
  find [] key = none
  find ((name, value) ∷ rest) key = if name == key then some value else find rest key

  -- `m.count(key) > 0`
  unfoldable pub has : StringMap V → String → Bool
  has [] key = false
  has ((name, value) ∷ rest) key = if name == key then true else has rest key

  -- `m[key] = value`
  unfoldable pub assign : StringMap V → String → V → StringMap V
  assign [] key value = (key, value) ∷ []
  assign ((name, old) ∷ rest) key value =
      if name == key then (name, value) ∷ rest else (name, old) ∷ assign rest key value

  -- `m.erase(key)`
  unfoldable pub erase : StringMap V → String → StringMap V
  erase [] key = []
  erase ((name, value) ∷ rest) key =
      if name == key then erase rest key else (name, value) ∷ erase rest key

  pub find-assign :
      (m : StringMap V) (key : String) (value : V) (other : String)
      → find (assign m key value) other ≡ (if key == other then some value else find m other)
  unfolding find assign
  find-assign [] key value other = refl
  find-assign ((name, old) ∷ rest) key value other = ground (
    arith,
    find-assign rest key value other,
    eq_iff name key,
    eq_iff name other,
    eq_iff key other,
  )

  pub find-erase :
      (m : StringMap V) (key other : String)
      → find (erase m key) other ≡ (if key == other then none else find m other)
  unfolding find erase
  find-erase [] key other = ground arith
  find-erase ((name, value) ∷ rest) key other =
      ground
        (arith, find-erase rest key other, eq_iff name key, eq_iff name other, eq_iff key other)

  -- `count` and the search agree.
  pub has-find :
      (m : StringMap V) (key : String)
      → has m key ≡ (elim (find m key) [ none ↦ false | some value ↦ true ])
  unfolding has find
  has-find [] key = refl
  has-find ((name, value) ∷ rest) key = ground (arith, has-find rest key)

  pub has-assign :
      (m : StringMap V) (key : String) (value : V) (other : String)
      → has (assign m key value) other ≡ (if key == other then true else has m other)
  has-assign m key value other =
      ground (
        arith,
        has-find (assign m key value) other,
        has-find m other,
        find-assign m key value other,
      )

  pub has-erase :
      (m : StringMap V) (key other : String)
      → has (erase m key) other ≡ (if key == other then false else has m other)
  has-erase m key other =
      ground (arith, has-find (erase m key) other, has-find m other, find-erase m key other)

  -- No key has two entries.
  abbrev pub HasDistinctKeys : StringMap V → Type 0
  HasDistinctKeys [] = Unit
  HasDistinctKeys ((name, value) ∷ rest) = (has rest name ≡ false) × HasDistinctKeys rest

  pub assign-HasDistinctKeys :
      (m : StringMap V) (key : String) (value : V)
      → HasDistinctKeys m
      → HasDistinctKeys (assign m key value)
  unfolding has assign
  assign-HasDistinctKeys [] key value d = (refl, tt)
  assign-HasDistinctKeys ((name, old) ∷ rest) key value d = elim (Bool-cases (name == key)) [
    | inl same ↦ rw same d
    | inr other ↦ rw other (
      ground (arith, d.0, has-assign rest key value name, eq_iff name key, eq_iff key name, other),
      assign-HasDistinctKeys rest key value d.1,
    )
  ]

  pub erase-HasDistinctKeys :
      (m : StringMap V) (key : String) → HasDistinctKeys m → HasDistinctKeys (erase m key)
  unfolding has erase
  erase-HasDistinctKeys [] key d = tt
  erase-HasDistinctKeys ((name, old) ∷ rest) key d = elim (Bool-cases (name == key)) [
    | inl same ↦ rw same (erase-HasDistinctKeys rest key d.1)
    | inr other ↦
        rw other (ground (arith, d.0, has-erase rest key name), erase-HasDistinctKeys rest key d.1)
  ]
