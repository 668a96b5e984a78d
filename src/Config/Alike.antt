-- ===== src/Config/Alike.antt =====
-- When `IsConfigChanged` takes two entries for the same, said without it.
use text.Mathlib.Text.{◌==◌ as str_eq}
use text.Mathlib.TextEquality.{eq_iff}
use turbo_core_dist_ai_clush.Prelude.{
  ◌≡◌, ◌⊎◌, refl, Bool, true, false, Bool-cases, Option-cases, inl, inr, String, Option, none, some,
  arith,
}
use turbo_core_dist_ai_clush.Prelude.Int.{ℤ}
use turbo_core_dist_ai_clush.Prelude.Dict.{find}
use turbo_core_dist_ai_clush.Config.{
  Doubles, ConfigValue, int_value, double_value, bool_value, string_value, Configs, same_int,
  differs, is_config_changed,
}

module _ (D : Doubles) where
  open D use {Double, far}

  -- Two doubles are alike where they are not far from each other; two values of another type where
  -- they are equal; and values of different types are not alike.
  abbrev pub IsAlike : ConfigValue D → ConfigValue D → Type 0
  IsAlike (double_value x) (double_value y) = far x y ≡ false
  IsAlike (int_value x) (int_value y) = x ≡ y
  IsAlike (int_value x) (double_value y) = true ≡ false
  IsAlike (int_value x) (bool_value y) = true ≡ false
  IsAlike (int_value x) (string_value y) = true ≡ false
  IsAlike (double_value x) (int_value y) = true ≡ false
  IsAlike (double_value x) (bool_value y) = true ≡ false
  IsAlike (double_value x) (string_value y) = true ≡ false
  IsAlike (bool_value x) (int_value y) = true ≡ false
  IsAlike (bool_value x) (double_value y) = true ≡ false
  IsAlike (bool_value x) (bool_value y) = x ≡ y
  IsAlike (bool_value x) (string_value y) = true ≡ false
  IsAlike (string_value x) (int_value y) = true ≡ false
  IsAlike (string_value x) (double_value y) = true ≡ false
  IsAlike (string_value x) (bool_value y) = true ≡ false
  IsAlike (string_value x) (string_value y) = x ≡ y

  abbrev pub IsAlikeEntry : Option (ConfigValue D) → Option (ConfigValue D) → Type 0
  IsAlikeEntry none none = Unit {0}
  IsAlikeEntry none (some b) = true ≡ false
  IsAlikeEntry (some a) none = true ≡ false
  IsAlikeEntry (some a) (some b) = IsAlike a b

  -- A test that holds exactly where the claim does not.
  abbrev pub Refutes : Bool → Type 0 → Type 0
  Refutes test P = ((test ≡ false) × P) ⊎ ((test ≡ true) × (¬ P))

  same_int_equal : (a b : ℤ) → same_int D a b ≡ true → a ≡ b
  same_int_equal a b h = ground (arith, h)

  same_int_unequal : (a b : ℤ) → same_int D a b ≡ false → ¬ (a ≡ b)
  same_int_unequal a b h = λ e. absurd (ground (arith, h, e))

  differs_lem : (a b : ConfigValue D) → Refutes (differs D a b) (IsAlike a b)
  unfolding differs
  differs_lem (double_value x) (double_value y) = elim (Bool-cases (far x y)) [
    | inl same ↦ inr (same, λ e. absurd (ground (arith, same, e)))
    | inr other ↦ inl (other, other)
  ]
  differs_lem (int_value x) (int_value y) = elim (Bool-cases (same_int D x y)) [
    | inl same ↦ inl (rw same refl, same_int_equal x y same)
    | inr other ↦ inr (rw other refl, same_int_unequal x y other)
  ]
  differs_lem (string_value x) (string_value y) = elim (Bool-cases (str_eq x y)) [
    | inl same ↦ inl (rw same refl, (eq_iff x y).0 same)
    | inr other ↦ inr (rw other refl, λ e. absurd (ground (arith, other, (eq_iff x y).1 e)))
  ]
  differs_lem (bool_value true) (bool_value true) = inl (refl, refl)
  differs_lem (bool_value true) (bool_value false) = inr (refl, λ e. absurd (ground (arith, e)))
  differs_lem (bool_value false) (bool_value true) = inr (refl, λ e. absurd (ground (arith, e)))
  differs_lem (bool_value false) (bool_value false) = inl (refl, refl)
  differs_lem (int_value x) (double_value y) = inr (refl, λ e. absurd (ground (arith, e)))
  differs_lem (int_value x) (bool_value y) = inr (refl, λ e. absurd (ground (arith, e)))
  differs_lem (int_value x) (string_value y) = inr (refl, λ e. absurd (ground (arith, e)))
  differs_lem (double_value x) (int_value y) = inr (refl, λ e. absurd (ground (arith, e)))
  differs_lem (double_value x) (bool_value y) = inr (refl, λ e. absurd (ground (arith, e)))
  differs_lem (double_value x) (string_value y) = inr (refl, λ e. absurd (ground (arith, e)))
  differs_lem (bool_value x) (int_value y) = inr (refl, λ e. absurd (ground (arith, e)))
  differs_lem (bool_value x) (double_value y) = inr (refl, λ e. absurd (ground (arith, e)))
  differs_lem (bool_value x) (string_value y) = inr (refl, λ e. absurd (ground (arith, e)))
  differs_lem (string_value x) (int_value y) = inr (refl, λ e. absurd (ground (arith, e)))
  differs_lem (string_value x) (double_value y) = inr (refl, λ e. absurd (ground (arith, e)))
  differs_lem (string_value x) (bool_value y) = inr (refl, λ e. absurd (ground (arith, e)))

  pub is_config_changed_lem :
      (key : String) (old now : Configs D)
      → Refutes (is_config_changed D key old now) (IsAlikeEntry (find old key) (find now key))
  unfolding is_config_changed
  is_config_changed_lem key old now = elim (Option-cases (find old key)) [
    | inl e ↦ elim (Option-cases (find now key)) [
      | inl f ↦ rw (e, f, is_config_changed) (inl (refl, tt))
      | inr (b, f) ↦ rw (e, f, is_config_changed) (inr (refl, λ h. absurd (ground (arith, h))))
    ]
    | inr (a, e) ↦ elim (Option-cases (find now key)) [
      | inl f ↦ rw (e, f, is_config_changed) (inr (refl, λ h. absurd (ground (arith, h))))
      | inr (b, f) ↦ rw (e, f, is_config_changed) (differs_lem a b)
    ]
  ]
