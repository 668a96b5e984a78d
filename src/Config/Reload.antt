-- ===== src/Config/Reload.antt =====
-- `Reload`: what it keeps where the file cannot be read, and whom it calls where it can.
use text.Mathlib.Text.{◌==◌ as str_eq}
use text.Mathlib.TextEquality.{eq_iff}
use turbo_core_dist_ai_clush.Prelude.{
  ◌≡◌, ◌⊎◌, refl, ap, ◌∙◌, sym, true, false, Bool-cases, inl, inr, List, [], ◌∷◌, ◌++◌, append-nil,
  String, none, some, if◌then◌else◌, arith,
}
use turbo_core_dist_ai_clush.Prelude.Dict.{StringMap, find, has, HasDistinctKeys}
use turbo_core_dist_ai_clush.Config.Alike.{IsAlikeEntry, is_config_changed_lem}
use turbo_core_dist_ai_clush.Config.{
  Doubles, Loaded, load_throws, no_root, root_node, parse_yaml_node, Config, Configs,
  is_config_changed, load_from_file, call_each, notify, reload,
}

module _ (D : Doubles) {Callback : Type 0} where
  -- The callbacks that were called with a key, in order.
  unfoldable pub calls_for : String → List (Callback × String) → List Callback
  calls_for key [] = []
  calls_for key ((cb, name) ∷ called) =
      let more = calls_for key called in if str_eq name key then cb ∷ more else more

  abbrev pub callbacks_of : StringMap (List Callback) → String → List Callback
  callbacks_of m key = elim (find m key) [ none ↦ [] | some cbs ↦ cbs ]

  calls_for-call_each :
      (key name : String) (cbs : List Callback) (called : List (Callback × String))
      → calls_for key (call_each D name cbs ++ called)
        ≡ (if str_eq name key then cbs ++ calls_for key called else calls_for key called)
  unfolding calls_for
  calls_for-call_each key name [] called = ground arith
  calls_for-call_each key name (cb ∷ cbs) called =
      ground (arith, calls_for-call_each key name cbs called)

  notify-absent :
      (old now : Configs D) (m : StringMap (List Callback)) (key : String)
      → has m key ≡ false
      → calls_for key (notify D old now m) ≡ []
  unfolding notify calls_for has
  notify-absent old now [] key h = refl
  notify-absent old now ((name, cbs) ∷ rest) key h = ground (
    arith,
    h,
    notify-absent old now rest key,
    calls_for-call_each key name cbs (notify D old now rest),
  )

  notify_lem :
      (old now : Configs D) (m : StringMap (List Callback)) (key : String)
      → HasDistinctKeys m
      → calls_for key (notify D old now m)
        ≡ (if is_config_changed D key old now then callbacks_of m key else [])
  unfolding notify calls_for find
  notify_lem old now [] key d = ground arith
  notify_lem old now ((name, cbs) ∷ rest) key (fresh, d) = elim (Bool-cases (str_eq name key)) [
    | inl same ↦
        let here : name ≡ key = (eq_iff name key).0 same in
        let changed = ap (λ k. is_config_changed D k old now) here in
        ground (
          arith,
          same,
          changed,
          notify-absent old now rest key (ap (has rest) (sym here) ∙ fresh),
          calls_for-call_each key name cbs (notify D old now rest),
          append-nil cbs,
        )
    | inr other ↦ ground (
      arith,
      other,
      notify_lem old now rest key d,
      calls_for-call_each key name cbs (notify D old now rest),
    )
  ]

  -- `Reload` with what the file now gives, for a configuration in which no key has two lists of
  -- callbacks. It returns whether the file could be read into an empty configuration. Where it could
  -- not, the configuration is as it was before, and no callback is called. Where it could, the
  -- configuration is the one that was read. Then no callback of a key is called with it where the key
  -- has no entry before and after, or has alike ones, which are equal values of the same type, or
  -- doubles that are not far from each other. And where it is otherwise, all of its callbacks are called
  -- with it, each once and in order.
  pub reload_lem :
      (file : Loaded) (c : Config D Callback) (key : String)
      → HasDistinctKeys c.m_callbacks
      → let (fresh, read) =
          load_from_file D c.m_config_file_path file (record c { m_configs = [] }) in
        let (after, called, result) = reload D file c in
        let alike = IsAlikeEntry D (find c.m_configs key) (find fresh.m_configs key) in
        (result ≡ read)
        × (((read ≡ false) × (after ≡ c) × (called ≡ []))
            ⊎ ((read ≡ true)
                × (after ≡ fresh)
                × ((alike × (calls_for key called ≡ []))
                    ⊎ ((¬ alike) × (calls_for key called ≡ callbacks_of c.m_callbacks key)))))
  unfolding reload load_from_file calls_for
  reload_lem load_throws c key d = (refl, inl (refl, refl, refl))
  reload_lem no_root c key d = (refl, inl (refl, refl, refl))
  reload_lem (root_node root) c key d =
      let parsed = parse_yaml_node D "" root [] in
      let notified = notify_lem c.m_configs parsed.0 c.m_callbacks key d in
      elim (Bool-cases parsed.1) [
        | inr threw ↦ rw threw (refl, inl (refl, refl, refl))
        | inl read ↦ rw read (
          refl,
          inr (
            refl,
            refl,
            elim (is_config_changed_lem D key c.m_configs parsed.0) [
              | inl (same, alike) ↦ inl (alike, ground (arith, notified, same))
              | inr (changed, other) ↦ inr (other, ground (arith, notified, changed))
            ],
          ),
        )
      ]
