-- ===== src/Config/Leaves.antt =====
-- What `ParseYamlNode` enters, told by the paths and the texts of the document's scalars.
pub mod Parse
use Prim.Native.String.{◌++◌ as join}
use text.Mathlib.Text.{◌==◌ as str_eq}
use text.Mathlib.TextEquality.{eq_iff}
use text.Mathlib.TextLemmas
use turbo_core_dist_ai_clush.Prelude.{
  ℕ, ◌+◌, ◌≡◌, ◌≢◌, ◌⊎◌, inl, inr, refl, ap, ap₂, ◌∙◌, sym, Bool, true, false, not, ◌&&◌,
  Bool-cases, Option-cases, List, [], ◌∷◌, ◌++◌, map, String, none, some, if◌then◌else◌, arith,
}
use turbo_core_dist_ai_clush.Prelude.Dict.{assign}
use turbo_core_dist_ai_clush.Registry.Manager.{to_string}
use turbo_core_dist_ai_clush.Config.{
  Doubles, Node, scalar, mapping, sequence, other_kind, Entries, no_entries, entry, Items, no_items,
  item, ConfigValue, int_value, double_value, bool_value, string_value, Configs, stoi, scalar_value,
  child_key, parse_yaml_node, parse_entries, parse_items,
}

-- Every key of the node and of what is below it is a scalar, and not empty.
unfoldable mutual
  pub is_named : Node → Bool
  is_named (scalar s) = true
  is_named (mapping es) = entries_are_named es
  is_named (sequence is) = items_are_named is
  is_named other_kind = true

  pub entries_are_named : Entries → Bool
  entries_are_named no_entries = true
  entries_are_named (entry none node es) = false
  entries_are_named (entry (some key) node es) =
      not (str_eq key "") && (is_named node && entries_are_named es)

  pub items_are_named : Items → Bool
  items_are_named no_items = true
  items_are_named (item node is) = is_named node && items_are_named is

-- A scalar's path, of keys and indices, and its text.
abbrev pub Leaf : Type 0
Leaf = List String × String

abbrev pub under : String → Leaf → Leaf
under key (path, s) = (key ∷ path, s)

-- The scalars in the order of the document.
unfoldable mutual
  pub leaves : Node → List Leaf
  leaves (scalar s) = ([], s) ∷ []
  leaves (mapping es) = entry_leaves es
  leaves (sequence is) = item_leaves 0 is
  leaves other_kind = []

  pub entry_leaves : Entries → List Leaf
  entry_leaves no_entries = []
  entry_leaves (entry none node es) = []
  entry_leaves (entry (some key) node es) = map (under key) (leaves node) ++ entry_leaves es

  pub item_leaves : ℕ → Items → List Leaf
  item_leaves i no_items = []
  item_leaves i (item node is) = map (under (to_string i)) (leaves node) ++ item_leaves (i + 1) is

unfoldable pub dotted : List String → String
dotted [] = ""
dotted (key ∷ []) = key
dotted (key ∷ next ∷ path) = join key (join "." (dotted (next ∷ path)))

-- A path behind a prefix.
abbrev pub behind : String → List String → String
behind prefix [] = prefix
behind prefix (key ∷ path) = join prefix (join "." (dotted (key ∷ path)))

pub behind-dotted : (key : String) (path : List String) → behind key path ≡ dotted (key ∷ path)
unfolding dotted
behind-dotted key [] = refl
behind-dotted key (next ∷ path) = refl

pub behind-under :
    (prefix key : String) (path : List String)
    → behind (join prefix (join "." key)) path ≡ behind prefix (key ∷ path)
unfolding dotted
behind-under prefix key [] = refl
behind-under prefix key (next ∷ path) =
    TextLemmas.append_assoc prefix (join "." key) (join "." (dotted (next ∷ path)))
    ∙ ap (join prefix) (TextLemmas.append_assoc "." key (join "." (dotted (next ∷ path))))

pub join-nonempty :
    (prefix key : String)
    → str_eq prefix "" ≡ false
    → str_eq (join prefix (join "." key)) "" ≡ false
join-nonempty prefix key h = elim (Bool-cases (str_eq (join prefix (join "." key)) "")) [
  | inr other ↦ other
  | inl same ↦ absurd (
      ground (
        arith,
        h,
        (eq_iff prefix "").1
            ((TextLemmas.append-eq-nil_iff.0 ((eq_iff (join prefix (join "." key)) "").0 same)).0),
      ))
]

module _ (D : Doubles) where
  open D use {stod}

  -- The value that a text stands for: an int where `std::stoi` reads one, else a double where
  -- `std::stod` reads one, else a Boolean or the text itself.
  abbrev pub HasValue : String → ConfigValue D → Type 0
  HasValue s (int_value n) = stoi s ≡ some n
  HasValue s (double_value x) = (stoi s ≡ none) × (stod s ≡ some x)
  HasValue s (bool_value true) =
      (stoi s ≡ none) × (stod s ≡ none) × ((s ≡ "true") ⊎ ((s ≡ "True") ⊎ (s ≡ "1")))
  HasValue s (bool_value false) =
      (stoi s ≡ none) × (stod s ≡ none) × ((s ≡ "false") ⊎ ((s ≡ "False") ⊎ (s ≡ "0")))
  HasValue s (string_value t) =
      (stoi s ≡ none)
      × (stod s ≡ none)
      × (t ≡ s)
      × (s ≢ "true")
      × (s ≢ "True")
      × (s ≢ "false")
      × (s ≢ "False")

  pub scalar_value-HasValue : (s : String) → HasValue s (scalar_value D s)
  unfolding scalar_value
  scalar_value-HasValue s = elim (Option-cases (stoi s)) [
    | inr (n, e) ↦ rw (e, scalar_value) e
    | inl e ↦ elim (Option-cases (stod s)) [
      | inr (x, f) ↦ rw (e, f, scalar_value) (e, f)
      | inl f ↦ ground (
        arith,
        e,
        f,
        eq_iff s "true",
        eq_iff s "True",
        eq_iff s "1",
        eq_iff s "false",
        eq_iff s "False",
        eq_iff s "0",
      )
    ]
  ]

  -- The entries of the scalars: each under its path joined by dots, with the value of its text.
  abbrev pub Reads : List Leaf → List (String × ConfigValue D) → Type 0
  Reads [] [] = Unit {0}
  Reads [] (e ∷ es) = true ≡ false
  Reads (l ∷ ls) [] = true ≡ false
  Reads ((path, s) ∷ ls) ((key, value) ∷ es) = (key ≡ dotted path) × HasValue s value × Reads ls es

  unfoldable pub assign_all : List (String × ConfigValue D) → Configs D → Configs D
  assign_all [] m = m
  assign_all ((key, value) ∷ rest) m = assign_all rest (assign m key value)

  pub assign_all-append :
      (xs ys : List (String × ConfigValue D)) (m : Configs D)
      → assign_all (xs ++ ys) m ≡ assign_all ys (assign_all xs m)
  unfolding assign_all
  assign_all-append [] ys m = refl
  assign_all-append ((key, value) ∷ rest) ys m = assign_all-append rest ys (assign m key value)
