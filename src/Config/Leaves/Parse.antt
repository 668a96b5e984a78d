-- ===== src/Config/Leaves/Parse.antt =====
-- `ParseYamlNode` enters the leaves of a document.
use Prim.Native.String.{◌++◌ as join}
use text.Mathlib.Text.{◌==◌ as str_eq}
use turbo_core_dist_ai_clush.Prelude.{
  ℕ, ◌+◌, ◌≡◌, refl, ap, ap₂, ◌∙◌, sym, Bool, true, false, not, ◌&&◌, List, [], ◌∷◌, ◌++◌, map,
  String, none, some, if◌then◌else◌, arith,
}
use turbo_core_dist_ai_clush.Registry.Manager.{to_string}
use turbo_core_dist_ai_clush.Config.{
  Doubles, Node, scalar, mapping, sequence, other_kind, Entries, no_entries, entry, Items, no_items,
  item, ConfigValue, Configs, scalar_value, child_key, parse_yaml_node, parse_entries, parse_items,
}
use turbo_core_dist_ai_clush.Config.Leaves.{
  is_named, entries_are_named, items_are_named, Leaf, under, leaves, entry_leaves, item_leaves,
  behind, behind-dotted, behind-under, join-nonempty, scalar_value-HasValue, Reads, assign_all,
  assign_all-append,
}

module _ (D : Doubles) where
  entries_of : String → List Leaf → List (String × ConfigValue D)
  entries_of prefix [] = []
  entries_of prefix ((path, s) ∷ ls) = (behind prefix path, scalar_value D s) ∷ entries_of prefix ls

  entries_of-append :
      (prefix : String) (xs ys : List Leaf)
      → entries_of prefix (xs ++ ys) ≡ entries_of prefix xs ++ entries_of prefix ys
  unfolding entries_of
  entries_of-append prefix [] ys = refl
  entries_of-append prefix ((path, s) ∷ xs) ys =
      ap (λ es. (behind prefix path, scalar_value D s) ∷ es) (entries_of-append prefix xs ys)

  entries_of-under :
      (prefix key : String) (ls : List Leaf)
      → entries_of (join prefix (join "." key)) ls ≡ entries_of prefix (map (under key) ls)
  unfolding entries_of
  entries_of-under prefix key [] = refl
  entries_of-under prefix key ((path, s) ∷ ls) =
      ap₂ ◌∷◌ (ap (λ k. (k, scalar_value D s)) (behind-under prefix key path))
        (entries_of-under prefix key ls)

  -- A node's entries and those of its later siblings.
  both_entries :
      (prefix key : String) (xs ys : List Leaf) (m : Configs D)
      → assign_all D
          (entries_of prefix ys)
          (assign_all D (entries_of (join prefix (join "." key)) xs) m)
        ≡ assign_all D (entries_of prefix (map (under key) xs ++ ys)) m
  both_entries prefix key xs ys m =
      sym
        (assign_all-append D (entries_of (join prefix (join "." key)) xs) (entries_of prefix ys) m)
      ∙ ap (λ es. assign_all D es m)
          (ap (λ es. es ++ entries_of prefix ys) (entries_of-under prefix key xs)
            ∙ sym (entries_of-append prefix (map (under key) xs) ys))

  both_true : (a b : Bool) → (a && b) ≡ true → (a ≡ true) × (b ≡ true)
  both_true true b h = (refl, h)
  both_true false b h = ground (arith, h)

  child_key-join :
      (prefix key : String)
      → str_eq prefix "" ≡ false
      → child_key D prefix key ≡ join prefix (join "." key)
  child_key-join prefix key h = rw h refl

  mutual
    unfolding parse_yaml_node leaves assign_all is_named entries_of

    node_lem :
        (prefix : String) (node : Node) (m : Configs D)
        → str_eq prefix "" ≡ false
        → is_named node ≡ true
        → parse_yaml_node D prefix node m ≡ (assign_all D (entries_of prefix (leaves node)) m, true)
    node_lem prefix (scalar s) m n h = rw n refl
    node_lem prefix (mapping es) m n h = entries_lem prefix es m n h
    node_lem prefix (sequence is) m n h = items_lem prefix 0 is m n h
    node_lem prefix other_kind m n h = refl

    entries_lem :
        (prefix : String) (es : Entries) (m : Configs D)
        → str_eq prefix "" ≡ false
        → entries_are_named es ≡ true
        → parse_entries D prefix es m ≡ (assign_all D (entries_of prefix (entry_leaves es)) m, true)
    entries_lem prefix no_entries m n h = refl
    entries_lem prefix (entry none node es) m n h = ground (arith, h)
    entries_lem prefix (entry (some key) node es) m n h =
        let (named, both) =
          both_true (not (str_eq key "")) (is_named node && entries_are_named es) h in
        let (first, rest) = both_true (is_named node) (entries_are_named es) both in
        let path = join prefix (join "." key) in
        ap
          (λ k.
            let r = parse_yaml_node D k node m in if r.1 then parse_entries D prefix es r.0 else r)
          (child_key-join prefix key n)
        ∙ ap (λ r. if r.1 then parse_entries D prefix es r.0 else r)
            (node_lem path node m (join-nonempty prefix key n) first)
        ∙ entries_lem prefix es (assign_all D (entries_of path (leaves node)) m) n rest
        ∙ ap (λ x. (x, true)) (both_entries prefix key (leaves node) (entry_leaves es) m)

    items_lem :
        (prefix : String) (i : ℕ) (is : Items) (m : Configs D)
        → str_eq prefix "" ≡ false
        → items_are_named is ≡ true
        → parse_items D prefix i is m
          ≡ (assign_all D (entries_of prefix (item_leaves i is)) m, true)
    items_lem prefix i no_items m n h = refl
    items_lem prefix i (item node is) m n h =
        let (first, rest) = both_true (is_named node) (items_are_named is) h in
        let path = join prefix (join "." (to_string i)) in
        ap (λ r. if r.1 then parse_items D prefix (i + 1) is r.0 else r)
          (node_lem path node m (join-nonempty prefix (to_string i) n) first)
        ∙ items_lem prefix (i + 1) is (assign_all D (entries_of path (leaves node)) m) n rest
        ∙ ap (λ x. (x, true))
            (both_entries prefix (to_string i) (leaves node) (item_leaves (i + 1) is) m)

  -- The entries below the root, whose keys stand without a dot in front.
  root_entries : Entries → List (String × ConfigValue D)
  root_entries no_entries = []
  root_entries (entry none node es) = []
  root_entries (entry (some key) node es) = entries_of key (leaves node) ++ root_entries es

  root_lem :
      (es : Entries) (m : Configs D)
      → entries_are_named es ≡ true
      → parse_entries D "" es m ≡ (assign_all D (root_entries es) m, true)
  unfolding parse_entries assign_all entries_are_named root_entries
  root_lem no_entries m h = refl
  root_lem (entry none node es) m h = ground (arith, h)
  root_lem (entry (some key) node es) m h =
      let (named, both) =
        both_true (not (str_eq key "")) (is_named node && entries_are_named es) h in
      let (first, rest) = both_true (is_named node) (entries_are_named es) both in
      ap (λ r. if r.1 then parse_entries D "" es r.0 else r)
        (node_lem key node m (ground (arith, named)) first)
      ∙ root_lem es (assign_all D (entries_of key (leaves node)) m) rest
      ∙ ap (λ x. (x, true))
          (sym (assign_all-append D (entries_of key (leaves node)) (root_entries es) m))

  Reads-append :
      (key : String) (xs ys : List Leaf) (es : List (String × ConfigValue D))
      → Reads D ys es
      → Reads D (map (under key) xs ++ ys) (entries_of key xs ++ es)
  unfolding entries_of
  Reads-append key [] ys es r = r
  Reads-append key ((path, s) ∷ xs) ys es r =
      (behind-dotted key path, scalar_value-HasValue D s, Reads-append key xs ys es r)

  root_entries-Reads : (es : Entries) → Reads D (entry_leaves es) (root_entries es)
  unfolding entry_leaves root_entries
  root_entries-Reads no_entries = tt
  root_entries-Reads (entry none node es) = tt
  root_entries-Reads (entry (some key) node es) =
      Reads-append key (leaves node) (entry_leaves es) (root_entries es) (root_entries-Reads es)

  -- Where the root of a document is a mapping, and every key in it is a scalar that is not empty,
  -- `ParseYamlNode` ends without an exception, and it enters one entry for each scalar of the document,
  -- in order, a later one over an earlier one with the same key. The key is the path of the scalar's
  -- keys and indices, joined by dots, and the value is the int that `std::stoi` reads from the text, or
  -- else the double that `std::stod` reads, or else the Boolean that the text names, or else the text.
  pub parse_yaml_node-leaves :
      (es : Entries) (m : Configs D)
      → is_named (mapping es) ≡ true
      → (entered : List (String × ConfigValue D)) × Reads D (leaves (mapping es)) entered
        × (parse_yaml_node D "" (mapping es) m ≡ (assign_all D entered m, true))
  unfolding parse_yaml_node leaves is_named
  parse_yaml_node-leaves es m h = (root_entries es, root_entries-Reads es, root_lem es m h)
