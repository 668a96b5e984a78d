-- ===== src/Tests/Config.antt =====
-- Base/Config.cpp at concrete inputs, with a library whose `std::stod` reads nothing.
use turbo_core_dist_ai_clush.Prelude.{
  ℕ, ◌≡◌, ◌⊎◌, refl, true, false, not, ◌==◌, String, none, some, List, [], ◌∷◌,
}
use turbo_core_dist_ai_clush.Prelude.Int.{pos}
use turbo_core_dist_ai_clush.Prelude.Dict.{has, find, assign}
use turbo_core_dist_ai_clush.Registry.Manager
use turbo_core_dist_ai_clush.Config
use turbo_core_dist_ai_clush.Config.{
  Doubles, ConfigValue, Entries, Node, scalar, mapping, sequence, entry, no_entries, item, no_items,
  Loaded, root_node, load_throws, int_value, string_value, scalar_value, load_from_file, reload,
  parse_yaml_node,
}
use turbo_core_dist_ai_clush.Config.Reload.{calls_for, callbacks_of, reload_lem}
use turbo_core_dist_ai_clush.Config.Alike.{IsAlikeEntry}
use turbo_core_dist_ai_clush.Config.Leaves.{is_named, leaves, Reads, assign_all}
use turbo_core_dist_ai_clush.Config.Leaves.Parse.{parse_yaml_node-leaves}

abbrev no_doubles : Doubles
no_doubles = record { Double = ℕ; stod = λ s. none; far = λ a b. not (a == b) }

-- `std::stoi` reads the number at the front: an address is the number of its first part.
address_run : scalar_value no_doubles "10.0.0.1" ≡ int_value (pos 10)
unfolding scalar_value Config.stoi_codes Config.read_signed Config.read_digits
address_run = refl

abbrev top : Entries
top =
    (entry (some "net") (mapping (entry (some "port") (scalar "80") no_entries))
      (entry (some "ids") (sequence (item (scalar "a") (item (scalar "b") no_items))) no_entries))

abbrev document : Node
document = mapping top

leaves_run :
    leaves document
    ≡ ("net" ∷ "port" ∷ [], "80") ∷ ("ids" ∷ "0" ∷ [], "a") ∷ ("ids" ∷ "1" ∷ [], "b") ∷ []
unfolding leaves Manager.to_string
leaves_run = refl

parse_run :
    (parse_yaml_node no_doubles "" document []).0
    ≡ ("net.port", int_value (pos 80))
      ∷ ("ids.0", string_value "a")
      ∷ ("ids.1", string_value "b")
      ∷ []
unfolding parse_yaml_node assign scalar_value Config.stoi_codes Config.read_signed
    Config.read_digits Manager.to_string
parse_run = refl

parse_yaml_node-leaves_example :
    (entered : List (String × ConfigValue no_doubles)) × Reads no_doubles (leaves document) entered
    × (parse_yaml_node no_doubles "" document [] ≡ (assign_all no_doubles entered [], true))
unfolding is_named
parse_yaml_node-leaves_example = parse_yaml_node-leaves no_doubles top [] refl

-- A callback waits for the port, which was 79.
abbrev before : Config.Config no_doubles String
before = record {
  m_configs = ("net.port", int_value (pos 79)) ∷ [];
  m_callbacks = ("net.port", "cb" ∷ []) ∷ [];
  m_config_file_path = "f";
}

reload_lem_example :
    let (fresh, read) =
      load_from_file no_doubles "f" (root_node document) (record before { m_configs = [] }) in
    let (after, called, result) = reload no_doubles (root_node document) before in
    let alike =
      IsAlikeEntry no_doubles
        (find before.m_configs "net.port")
        (find fresh.m_configs "net.port") in
    (result ≡ read)
    × (((read ≡ false) × (after ≡ before) × (called ≡ []))
        ⊎ ((read ≡ true)
            × (after ≡ fresh)
            × ((alike × (calls_for no_doubles "net.port" called ≡ []))
                ⊎ ((¬ alike)
                    × (calls_for no_doubles "net.port" called
                        ≡ callbacks_of no_doubles before.m_callbacks "net.port")))))
unfolding has
reload_lem_example = reload_lem no_doubles (root_node document) before "net.port" (refl, tt)
