-- ===== src/Config.antt =====
-- `Config` of Base/Config.h and Base/Config.cpp. The YAML library, doubles, and what `std::stod` reads
-- are parameters: a node is what the library's node answers. A callback is a value; that it is called
-- with a key is an entry of a list.
pub mod Reload
pub mod Leaves
pub mod Alike
use Prim.Native.String.{◌++◌ as join}
use Prim.Native.Char.{code}
use text.Mathlib.Text.{◌==◌ as str_eq}
use turbo_core_dist_ai_clush.Prelude.{
  ℕ, ◌+◌, ◌-◌, ◌*◌, ◌^◌, Bool, true, false, not, ◌&&◌, ◌||◌, List, [], ◌∷◌, ◌++◌, map, String,
  Option, none, some, if◌then◌else◌, ◌==◌, ltb, leb, suc,
}
use turbo_core_dist_ai_clush.Prelude.Int.{ℤ, pos, negsuc, pos_part, neg_part}
use turbo_core_dist_ai_clush.Prelude.Dict.{StringMap, find, assign}
use turbo_core_dist_ai_clush.Net.Poller.{is_some}
use turbo_core_dist_ai_clush.Registry.Manager.{to_string}

-- `std::stod`, and `std::abs(a - b) > 1e-9`.
pub record Doubles : Type 1 where
  pub Double : Type 0
  pub stod : String → Option Double
  pub far : Double → Double → Bool

-- A node: a scalar with its text, a mapping, a sequence, or another kind. A key is what
-- `as<std::string>()` gives, none where it throws.
mutual
  pub data Node : Type 0 where
    scalar : String → Node
    mapping : Entries → Node
    sequence : Items → Node
    other_kind : Node

  pub data Entries : Type 0 where
    no_entries : Entries
    entry : Option String → Node → Entries → Entries

  pub data Items : Type 0 where
    no_items : Items
    item : Node → Items → Items

-- What `YAML::LoadFile` does: it throws, it gives a node that tests false, or a node.
pub data Loaded : Type 0 where
  load_throws no_root : Loaded
  root_node : Node → Loaded

abbrev pub is_space : ℕ → Bool
is_space c = c == 32 || (leb 9 c && leb c 13)

abbrev pub is_digit : ℕ → Bool
is_digit c = leb 48 c && leb c 57

abbrev pub codes : String → List ℕ
codes String.[] = []
codes (String.◌∷◌ c s) = code c ∷ codes s

-- The digits at the front, and the value so far.
unfoldable pub read_digits : ℕ → List ℕ → ℕ
read_digits value [] = value
read_digits value (c ∷ cs) =
    let more = read_digits (value * 10 + (c - 48)) cs in if is_digit c then more else value

abbrev pub starts_with_digit : List ℕ → Bool
starts_with_digit [] = false
starts_with_digit (c ∷ cs) = is_digit c

-- The number behind the sign, which `int` holds or not.
unfoldable pub read_signed : Bool → List ℕ → Option ℤ
read_signed negative cs =
    let n = read_digits 0 cs in
    if not (starts_with_digit cs)
    then none
    else if negative
    then (if leb n (2 ^ 31) then some (if n == 0 then pos 0 else negsuc (n - 1)) else none)
    else if ltb n (2 ^ 31)
    then some (pos n)
    else none

-- `std::stoi`: the number at the front of the text, whatever follows it; `none` where it throws.
unfoldable pub stoi_codes : List ℕ → Option ℤ
stoi_codes [] = none
stoi_codes (c ∷ cs) =
    let later = stoi_codes cs in
    if is_space c
    then later
    else if c == 45
    then read_signed true cs
    else if c == 43
    then read_signed false cs
    else read_signed false (c ∷ cs)

abbrev pub stoi : String → Option ℤ
stoi s = stoi_codes (codes s)

module _ (D : Doubles) where
  open D use {Double, stod, far}

  -- What the `std::any` of an entry holds.
  pub data ConfigValue : Type 0 where
    int_value : ℤ → ConfigValue
    double_value : Double → ConfigValue
    bool_value : Bool → ConfigValue
    string_value : String → ConfigValue

  abbrev pub is_true_text : String → Bool
  is_true_text s = str_eq s "true" || (str_eq s "True" || str_eq s "1")

  abbrev pub is_false_text : String → Bool
  is_false_text s = str_eq s "false" || (str_eq s "False" || str_eq s "0")

  unfoldable pub scalar_value : String → ConfigValue
  scalar_value s = elim (stoi s) [
    | some n ↦ int_value n
    | none ↦ elim (stod s) [
      | some x ↦ double_value x
      | none ↦
          if is_true_text s
          then bool_value true
          else if is_false_text s
          then bool_value false
          else string_value s
    ]
  ]

  abbrev pub Configs : Type 0
  Configs = StringMap ConfigValue

  abbrev pub child_key : String → String → String
  child_key prefix key = if str_eq prefix "" then key else join prefix (join "." key)

  abbrev pub scalar_key : String → String
  scalar_key prefix = if str_eq prefix "" then "root" else prefix

  -- `ParseYamlNode`: the entries, and whether it ended without an exception. What was entered before
  -- an exception stays.
  unfoldable mutual
    pub parse_yaml_node : String → Node → Configs → Configs × Bool
    parse_yaml_node prefix (scalar s) m = (assign m (scalar_key prefix) (scalar_value s), true)
    parse_yaml_node prefix (mapping es) m = parse_entries prefix es m
    parse_yaml_node prefix (sequence is) m = parse_items prefix 0 is m
    parse_yaml_node prefix other_kind m = (m, true)

    pub parse_entries : String → Entries → Configs → Configs × Bool
    parse_entries prefix no_entries m = (m, true)
    parse_entries prefix (entry none node es) m = (m, false)
    parse_entries prefix (entry (some key) node es) m =
        let first = parse_yaml_node (child_key prefix key) node m in
        let rest = parse_entries prefix es first.0 in if first.1 then rest else first

    pub parse_items : String → ℕ → Items → Configs → Configs × Bool
    parse_items prefix i no_items m = (m, true)
    parse_items prefix i (item node is) m =
        let first = parse_yaml_node (join prefix (join "." (to_string i))) node m in
        let rest = parse_items prefix (i + 1) is first.0 in if first.1 then rest else first

  pub record Config (Callback : Type 0) : Type 0 where
    pub m_configs : Configs
    pub m_callbacks : StringMap (List Callback)
    pub m_config_file_path : String

  -- The values of `Get<T>`, the default where there is no entry or it holds another type.
  abbrev pub as_int : ℤ → ConfigValue → ℤ
  as_int default (int_value n) = n
  as_int default (double_value x) = default
  as_int default (bool_value b) = default
  as_int default (string_value s) = default

  abbrev pub as_string : String → ConfigValue → String
  as_string default (string_value s) = s
  as_string default (int_value n) = default
  as_string default (double_value x) = default
  as_string default (bool_value b) = default

  abbrev pub same_int : ℤ → ℤ → Bool
  same_int a b = pos_part a == pos_part b && neg_part a == neg_part b

  abbrev pub same_bool : Bool → Bool → Bool
  same_bool true b = b
  same_bool false b = not b

  -- Two values of `IsConfigChanged`, each with its type.
  unfoldable pub differs : ConfigValue → ConfigValue → Bool
  differs (int_value a) (int_value b) = not (same_int a b)
  differs (double_value a) (double_value b) = far a b
  differs (bool_value a) (bool_value b) = not (same_bool a b)
  differs (string_value a) (string_value b) = not (str_eq a b)
  differs (int_value a) (double_value b) = true
  differs (int_value a) (bool_value b) = true
  differs (int_value a) (string_value b) = true
  differs (double_value a) (int_value b) = true
  differs (double_value a) (bool_value b) = true
  differs (double_value a) (string_value b) = true
  differs (bool_value a) (int_value b) = true
  differs (bool_value a) (double_value b) = true
  differs (bool_value a) (string_value b) = true
  differs (string_value a) (int_value b) = true
  differs (string_value a) (double_value b) = true
  differs (string_value a) (bool_value b) = true

  unfoldable pub is_config_changed : String → Configs → Configs → Bool
  is_config_changed key old_configs m = elim (find old_configs key) [
    | none ↦ is_some (find m key)
    | some old_val ↦ elim (find m key) [ none ↦ true | some new_val ↦ differs old_val new_val ]
  ]

  module _ {Callback : Type 0} where
    unfoldable pub get_int : Config Callback → String → ℤ → ℤ
    get_int c key default = elim (find c.m_configs key) [
      | none ↦ default
      | some v ↦ as_int default v
    ]

    unfoldable pub get_string : Config Callback → String → String → String
    get_string c key default = elim (find c.m_configs key) [
      | none ↦ default
      | some v ↦ as_string default v
    ]

    unfoldable pub load_from_file : String → Loaded → Config Callback → Config Callback × Bool
    load_from_file path load_throws c = (record c { m_config_file_path = path }, false)
    load_from_file path no_root c = (record c { m_config_file_path = path }, false)
    load_from_file path (root_node root) c =
        let parsed = parse_yaml_node "" root c.m_configs in
        (record c { m_config_file_path = path; m_configs = parsed.0 }, parsed.1)

    -- The callbacks of a key, each called with it.
    abbrev pub call_each : String → List Callback → List (Callback × String)
    call_each key cbs = map (λ cb. (cb, key)) cbs

    -- The loop over the keys that have callbacks.
    unfoldable pub notify : Configs → Configs → StringMap (List Callback) → List (Callback × String)
    notify old_configs m [] = []
    notify old_configs m ((key, cbs) ∷ rest) =
        let later = notify old_configs m rest in
        if is_config_changed key old_configs m then call_each key cbs ++ later else later

    -- `Reload`, with what the file now gives: the state, the callbacks called, and its result.
    unfoldable pub reload :
        Loaded → Config Callback → Config Callback × List (Callback × String) × Bool
    reload file c =
        let (loaded, ret) =
          load_from_file c.m_config_file_path file (record c { m_configs = [] }) in
        if not ret
        then (record loaded { m_configs = c.m_configs }, [], false)
        else (loaded, notify c.m_configs loaded.m_configs loaded.m_callbacks, true)

    unfoldable pub on_change : String → Callback → Config Callback → Config Callback
    on_change key callback c = record c {
      m_callbacks = assign c.m_callbacks key (elim (find c.m_callbacks key) [
        | none ↦ callback ∷ []
        | some cbs ↦ cbs ++ (callback ∷ [])
      ]);
    }
