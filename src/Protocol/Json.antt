-- ===== src/Protocol/Json.antt =====
-- What the program uses of nlohmann::json, which is not part of the repository: a parameter, with
-- the laws that the library documents. A call that throws returns `throws` with its text.
use turbo_core_dist_ai_clush.Prelude.{ℕ, ◌<◌, ◌^◌, ◌≡◌, ap, ◌∙◌, Bool, List, String}
use turbo_core_dist_ai_clush.Prelude.Int.{ℤ, IsInt32}
use turbo_core_dist_ai_clush.Prelude.Result.{Result, ok, ◌>>=◌}
use turbo_core_dist_ai_clush.Prelude.Dict.{find}
use mathlib.Core.Option.{some}

pub record JsonLib : Type 1 where
  pub Json : Type 0
  -- a default-constructed value, and the values that convert from C++ types
  pub null : Json
  pub object : List (String × Json) → Json
  pub array : List Json → Json
  pub from_string : String → Json
  pub from_strings : List String → Json
  pub from_int32 : ℤ → Json
  pub from_uint64 : ℕ → Json
  pub from_bool : Bool → Json
  -- `j.at(key)`, `j.contains(key)` and `j.get<T>()`
  pub at : Json → String → Result Json
  pub has_key : Json → String → Bool
  pub get_string : Json → Result String
  pub get_strings : Json → Result (List String)
  pub get_int32 : Json → Result ℤ
  pub get_uint64 : Json → Result ℕ
  pub get_bool : Json → Result Bool
  -- `j.dump()` throws on text that is not UTF-8; `json::parse` throws on what is not JSON
  pub dump : Json → Result (List ℕ)
  pub parse : List ℕ → Result Json

-- A member of an object is found under its key, and a value is got back at the type it came from.
pub record JsonLaws (J : JsonLib) : Type 0 where
  pub at-object :
      (key : String) (members : List (String × J.Json)) (j : J.Json)
      → find members key ≡ some j
      → J.at (J.object members) key ≡ ok j
  pub get_string-from_string : (s : String) → J.get_string (J.from_string s) ≡ ok s
  pub get_strings-from_strings : (ss : List String) → J.get_strings (J.from_strings ss) ≡ ok ss
  pub get_int32-from_int32 : (z : ℤ) → IsInt32 z → J.get_int32 (J.from_int32 z) ≡ ok z
  pub get_uint64-from_uint64 : (n : ℕ) → n < 2 ^ 64 → J.get_uint64 (J.from_uint64 n) ≡ ok n
  pub get_bool-from_bool : (b : Bool) → J.get_bool (J.from_bool b) ≡ ok b

module _ {J : JsonLib} (L : JsonLaws J) where
  -- `j.at(key).get<T>()` at a member that was put in from a `T`.
  pub at-object_get {κ} :
      {A : Type κ} (key : String) (members : List (String × J.Json)) (get : J.Json → Result A)
      {j : J.Json} {a : A}
      → find members key ≡ some j
      → get j ≡ ok a
      → (J.at (J.object members) key >>= get) ≡ ok a
  at-object_get key members get {j} found value =
      ap (λ r. r >>= get) (L.at-object key members j found) ∙ value
