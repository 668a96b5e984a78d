-- ===== src/Tests/JsonText.antt =====
-- A small JSON library for the tests: values, a writer of JSON text, and a reader that knows the
-- texts of a few documents. It shows that the laws asked of the JSON library can hold.
use Prim.Native.Char.{code}
use text.Mathlib.Text.{◌==◌ as str_eq}
use turbo_core_dist_ai_clush.Prelude.{
  ℕ, zero, suc, ◌+◌, ◌/◌, ◌%◌, ◌≡◌, refl, Bool, true, false, ◌&&◌, List, [], ◌∷◌, ◌++◌, String,
  ◌==◌, if◌then◌else◌, some, arith, ltb,
}
use turbo_core_dist_ai_clush.Prelude.Int.{ℤ, pos, negsuc}
use turbo_core_dist_ai_clush.Prelude.Result.{Result, ok, throws}
use turbo_core_dist_ai_clush.Prelude.Dict.{find}
use turbo_core_dist_ai_clush.Protocol.Json.{JsonLib, JsonLaws}

mutual
  pub data Value : Type 0 where
    null : Value
    str : String → Value
    texts : List String → Value
    signed : ℤ → Value
    unsigned : ℕ → Value
    boolean : Bool → Value
    object : Members → Value
    array : Items → Value

  pub data Members : Type 0 where
    end : Members
    member : String → Value → Members → Members

  pub data Items : Type 0 where
    nil : Items
    cons : Value → Items → Items

abbrev codes : String → List ℕ
codes String.[] = []
codes (String.◌∷◌ c s) = code c ∷ codes s

-- The decimal digits of a number below 10 ^ fuel.
abbrev digits_of : ℕ → ℕ → List ℕ
digits_of zero n = []
digits_of (suc fuel) n =
    let rest = digits_of fuel (n / 10) in
    if ltb n 10 then (n + b'0') ∷ [] else rest ++ (n % 10 + b'0') ∷ []

abbrev quoted : String → List ℕ
quoted s = b'"' ∷ codes s ++ b'"' ∷ []

abbrev quoted_list : List String → List ℕ
quoted_list [] = []
quoted_list (s ∷ ss) = quoted s ++ b',' ∷ quoted_list ss

abbrev mutual
  pub write : Value → List ℕ
  write null = codes "null"
  write (str s) = quoted s
  write (texts ss) = b'[' ∷ quoted_list ss ++ b']' ∷ []
  write (signed (pos n)) = digits_of 20 n
  write (signed (negsuc n)) = b'-' ∷ digits_of 20 (suc n)
  write (unsigned n) = digits_of 20 n
  write (boolean true) = codes "true"
  write (boolean false) = codes "false"
  write (object ms) = b'{' ∷ write_members ms
  write (array vs) = b'[' ∷ write_items vs

  pub write_members : Members → List ℕ
  write_members end = b'}' ∷ []
  write_members (member k v ms) = quoted k ++ b':' ∷ write v ++ b',' ∷ write_members ms

  pub write_items : Items → List ℕ
  write_items nil = b']' ∷ []
  write_items (cons v vs) = write v ++ b',' ∷ write_items vs

abbrev members_of : List (String × Value) → Members
members_of [] = end
members_of ((k, v) ∷ ms) = member k v (members_of ms)

abbrev items_of : List Value → Items
items_of [] = nil
items_of (v ∷ vs) = cons v (items_of vs)

abbrev find_member : Members → String → Result Value
find_member end key = throws "key not found"
find_member (member k v ms) key = if str_eq k key then ok v else find_member ms key

abbrev at_key : Value → String → Result Value
at_key (object ms) key = find_member ms key
at_key null key = throws "type must be object"
at_key _ key = throws "type must be object"

abbrev has_member : Members → String → Bool
has_member end key = false
has_member (member k v ms) key = if str_eq k key then true else has_member ms key

abbrev has_key_of : Value → String → Bool
has_key_of (object ms) key = has_member ms key
has_key_of null key = false
has_key_of _ key = false

abbrev string_of : Value → Result String
string_of (str s) = ok s
string_of null = throws "type must be string"
string_of _ = throws "type must be string"

abbrev strings_of : Value → Result (List String)
strings_of (texts ss) = ok ss
strings_of null = throws "type must be array"
strings_of _ = throws "type must be array"

abbrev int32_of : Value → Result ℤ
int32_of (signed z) = ok z
int32_of (unsigned n) = ok (pos n)
int32_of null = throws "type must be number"
int32_of _ = throws "type must be number"

abbrev uint64_of : Value → Result ℕ
uint64_of (unsigned n) = ok n
uint64_of (signed (pos n)) = ok n
uint64_of null = throws "type must be number"
uint64_of _ = throws "type must be number"

abbrev bool_of : Value → Result Bool
bool_of (boolean b) = ok b
bool_of null = throws "type must be boolean"
bool_of _ = throws "type must be boolean"

abbrev same_bytes : List ℕ → List ℕ → Bool
same_bytes [] [] = true
same_bytes [] (y ∷ ys) = false
same_bytes (x ∷ xs) [] = false
same_bytes (x ∷ xs) (y ∷ ys) = x == y && same_bytes xs ys

abbrev read : List Value → List ℕ → Result Value
read [] bytes = throws "parse error"
read (v ∷ known) bytes = if same_bytes (write v) bytes then ok v else read known bytes

-- The library, with the documents that its reader knows.
abbrev pub json_text : List Value → JsonLib
json_text known = record {
  Json = Value;
  null = null;
  object = λ ms. object (members_of ms);
  array = λ vs. array (items_of vs);
  from_string = str;
  from_strings = texts;
  from_int32 = signed;
  from_uint64 = unsigned;
  from_bool = boolean;
  at = at_key;
  has_key = has_key_of;
  get_string = string_of;
  get_strings = strings_of;
  get_int32 = int32_of;
  get_uint64 = uint64_of;
  get_bool = bool_of;
  dump = λ v. ok (write v);
  parse = read known;
}

find_member-members_of :
    (key : String) (ms : List (String × Value)) (v : Value)
    → find ms key ≡ some v
    → find_member (members_of ms) key ≡ ok v
unfolding find
find_member-members_of key [] v e = cc
find_member-members_of key ((k, w) ∷ ms) v e = ground (arith, find_member-members_of key ms v)

pub json_text-JsonLaws : (known : List Value) → JsonLaws (json_text known)
json_text-JsonLaws known = record {
  at-object = find_member-members_of;
  get_string-from_string = λ s. refl;
  get_strings-from_strings = λ ss. refl;
  get_int32-from_int32 = λ z h. refl;
  get_uint64-from_uint64 = λ n h. refl;
  get_bool-from_bool = λ b. refl;
}
