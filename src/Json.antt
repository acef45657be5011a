-- ===== src/Json.antt =====
-- JSON values as Python has them once they are read: dicts in the order of insertion. Arrays and
-- objects have list types of their own.
pub mod Laws
use agents_python_cloudflare.Prelude.{
  ℕ, suc, ◌+◌, String, Bool, true, false, ◌&&◌, ◌||◌, not, Option, none, some, List, [], ◌∷◌, ◌==◌,
  is_some, ltb, if◌then◌else◌,
}
use Prim.Native.Char.{code}
use Prim.Native.String.{◌++◌}

-- `negsuc n` is -(n + 1).
pub data ℤ : Type 0 where
  pos : ℕ → ℤ
  negsuc : ℕ → ℤ

mutual
  -- A float is given by its text.
  pub data Json : Type 0 where
    null : Json
    boolean : Bool → Json
    int : ℤ → Json
    float : String → Json
    text : String → Json
    array : Items → Json
    object : Fields → Json

  pub data Items : Type 0 where
    nil : Items
    cons : Json → Items → Items

  pub data Fields : Type 0 where
    end : Fields
    field : String → Json → Fields → Fields

-- dict.get(key)
unfoldable pub get_key : String → Fields → Option Json
get_key key end = none
get_key key (field other v fs) = let rest = get_key key fs in if other == key then some v else rest

-- dict[key] = value
unfoldable pub set_key : String → Json → Fields → Fields
set_key key v end = field key v end
set_key key v (field other w fs) =
    let rest = set_key key v fs in if other == key then field other v fs else field other w rest

-- dict.pop(key, None)
unfoldable pub pop_key : String → Fields → Fields
pop_key key end = end
pop_key key (field other v fs) =
    let rest = pop_key key fs in if other == key then rest else field other v rest

-- dict.update(new), and {**old, **new}
unfoldable pub update_keys : Fields → Fields → Fields
unfolding set_key
update_keys old end = old
update_keys old (field key v fs) = update_keys (set_key key v old) fs

abbrev pub has_key : String → Fields → Bool
has_key key fs = is_some (get_key key fs)

-- The text of a value that is one.
abbrev pub as_text : Option Json → Option String
as_text (some (Json.text s)) = some s
as_text _ = none

abbrev pub is_text_of : String → Option Json → Bool
is_text_of s (some (Json.text t)) = t == s
is_text_of s _ = false

abbrev pub is_true : Option Json → Bool
is_true (some (boolean b)) = b
is_true _ = false

-- dict.get(key) is None: the key is missing, or its value is null.
abbrev pub is_null : Option Json → Bool
is_null none = true
is_null (some null) = true
is_null (some v) = false

-- The number of bytes of a text in UTF-8.
abbrev pub utf8_size : ℕ → ℕ
utf8_size c = if ltb c 0x80 then 1 else if ltb c 0x800 then 2 else if ltb c 0x10000 then 3 else 4

unfoldable pub utf8_length : String → ℕ
utf8_length String.[] = 0
utf8_length (String.◌∷◌ c s) = utf8_size (code c) + utf8_length s

-- a + b, on texts
unfoldable pub concat : String → String → String
concat a b = a ++ b
