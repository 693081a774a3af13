-- ===== src/Manifest/Values.antt =====
-- The values of a parsed YAML or JSON document, with the operations on them that inference/manifest.py
-- uses. A set is a sequence of its elements; floats, dates and binary data are `other`.
use text.Mathlib.Text.{find?}
use pi_ssm.Base.{
  ℕ, String, Bool, false, ◌||◌, Option, none, some, is_some, List, [], ◌∷◌, ◌==◌, if◌then◌else◌,
  ltb,
}

-- An integer: `pos n` is n, and `negsuc n` is -(n + 1).
pub data ℤ : Type 0 where
  pos : ℕ → ℤ
  negsuc : ℕ → ℤ

mutual
  pub data Value : Type 0 where
    null : Value
    boolean : Bool → Value
    integer : ℤ → Value
    string : String → Value
    other : String → Value
    sequence : Values → Value
    mapping : Entries → Value

  pub data Values : Type 0 where
    no_value : Values
    value : Value → Values → Values

  pub data Entries : Type 0 where
    no_entry : Entries
    entry : Value → Value → Entries → Entries

-- `value == name` for a text `name`.
abbrev pub is_text : String → Value → Bool
is_text name (string s) = s == name
is_text name v = false

-- `value in (...)` for a tuple of texts.
abbrev pub is_one_of : List String → Value → Bool
is_one_of [] v = false
is_one_of (name ∷ names) v = is_text name v || is_one_of names v

-- The element of a mapping at a text, `None` where there is none.
unfoldable pub lookup : String → Entries → Option Value
lookup name no_entry = none
lookup name (entry key v rest) = if is_text name key then some v else lookup name rest

unfoldable pub has_element : String → Values → Bool
has_element name no_value = false
has_element name (value v rest) = is_text name v || has_element name rest

-- `isinstance(value, int) and value > 0`; a Boolean is an `int`.
unfoldable pub is_positive : Value → Bool
is_positive (integer (pos n)) = ltb 0 n
is_positive (boolean b) = b
is_positive v = false

-- `part in value` for a text `part`; `none` is a `TypeError`.
unfoldable pub holds : String → Value → Option Bool
holds part (string s) = some (is_some (find? s part))
holds part (sequence elements) = some (has_element part elements)
holds part (mapping entries) = some (is_some (lookup part entries))
holds part v = none
