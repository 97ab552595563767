-- ===== src/Text/Escapes.antt =====
-- The escapes of variant_helpers::json_escape (container/variant_helpers.h), and a reader of the body
-- of a JSON string as RFC 8259 describes it.
use container_system.Base.{
  ℕ, ◌+◌, ◌-◌, ◌*◌, ◌≡◌, refl, ap, ◌∙◌, Bool, true, false, Option, none, some, [], ◌∷◌, ◌++◌, Bytes,
  ◌==◌, ltb, leb, ◌&&◌, ◌||◌, if◌then◌else◌, arith,
}
use container_system.Text.Markup.{json_char, json_escape}

-- The value of a hexadecimal digit.
abbrev pub hex_value : ℕ → Option ℕ
hex_value c =
    if leb b'0' c && leb c b'9'
    then some (c - b'0')
    else if leb b'a' c && leb c b'f'
    then some (c - b'a' + 10)
    else if leb b'A' c && leb c b'F'
    then some (c - b'A' + 10)
    else none

-- The character that an escape of two characters stands for, if it is one.
abbrev pub escaped_char : ℕ → Option ℕ
escaped_char e =
    if e == b'"' || e == b'\\' || e == b'/'
    then some e
    else if e == b'b'
    then some 8
    else if e == b'f'
    then some 12
    else if e == b'n'
    then some 10
    else if e == b'r'
    then some 13
    else if e == b't'
    then some 9
    else none

abbrev pub code_unit : Option ℕ → Option ℕ → Option ℕ → Option ℕ → Option ℕ
code_unit (some a) (some b) (some c) (some d) = some (((a * 16 + b) * 16 + c) * 16 + d)
code_unit a b c d = none

-- A character in front of what is read of the rest.
abbrev pub in_front : Option ℕ → Option Bytes → Option Bytes
in_front (some c) (some s) = some (c ∷ s)
in_front c s = none

-- A character that stands in a string only as an escape: a quotation mark, the backslash, or a control character.
abbrev pub needs_escape : ℕ → Bool
needs_escape c = ltb c 32 || c == b'"' || c == b'\\'

mutual
  -- The characters of the body of a JSON string; `none` for a text that is no such body.
  pub json_unescape : Bytes → Option Bytes
  json_unescape [] = some []
  json_unescape (c ∷ s) = elim (c == b'\\') [
    | true ↦ escape_end s
    | false ↦ in_front (if needs_escape c then none else some c) (json_unescape s)
  ]

  pub escape_end : Bytes → Option Bytes
  escape_end [] = none
  escape_end (e ∷ s) = elim (e == b'u') [
    | true ↦ unit_end s
    | false ↦ in_front (escaped_char e) (json_unescape s)
  ]

  pub unit_end : Bytes → Option Bytes
  unit_end (a ∷ b ∷ c ∷ d ∷ s) =
      in_front (code_unit (hex_value a) (hex_value b) (hex_value c) (hex_value d)) (json_unescape s)
  unit_end s = none

json_unescape-json_char :
    (c : ℕ) (r : Bytes) → json_unescape (json_char c ++ r) ≡ in_front (some c) (json_unescape r)
unfolding json_unescape json_char
json_unescape-json_char c r = ground arith

-- A reader of the body of a JSON string, which refuses a quotation mark, a control character and an escape
-- that RFC 8259 does not have, reads every string back from what `json_escape` writes.
pub json_unescape-json_escape : (s : Bytes) → json_unescape (json_escape s) ≡ some s
unfolding json_unescape json_escape
json_unescape-json_escape [] = refl
json_unescape-json_escape (c ∷ s) =
    json_unescape-json_char c (json_escape s) ∙ ap (in_front (some c)) (json_unescape-json_escape s)
