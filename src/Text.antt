-- ===== src/Text.antt =====
-- The text format of a container: the regular expressions of core/container.cpp, with how std::regex
-- searches for each of them in the classic locale.
pub mod Numbers
pub mod Write
pub mod Read
mod Examples
pub mod Marks
pub mod Copies
pub mod Printed
pub mod Lazy
pub mod Closings
pub mod Again
pub mod Transport
pub mod Formats
pub mod Escapes
pub mod Markup
pub mod Removal
pub mod Calls
pub mod RoundTrip
pub mod Values
pub mod Spaces
pub mod Searches
pub mod Written
pub mod Lines
pub mod Decimals
pub mod Flat
pub mod Nested
pub mod Matches
pub mod Sections
use container_system.Base.{
  ℕ, zero, suc, ◌-◌, Bool, true, false, Option, none, some, List, [], ◌∷◌, ◌++◌, Bytes, codes, ◌==◌,
  leb, ◌&&◌, ◌||◌, if◌then◌else◌, length,
}

-- std::isspace
unfoldable pub is_space : ℕ → Bool
is_space c = (c == b' ') || (leb 9 c && leb c 13)

-- `\w`
unfoldable pub is_word : ℕ → Bool
is_word c =
    (leb b'0' c && leb c b'9')
    || (leb b'A' c && leb c b'Z')
    || (leb b'a' c && leb c b'z')
    || (c == b'_')

-- What `.` does not match.
unfoldable pub is_line_end : ℕ → Bool
is_line_end c = (c == 10) || (c == 13)

-- `regex_replace` of `\r\n?|\n` by nothing.
unfoldable pub remove_newlines : Bytes → Bytes
unfolding is_line_end
remove_newlines [] = []
remove_newlines (c ∷ s) = let rest = remove_newlines s in if is_line_end c then rest else c ∷ rest

abbrev pub before {ℓ} : {A : Type ℓ} → ℕ → Option (Bytes × A) → Option (Bytes × A)
before c none = none
before c (some (t, r)) = some (c ∷ t, r)

abbrev pub before_pair {ℓ} : {A : Type ℓ} → ℕ → Bytes × A → Bytes × A
before_pair c (t, r) = (c ∷ t, r)

-- `\s*` and what follows.
unfoldable pub span_space : Bytes → Bytes × Bytes
span_space [] = ([], [])
span_space (c ∷ s) =
    let rest = span_space s in if is_space c then before_pair c rest else ([], c ∷ s)

-- `\w*` and what follows.
unfoldable pub span_word : Bytes → Bytes × Bytes
span_word [] = ([], [])
span_word (c ∷ s) = let rest = span_word s in if is_word c then before_pair c rest else ([], c ∷ s)

unfoldable pub strip_prefix : Bytes → Bytes → Option Bytes
strip_prefix [] s = some s
strip_prefix (p ∷ ps) [] = none
strip_prefix (p ∷ ps) (c ∷ s) = let rest = strip_prefix ps s in if p == c then rest else none

-- `\{\{?\s*` behind `\s*`: what it matches and what follows. A second brace is taken where there is one.
abbrev pub second_brace : Bytes → Bytes × Bytes
second_brace [] = ([], [])
second_brace (c ∷ s) = if c == b'{' then before_pair b'{' (span_space s) else span_space (c ∷ s)

abbrev pub first_brace : Bytes → Bytes → Option (Bytes × Bytes)
first_brace spaces [] = none
first_brace spaces (c ∷ s) =
    if c == b'{' then some (spaces ++ (b'{' ∷ (second_brace s).0), (second_brace s).1) else none

unfoldable pub open_braces : Bytes → Option (Bytes × Bytes)
open_braces s = first_brace (span_space s).0 (span_space s).1

-- `\s*\}\}?;` at the start of the text: what it matches.
abbrev pub end_mark : Bytes → Option Bytes
end_mark [] = none
end_mark (c ∷ s) = if c == b';' then some (b'}' ∷ b'}' ∷ b';' ∷ []) else none

abbrev pub last_brace : Bytes → Option Bytes
last_brace [] = none
last_brace (c ∷ s) =
    if c == b';' then some (b'}' ∷ b';' ∷ []) else if c == b'}' then end_mark s else none

unfoldable pub close_braces : Bytes → Option Bytes
close_braces [] = none
close_braces (c ∷ s) =
    let rest = close_braces s in
    if is_space c
    then elim rest [ none ↦ none | some t ↦ some (c ∷ t) ]
    else if c == b'}'
    then last_brace s
    else none

-- `(.*?)\s*\}\}?;`: the group, and what the part behind it matches.
unfoldable pub until_close : Bytes → Option (Bytes × Bytes)
until_close [] = none
until_close (c ∷ s) =
    let rest = until_close s in
    elim (close_braces (c ∷ s)) [
      | some t ↦ some ([], t)
      | none ↦ if is_line_end c then none else before c rest
    ]

-- `<tag>\s*\{\{?\s*(.*?)\s*\}\}?;` at the start of the text: the match and its group.
abbrev pub finish_section : Bytes → Bytes → Option (Bytes × Bytes) → Option (Bytes × Bytes)
finish_section tag opening none = none
finish_section tag opening (some (inside, closing)) =
    some (tag ++ (opening ++ (inside ++ closing)), inside)

abbrev pub section_behind : Bytes → Option (Bytes × Bytes) → Option (Bytes × Bytes)
section_behind tag none = none
section_behind tag (some (opening, s)) = finish_section tag opening (until_close s)

abbrev pub section_after : Bytes → Option Bytes → Option (Bytes × Bytes)
section_after tag none = none
section_after tag (some s) = section_behind tag (open_braces s)

unfoldable pub match_section : Bytes → Bytes → Option (Bytes × Bytes)
match_section tag s = section_after tag (strip_prefix tag s)

-- `regex_search` of that expression: the first match.
unfoldable pub search_section : Bytes → Bytes → Option (Bytes × Bytes)
search_section tag [] = none
search_section tag (c ∷ s) =
    let rest = search_section tag s in
    elim (match_section tag (c ∷ s)) [ some m ↦ some m | none ↦ rest ]

-- `(.*?)\];`: the group, and what follows the match.
abbrev pub close_bracket : Bytes → Option Bytes
close_bracket [] = none
close_bracket (c ∷ []) = none
close_bracket (c ∷ d ∷ s) = if (c == b']') && (d == b';') then some s else none

unfoldable pub until_bracket : Bytes → Option (Bytes × Bytes)
until_bracket [] = none
until_bracket (c ∷ s) =
    let rest = until_bracket s in
    elim (close_bracket (c ∷ s)) [
      | some t ↦ some ([], t)
      | none ↦ if is_line_end c then none else before c rest
    ]

-- `(\w+),`
abbrev pub comma : Bytes × Bytes → Option (Bytes × Bytes)
comma ([], s) = none
comma (b ∷ w, []) = none
comma (b ∷ w, c ∷ s) = if c == b',' then some (b ∷ w, s) else none

-- `\[(\w+),(.*?)\];` at the start of the text: the groups, and what follows the match.
abbrev pub pair_end : Bytes → Option (Bytes × Bytes) → Option ((Bytes × Bytes) × Bytes)
pair_end key none = none
pair_end key (some (v, rest)) = some ((key, v), rest)

abbrev pub pair_value : Option (Bytes × Bytes) → Option ((Bytes × Bytes) × Bytes)
pair_value none = none
pair_value (some (key, s)) = pair_end key (until_bracket s)

unfoldable pub match_pair : Bytes → Option ((Bytes × Bytes) × Bytes)
match_pair [] = none
match_pair (c ∷ s) = if c == b'[' then pair_value (comma (span_word s)) else none

-- The groups of an item: its name, its type and its text.
pub record Item : Type 0 where
  pub item_name : Bytes
  pub item_type : Bytes
  pub item_text : Bytes

-- `\[(\w+),\s*(\w+),\s*(.*?)\];` at the start of the text: the groups, and what follows the match.
abbrev pub item_end : Bytes → Bytes → Option (Bytes × Bytes) → Option (Item × Bytes)
item_end n t none = none
item_end n t (some (v, rest)) = some (record { item_name = n; item_type = t; item_text = v }, rest)

abbrev pub item_value : Bytes → Option (Bytes × Bytes) → Option (Item × Bytes)
item_value n none = none
item_value n (some (t, s)) = item_end n t (until_bracket (span_space s).1)

abbrev pub item_kind : Option (Bytes × Bytes) → Option (Item × Bytes)
item_kind none = none
item_kind (some (n, s)) = item_value n (comma (span_word (span_space s).1))

unfoldable pub match_item : Bytes → Option (Item × Bytes)
match_item [] = none
match_item (c ∷ s) = if c == b'[' then item_kind (comma (span_word s)) else none

-- `sregex_iterator`: the matches from the left, the next one searched behind the last one. The first
-- `skip` bytes belong to the last match.
unfoldable pub find_all {ℓ} : {A : Type ℓ} → (Bytes → Option (A × Bytes)) → ℕ → Bytes → List A
find_all match_here skip [] = []
find_all match_here (suc skip) (c ∷ s) = find_all match_here skip s
find_all match_here zero (c ∷ s) = elim (match_here (c ∷ s)) [
  | none ↦ find_all match_here zero s
  | some (a, rest) ↦ a ∷ find_all match_here (length s - length rest) s
]

unfoldable pub find_pairs : Bytes → List (Bytes × Bytes)
unfolding find_all match_pair
find_pairs s = find_all match_pair 0 s

unfoldable pub find_items : Bytes → List Item
unfolding find_all match_item
find_items s = find_all match_item 0 s
