-- ===== src/Text/Nested.antt =====
-- Nested containers in the text format: the fuel that `deserialize` needs, and what is read of them.
use container_system.Base.{
  ℕ, suc, ◌≡◌, refl, sym, ◌∙◌, Bool, true, false, Option, none, some, List, [], ◌∷◌, Bytes, ◌==◌,
  inl, inr, arith, Bool-cases, Option-cases,
}
use container_system.Value.{
  ValueTypes, null_value, bool_value, short_value, ushort_value, int_value, uint_value, long_value,
  ulong_value, llong_value, ullong_value, float_value, double_value, string_value, bytes_value,
  container_value, array_value, Header, Status, monostate, ValueContainer, value_container,
  get_type_from_string, no_units,
}
use container_system.Container.{new_container, initialize}
use container_system.Text.{
  Item, is_space, remove_newlines, span_space, second_brace, first_brace, open_braces, strip_prefix,
  match_section, search_section, find_items,
}
use container_system.Text.Marks.{Inert, until_close-Inert, remove_newlines-Inert}
use container_system.Text.Sections.{AllInert, find_all-AllInert, search_section-EndsAtMark, NoBrace}
use container_system.Text.Write.{FloatText}
use container_system.Text.Read.{
  Outcome, returned, Parsed, parsed, raised, no_fuel, parse_data, nested_data, push_parsed,
  push_items, parse_section, parse_header, data_tag, header_tag, no_data, values_with, text_with,
  deserialize,
}

strip_prefix-Inert : (p s r : Bytes) → Inert s → strip_prefix p s ≡ some r → Inert r
unfolding strip_prefix
strip_prefix-Inert [] s r n h = let e : s ≡ r = ground (arith, h) in rw e at n
strip_prefix-Inert (b ∷ p) [] r n h = cc
strip_prefix-Inert (b ∷ p) (c ∷ s) r n h = elim (Bool-cases (b == c)) [
  | inl e ↦ strip_prefix-Inert p s r n.2 (ground (arith, e, h))
  | inr e ↦ ground (arith, e, h)
]

span_space-Inert : (s : Bytes) → Inert s → Inert (span_space s).1
unfolding span_space
span_space-Inert [] n = tt
span_space-Inert (c ∷ s) n = elim (Bool-cases (is_space c)) [
  | inl e ↦ rw e (span_space-Inert s n.2)
  | inr e ↦ rw e n
]

second_brace-Inert : (s : Bytes) → Inert s → Inert (second_brace s).1
second_brace-Inert [] n = tt
second_brace-Inert (c ∷ s) n = elim (Bool-cases (c == b'{')) [
  | inl e ↦ rw e (span_space-Inert s n.2)
  | inr e ↦ rw e (span_space-Inert (c ∷ s) n)
]

first_brace-Inert : (spaces s o r : Bytes) → Inert s → first_brace spaces s ≡ some (o, r) → Inert r
first_brace-Inert spaces [] o r n h = cc
first_brace-Inert spaces (c ∷ s) o r n h = elim (Bool-cases (c == b'{')) [
  | inl e ↦
      let f : (second_brace s).1 ≡ r = ground (arith, e, h) in rw f at (second_brace-Inert s n.2)
  | inr e ↦ ground (arith, e, h)
]

match_section-Inert : (tag s : Bytes) → Inert s → match_section tag s ≡ none
unfolding match_section open_braces
match_section-Inert tag s n = elim (Option-cases (strip_prefix tag s)) [
  | inl e ↦ ground (arith, e)
  | inr (r, e) ↦ elim (Option-cases (open_braces r)) [
    | inl f ↦ ground (arith, e, f)
    | inr ((o, q), f) ↦
        let m : Inert q =
          first_brace-Inert (span_space r).0 (span_space r).1 o q
            (span_space-Inert r (strip_prefix-Inert tag s r n e)) f in
        ground (arith, e, f, until_close-Inert q m)
  ]
]

-- A text without a mark has no section.
search_section-Inert : (tag s : Bytes) → Inert s → search_section tag s ≡ none
unfolding search_section
search_section-Inert tag [] n = refl
search_section-Inert tag (c ∷ s) n =
    ground (arith, match_section-Inert tag (c ∷ s) n, search_section-Inert tag s n.2)

-- A nested call that finds no data.
abbrev pub Refuses : (Bytes → Outcome) → Bytes → Type 0
Refuses nested s = (c : ValueContainer) × (nested s ≡ returned c false)

abbrev pub refuse : Bytes → Outcome
refuse s = returned new_container false

values_with-Inert :
    (lib : FloatText) (nested : Bytes → Outcome) (s : Bytes) (c : ValueContainer)
    → Inert s
    → (c' : ValueContainer) × (values_with lib nested s false c ≡ returned c' false)
unfolding values_with
values_with-Inert lib nested s (value_container h st us) n = (
  value_container h (record st { parsed_data = true; changed_data = false; data_string = no_data })
      no_units,
  ground (arith, search_section-Inert data_tag s n),
)

deserialize-Inert :
    (lib : FloatText) (fuel : ℕ) (s : Bytes) (c : ValueContainer)
    → Inert s
    → (c' : ValueContainer) × (deserialize lib (suc fuel) s false c ≡ returned c' false)
unfolding deserialize text_with
deserialize-Inert lib fuel [] c n = (initialize c, refl)
deserialize-Inert lib fuel (b ∷ s) c n = rw (remove_newlines-Inert (b ∷ s) n) (
    values_with-Inert lib (λ t. deserialize lib fuel t false new_container) (b ∷ s)
      (parse_header (search_section header_tag (b ∷ s)) (initialize c)) n)

pub nested_data-Refuses :
    (s : Bytes) (r : Outcome) (c : ValueContainer)
    → r ≡ returned c false
    → nested_data s r ≡ parsed monostate
nested_data-Refuses [] r c e = refl
nested_data-Refuses (b ∷ s) r c e = rw e refl

-- A value of container type is null.
parse_data-Refuses :
    (lib : FloatText) (nested : Bytes → Outcome) (t : ValueTypes) (s : Bytes)
    → Refuses nested s
    → parse_data lib nested t s ≡ parse_data lib refuse t s
unfolding parse_data
parse_data-Refuses lib nested null_value s n = refl
parse_data-Refuses lib nested bool_value s n = refl
parse_data-Refuses lib nested short_value s n = refl
parse_data-Refuses lib nested ushort_value s n = refl
parse_data-Refuses lib nested int_value s n = refl
parse_data-Refuses lib nested uint_value s n = refl
parse_data-Refuses lib nested long_value s n = refl
parse_data-Refuses lib nested ulong_value s n = refl
parse_data-Refuses lib nested llong_value s n = refl
parse_data-Refuses lib nested ullong_value s n = refl
parse_data-Refuses lib nested float_value s n = refl
parse_data-Refuses lib nested double_value s n = refl
parse_data-Refuses lib nested string_value s n = refl
parse_data-Refuses lib nested bytes_value s n = refl
parse_data-Refuses lib nested container_value s n =
    nested_data-Refuses s (nested s) n.0 n.1
    ∙ sym (nested_data-Refuses s (refuse s) new_container refl)
parse_data-Refuses lib nested array_value s n = refl

push_parsed-same :
    (it : Item) (p : Parsed) (c : ValueContainer) (k k' : ValueContainer → Outcome)
    → ((c' : ValueContainer) → k c' ≡ k' c')
    → push_parsed it p c k ≡ push_parsed it p c k'
push_parsed-same it (parsed d) (value_container h s us) k k' e = e _
push_parsed-same it (raised w) c k k' e = refl
push_parsed-same it no_fuel c k k' e = refl

push_items-Refuses :
    (lib : FloatText) (fuel : ℕ) (items : List Item) (c : ValueContainer)
    → AllInert items
    → push_items lib (λ s. deserialize lib (suc fuel) s false new_container) items c
      ≡ push_items lib refuse items c
unfolding push_items
push_items-Refuses lib fuel [] c n = refl
push_items-Refuses lib fuel (it ∷ items) c n =
    rw
      (parse_data-Refuses lib (λ s. deserialize lib (suc fuel) s false new_container)
        (get_type_from_string it.item_type) it.item_text
        (deserialize-Inert lib fuel it.item_text new_container n.0))
      (push_parsed-same it _ c _ _ λ c'. push_items-Refuses lib fuel items c' n.1)

data_tag-NoBrace : NoBrace data_tag
data_tag-NoBrace = (refl, (refl, (refl, (refl, (refl, (refl, tt))))))

section-Refuses :
    (lib : FloatText) (fuel : ℕ) (b : Bool) (h : Header) (st : Status) (s : Bytes)
    (o : Option (Bytes × Bytes))
    → search_section data_tag s ≡ o
    → parse_section lib (λ t. deserialize lib (suc fuel) t false new_container) b h st o
      ≡ parse_section lib refuse b h st o
unfolding find_items
section-Refuses lib fuel b h st s none e = refl
section-Refuses lib fuel true h st s (some (text, inside)) e = refl
section-Refuses lib fuel false h st s (some (text, inside)) e =
    push_items-Refuses lib fuel (find_items text) _ (
      find_all-AllInert 0 text
        (search_section-EndsAtMark data_tag s text inside data_tag-NoBrace e))

pub values_with-Refuses :
    (lib : FloatText) (fuel : ℕ) (s : Bytes) (b : Bool) (c : ValueContainer)
    → values_with lib (λ t. deserialize lib (suc fuel) t false new_container) s b c
      ≡ values_with lib refuse s b c
unfolding values_with
values_with-Refuses lib fuel s b (value_container h st us) =
    section-Refuses lib fuel b h st s (search_section data_tag s) refl

-- Two levels of fuel give what the call gives when every nested call refuses.
pub deserialize-refuse :
    (lib : FloatText) (fuel : ℕ) (s : Bytes) (b : Bool) (c : ValueContainer)
    → deserialize lib (suc (suc fuel)) s b c ≡ text_with lib refuse s b c
unfolding deserialize text_with
deserialize-refuse lib fuel [] b c = refl
deserialize-refuse lib fuel (a ∷ s) b c =
    values_with-Refuses lib fuel (remove_newlines (a ∷ s)) b
      (parse_header (search_section header_tag (remove_newlines (a ∷ s))) (initialize c))
