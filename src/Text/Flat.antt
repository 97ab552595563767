-- ===== src/Text/Flat.antt =====
-- What value_container::deserialize of core/container.cpp leaves.
use container_system.Base.{
  ℕ, suc, ◌≡◌, refl, sym, ◌∙◌, Bool, true, false, Option, none, some, List, [], ◌∷◌, Bytes,
}
use container_system.Value.{
  ValueTypes, null_value, bool_value, short_value, ushort_value, int_value, uint_value, long_value,
  ulong_value, llong_value, ullong_value, float_value, double_value, string_value, bytes_value,
  container_value, array_value, Header, Status, ValueContainer, value_container, container,
  ValueVariant, Units, unit, optimized_value, get_type_from_string, no_units,
}
use container_system.Container.{new_container, initialize, clear_value, units_of}
use container_system.Container.Storage.{append_unit}
use container_system.Text.Numbers.{stoi, stol, stoll, stoul, stoull}
use container_system.Text.{Item, search_section, find_items}
use container_system.Text.Write.{FloatText}
use container_system.Text.Read.{
  Outcome, returned, threw, out_of_fuel, Parsed, parsed, raised, no_fuel, parse_data, or_raise,
  push_parsed, push_items, parse_section, data_tag, values_with, text_with, deserialize,
}
use container_system.Text.Nested.{refuse, nested_data-Refuses, deserialize-refuse}

abbrev pub NotNested : ValueVariant → Type 0
NotNested (container c) = ⊥
NotNested d = Unit

abbrev pub NoneNested : Units → Type 0
NoneNested no_units = Unit
NoneNested (unit (optimized_value n t d) us) = NotNested d × NoneNested us

-- The call returns or throws, and leaves no value that is a nested container.
abbrev pub EndsFlat : Outcome → Type 0
EndsFlat (returned c b) = NoneNested (units_of c)
EndsFlat (threw c w) = NoneNested (units_of c)
EndsFlat out_of_fuel = ⊥

append_unit-NoneNested :
    (us : Units) (n : Bytes) (t : ValueTypes) (d : ValueVariant)
    → NoneNested us
    → NotNested d
    → NoneNested (append_unit us (optimized_value n t d))
unfolding append_unit
append_unit-NoneNested no_units n t d h g = (g, tt)
append_unit-NoneNested (unit (optimized_value m u x) us) n t d h g =
    (h.0, append_unit-NoneNested us n t d h.1 g)

abbrev ParsedFlat : Parsed → Type 0
ParsedFlat (parsed d) = NotNested d
ParsedFlat (raised w) = Unit
ParsedFlat no_fuel = ⊥

or_raise-ParsedFlat :
    {A : Type 0} (lib : FloatText) (reader : Bytes) (o : Option A) (k : A → ValueVariant)
    → ((x : A) → NotNested (k x))
    → ParsedFlat (or_raise lib reader o k)
or_raise-ParsedFlat lib reader none k h = tt
or_raise-ParsedFlat lib reader (some x) k h = h x

parse_data-ParsedFlat :
    (lib : FloatText) (t : ValueTypes) (s : Bytes) → ParsedFlat (parse_data lib refuse t s)
unfolding parse_data
parse_data-ParsedFlat lib null_value s = tt
parse_data-ParsedFlat lib bool_value s = tt
parse_data-ParsedFlat lib short_value s = or_raise-ParsedFlat lib _ (stoi s) _ λ x. tt
parse_data-ParsedFlat lib ushort_value s = or_raise-ParsedFlat lib _ (stoul s) _ λ x. tt
parse_data-ParsedFlat lib int_value s = or_raise-ParsedFlat lib _ (stoi s) _ λ x. tt
parse_data-ParsedFlat lib uint_value s = or_raise-ParsedFlat lib _ (stoul s) _ λ x. tt
parse_data-ParsedFlat lib long_value s = or_raise-ParsedFlat lib _ (stol s) _ λ x. tt
parse_data-ParsedFlat lib ulong_value s = or_raise-ParsedFlat lib _ (stoul s) _ λ x. tt
parse_data-ParsedFlat lib llong_value s = or_raise-ParsedFlat lib _ (stoll s) _ λ x. tt
parse_data-ParsedFlat lib ullong_value s = or_raise-ParsedFlat lib _ (stoull s) _ λ x. tt
parse_data-ParsedFlat lib float_value s = or_raise-ParsedFlat lib _ (lib.read_float s) _ λ x. tt
parse_data-ParsedFlat lib double_value s = or_raise-ParsedFlat lib _ (lib.read_double s) _ λ x. tt
parse_data-ParsedFlat lib string_value s = tt
parse_data-ParsedFlat lib bytes_value s = tt
parse_data-ParsedFlat lib container_value s =
    rw (nested_data-Refuses s (refuse s) new_container refl) tt
parse_data-ParsedFlat lib array_value s = tt

push_parsed-EndsFlat :
    (it : Item) (p : Parsed) (c : ValueContainer) (k : ValueContainer → Outcome)
    → ParsedFlat p
    → NoneNested (units_of c)
    → ((c' : ValueContainer) → NoneNested (units_of c') → EndsFlat (k c'))
    → EndsFlat (push_parsed it p c k)
push_parsed-EndsFlat it (parsed d) (value_container h s us) k p n e =
    e _ (append_unit-NoneNested us _ _ d n p)
push_parsed-EndsFlat it (raised w) c k p n e = n
push_parsed-EndsFlat it no_fuel c k p n e = p

push_items-EndsFlat :
    (lib : FloatText) (items : List Item) (c : ValueContainer)
    → NoneNested (units_of c)
    → EndsFlat (push_items lib refuse items c)
unfolding push_items
push_items-EndsFlat lib [] c n = n
push_items-EndsFlat lib (it ∷ items) c n =
    push_parsed-EndsFlat it _ c _
      (parse_data-ParsedFlat lib (get_type_from_string it.item_type) it.item_text) n
      λ c' n'. push_items-EndsFlat lib items c' n'

section-EndsFlat :
    (lib : FloatText) (b : Bool) (h : Header) (st : Status) (o : Option (Bytes × Bytes))
    → EndsFlat (parse_section lib refuse b h st o)
section-EndsFlat lib b h st none = tt
section-EndsFlat lib true h st (some (text, inside)) = tt
section-EndsFlat lib false h st (some (text, inside)) =
    push_items-EndsFlat lib (find_items text) _ tt

values_with-EndsFlat :
    (lib : FloatText) (s : Bytes) (b : Bool) (c : ValueContainer)
    → EndsFlat (values_with lib refuse s b c)
unfolding values_with
values_with-EndsFlat lib s b (value_container h st us) =
    section-EndsFlat lib b h st (search_section data_tag s)

text_with-EndsFlat :
    (lib : FloatText) (s : Bytes) (b : Bool) (c : ValueContainer)
    → EndsFlat (text_with lib refuse s b c)
unfolding text_with initialize clear_value
text_with-EndsFlat lib [] b (value_container h st us) = tt
text_with-EndsFlat lib (a ∷ s) b c = values_with-EndsFlat lib _ b _

-- Reading any text with two levels of fuel or more returns or throws, with the same outcome for every
-- such fuel, and the container that it leaves holds no nested container.
pub deserialize-EndsFlat :
    (lib : FloatText) (fuel : ℕ) (s : Bytes) (b : Bool) (c : ValueContainer)
    → (deserialize lib (suc (suc fuel)) s b c ≡ deserialize lib 2 s b c)
      × EndsFlat (deserialize lib (suc (suc fuel)) s b c)
deserialize-EndsFlat lib fuel s b c = (
  deserialize-refuse lib fuel s b c ∙ sym (deserialize-refuse lib 0 s b c),
  rw (deserialize-refuse lib fuel s b c) (text_with-EndsFlat lib s b c),
)
