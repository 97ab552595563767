-- ===== src/Text/Lazy.antt =====
-- Reading the header alone and parsing the values when they are needed (core/container.cpp).
use container_system.Base.{
  ℕ, suc, ◌≡◌, refl, sym, ap, ◌∙◌, true, false, Option, none, some, List, [], ◌∷◌, Bytes, codes,
}
use container_system.Value.{Header, Status, Units, no_units, ValueContainer, value_container}
use container_system.Text.{Item, search_section, find_items}
use container_system.Text.Write.{FloatText}
use container_system.Text.Again.{search_section-again}
use container_system.Text.Read.{
  Outcome, Parsed, parsed, raised, no_fuel, push_parsed, push_items, parse_section, data_tag,
  values_with, text_with, deserialize, deserialize_values,
}
use container_system.Text.Nested.{refuse, values_with-Refuses, deserialize-refuse}
use container_system.Text.Calls.{Called, done, with_values, after_values, remove_batch, erase_keys}

module _ {ℓ} {A : Type ℓ} (lib : FloatText) (fuel : ℕ) (k : ValueContainer → Called A) where
  parsed-with_values :
      (h : Header) (s : Status) (us : Units)
      → s.parsed_data ≡ true
      → with_values lib fuel (value_container h s us) k ≡ k (value_container h s us)
  unfolding with_values
  parsed-with_values h s us e = rw e refl

  push_parsed-parsed :
      (it : Item) (p : Parsed) (h : Header) (s : Status) (us : Units) (f : ValueContainer → Outcome)
      → ((us' : Units)
          → after_values (f (value_container h s us')) (λ c. with_values lib fuel c k)
            ≡ after_values (f (value_container h s us')) k)
      → after_values (push_parsed it p (value_container h s us) f) (λ c. with_values lib fuel c k)
        ≡ after_values (push_parsed it p (value_container h s us) f) k
  push_parsed-parsed it (parsed d) h s us f e = e _
  push_parsed-parsed it (raised w) h s us f e = refl
  push_parsed-parsed it no_fuel h s us f e = refl

  -- The loop over the items keeps the flag.
  push_items-parsed :
      (items : List Item) (h : Header) (s : Status) (us : Units)
      → s.parsed_data ≡ true
      → after_values
          (push_items lib refuse items (value_container h s us))
          (λ c. with_values lib fuel c k)
        ≡ after_values (push_items lib refuse items (value_container h s us)) k
  unfolding push_items
  push_items-parsed [] h s us e = parsed-with_values h s us e
  push_items-parsed (it ∷ items) h s us e =
      push_parsed-parsed it _ h s us (push_items lib refuse items)
        λ us'. push_items-parsed items h s us' e

values_with-found :
    (lib : FloatText) (text inside : Bytes) (h : Header) (s : Status) (us : Units)
    → search_section data_tag text ≡ some (text, inside)
    → values_with lib refuse text false (value_container h s us)
      ≡ push_items lib refuse (find_items text) (
          value_container h
            (record s { parsed_data = true; changed_data = false; data_string = text })
            no_units)
unfolding values_with
values_with-found lib text inside h s us e = ap (parse_section lib refuse false h s) e

module _ {ℓ} {A : Type ℓ} (lib : FloatText) (fuel : ℕ) (k : ValueContainer → Called A) where
  -- A section that was found, parsed later and at once.
  section-lazy :
      (text : Bytes) (h : Header) (s : Status) (o : Option (Bytes × Bytes))
      → search_section data_tag text ≡ o
      → after_values (parse_section lib refuse true h s o) (λ c. with_values lib (suc fuel) c k)
        ≡ after_values (parse_section lib refuse false h s o) (λ c. with_values lib (suc fuel) c k)
  unfolding with_values deserialize_values
  section-lazy text h s none e = refl
  section-lazy text h s (some (found, inside)) e =
      let c : ValueContainer =
        value_container h
          (record s { parsed_data = false; changed_data = false; data_string = found }) no_units in
      ap (λ r. after_values r k) (values_with-Refuses lib fuel found false c)
      ∙ ap (λ r. after_values r k)
          (values_with-found lib found inside h
            (record s { parsed_data = false; changed_data = false; data_string = found }) no_units
            (search_section-again b'@' (codes "data=") text found inside e))
      ∙ sym (push_items-parsed lib (suc fuel) k (find_items found) h _ no_units refl)

  values_with-lazy :
      (text : Bytes) (c : ValueContainer)
      → after_values (values_with lib refuse text true c) (λ c'. with_values lib (suc fuel) c' k)
        ≡ after_values (values_with lib refuse text false c) (λ c'. with_values lib (suc fuel) c' k)
  unfolding values_with
  values_with-lazy text (value_container h s us) =
      section-lazy text h s (search_section data_tag text) refl

  text_with-lazy :
      (text : Bytes) (c : ValueContainer)
      → after_values (text_with lib refuse text true c) (λ c'. with_values lib (suc fuel) c' k)
        ≡ after_values (text_with lib refuse text false c) (λ c'. with_values lib (suc fuel) c' k)
  unfolding text_with
  text_with-lazy [] c = refl
  text_with-lazy (b ∷ text) c = values_with-lazy _ _

  deserialize-lazy :
      (text : Bytes) (c : ValueContainer)
      → after_values
          (deserialize lib (suc (suc fuel)) text true c)
          (λ c'. with_values lib (suc fuel) c' k)
        ≡ after_values
            (deserialize lib (suc (suc fuel)) text false c)
            (λ c'. with_values lib (suc fuel) c' k)
  deserialize-lazy text c =
      rw (deserialize-refuse lib fuel text true c, deserialize-refuse lib fuel text false c)
        (text_with-lazy text c)

-- Reading the header of a text alone and then removing values by one key or more has the outcome of
-- reading all of the text and then removing them: the container that is left, the number of removed
-- values, or the exception of a number that cannot be read.
pub remove_batch-lazy :
    (lib : FloatText) (fuel : ℕ) (text key : Bytes) (keys : List Bytes) (c : ValueContainer)
    → after_values
        (deserialize lib (suc (suc fuel)) text true c)
        (remove_batch lib (suc fuel) (key ∷ keys))
      ≡ after_values
          (deserialize lib (suc (suc fuel)) text false c)
          (remove_batch lib (suc fuel) (key ∷ keys))
unfolding remove_batch
remove_batch-lazy lib fuel text key keys c =
    deserialize-lazy lib fuel
      (λ c'. let erased = erase_keys (key ∷ keys) c' in done erased.0 erased.1) text c
