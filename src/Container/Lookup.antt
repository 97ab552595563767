-- ===== src/Container/Lookup.antt =====
-- What `get` and `contains` of core/container.cpp see after the operations that change the values.
use container_system.Base.{
  ◌≡◌, refl, ◌∙◌, Bool, true, false, Option, none, some, Option-cases, inl, inr, List, [], ◌∷◌,
  Bytes, ◌===◌, ===_iff, if◌then◌else◌, map, arith,
}
use container_system.Value.{
  Status, Header, OptimizedValue, Units, no_units, unit, ValueContainer, value_container, name_of,
}
use container_system.Container.Storage.{
  find_unit, has_unit, find_found, has_found, replace_unit, append_unit,
}
use container_system.Container.{
  get, contains, get_batch, contains_batch, set_unit_impl, set_all, insert_each, bulk_insert,
  set_changed, count_allocation,
}

-- The first value that is there.
infixr 40 ◌or_else◌
abbrev pub ◌or_else◌ {ℓ} : {A : Type ℓ} → Option A → Option A → Option A
none or_else o = o
some a or_else o = some a

abbrev pub is_there {ℓ} : {A : Type ℓ} → Option A → Bool
is_there none = false
is_there (some a) = true

-- The first, and the last, value of that name in a list.
abbrev pub first_of_name : Bytes → List OptimizedValue → Option OptimizedValue
first_of_name key [] = none
first_of_name key (val ∷ vals) = if name_of val === key then some val else first_of_name key vals

abbrev pub last_of_name : Bytes → List OptimizedValue → Option OptimizedValue
last_of_name key [] = none
last_of_name key (val ∷ vals) =
    last_of_name key vals or_else (if name_of val === key then some val else none)

has_unit-find_unit : (key : Bytes) (us : Units) → has_unit key us ≡ is_there (find_unit key us)
unfolding has_unit find_unit
has_unit-find_unit key no_units = refl
has_unit-find_unit key (unit val us) = ground (arith, has_unit-find_unit key us)

find_unit-append_unit :
    (key : Bytes) (us : Units) (val : OptimizedValue)
    → find_unit key (append_unit us val)
      ≡ (find_unit key us or_else (if name_of val === key then some val else none))
unfolding find_unit append_unit
find_unit-append_unit key no_units val = refl
find_unit-append_unit key (unit x us) val = ground (arith, find_unit-append_unit key us val)

-- With no unit of the name nothing is replaced, and nothing is found.
replace_unit-none :
    (val : OptimizedValue) (us : Units)
    → replace_unit val us ≡ none
    → find_unit (name_of val) us ≡ none
unfolding find_unit replace_unit
replace_unit-none val no_units h = refl
replace_unit-none val (unit x us) h = ground (arith, replace_unit-none val us)

find_unit-replace_unit :
    (key : Bytes) (val : OptimizedValue) (us us' : Units)
    → replace_unit val us ≡ some us'
    → find_unit key us' ≡ (if name_of val === key then some val else find_unit key us)
unfolding find_unit replace_unit
find_unit-replace_unit key val no_units us' h = cc
find_unit-replace_unit key val (unit x us) us' h = elim (Option-cases (replace_unit val us)) [
  | inl absent ↦
      ground (
        arith,
        ===_iff (name_of x) (name_of val),
        ===_iff (name_of x) key,
        ===_iff (name_of val) key,
      )
  | inr (us2, there) ↦ ground (
    arith,
    ===_iff (name_of x) (name_of val),
    ===_iff (name_of x) key,
    ===_iff (name_of val) key,
    find_unit-replace_unit key val us us2 there,
  )
]

module _ (key : Bytes) (val : OptimizedValue) where
  -- After `set` the key of the value has the value, and every other key what it had.
  pub get-set_unit_impl :
      (c : ValueContainer)
      → get key (set_unit_impl val c) ≡ (if name_of val === key then some val else get key c)
  unfolding get set_unit_impl
  get-set_unit_impl (value_container h s us) = elim (Option-cases (replace_unit val us)) [
    | inl absent ↦
        rw (absent, find_unit-append_unit key us val)
          (ground (arith, replace_unit-none val us absent, ===_iff (name_of val) key))
    | inr (us', there) ↦ rw there (find_unit-replace_unit key val us us' there)
  ]

  get-insert_one :
      (h : Header) (s : Status) (us : Units)
      → get key (value_container h s (append_unit us val))
        ≡ (find_unit key us or_else (if name_of val === key then some val else none))
  unfolding get
  get-insert_one h s us = find_unit-append_unit key us val

or_else_assoc {ℓ} :
    {A : Type ℓ} (a b c : Option A) → ((a or_else b) or_else c) ≡ (a or_else (b or_else c))
or_else_assoc none b c = refl
or_else_assoc (some x) b c = refl

-- After `set_all` each key has the last value of that name in the list, or else what it had.
pub get-set_all :
    (key : Bytes) (vals : List OptimizedValue) (c : ValueContainer)
    → get key (set_all vals c) ≡ (last_of_name key vals or_else get key c)
unfolding set_all
get-set_all key [] c = refl
get-set_all key (val ∷ vals) c =
    get-set_all key vals (set_unit_impl val c)
    ∙ ground (
      arith,
      get-set_unit_impl key val c,
      or_else_assoc (last_of_name key vals) (if name_of val === key then some val else none)
          (get key c),
    )

get-insert_each :
    (key : Bytes) (vals : List OptimizedValue) (c : ValueContainer)
    → get key (insert_each vals c) ≡ (get key c or_else first_of_name key vals)
unfolding insert_each get
get-insert_each key [] (value_container h s us) = ground arith
get-insert_each key (val ∷ vals) (value_container h s us) = ground (
  arith,
  get-insert_each key vals (value_container h (count_allocation val s) (append_unit us val)),
  find_unit-append_unit key us val,
)

get-set_changed : (key : Bytes) (c : ValueContainer) → get key (set_changed c) ≡ get key c
unfolding get set_changed
get-set_changed key (value_container h s us) = refl

-- After `bulk_insert` each key keeps the value that it had, and a key that had none has the first
-- value of that name in the list.
pub get-bulk_insert :
    (key : Bytes) (vals : List OptimizedValue) (c : ValueContainer)
    → get key (bulk_insert vals c) ≡ (get key c or_else first_of_name key vals)
unfolding bulk_insert
get-bulk_insert key [] c = ground arith
get-bulk_insert key (val ∷ vals) c =
    get-set_changed key (insert_each (val ∷ vals) c) ∙ get-insert_each key (val ∷ vals) c

-- `contains` holds exactly for the keys for which `get` gives a value.
pub contains-get : (key : Bytes) (c : ValueContainer) → contains key c ≡ is_there (get key c)
unfolding contains get
contains-get key (value_container h s us) = has_unit-find_unit key us

find_found-find_unit : (key : Bytes) (us : Units) → find_found key us ≡ find_unit key us
unfolding find_found find_unit
find_found-find_unit key no_units = refl
find_found-find_unit key (unit val us) = ground (arith, find_found-find_unit key us)

has_found-has_unit : (key : Bytes) (us : Units) → has_found key us ≡ has_unit key us
unfolding has_found has_unit
has_found-has_unit key no_units = refl
has_found-has_unit key (unit val us) = ground (arith, has_found-has_unit key us)

-- The batch operations give, key by key and in order, what `get` and `contains` give.
pub batches :
    (keys : List Bytes) (c : ValueContainer)
    → (get_batch keys c ≡ map (λ key. get key c) keys)
      × (contains_batch keys c ≡ map (λ key. contains key c) keys)
unfolding get_batch contains_batch get contains
batches [] c = (refl, refl)
batches (key ∷ keys) (value_container h s us) =
    let (g, n) = batches keys (value_container h s us) in
    (rw (find_found-find_unit key us, g) refl, rw (has_found-has_unit key us, n) refl)
