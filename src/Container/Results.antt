-- ===== src/Container/Results.antt =====
-- The operations of core/container.cpp and include/kcenon/container/container.h that report errors as values. The
-- allocations that they catch failures of do not fail here.
use container_system.Base.{
  ℕ, ◌≡◌, refl, ◌∙◌, sym, ap, Bool, ◌⊎◌, inl, inr, if◌then◌else◌, ◌===◌, ===_iff, Bool-cases, arith,
  true, false, Option, none, some, List, [], ◌∷◌, Bytes, codes, ===_refl, map,
}
use container_system.Base.Int.{ℤ}
use container_system.ErrorCodes.{key_not_found, empty_key, make_message}
use container_system.Value.{
  ValueTypes, ValueVariant, OptimizedValue, optimized_value, ValueContainer, value_container, index,
  Units, no_units, unit, name_of,
}
use container_system.Container.Join.{join}
use container_system.Container.{
  units_of, get, contains, get_batch, contains_batch, set_unit_impl, set_all,
}
use container_system.Container.Storage.{find_unit}
use container_system.Container.Lookup.{is_there, get-set_unit_impl, contains-get, batches}

-- kcenon::common::error_info: the code, the message and the module
pub record ErrorInfo : Type 0 where
  pub code : ℤ
  pub message : Bytes
  pub reporter : Bytes

-- kcenon::common::Result
pub data Result {ℓ} (A : Type ℓ) : Type ℓ where
  ok : A → Result A
  error : ErrorInfo → Result A

abbrev pub container_error : ℤ → Bytes → ErrorInfo
container_error c detail = record {
  code = c;
  message = make_message c detail;
  reporter = codes "container_system";
}

-- What a lookup of the key returns as a result.
abbrev found_result : Bytes → Option OptimizedValue → Result OptimizedValue
found_result key (some val) = ok val
found_result key none = error (container_error key_not_found key)

-- The loop of `get_result` and what follows it.
unfoldable pub find_result : Bytes → Units → Result OptimizedValue
find_result key no_units = error (container_error key_not_found key)
find_result key (unit val us) = if name_of val === key then ok val else find_result key us

unfoldable pub get_result : Bytes → ValueContainer → Result OptimizedValue
get_result key (value_container h s us) = find_result key us

-- The container that the call leaves, and its result.
unfoldable pub set_result : OptimizedValue → ValueContainer → ValueContainer × Result (Unit {0})
set_result (optimized_value [] t d) c = (c, error (container_error empty_key []))
set_result (optimized_value (b ∷ name) t d) c =
    (set_unit_impl (optimized_value (b ∷ name) t d) c, ok tt)

unfoldable pub set_typed_result :
    Bytes → ValueVariant → ValueContainer → ValueContainer × Result (Unit {0})
set_typed_result [] data_val c = (c, error (container_error empty_key []))
set_typed_result (b ∷ key) data_val c =
    (set_unit_impl (optimized_value (b ∷ key) (index data_val) data_val) c, ok tt)

unfoldable pub set_all_result :
    List OptimizedValue → ValueContainer → ValueContainer × Result (Unit {0})
set_all_result [] c = (c, ok tt)
set_all_result (optimized_value [] t d ∷ vals) c = (c, error (container_error empty_key []))
set_all_result (optimized_value (b ∷ name) t d ∷ vals) c =
    set_all_result vals (set_unit_impl (optimized_value (b ∷ name) t d) c)

-- The values before the first one without a name, and whether there is such a one.
abbrev pub before_nameless : List OptimizedValue → List OptimizedValue
before_nameless [] = []
before_nameless (optimized_value [] t d ∷ vals) = []
before_nameless (optimized_value (b ∷ name) t d ∷ vals) =
    optimized_value (b ∷ name) t d ∷ before_nameless vals

abbrev pub outcome_of : List OptimizedValue → Result (Unit {0})
outcome_of [] = ok tt
outcome_of (optimized_value [] t d ∷ vals) = error (container_error empty_key [])
outcome_of (optimized_value (b ∷ name) t d ∷ vals) = outcome_of vals

-- `set_all_result` sets, as `set_all` would, the values before the first one without a name. It
-- reports an empty key if there is such a one, and then keeps what it has set.
pub set_all_result-set_all :
    (vals : List OptimizedValue) (c : ValueContainer)
    → set_all_result vals c ≡ (set_all (before_nameless vals) c, outcome_of vals)
unfolding set_all_result set_all
set_all_result-set_all [] c = refl
set_all_result-set_all (optimized_value [] t d ∷ vals) c = refl
set_all_result-set_all (optimized_value (b ∷ name) t d ∷ vals) c =
    set_all_result-set_all vals (set_unit_impl (optimized_value (b ∷ name) t d) c)

abbrev pub is_ok {ℓ} : {A : Type ℓ} → Result A → Bool
is_ok (ok a) = true
is_ok (error e) = false

is_ok-found_result :
    (key : Bytes) (o : Option OptimizedValue) → is_ok (found_result key o) ≡ is_there o
is_ok-found_result key none = refl
is_ok-found_result key (some val) = refl

find_result-found_result :
    (key : Bytes) (us : Units) → find_result key us ≡ found_result key (find_unit key us)
unfolding find_result find_unit
find_result-found_result key no_units = refl
find_result-found_result key (unit val us) = elim (Bool-cases (name_of val === key)) [
  | inl e ↦ rw e refl
  | inr e ↦ rw e (find_result-found_result key us)
]

-- `get_result` succeeds exactly for the keys that the container has.
pub get_result-contains :
    (key : Bytes) (c : ValueContainer) → is_ok (get_result key c) ≡ contains key c
unfolding get_result get
get_result-contains key (value_container h s us) =
    ap is_ok (find_result-found_result key us)
    ∙ is_ok-found_result key (find_unit key us)
    ∙ sym (contains-get key (value_container h s us))

get_result-get :
    (key : Bytes) (c : ValueContainer) → get_result key c ≡ found_result key (get key c)
unfolding get_result get
get_result-get key (value_container h s us) = find_result-found_result key us

-- After `set_result` of a value that has a name, `get_result` gives that value.
pub get_result-set_result :
    (b : ℕ) (name : Bytes) (t : ValueTypes) (d : ValueVariant) (c : ValueContainer)
    → get_result (b ∷ name) (set_result (optimized_value (b ∷ name) t d) c).0
      ≡ ok (optimized_value (b ∷ name) t d)
unfolding set_result
get_result-set_result b name t d c =
    let val : OptimizedValue = optimized_value (b ∷ name) t d in
    get_result-get (b ∷ name) (set_unit_impl val c)
    ∙ rw (get-set_unit_impl (b ∷ name) val c) (rw (===_refl (b ∷ name)) refl)

-- No value of the name.
abbrev pub Lacks : Bytes → Units → Type 0
Lacks key no_units = Unit
Lacks key (unit val us) = ((name_of val ≡ key) → ⊥) × Lacks key us

-- The value is one of the name, and none in front of it is.
abbrev pub IsFirst : Bytes → OptimizedValue → Units → Type 0
IsFirst key val us =
    (before after : Units) × (us ≡ join before (unit val after))
    × (name_of val ≡ key)
    × Lacks key before

-- What the three lookups of a key answer, given the first value of that name or that there is none.
abbrev pub Answers : Bytes → ValueContainer → Type 0
Answers key c =
    ((val : OptimizedValue) × IsFirst key val (units_of c)
      × (get key c ≡ some val)
      × (contains key c ≡ true)
      × (get_result key c ≡ ok val))
    ⊎ (Lacks key (units_of c)
        × (get key c ≡ none)
        × (contains key c ≡ false)
        × (get_result key c ≡ error (container_error key_not_found key)))

find_unit-IsFirst :
    (key : Bytes) (us : Units)
    → ((val : OptimizedValue) × (find_unit key us ≡ some val) × IsFirst key val us)
      ⊎ ((find_unit key us ≡ none) × Lacks key us)
unfolding find_unit join
find_unit-IsFirst key no_units = inr (refl, tt)
find_unit-IsFirst key (unit val us) = elim (Bool-cases (name_of val === key)) [
  | inl e ↦ inl (val, rw e refl, (no_units, us, refl, (===_iff (name_of val) key).0 e, tt))
  | inr e ↦
      let differs : (name_of val ≡ key) → ⊥ =
        λ f. absurd (ground (arith, (===_iff (name_of val) key).1 f)) in
      elim (find_unit-IsFirst key us) [
        | inl (found, f, (before, after, g, h, k)) ↦
            inl (found, rw e f, (unit val before, after, ap (unit val) g, h, (differs, k)))
        | inr (f, k) ↦ inr (rw e f, (differs, k))
      ]
]

lookup-Answers : (key : Bytes) (c : ValueContainer) → Answers key c
unfolding get get_result
lookup-Answers key (value_container h s us) =
    let c : ValueContainer = value_container h s us in
    elim (find_unit-IsFirst key us) [
      | inl (val, e, first) ↦ inl (
        val,
        first,
        e,
        contains-get key c ∙ ap is_there e,
        find_result-found_result key us ∙ ap (found_result key) e,
      )
      | inr (e, lacks) ↦ inr (
        lacks,
        e,
        contains-get key c ∙ ap is_there e,
        find_result-found_result key us ∙ ap (found_result key) e,
      )
    ]

-- If the container has a value of the name, then the first one is what `get` gives and `get_result` succeeds
-- with, and `contains` holds; if it has none, `get` gives nothing, `contains` does not hold and `get_result`
-- reports that the key was not found. The batch lookups give, in order, what the single ones give.
pub lookups :
    (key : Bytes) (keys : List Bytes) (c : ValueContainer)
    → Answers key c
      × (get_batch keys c ≡ map (λ k. get k c) keys)
      × (contains_batch keys c ≡ map (λ k. contains k c) keys)
lookups key keys c = let (g, n) = batches keys c in (lookup-Answers key c, g, n)
