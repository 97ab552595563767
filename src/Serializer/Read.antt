-- ===== src/Serializer/Read.antt =====
-- value_container::from_msgpack_impl of core/container.cpp. A nested container is probed by a call of
-- the function itself on fewer bytes; the calls are bounded by fuel. What the allocation of a huge
-- array may throw is not modelled.
use container_system.Base.{
  ℕ, zero, suc, ◌^◌, ◌-◌, Bool, true, false, Option, none, some, Bytes, [], ◌∷◌, codes, ◌===◌, leb,
  if◌then◌else◌, length,
}
use container_system.Base.Int.{ℤ, pos, negsuc, leb_ℤ}
use container_system.Value.{
  ValueTypes, null_value, bool_value, int_value, llong_value, float_value, double_value,
  string_value, bytes_value, container_value, array_value, Header, ValueVariant, monostate, bool,
  int, llong, float, double, string, bytes, container, array, Items, no_items, item,
  optimized_value, ValueContainer, value_container,
}
use container_system.Container.{new_container, initialize}
use container_system.Container.Storage.{append_unit}
use container_system.Msgpack.Format.{
  MsgpackType, nil_type, boolean, positive_int, negative_int, float32_type, float64_type, str, bin,
  array as array_type,
}
use container_system.Msgpack.Decoder.{
  MsgpackDecoder, new_decoder, Read, ret, fault, peek_type, read_nil, read_bool,
}
use container_system.Msgpack.Numbers.{read_int, read_float, read_double}
use container_system.Msgpack.Payloads.{read_string, read_binary, read_array_header, read_map_header}

-- A call returns the container that it leaves and its result. `outside` is a read outside the data,
-- and `out_of_fuel` is no result of the code.
pub data Outcome : Type 0 where
  returned : ValueContainer → Bool → Outcome
  outside out_of_fuel : Outcome

-- A stretch of the function: it goes on, or it has returned false with the container as it is.
pub data Step : Type 0 where
  go_on : ValueContainer → MsgpackDecoder → Step
  failed : ValueContainer → Step
  step_outside step_out_of_fuel : Step

-- The reading of one value.
pub data Decoded : Type 0 where
  decoded : ValueTypes → ValueVariant → MsgpackDecoder → Decoded
  rejected value_outside value_out_of_fuel : Decoded

-- The reading of the elements of an array.
pub data Elements : Type 0 where
  elements : Items → MsgpackDecoder → Elements
  elements_outside : Elements

-- `auto x = ...; if (!x) return false;`
abbrev pub or_fail {ℓ} : {A : Type ℓ} → Read A → ValueContainer → (A → MsgpackDecoder → Step) → Step
or_fail (ret none d) c k = failed c
or_fail (ret (some a) d) c k = k a d
or_fail fault c k = step_outside

abbrev pub or_reject {ℓ} : {A : Type ℓ} → Read A → (A → MsgpackDecoder → Decoded) → Decoded
or_reject (ret none d) k = rejected
or_reject (ret (some a) d) k = k a d
or_reject fault k = value_outside

-- `if (auto x = ...) elem_data = *x;`
abbrev pub or_keep {ℓ} :
    {A : Type ℓ}
    → Read A
    → (A → ValueVariant)
    → (ValueVariant → MsgpackDecoder → Elements)
    → Elements
or_keep (ret none d) f k = k monostate d
or_keep (ret (some a) d) f k = k (f a) d
or_keep fault f k = elements_outside

abbrev pub on_type {ℓ} : {A : Type ℓ} → A → Option MsgpackType → (MsgpackType → A) → A
on_type default none k = default
on_type default (some t) k = k t

-- The strings of the header; other keys are skipped.
unfoldable pub set_header_field : Bytes → Bytes → ValueContainer → ValueContainer
set_header_field hkey hval (value_container h s us) =
    let h' : Header =
      if hkey === codes "target_id"
      then record h { target_id = hval }
      else if hkey === codes "target_sub_id"
      then record h { target_sub_id = hval }
      else if hkey === codes "source_id"
      then record h { source_id = hval }
      else if hkey === codes "source_sub_id"
      then record h { source_sub_id = hval }
      else if hkey === codes "message_type"
      then record h { message_type = hval }
      else if hkey === codes "version"
      then record h { version = hval }
      else h in
    value_container h' s us

unfoldable pub header_entries : ℕ → ValueContainer → MsgpackDecoder → Step
header_entries zero c d = go_on c d
header_entries (suc n) c d = or_fail (read_string d) c λ hkey d1.
    or_fail (read_string d1) c λ hval d2. header_entries n (set_header_field hkey hval c) d2

-- The type of an integer by its size.
unfoldable pub int_type : ℤ → ValueTypes
int_type n =
    if leb_ℤ (pos 0) n
    then (if leb_ℤ n (pos (2 ^ 31 - 1)) then int_value else llong_value)
    else if leb_ℤ (negsuc (2 ^ 31 - 1)) n
    then int_value
    else llong_value

abbrev pub int_variant : ValueTypes → ℤ → ValueVariant
int_variant int_value n = int n
int_variant _ n = llong n

-- The result of the probe: a nested container, or the bytes as they are.
abbrev pub probed : Bytes → MsgpackDecoder → Outcome → Decoded
probed b d (returned c true) = decoded container_value (container c) d
probed b d (returned c false) = decoded bytes_value (bytes b) d
probed b d outside = value_outside
probed b d out_of_fuel = value_out_of_fuel

-- `decoder.read_nil()`, its result left aside.
abbrev pub ignore_nil : Read (Unit {0}) → Decoded
ignore_nil (ret o d) = decoded null_value monostate d
ignore_nil fault = value_outside

abbrev pub finish_array : Elements → Decoded
finish_array (elements ds d) = decoded array_value (array ds) d
finish_array elements_outside = value_outside

abbrev pub finish_call : Step → Outcome
finish_call (go_on (value_container h s us) d) =
    returned (value_container h (record s { parsed_data = true; changed_data = false }) us) true
finish_call (failed c) = returned c false
finish_call step_outside = outside
finish_call step_out_of_fuel = out_of_fuel

abbrev pub push_decoded :
    Bytes → ValueContainer → Decoded → (ValueContainer → MsgpackDecoder → Step) → Step
push_decoded key (value_container h s us) (decoded t v d) k =
    k (value_container h s (append_unit us (optimized_value key t v))) d
push_decoded key c rejected k = failed c
push_decoded key c value_outside k = step_outside
push_decoded key c value_out_of_fuel k = step_out_of_fuel

abbrev pub then_step : Step → (ValueContainer → MsgpackDecoder → Step) → Step
then_step (go_on c d) k = k c d
then_step (failed c) k = failed c
then_step step_outside k = step_outside
then_step step_out_of_fuel k = step_out_of_fuel

abbrev pub push_item : ValueVariant → Elements → Elements
push_item v (elements ds d) = elements (item v ds) d
push_item v elements_outside = elements_outside

-- `widen` is the conversion of a float to a double, which `read_double` has.
module _ (widen : ℕ → ℕ) where
  -- The element that `elem_type` announces. A type that is not listed leaves the decoder where it is.
  unfoldable pub read_element :
      MsgpackType → MsgpackDecoder → (ValueVariant → MsgpackDecoder → Elements) → Elements
  read_element nil_type d k = or_keep (read_nil d) (λ _. monostate) k
  read_element boolean d k = or_keep (read_bool d) bool k
  read_element positive_int d k = or_keep (read_int d) llong k
  read_element negative_int d k = or_keep (read_int d) llong k
  read_element float32_type d k = or_keep (read_float d) float k
  read_element float64_type d k = or_keep (read_double widen d) double k
  read_element str d k = or_keep (read_string d) string k
  read_element bin d k = or_keep (read_binary d) bytes k
  read_element _ d k = k monostate d

  unfoldable pub read_elements : ℕ → MsgpackDecoder → Elements
  unfolding read_element
  read_elements zero d = elements no_items d
  read_elements (suc n) d =
      on_type elements_outside (peek_type d)
        λ elem_type. read_element elem_type d λ v d'. push_item v (read_elements n d')

  -- The value that `type` announces; `nested` is the call on the bytes of a nested container. A type
  -- that is not listed gives null and leaves the decoder where it is.
  unfoldable pub read_value : (Bytes → Outcome) → MsgpackType → MsgpackDecoder → Decoded
  unfolding read_elements int_type
  read_value nested nil_type d = ignore_nil (read_nil d)
  read_value nested boolean d = or_reject (read_bool d) λ b d'. decoded bool_value (bool b) d'
  read_value nested positive_int d =
      or_reject (read_int d) λ n d'. decoded (int_type n) (int_variant (int_type n) n) d'
  read_value nested negative_int d =
      or_reject (read_int d) λ n d'. decoded (int_type n) (int_variant (int_type n) n) d'
  read_value nested float32_type d =
      or_reject (read_float d) λ f d'. decoded float_value (float f) d'
  read_value nested float64_type d =
      or_reject (read_double widen d) λ f d'. decoded double_value (double f) d'
  read_value nested str d = or_reject (read_string d) λ s d'. decoded string_value (string s) d'
  read_value nested bin d =
      or_reject (read_binary d) λ b d'.
        if leb 2 (length b) then probed b d' (nested b) else decoded bytes_value (bytes b) d'
  read_value nested array_type d =
      or_reject (read_array_header d) λ n d'. finish_array (read_elements n d')
  read_value nested _ d = decoded null_value monostate d

  unfoldable pub value_entries : (Bytes → Outcome) → ℕ → ValueContainer → MsgpackDecoder → Step
  unfolding read_value
  value_entries nested zero c d = go_on c d
  value_entries nested (suc n) c d = or_fail (read_string d) c λ vkey d1.
      on_type step_outside (peek_type d1)
        λ type. push_decoded vkey c (read_value nested type d1) (value_entries nested n)

  -- One entry of the outer map.
  unfoldable pub outer_entry : (Bytes → Outcome) → Bytes → ValueContainer → MsgpackDecoder → Step
  unfolding header_entries value_entries
  outer_entry nested key c d =
      if key === codes "header"
      then or_fail (read_map_header d) c (λ n d'. header_entries n c d')
      else if key === codes "values"
      then or_fail (read_map_header d) c (λ n d'. value_entries nested n c d')
      else go_on c d

  unfoldable pub outer_entries : (Bytes → Outcome) → ℕ → ValueContainer → MsgpackDecoder → Step
  unfolding outer_entry
  outer_entries nested zero c d = go_on c d
  outer_entries nested (suc n) c d =
      or_fail (read_string d) c
        λ key d1. then_step (outer_entry nested key c d1) (outer_entries nested n)

  -- The body of the function, the nested calls given.
  unfoldable pub from_msgpack_body : (Bytes → Outcome) → Bytes → ValueContainer → Outcome
  unfolding outer_entries
  from_msgpack_body nested [] c = returned c false
  from_msgpack_body nested (b ∷ bs) c =
      let c1 = initialize c in
      finish_call
        (or_fail (read_map_header (new_decoder (b ∷ bs))) c1 λ n d. outer_entries nested n c1 d)

  unfoldable pub from_msgpack_impl : ℕ → Bytes → ValueContainer → Outcome
  unfolding from_msgpack_body
  from_msgpack_impl zero bytes_in c = out_of_fuel
  from_msgpack_impl (suc fuel) bytes_in c =
      from_msgpack_body (λ b. from_msgpack_impl fuel b new_container) bytes_in c
