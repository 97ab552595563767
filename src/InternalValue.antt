-- ===== src/InternalValue.antt =====
-- The binary form of class value (internal/value.cpp), on a platform whose int64_t is `long`, with the
-- least significant byte first. A container inside a value is of any type `C` with a binary form of its
-- own; the values are trees, so that no container holds itself. What the allocation of a huge array may
-- throw is not modelled. An element that is written back in more bytes than are left leaves none here;
-- the source then reads outside the data.
pub mod Words
pub mod Normal
pub mod RoundTrip
mod Examples
use container_system.Base.{
  ℕ, zero, suc, ◌+◌, ◌*◌, ◌/◌, ◌%◌, ◌^◌, Bool, true, false, Option, none, some, Bytes, [], ◌∷◌,
  ◌++◌, ◌==◌, get_elem?, not, ltb, if◌then◌else◌, length, take, drop,
}
use container_system.Base.Int.{ℤ, to_unsigned, to_signed}
use container_system.Value.{
  ValueTypes, null_value, bool_value, short_value, ushort_value, int_value, uint_value, long_value,
  ulong_value, llong_value, ullong_value, float_value, double_value, string_value, bytes_value,
  container_value, array_value, type_code,
}

mutual
  -- using ValueVariant = std::variant<...>
  pub data Data (C : Type 0) : Type 0 where
    monostate : Data C
    bool : Bool → Data C
    short int long llong : ℤ → Data C
    ushort uint ulong ullong : ℕ → Data C
    float double : ℕ → Data C
    string bytes : Bytes → Data C
    container : Option C → Data C
    array : Elements C → Data C

  -- struct array_variant, whose pointers may be null
  pub data Elements (C : Type 0) : Type 0 where
    no_elements : Elements C
    null_element : Elements C → Elements C
    element : InternalValue C → Elements C → Elements C

  -- class value: the name and the data
  pub data InternalValue (C : Type 0) : Type 0 where
    internal_value : Bytes → Data C → InternalValue C

-- thread_safe_container::serialize and deserialize; `none` is an exception.
pub record ContainerCodec (C : Type 0) : Type 0 where
  pub write : C → Bytes
  pub read : Bytes → Option C

-- The bytes of a word in memory, and the word of bytes.
unfoldable pub word_bytes : ℕ → ℕ → Bytes
word_bytes zero n = []
word_bytes (suc k) n = (n % 256) ∷ word_bytes k (n / 256)

unfoldable pub word_of : Bytes → ℕ
word_of [] = 0
word_of (b ∷ s) = b + 256 * word_of s

-- value::type
unfoldable pub type_of : {C : Type 0} → Data C → ValueTypes
type_of monostate = null_value
type_of (bool x) = bool_value
type_of (short x) = short_value
type_of (ushort x) = ushort_value
type_of (int x) = int_value
type_of (uint x) = uint_value
type_of (long x) = long_value
type_of (ulong x) = ulong_value
type_of (llong x) = llong_value
type_of (ullong x) = ullong_value
type_of (float x) = float_value
type_of (double x) = double_value
type_of (string s) = string_value
type_of (bytes s) = bytes_value
type_of (container c) = container_value
type_of (array es) = array_value

-- A size of four bytes, and the bytes of that number.
abbrev pub sized : Bytes → Bytes
sized s = word_bytes 4 (length s % 2 ^ 32) ++ s

-- The name and the type in front of the data.
abbrev pub value_head : Bytes → ℕ → Bytes → Bytes
value_head name t s = word_bytes 4 (length name % 2 ^ 32) ++ (name ++ (t ∷ s))

abbrev pub count_elements : {C : Type 0} → Elements C → ℕ
count_elements no_elements = 0
count_elements (null_element es) = suc (count_elements es)
count_elements (element v es) = suc (count_elements es)

module _ {C : Type 0} (codec : ContainerCodec C) where
  unfoldable mutual
    unfolding type_of

    -- serialize_data
    pub serialize_data : Data C → Bytes
    serialize_data monostate = []
    serialize_data (bool x) = (if x then 1 else 0) ∷ []
    serialize_data (short x) = word_bytes 2 (to_unsigned (2 ^ 16) x)
    serialize_data (ushort x) = word_bytes 2 x
    serialize_data (int x) = word_bytes 4 (to_unsigned (2 ^ 32) x)
    serialize_data (uint x) = word_bytes 4 x
    serialize_data (long x) = word_bytes 8 (to_unsigned (2 ^ 64) x)
    serialize_data (ulong x) = word_bytes 8 x
    serialize_data (llong x) = word_bytes 8 (to_unsigned (2 ^ 64) x)
    serialize_data (ullong x) = word_bytes 8 x
    serialize_data (float x) = word_bytes 4 x
    serialize_data (double x) = word_bytes 8 x
    serialize_data (string s) = sized s
    serialize_data (bytes s) = sized s
    serialize_data (container none) = word_bytes 4 0
    serialize_data (container (some c)) = sized (codec.write c)
    serialize_data (array es) = word_bytes 4 (count_elements es % 2 ^ 32) ++ serialize_elements es

    pub serialize_elements : Elements C → Bytes
    serialize_elements no_elements = []
    serialize_elements (null_element es) =
        value_head [] (type_code null_value) [] ++ serialize_elements es
    serialize_elements (element v es) = serialize v ++ serialize_elements es

    -- serialize
    pub serialize : InternalValue C → Bytes
    serialize (internal_value name d) = value_head name (type_code (type_of d)) (serialize_data d)

-- The result of `deserialize_data`, of its loop over the elements, and of `deserialize`.
pub data Read {ℓ} (A : Type ℓ) : Type ℓ where
  present : A → Read A
  absent threw no_fuel : Read A

-- What follows `k` bytes as a word, where there are as many.
abbrev pub with_word : {C : Type 0} → ℕ → Bytes → (ℕ → Read (Data C)) → Read (Data C)
with_word k s f = if ltb (length s) k then absent else f (word_of (take k s))

-- What follows a size and as many bytes.
abbrev pub with_sized : {C : Type 0} → Bytes → (Bytes → Read (Data C)) → Read (Data C)
with_sized s f =
    let size = word_of (take 4 s) in
    if ltb (length s) 4
    then absent
    else if ltb (length s) (4 + size)
    then absent
    else f (take size (drop 4 s))

abbrev pub filled : {C : Type 0} → Read (Elements C) → Read (Data C)
filled (present es) = present (array es)
filled absent = absent
filled threw = threw
filled no_fuel = no_fuel

abbrev pub read_whole : {C : Type 0} → Option C → Read (Data C)
read_whole none = threw
read_whole (some c) = present (container (some c))

module _ {C : Type 0} (codec : ContainerCodec C) where
  abbrev pub pushed : InternalValue C → Read (Elements C) → Read (Elements C)
  pushed v (present es) = present (element v es)
  pushed v absent = absent
  pushed v threw = threw
  pushed v no_fuel = no_fuel

  -- The loop over the elements; `nested` is the call for an element.
  abbrev pub after_element :
      Bytes → Read (InternalValue C) → (Bytes → Read (Elements C)) → Read (Elements C)
  after_element s (present v) k = pushed v (k (drop (length (serialize codec v)) s))
  after_element s absent k = absent
  after_element s threw k = threw
  after_element s no_fuel k = no_fuel

  unfoldable pub read_elements : (Bytes → Read (InternalValue C)) → ℕ → Bytes → Read (Elements C)
  read_elements nested zero s = present no_elements
  read_elements nested (suc count) s =
      after_element s (nested s) λ rest. read_elements nested count rest

  abbrev pub read_container : Bytes → Read (Data C)
  read_container s =
      if word_of (take 4 s) == 0
      then with_word 4 s (λ size. present (container none))
      else with_sized s (λ t. read_whole (codec.read t))

  -- deserialize_data
  unfoldable pub deserialize_data :
      (Bytes → Read (InternalValue C)) → ValueTypes → Bytes → Read (Data C)
  deserialize_data nested null_value s = present monostate
  deserialize_data nested bool_value s = with_word 1 s λ x. present (bool (not (x == 0)))
  deserialize_data nested short_value s = with_word 2 s λ x. present (short (to_signed (2 ^ 16) x))
  deserialize_data nested ushort_value s = with_word 2 s λ x. present (ushort x)
  deserialize_data nested int_value s = with_word 4 s λ x. present (int (to_signed (2 ^ 32) x))
  deserialize_data nested uint_value s = with_word 4 s λ x. present (uint x)
  deserialize_data nested long_value s = with_word 8 s λ x. present (long (to_signed (2 ^ 64) x))
  deserialize_data nested ulong_value s = with_word 8 s λ x. present (ulong x)
  deserialize_data nested llong_value s = with_word 8 s λ x. present (long (to_signed (2 ^ 64) x))
  deserialize_data nested ullong_value s = with_word 8 s λ x. present (ulong x)
  deserialize_data nested float_value s = with_word 4 s λ x. present (float x)
  deserialize_data nested double_value s = with_word 8 s λ x. present (double x)
  deserialize_data nested string_value s = with_sized s λ t. present (string t)
  deserialize_data nested bytes_value s = with_sized s λ t. present (bytes t)
  deserialize_data nested container_value s = read_container s
  deserialize_data nested array_value s =
      with_word 4 s λ count. filled (read_elements nested count (drop 4 s))

-- The cast of the type byte, which is refused above 15.
unfoldable pub type_at : ℕ → Option ValueTypes
type_at n =
    get_elem?
      (null_value ∷ bool_value ∷ short_value ∷ ushort_value ∷ int_value ∷ uint_value ∷ long_value
        ∷ ulong_value ∷ llong_value ∷ ullong_value ∷ float_value ∷ double_value ∷ string_value
        ∷ bytes_value ∷ container_value ∷ array_value ∷ [])
      n

abbrev pub with_name : {C : Type 0} → Bytes → Read (Data C) → Read (InternalValue C)
with_name name (present d) = present (internal_value name d)
with_name name absent = absent
with_name name threw = threw
with_name name no_fuel = no_fuel

module _ {C : Type 0} (codec : ContainerCodec C) where
  abbrev pub typed_data :
      (Bytes → Read (InternalValue C)) → Bytes → Option ValueTypes → Bytes → Read (InternalValue C)
  typed_data nested name none s = absent
  typed_data nested name (some t) s = with_name name (deserialize_data codec nested t s)

  abbrev pub read_body : (Bytes → Read (InternalValue C)) → Bytes → Bytes → Read (InternalValue C)
  read_body nested name [] = absent
  read_body nested name (b ∷ s) = typed_data nested name (type_at b) s

  -- deserialize; the calls for elements are bounded by fuel.
  unfoldable pub deserialize : ℕ → Bytes → Read (InternalValue C)
  deserialize zero s = no_fuel
  deserialize (suc fuel) s =
      let name_len = word_of (take 4 s) in
      if ltb (length s) 5
      then absent
      else if ltb (length s) (4 + name_len + 1)
      then absent
      else read_body (λ t. deserialize fuel t) (take name_len (drop 4 s)) (drop (4 + name_len) s)
