-- ===== src/InternalValue/Normal.antt =====
-- The values that the binary form of internal/value.cpp keeps, and what it makes of them.
use container_system.Base.{
  ℕ, suc, ◌+◌, ◌%◌, ◌^◌, ◌<◌, ◌≡◌, refl, ap, none, some, Bytes, [], ◌∷◌, ◌++◌, length,
  length-append, arith,
}
use container_system.Base.Int.{InSigned}
use container_system.InternalValue.{
  Data, monostate, bool, short, ushort, int, uint, long, ulong, llong, ullong, float, double,
  string, bytes, container, array, Elements, no_elements, null_element, element, InternalValue,
  internal_value, ContainerCodec, word_bytes, value_head, count_elements, serialize_data,
  serialize_elements, serialize,
}

module _ {C : Type 0} (codec : ContainerCodec C) where
  unfoldable mutual
    -- Integers in the range of their type, sizes of fewer than 2 ^ 32, and containers that are read
    -- back from at least one byte.
    pub StorableData : Data C → Type 0
    StorableData monostate = Unit
    StorableData (bool x) = Unit
    StorableData (short x) = InSigned (2 ^ 16) x
    StorableData (ushort x) = x < 2 ^ 16
    StorableData (int x) = InSigned (2 ^ 32) x
    StorableData (uint x) = x < 2 ^ 32
    StorableData (long x) = InSigned (2 ^ 64) x
    StorableData (ulong x) = x < 2 ^ 64
    StorableData (llong x) = InSigned (2 ^ 64) x
    StorableData (ullong x) = x < 2 ^ 64
    StorableData (float x) = x < 2 ^ 32
    StorableData (double x) = x < 2 ^ 64
    StorableData (string s) = length s < 2 ^ 32
    StorableData (bytes s) = length s < 2 ^ 32
    StorableData (container none) = Unit
    StorableData (container (some c)) =
        (0 < length (codec.write c))
        × (length (codec.write c) < 2 ^ 32)
        × (codec.read (codec.write c) ≡ some c)
    StorableData (array es) = (count_elements es < 2 ^ 32) × StorableElements es

    pub StorableElements : Elements C → Type 0
    StorableElements no_elements = Unit
    StorableElements (null_element es) = StorableElements es
    StorableElements (element v es) = Storable v × StorableElements es

    pub Storable : InternalValue C → Type 0
    Storable (internal_value name d) = (length name < 2 ^ 32) × StorableData d

unfoldable mutual
  -- What comes back: a long long as a long, and a null element as a value without a name.
  pub normal_data : {C : Type 0} → Data C → Data C
  normal_data (llong x) = long x
  normal_data (ullong x) = ulong x
  normal_data (array es) = array (normal_elements es)
  normal_data d = d

  pub normal_elements : {C : Type 0} → Elements C → Elements C
  normal_elements no_elements = no_elements
  normal_elements (null_element es) = element (internal_value [] monostate) (normal_elements es)
  normal_elements (element v es) = element (normal v) (normal_elements es)

  pub normal : {C : Type 0} → InternalValue C → InternalValue C
  normal (internal_value name d) = internal_value name (normal_data d)

unfoldable mutual
  -- The arrays around and before a value.
  pub levels_data : {C : Type 0} → Data C → ℕ
  levels_data (array es) = suc (levels_elements es)
  levels_data d = 0

  pub levels_elements : {C : Type 0} → Elements C → ℕ
  levels_elements no_elements = 0
  levels_elements (null_element es) = levels_elements es
  levels_elements (element v es) = levels v + levels_elements es

  pub levels : {C : Type 0} → InternalValue C → ℕ
  levels (internal_value name d) = levels_data d

count-normal :
    {C : Type 0} (es : Elements C) → count_elements (normal_elements es) ≡ count_elements es
unfolding normal_elements
count-normal no_elements = refl
count-normal (null_element es) = ap suc (count-normal es)
count-normal (element v es) = ap suc (count-normal es)

length-value_head :
    (name s t : Bytes) (a b : ℕ)
    → length s ≡ length t
    → length (value_head name a s) ≡ length (value_head name b t)
length-value_head name s t a b e =
    let w : Bytes = word_bytes 4 (length name % 2 ^ 32) in
    omega (
      arith,
      e,
      length-append w (name ++ (a ∷ s)),
      length-append w (name ++ (b ∷ t)),
      length-append name (a ∷ s),
      length-append name (b ∷ t),
    )

module _ {C : Type 0} (codec : ContainerCodec C) where
  mutual
    unfolding normal_data serialize_data serialize

    length-normal_data :
        (d : Data C)
        → length (serialize_data codec (normal_data d)) ≡ length (serialize_data codec d)
    length-normal_data monostate = refl
    length-normal_data (bool x) = refl
    length-normal_data (short x) = refl
    length-normal_data (ushort x) = refl
    length-normal_data (int x) = refl
    length-normal_data (uint x) = refl
    length-normal_data (long x) = refl
    length-normal_data (ulong x) = refl
    length-normal_data (llong x) = refl
    length-normal_data (ullong x) = refl
    length-normal_data (float x) = refl
    length-normal_data (double x) = refl
    length-normal_data (string s) = refl
    length-normal_data (bytes s) = refl
    length-normal_data (container c) = refl
    length-normal_data (array es) =
        let w : Bytes = word_bytes 4 (count_elements es % 2 ^ 32) in
        rw (count-normal es) (
          omega (
            arith,
            length-append w (serialize_elements codec (normal_elements es)),
            length-append w (serialize_elements codec es),
            length-normal_elements es,
          ))

    length-normal_elements :
        (es : Elements C)
        → length (serialize_elements codec (normal_elements es))
          ≡ length (serialize_elements codec es)
    length-normal_elements no_elements = refl
    length-normal_elements (null_element es) =
        let h : Bytes = value_head [] 0 [] in
        omega (
          arith,
          length-append h (serialize_elements codec (normal_elements es)),
          length-append h (serialize_elements codec es),
          length-normal_elements es,
        )
    length-normal_elements (element v es) = omega (
      arith,
      length-append (serialize codec (normal v)) (serialize_elements codec (normal_elements es)),
      length-append (serialize codec v) (serialize_elements codec es),
      length-normal v,
      length-normal_elements es,
    )

    pub length-normal :
        (v : InternalValue C) → length (serialize codec (normal v)) ≡ length (serialize codec v)
    length-normal (internal_value name d) = length-value_head name _ _ _ _ (length-normal_data d)
