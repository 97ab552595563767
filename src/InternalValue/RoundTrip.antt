-- ===== src/InternalValue/RoundTrip.antt =====
-- The binary form of a value (internal/value.cpp), written and read.
use container_system.Base.{
  ℕ, zero, suc, ◌+◌, ◌%◌, ◌^◌, ◌≤◌, ◌<◌, ◌≡◌, refl, ap, ◌∙◌, Bool, true, false, none, some, Bytes,
  [], ◌∷◌, ◌++◌, ◌==◌, not, if◌then◌else◌, length, length-append, take, drop, take-append,
  drop-append, append_assoc, ltb-false, arith,
}
use container_system.Base.Int.{to_unsigned, to_signed}
use container_system.Value.{
  ValueTypes, null_value, bool_value, short_value, ushort_value, int_value, uint_value, long_value,
  ulong_value, llong_value, ullong_value, float_value, double_value, string_value, bytes_value,
  container_value, array_value, type_code,
}
use container_system.InternalValue.{
  Data, monostate, bool, short, ushort, int, uint, long, ulong, llong, ullong, float, double,
  string, bytes, container, array, Elements, no_elements, null_element, element, InternalValue,
  internal_value, ContainerCodec, word_bytes, word_of, type_of, sized, value_head, count_elements,
  serialize_data, serialize_elements, serialize, present, with_word, filled, read_whole, pushed,
  read_elements, read_container, deserialize_data, type_at, with_name, deserialize,
}
use container_system.InternalValue.Words.{
  word_of-word_bytes, length-word_bytes, take-word_bytes, drop-word_bytes, with_word-bytes,
  with_sized-bytes, cast16, cast32, cast64, word16, word32, word64,
}
use container_system.InternalValue.Normal.{
  StorableData, StorableElements, Storable, normal_data, normal_elements, normal, levels_data,
  levels_elements, levels, length-normal,
}

type_at-type_code : (t : ValueTypes) → type_at (type_code t) ≡ some t
unfolding type_at
type_at-type_code null_value = refl
type_at-type_code bool_value = refl
type_at-type_code short_value = refl
type_at-type_code ushort_value = refl
type_at-type_code int_value = refl
type_at-type_code uint_value = refl
type_at-type_code long_value = refl
type_at-type_code ulong_value = refl
type_at-type_code llong_value = refl
type_at-type_code ullong_value = refl
type_at-type_code float_value = refl
type_at-type_code double_value = refl
type_at-type_code string_value = refl
type_at-type_code bytes_value = refl
type_at-type_code container_value = refl
type_at-type_code array_value = refl

drop-head : (n j : ℕ) (r : Bytes) → drop (4 + j) (word_bytes 4 n ++ r) ≡ drop j r
unfolding word_bytes
drop-head n j r = let e : 4 + j ≡ suc (suc (suc (suc j))) = omega arith in rw e refl

size-test : (n : ℕ) → 0 < n → (n == 0) ≡ false
size-test n h = ground arith

sized-word : (t r : Bytes) → length t < 2 ^ 32 → word_of (take 4 (sized t ++ r)) ≡ length t
sized-word t r h =
    let w : Bytes = word_bytes 4 (length t) in
    let m : length t % 2 ^ 32 ≡ length t = omega (arith, h) in
    rw (m, append_assoc w t r, take-word_bytes 4 (length t) (t ++ r))
      (word_of-word_bytes 4 (length t) (omega (arith, h)))

value_head-append :
    (name : Bytes) (t : ℕ) (s r : Bytes) → value_head name t s ++ r ≡ value_head name t (s ++ r)
value_head-append name t s r = simp append_assoc refl

module _ {C : Type 0} (codec : ContainerCodec C) where
  -- The head of a value, read.
  deserialize-value_head :
      (fuel : ℕ) (name : Bytes) (t : ValueTypes) (s : Bytes)
      → length name < 2 ^ 32
      → deserialize codec (suc fuel) (value_head name (type_code t) s)
        ≡ with_name name (deserialize_data codec (λ r. deserialize codec fuel r) t s)
  unfolding deserialize
  deserialize-value_head fuel name t s h =
      let w : Bytes = word_bytes 4 (length name) in
      let x : Bytes = name ++ (type_code t ∷ s) in
      let m : length name % 2 ^ 32 ≡ length name = omega (arith, h) in
      let g : word_of w ≡ length name = word_of-word_bytes 4 (length name) (omega (arith, h)) in
      let l : length (w ++ x) ≡ 5 + (length name + length s) = omega (
        arith,
        length-append w x,
        length-word_bytes 4 (length name),
        length-append name (type_code t ∷ s),
      ) in
      rw (m, take-word_bytes 4 (length name) x, g)
        (rw (drop-word_bytes 4 (length name) x) (
          rw (ltb-false (length (w ++ x)) 5 (omega (arith, l))) (
            rw (ltb-false (length (w ++ x)) (4 + length name + 1) (omega (arith, l))) rw
              (take-append name (type_code t ∷ s), drop-head (length name) (length name) x)
              (rw (drop-append name (type_code t ∷ s)) (rw (type_at-type_code t) refl)))))

  read_container-sized :
      (c : C) (r : Bytes)
      → 0 < length (codec.write c)
      → length (codec.write c) < 2 ^ 32
      → codec.read (codec.write c) ≡ some c
      → read_container codec (sized (codec.write c) ++ r) ≡ present (container (some c))
  read_container-sized c r p h e =
      let t : Bytes = codec.write c in
      let f : (word_of (take 4 (sized t ++ r)) == 0) ≡ false =
        rw (sized-word t r h) (size-test (length t) p) in
      rw f (with_sized-bytes t r (λ q. read_whole (codec.read q)) h ∙ ap read_whole e)

  element-step :
      (fuel n : ℕ) (w : InternalValue C) (s r : Bytes)
      → deserialize codec fuel (s ++ r) ≡ present w
      → length (serialize codec w) ≡ length s
      → read_elements codec (λ t. deserialize codec fuel t) (suc n) (s ++ r)
        ≡ pushed codec w (read_elements codec (λ t. deserialize codec fuel t) n r)
  unfolding read_elements
  element-step fuel n w s r e l = rw e (rw l (rw (drop-append s r) refl))

  bool-read :
      (x : Bool) (r : Bytes)
      → with_word {C = C} 1 ((if x then 1 else 0) ∷ r) (λ n. present (bool (not (n == 0))))
        ≡ present (bool x)
  unfolding word_bytes
  bool-read true r = with_word-bytes 1 1 r (λ n. present (bool (not (n == 0)))) (omega arith)
  bool-read false r = with_word-bytes 1 0 r (λ n. present (bool (not (n == 0)))) (omega arith)

  no_container-read :
      (r : Bytes) → read_container codec (word_bytes 4 0 ++ r) ≡ present (container none)
  no_container-read r =
      let e : (word_of (take 4 (word_bytes 4 0 ++ r)) == 0) ≡ true =
        ap (λ s. word_of s == 0) (take-word_bytes 4 0 r)
        ∙ ap (λ n. n == 0) (word_of-word_bytes 4 0 (omega arith)) in
      rw e (with_word-bytes 4 0 r (λ size. present (container none)) (omega arith))

  mutual
    unfolding deserialize_data read_elements normal_data serialize_data type_of levels_data
        StorableData serialize

    data-read :
        (fuel : ℕ) (d : Data C) (r : Bytes)
        → StorableData codec d
        → levels_data d ≤ fuel
        → deserialize_data codec
            (λ t. deserialize codec fuel t)
            (type_of d)
            (serialize_data codec d ++ r)
          ≡ present (normal_data d)
    data-read fuel monostate r h l = refl
    data-read fuel (bool x) r h l = bool-read x r
    data-read fuel (short x) r h l =
        with_word-bytes 2 (to_unsigned (2 ^ 16) x) r (λ n. present (short (to_signed (2 ^ 16) n)))
          (word16 x)
        ∙ ap (λ z. present (short z)) (cast16 x h)
    data-read fuel (ushort x) r h l = with_word-bytes 2 x r (λ n. present (ushort n)) h
    data-read fuel (int x) r h l =
        with_word-bytes 4 (to_unsigned (2 ^ 32) x) r (λ n. present (int (to_signed (2 ^ 32) n)))
          (word32 x)
        ∙ ap (λ z. present (int z)) (cast32 x h)
    data-read fuel (uint x) r h l = with_word-bytes 4 x r (λ n. present (uint n)) h
    data-read fuel (long x) r h l =
        with_word-bytes 8 (to_unsigned (2 ^ 64) x) r (λ n. present (long (to_signed (2 ^ 64) n)))
          (word64 x)
        ∙ ap (λ z. present (long z)) (cast64 x h)
    data-read fuel (ulong x) r h l = with_word-bytes 8 x r (λ n. present (ulong n)) h
    data-read fuel (llong x) r h l =
        with_word-bytes 8 (to_unsigned (2 ^ 64) x) r (λ n. present (long (to_signed (2 ^ 64) n)))
          (word64 x)
        ∙ ap (λ z. present (long z)) (cast64 x h)
    data-read fuel (ullong x) r h l = with_word-bytes 8 x r (λ n. present (ulong n)) h
    data-read fuel (float x) r h l = with_word-bytes 4 x r (λ n. present (float n)) h
    data-read fuel (double x) r h l = with_word-bytes 8 x r (λ n. present (double n)) h
    data-read fuel (string s) r h l = with_sized-bytes s r (λ t. present (string t)) h
    data-read fuel (bytes s) r h l = with_sized-bytes s r (λ t. present (bytes t)) h
    data-read fuel (container none) r h l = no_container-read r
    data-read fuel (container (some c)) r h l = read_container-sized c r h.0 h.1 h.2
    data-read zero (array es) r h l = absurd (omega (arith, l))
    data-read (suc fuel) (array es) r h l =
        let n : ℕ = count_elements es in
        let s : Bytes = serialize_elements codec es ++ r in
        let m : n % 2 ^ 32 ≡ n = omega (arith, h.0) in
        rw (m, append_assoc (word_bytes 4 n) (serialize_elements codec es) r)
          (with_word-bytes 4 n s
              (λ k. filled (
                read_elements codec (λ t. deserialize codec (suc fuel) t) k
                  (drop 4 (word_bytes 4 n ++ s))))
              h.0
            ∙ ap (λ q. filled (read_elements codec (λ t. deserialize codec (suc fuel) t) n q))
                (drop-word_bytes 4 n s)
            ∙ ap filled (elements-read fuel es r h.1 (omega (arith, l))))

    elements-read :
        (fuel : ℕ) (es : Elements C) (r : Bytes)
        → StorableElements codec es
        → levels_elements es ≤ fuel
        → read_elements codec
            (λ t. deserialize codec (suc fuel) t)
            (count_elements es)
            (serialize_elements codec es ++ r)
          ≡ present (normal_elements es)
    elements-read fuel no_elements r h l = refl
    elements-read fuel (null_element es) r h l =
        let s : Bytes = serialize_elements codec es ++ r in
        ap (read_elements codec (λ t. deserialize codec (suc fuel) t) (suc (count_elements es)))
          (append_assoc (value_head [] 0 []) (serialize_elements codec es) r)
        ∙ element-step (suc fuel) (count_elements es) (internal_value [] monostate)
            (value_head [] 0 []) s
            (ap (deserialize codec (suc fuel)) (value_head-append [] 0 [] s)
              ∙ deserialize-value_head fuel [] null_value s (omega arith))
            refl
        ∙ ap (pushed codec (internal_value [] monostate)) (elements-read fuel es r h l)
    elements-read fuel (element v es) r h l =
        let s : Bytes = serialize_elements codec es ++ r in
        ap (read_elements codec (λ t. deserialize codec (suc fuel) t) (suc (count_elements es)))
          (append_assoc (serialize codec v) (serialize_elements codec es) r)
        ∙ element-step (suc fuel) (count_elements es) (normal v) (serialize codec v) s
            (value-read fuel v s h.0 (omega (arith, l))) (length-normal codec v)
        ∙ ap (pushed codec (normal v)) (elements-read fuel es r h.1 (omega (arith, l)))

    value-read :
        (fuel : ℕ) (v : InternalValue C) (r : Bytes)
        → Storable codec v
        → levels v ≤ fuel
        → deserialize codec (suc fuel) (serialize codec v ++ r) ≡ present (normal v)
    value-read fuel (internal_value name d) r h l =
        ap (deserialize codec (suc fuel))
          (value_head-append name (type_code (type_of d)) (serialize_data codec d) r)
        ∙ deserialize-value_head fuel name (type_of d) (serialize_data codec d ++ r) h.0
        ∙ ap (with_name name) (data-read fuel d r h.1 l)

-- What `serialize` writes of a value that can be stored, followed by any bytes, `deserialize` reads
-- with fuel for the arrays around each other or before each other: the name and the data come back,
-- a long long as a long, and a null element as a value without a name or data.
pub deserialize-serialize :
    {C : Type 0} (codec : ContainerCodec C) (fuel : ℕ) (v : InternalValue C) (r : Bytes)
    → Storable codec v
    → levels v ≤ fuel
    → deserialize codec (suc fuel) (serialize codec v ++ r) ≡ present (normal v)
deserialize-serialize codec fuel v r h l = value-read codec fuel v r h l
