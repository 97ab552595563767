-- ===== src/Msgpack/Decoder.antt =====
-- class msgpack_decoder of include/kcenon/container/container/msgpack.h. `data_` points at a list
-- of bytes; sums of `size_t` wrap at 2 ^ 64. A method returns its `std::optional` and the decoder
-- that it leaves. `fault` is a read outside the data, which the C++ code leaves undefined.
use container_system.Base.{
  ℕ, ◌+◌, ◌-◌, ◌*◌, ◌%◌, ◌^◌, Bool, true, false, not, ◌||◌, Option, none, some, length, get_elem?,
  Bytes, bit_and, bit_or, ltb, leb, ◌==◌, if◌then◌else◌, ◌>>=◌,
}
use container_system.Msgpack.Format
use container_system.Msgpack.Format.{
  MsgpackType, nil_type, boolean, positive_int, negative_int, float32_type, float64_type, str, bin,
  array, map, unknown,
}

pub record MsgpackDecoder : Type 0 where
  pub bytes : Bytes
  pub size : ℕ
  pub offset : ℕ

abbrev pub new_decoder : Bytes → MsgpackDecoder
new_decoder bs = record { bytes = bs; size = length bs; offset = 0 }

pub data Read {ℓ} (A : Type ℓ) : Type ℓ where
  ret : Option A → MsgpackDecoder → Read A
  fault : Read A

abbrev pub map_read {ℓ κ} : {A : Type ℓ} {B : Type κ} → (A → B) → Read A → Read B
map_read f (ret none d) = ret none d
map_read f (ret (some a) d) = ret (some (f a)) d
map_read f fault = fault

-- A step that goes on only if the one before it gave a value.
abbrev pub bind_read {ℓ κ} :
    {A : Type ℓ} {B : Type κ} → Read A → (A → MsgpackDecoder → Read B) → Read B
bind_read (ret none d) f = ret none d
bind_read (ret (some a) d) f = f a d
bind_read fault f = fault

abbrev pub add_size : ℕ → ℕ → ℕ
add_size a b = (a + b) % 2 ^ 64

-- `data_[offset_ + k]`
abbrev pub load : ℕ → MsgpackDecoder → Option ℕ
load k d = get_elem? d.bytes (add_size d.offset k)

abbrev pub advance : ℕ → MsgpackDecoder → MsgpackDecoder
advance n d = record d { offset = add_size d.offset n }

-- `offset_ + n > size_`
abbrev pub short : ℕ → MsgpackDecoder → Bool
short n d = ltb d.size (add_size d.offset n)

unfoldable pub eof : MsgpackDecoder → Bool
eof d = leb d.size d.offset

unfoldable pub remaining : MsgpackDecoder → ℕ
remaining d = (d.size + 2 ^ 64 - d.offset) % 2 ^ 64

-- The value read, with the offset moved over it.
abbrev pub loaded {ℓ} : {A : Type ℓ} → ℕ → Option A → MsgpackDecoder → Read A
loaded n none d = fault
loaded n (some a) d = ret (some a) (advance n d)

-- `data_[offset_++]`
unfoldable pub read_byte : MsgpackDecoder → Read ℕ
read_byte d = loaded 1 (load 0 d) d

-- `static_cast<T>(b) << k` in a type of `w` bits
abbrev pub shl : ℕ → ℕ → ℕ → ℕ
shl w b k = b * 2 ^ k % 2 ^ w

unfoldable pub read_be16 : MsgpackDecoder → Read ℕ
read_be16 d = loaded 2 (do b0 ← load 0 d; b1 ← load 1 d; some (bit_or (shl 32 b0 8) b1 % 2 ^ 16)) d

unfoldable pub read_be32 : MsgpackDecoder → Read ℕ
read_be32 d =
    loaded 4
      (do
        b0 ← load 0 d
        b1 ← load 1 d
        b2 ← load 2 d
        b3 ← load 3 d
        some (bit_or (bit_or (bit_or (shl 32 b0 24) (shl 32 b1 16)) (shl 32 b2 8)) b3))
      d

unfoldable pub read_be64 : MsgpackDecoder → Read ℕ
read_be64 d =
    loaded 8
      (do
        b0 ← load 0 d
        b1 ← load 1 d
        b2 ← load 2 d
        b3 ← load 3 d
        b4 ← load 4 d
        b5 ← load 5 d
        b6 ← load 6 d
        b7 ← load 7 d
        let high =
            bit_or (bit_or (bit_or (shl 64 b0 56) (shl 64 b1 48)) (shl 64 b2 40)) (shl 64 b3 32)
        some
            (bit_or (bit_or (bit_or (bit_or high (shl 64 b4 24)) (shl 64 b5 16)) (shl 64 b6 8)) b7))
      d

-- The first byte, where the offset is not past the end.
abbrev pub on_byte {ℓ} : {A : Type ℓ} → Option ℕ → (ℕ → Read A) → Read A
on_byte none f = fault
on_byte (some b) f = f b

abbrev pub at_byte {ℓ} : {A : Type ℓ} → MsgpackDecoder → (ℕ → Read A) → Read A
at_byte d f = if leb d.size d.offset then ret none d else on_byte (load 0 d) f

-- `if (offset_ + n > size_) return std::nullopt; ++offset_; return k;`
abbrev pub guarded {ℓ} : {A : Type ℓ} → ℕ → (MsgpackDecoder → Read A) → MsgpackDecoder → Read A
guarded n k d = if short n d then ret none d else k (advance 1 d)

-- The `switch` of `peek_type`.
unfoldable pub type_of_byte : ℕ → MsgpackType
type_of_byte byte =
    if byte == Format.nil_byte
    then nil_type
    else if byte == Format.false_byte || byte == Format.true_byte
    then boolean
    else if byte == Format.bin8 || byte == Format.bin16 || byte == Format.bin32
    then bin
    else if byte == Format.float32
    then float32_type
    else if byte == Format.float64
    then float64_type
    else if byte == Format.uint8
        || byte == Format.uint16
        || byte == Format.uint32
        || byte == Format.uint64
    then positive_int
    else if byte == Format.int8
        || byte == Format.int16
        || byte == Format.int32
        || byte == Format.int64
    then negative_int
    else if byte == Format.str8 || byte == Format.str16 || byte == Format.str32
    then str
    else if byte == Format.array16 || byte == Format.array32
    then array
    else if byte == Format.map16 || byte == Format.map32
    then map
    else unknown

unfoldable pub classify : ℕ → MsgpackType
unfolding type_of_byte
classify byte =
    if leb byte Format.positive_fixint_max
    then positive_int
    else if bit_and byte 0xf0 == Format.fixmap_prefix
    then map
    else if bit_and byte 0xf0 == Format.fixarray_prefix
    then array
    else if bit_and byte 0xe0 == Format.fixstr_prefix
    then str
    else if leb Format.negative_fixint_prefix byte
    then negative_int
    else type_of_byte byte

-- `peek_type` does not change the decoder. `none` is a read outside the data.
unfoldable pub peek_type : MsgpackDecoder → Option MsgpackType
unfolding classify
peek_type d = if leb d.size d.offset then some unknown else do byte ← load 0 d; some (classify byte)

-- `some` stands for the result true, and `none` for false.
unfoldable pub read_nil : MsgpackDecoder → Read (Unit {0})
read_nil d =
    at_byte d
      λ byte. if not (byte == Format.nil_byte) then ret none d else ret (some tt) (advance 1 d)

unfoldable pub read_bool : MsgpackDecoder → Read Bool
read_bool d = at_byte d λ byte.
    if byte == Format.true_byte
    then ret (some true) (advance 1 d)
    else if byte == Format.false_byte
    then ret (some false) (advance 1 d)
    else ret none d
