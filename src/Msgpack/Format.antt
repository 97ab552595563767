-- ===== src/Msgpack/Format.antt =====
-- namespace msgpack_format and enum msgpack_type of include/kcenon/container/container/msgpack.h.
use container_system.Base.{ℕ}

abbrev pub positive_fixint_max : ℕ
positive_fixint_max = 0x7f

abbrev pub fixmap_prefix : ℕ
fixmap_prefix = 0x80

abbrev pub fixmap_max_size : ℕ
fixmap_max_size = 0x0f

abbrev pub fixarray_prefix : ℕ
fixarray_prefix = 0x90

abbrev pub fixarray_max_size : ℕ
fixarray_max_size = 0x0f

abbrev pub fixstr_prefix : ℕ
fixstr_prefix = 0xa0

abbrev pub fixstr_max_size : ℕ
fixstr_max_size = 0x1f

abbrev pub nil_byte : ℕ
nil_byte = 0xc0

abbrev pub false_byte : ℕ
false_byte = 0xc2

abbrev pub true_byte : ℕ
true_byte = 0xc3

abbrev pub bin8 : ℕ
bin8 = 0xc4

abbrev pub bin16 : ℕ
bin16 = 0xc5

abbrev pub bin32 : ℕ
bin32 = 0xc6

abbrev pub float32 : ℕ
float32 = 0xca

abbrev pub float64 : ℕ
float64 = 0xcb

abbrev pub uint8 : ℕ
uint8 = 0xcc

abbrev pub uint16 : ℕ
uint16 = 0xcd

abbrev pub uint32 : ℕ
uint32 = 0xce

abbrev pub uint64 : ℕ
uint64 = 0xcf

abbrev pub int8 : ℕ
int8 = 0xd0

abbrev pub int16 : ℕ
int16 = 0xd1

abbrev pub int32 : ℕ
int32 = 0xd2

abbrev pub int64 : ℕ
int64 = 0xd3

abbrev pub str8 : ℕ
str8 = 0xd9

abbrev pub str16 : ℕ
str16 = 0xda

abbrev pub str32 : ℕ
str32 = 0xdb

abbrev pub array16 : ℕ
array16 = 0xdc

abbrev pub array32 : ℕ
array32 = 0xdd

abbrev pub map16 : ℕ
map16 = 0xde

abbrev pub map32 : ℕ
map32 = 0xdf

abbrev pub negative_fixint_prefix : ℕ
negative_fixint_prefix = 0xe0

pub data MsgpackType : Type 0 where
  nil_type boolean positive_int negative_int float32_type float64_type : MsgpackType
  str bin array map unknown : MsgpackType
