-- ===== src/Msgpack/Safety/Decoder.antt =====
-- All readers of class msgpack_decoder (include/kcenon/container/container/msgpack.h) on any
-- bytes.
use container_system.Base.{ℕ, ◌^◌}
use container_system.Msgpack.Decoder.{MsgpackDecoder, read_nil, read_bool}
use container_system.Msgpack.Numbers.{read_int, read_uint, read_float, read_double}
use container_system.Msgpack.Payloads.{read_string, read_binary, read_array_header, read_map_header}
use container_system.Msgpack.Safety.{IsValid, Safe}
use container_system.Msgpack.Safety.Words.{Below, Any}
use container_system.Msgpack.Safety.Readers.{
  IsInt64, read_nil-Safe, read_bool-Safe, read_uint-Safe, read_float-Safe, read_double-Safe,
}
use container_system.Msgpack.Safety.Integers.{read_int-Safe}
use container_system.Msgpack.Safety.Payloads.{
  Part, read_string-Safe, read_binary-Safe, read_array_header-Safe, read_map_header-Safe,
}

-- With a decoder whose offset is inside its data, which are bytes and fewer than 2 ^ 63, no reader
-- looks outside the data. It gives nothing or a value, and for a value it has moved over at least
-- one byte; the decoder that it leaves is again of this kind, on the same data. The value is an
-- int64 for `read_int`, a uint64 for `read_uint`, 32 bits for `read_float`, below 2 ^ 32 for a header,
-- and fewer bytes than the data for a string or binary data.
pub readers-Safe :
    (widen : ℕ → ℕ) (d : MsgpackDecoder)
    → IsValid d
    → Safe Any 1 d (read_nil d)
      × Safe Any 1 d (read_bool d)
      × Safe IsInt64 1 d (read_int d)
      × Safe (Below (2 ^ 64)) 1 d (read_uint d)
      × Safe (Below (2 ^ 32)) 1 d (read_float d)
      × Safe Any 1 d (read_double widen d)
      × Safe (Part d.bytes) 1 d (read_string d)
      × Safe (Part d.bytes) 1 d (read_binary d)
      × Safe (Below (2 ^ 32)) 1 d (read_array_header d)
      × Safe (Below (2 ^ 32)) 1 d (read_map_header d)
readers-Safe widen d v = (
  read_nil-Safe d v,
  read_bool-Safe d v,
  read_int-Safe d v,
  read_uint-Safe d v,
  read_float-Safe d v,
  read_double-Safe d v Any widen (λ _ _. tt) (λ _ _. tt),
  read_string-Safe d v,
  read_binary-Safe d v,
  read_array_header-Safe d v,
  read_map_header-Safe d v,
)
