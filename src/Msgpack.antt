-- ===== src/Msgpack.antt =====
-- The MessagePack codec of include/kcenon/container/container/msgpack.h.
pub mod Format
pub mod Encoder
pub mod Decoder
pub mod Numbers
pub mod Payloads
pub mod Safety
pub mod Cursor
pub mod Encodings
pub mod RoundTrip
pub mod Peek
pub mod WriteRead
mod Examples
