-- ===== src/Serializer.antt =====
-- MessagePack form of a container: core/serializers/msgpack_serializer.cpp writes it and
-- value_container::from_msgpack_impl of core/container.cpp reads it.
pub mod Write
pub mod Read
pub mod Steps
pub mod Total
pub mod Runs
pub mod Wire
pub mod Scalars
pub mod Entries
pub mod RoundTrip
mod Examples
