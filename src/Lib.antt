-- ===== src/Lib.antt =====
-- Verification of container_system: a typed value container for messages
-- (include/kcenon/container, core) and its MessagePack form.
--
-- A value_container (core/container.cpp) keeps a header of six strings and a list of named, typed
-- values. The MessagePack serializer (core/serializers/msgpack_serializer.cpp) writes a container
-- with msgpack_encoder, and value_container::from_msgpack_impl reads one with msgpack_decoder
-- (both classes in include/kcenon/container/container/msgpack.h). A nested container is written
-- as binary data that hold a container, and every binary value is probed for one when it is read.
--
-- - Base: helpers. Base.Tests has Boolean tests, Base.Lists lists over native numbers, Base.Int
--   the integers with their casts, Base.Bits the bit operations of the format bytes.
-- - Msgpack: Format has the constants, Encoder the class msgpack_encoder, and Decoder, Numbers
--   and Payloads the class msgpack_decoder, one definition per method. A method returns its
--   std::optional with the decoder that it leaves, and `fault` is a read outside the data.
-- - Msgpack.Safety (Words, Readers, Integers, Payloads, Decoder), Msgpack.Cursor,
--   Msgpack.Encodings, Msgpack.RoundTrip (Integers, Scalars, Payloads), Msgpack.Peek and
--   Msgpack.WriteRead: proofs about the two classes.
-- - Value: value_variant, optimized_value and the type tables
--   (include/kcenon/container/container/types.h, include/kcenon/container/value_types.h);
--   Value.Types has the proofs.
-- - Container: the operations of class value_container as functions on the container; Storage has
--   their loops over the values, Lookup, Updates, Names, Headers and Moves the proofs.
-- - ErrorCodes: include/kcenon/container/container/error_codes.h.
-- - Container.Results and Container.Batches: the operations that report errors as values, and
--   update_batch_if.
-- - Serializer: Write is the serializer, Read is from_msgpack_impl; Steps and Total show that it
--   returns, and Runs, Wire, Scalars, Entries and RoundTrip that it reads what was written.
-- - Policy: the storage policies (include/kcenon/container/storage_policy.h) as a record of
--   operations on a state; Policy.Indexed is the one with an index, Policy.Restricted the one
--   with a list of types, Positions and Simulation the proofs.
-- - PolicyContainer: the container over any policy (include/kcenon/container/policy_container.h);
--   Calls has its calls and their runs, Refines compares the runs over two policies, Follows one
--   call, Keeps an invariant of a policy under all calls, and Restricted the policy with a list
--   of types.
-- - Schema: the fields of a schema (core/container_schema.cpp,
--   include/kcenon/container/container/schema.h); Codes and Errors are its errors, Validate is
--   validation, Conforms says what a schema asks, Held, Checks, Fields and Decides compare the
--   two, Ranges and Patterns look at single checks.
-- - Epoch: the deferred reclamation of internal/epoch_manager.h, one step for each call; Reclaim
--   and Accounts have the proofs.
-- - Pool: fixed_block_pool (internal/memory_pool.h), and in Pool.Allocator pool_allocator
--   (internal/pool_allocator.h); Chains reads the free list as a list, Reachable has the states
--   that clients reach and their invariant, Moves and Blocks the proofs.
-- - Assoc: the maps from strings, and their laws.
-- - ValueStore: class value_store (core/value_store.cpp) for any type of values with a binary
--   form; RoundTrip has the proof.
-- - ThreadSafe: class thread_safe_container (internal/thread_safe_container.cpp) for any type of
--   values; Exchange looks at its compare and exchange.
-- - Text: the text format of core/container.cpp, with the searches of its regular expressions;
--   Numbers has std::to_string and the readers of integers, Write what writes it
--   (core/serializers/binary_serializer.cpp,
--   include/kcenon/container/container/variant_helpers.h), Read deserialize and
--   deserialize_values, Calls the operations that parse first or report errors, Copies the
--   constructors, the copies and the packet files, Formats the choice of a format
--   (core/serializers/serializer_factory.cpp), and Markup the writers of JSON and XML
--   (core/serializers/json_serializer.cpp, core/serializers/xml_serializer.cpp).
-- - Text.Marks, Sections, Matches, Nested and Flat: proofs about what the searches find and about
--   nested containers. Text.Closings, Again and Lazy: parsing later. Text.Spaces, Decimals,
--   Lines, Written, Searches, Values, Printed and RoundTrip: reading what was written.
--   Text.Removal, Escapes and Transport: proofs about the removals, the escapes of JSON, and the
--   choice of a format.
-- - InternalValue: the binary form of class value (internal/value.cpp), for any type of
--   containers with bytes of their own; Words, Normal and RoundTrip: the words of memory, what is
--   kept, and reading back.
-- - Container.Join: lists of values joined.
-- - Examples modules run the definitions on concrete values.
--
-- Machine integers are native numbers with their wrap-around written out; a `long` has 64 bits.
-- The calls of from_msgpack_impl on nested data are bounded by fuel: each is on fewer bytes than
-- the call that it stands in, so a fuel above the length of the data is enough. Two levels of
-- fuel are enough for the calls of deserialize on the text of nested containers. The reader of an
-- internal value has fuel for its elements, one more than the value's arrays around and before
-- one another. A method that takes the container's lock is one step.
--
-- Not modelled: failures of allocation, metrics, the zero-copy view and its index, asynchronous
-- containers, the readers and bulk operations of the thread-safe container, the RCU value, the
-- texts, comparisons and copies of internal values, values that hold themselves, SIMD code, gRPC
-- and messaging. The widening of a float to a double and the comparison of two variants or
-- doubles are parameters, since they are the language's, and so are the patterns of a schema, the
-- texts of floats and the messages of exceptions, which are the C++ library's.

pub mod Assoc
pub mod Base
pub mod Container
pub mod Epoch
pub mod ErrorCodes
pub mod InternalValue
pub mod Msgpack
pub mod Policy
pub mod PolicyContainer
pub mod Pool
pub mod Schema
pub mod Serializer
pub mod Text
pub mod ThreadSafe
pub mod Value
pub mod ValueStore
