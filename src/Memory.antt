-- ===== src/Memory.antt =====
-- The memory layout of the persistent vector: struct Vector and its Node in api/mem.capnp, with
-- the accessors of internal/mem/mem.capnp.go that pkg/lang/core/vector.go calls.
--
-- A list of the wire format is allocated with 32 zeroed cells, and the source masks or bounds every
-- index that it reads or writes, so a list is a function on the indexes. Setting a pointer or a
-- list element copies the value into the message of its owner, so what is stored is a value; what
-- an accessor returns is a view of its owner, and a write through it changes the owner.
pub mod Cells
pub mod Node
