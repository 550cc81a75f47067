-- ===== src/Lib.antt =====
-- A model of WaterStructure, a C++ library that reads block structures of many formats, turns them
-- into chunks and hands those on to writers, with proofs of what its core promises.
--
-- The parts, and how they meet. A format's reader fills a sparse store with blocks and block
-- entities; the store cuts them into chunks on request, by the arithmetic of the coordinates; a chunk
-- stream asks a structure for its chunks in batches and carries them through a bounded queue, from
-- the caller's thread to a consumer thread, which pushes them into the writer. Readers and writers
-- that decode in parallel use a bounded pool of workers. Errors are values everywhere but in the
-- pool, whose `submit` throws.
--
-- Common: the libraries' names that are shared, lists over the native naturals (Lists), Boolean tests
-- (Tests), and the integers with truncated division and the wraps of int32_t and int64_t (Int).
-- Coordinates: include/WaterStructure/coordinates.hpp and the positions and sizes of
-- include/WaterStructure/types.hpp (`floor_div`, `floor_mod`, `floor_div64`, `Size::volume` and the
-- rest under their own names). Floor, Floor64 and Extent hold the proofs.
-- Result: include/WaterStructure/result.hpp.
-- ThreadPool: src/core/bounded_thread_pool.hpp. `submit` and `submit_indexed` are `submit_section`
-- and `notify_ready`; `worker_loop` is `worker_section`, `notify_space` and `finish_task`; the
-- destructor is `shut_down` and `notify_everyone`. The threads of one kind are alike, so the state
-- counts them by where they stand. Invariant and Progress hold the proofs.
-- Stream: `QueueSink` and `ChunkStream::pump` of src/core/chunk_stream.cpp, as two threads that take
-- turns in any order: `push`, `fail_section`, `consume_section`, `join` and `pump_result` are the
-- code's sections under their mutex. Invariant, Order and Outcome hold the proofs, Capacity is
-- `stream_capacity`, and Batches is `from_structure`, `from_structure_grid` and the default
-- `visit_chunks` of include/WaterStructure/structure.hpp, with the proofs in Batches/Complete.
-- Chunk: `ChunkData` of include/WaterStructure/types.hpp, and `block_at` of
-- src/formats/schematic_writer.cpp, by which a writer reads a chunk.
-- Store: `SparseBlockStore` of src/core/decoded_structure.cpp. Map is its `std::map`, an association
-- list in the order of the keys; Count and View are about the calls that change the store; Chunks is
-- `get_chunks_impl`, with the proofs in Chunks/Local, Place, Loops, Window, Effects, Read and
-- RoundTrip.
-- Store/Entities is `get_chunk_nbt`.
-- ChunkIndex: `ChunkBlockIndex` of include/WaterStructure/chunk_index.hpp, with the proofs in Finds.
-- RunAway: src/formats/runaway.cpp from the entries of the file on, as one reader that keeps its own
-- blocks and such an index. Placement is about the normalization, Index about the calls in sequence.
-- Canonical: src/core/canonical.cpp. Bytes has readers of the integers and strings, RoundTrip one of
-- the tags, Pointer one of the escaped keys; States is `canonical_block_state`, where States/Order is
-- the comparison, States/Sorted the sort and States/Invariance what follows.
-- MsgPack: `StreamDecoder` of src/formats/msgpack_structure.cpp; Skip is `skip_value` and `data`,
-- Bounds and Agree hold the proofs.
-- Bdx: `append_move` of src/formats/bdx_writer.cpp, and the commands of src/formats/bdx.cpp that it
-- is read by; Leads and Moves hold the proofs.
-- Schematic: `write_schematic` of src/formats/schematic_writer.cpp up to the library that writes the
-- fields; Arrays holds the proofs.
-- Litematic: src/formats/litematic.cpp and src/formats/litematic_writer.cpp. Packed is the bit fields
-- of the block states (`bits_for_palette`, `palette_index_at` and the writer's loop), with the proofs
-- in Packed/Arith, Unpack, Pack and Bits. Nbt is the streaming reader (`skip_payload` and its helpers)
-- over libnbt's calls, which are a record of functions; Values, Palette and Region read the first
-- region by it, each with a module Halting that shows that it ends. Structure is `LitematicStructure`,
-- where Accept is about `read`, Cells and Read about `get_chunks_impl`. Writer is `write_litematic` up
-- to the library that writes the fields, with the proofs in Writer/Palette, RoundTrip and Blocks.
-- Registry: `RuntimeRegistry` of src/core/runtime_registry.cpp, from the normalization of a name to
-- `register_state`, `find`, `find_compatible` and `upgrade_state`; its maps are association lists.
-- Intern compares a run of registrations with a list of keys, Again is about a second registration.
-- Schem: `EncodedReader` and `LimitedEncodedReader` of src/formats/schem.cpp, one reader by the refill
-- that it is given; Feed is what is asked of a refill, with the proofs in Varint, Read, Bulk and Values.
-- IbImport: the segments of src/formats/ibimport.cpp (`varint`, `XorSegmentBuffer` and the head of the
-- loop over them) and of src/formats/ibimport_writer.cpp (`fixed_varint`, `SegmentWriter`); Key, Length,
-- Reading, Writing and Segment hold the proofs.
-- The modules named Runs evaluate these at concrete inputs.
--
-- Bounds and fuel. An int32_t, int64_t or std::size_t is the number that it stands for, and what can
-- leave the type wraps; where that is undefined in C++ the theorems ask that it does not happen. The
-- loop of `from_structure` runs on fuel, the number of the positions: each batch takes at least one,
-- and the theorem about it shows that this is enough. The reader of tags in
-- Canonical/RoundTrip, which is not code of the program, runs on fuel, the depth of the tag. The loops
-- of `append_move_axis` run on fuel 2, as often as the difference of two int32_t passes through them,
-- and the loop over the commands on the number of bytes, for each command takes one; the theorem about the moves
-- shows both enough. The loops of the streaming NBT
-- reader run on fuel, which is enough where it exceeds what is left of the stream, and those that
-- count binary digits on 64. The loops over buffers in Schem and IbImport run on the number of bytes or of
-- values, of which each round takes one at least, and those over the bytes of a number on the shifts. All other loops are structural. A layer of
-- 4096 blocks is a function of the index, and an unordered map is the list of its entries; no
-- theorem depends on their order.
--
-- A mutex makes the section that it guards one step. A condition variable is the set of threads
-- that sleep on it; a notification is a step of its own, and a sleeper may also wake with none. What
-- a task does, what a sink answers, what a producer pushes and what a reader returns is arbitrary.
--
-- Not modelled: the readers and writers of the other formats and the registry of them, the tables
-- and the fuzzy match of the block registry, the list of NBT fields in src/core/canonical.cpp, access to worlds and archives, the C interface, the command line
-- and the tools, for they are input and output or work on third-party libraries; hash functions,
-- on whose values nothing depends; futures; `release_cached_chunks`, a hint without a result.
pub mod Common
pub mod Coordinates
pub mod Result
pub mod ThreadPool
pub mod Stream
pub mod Chunk
pub mod Store
pub mod Canonical
pub mod ChunkIndex
pub mod RunAway
pub mod MsgPack
pub mod Bdx
pub mod Schem
pub mod Schematic
pub mod Litematic
pub mod IbImport
pub mod Registry
