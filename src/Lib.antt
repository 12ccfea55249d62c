-- ===== src/Lib.antt =====
-- A model of insitubatch, which streams training batches out of chunked arrays in place.
--
-- A pass over a dataset draws samples in shuffle-blocks of chunks. The draw order names chunks of a
-- reference grid; the planner turns them into reads of stored chunks, one grid per variable; the
-- scheduler fetches and decodes those into the slots of a pool that several passes share; a slot is
-- published when its last tile has landed, and the producer waits for it, gathers batches from it
-- and gives it back at its last use.
--
-- * Geometry (src/insitubatch/types.py): `ArrayGeometry`, with a list for a tuple of axis lengths,
--   and its methods under their names.
-- * Split (src/insitubatch/split.py): `valid_anchor_range`, `split_by_chunk` and `sample_indices`.
--   The record `Numerics` stands for `rng.permutation` and for the float arithmetic of the
--   fractions.
-- * Plan (src/insitubatch/plan.py): `_read_chunks` is `read_chunks`; the loops of
--   `build_stored_chunk_reads` are `plan_from`, whose state is `Progress`.
-- * Shuffle (src/insitubatch/shuffle.py): the two draw orders and `DrawOrder.keep`. The record
--   `Generator` stands for numpy's random generator, and `searchsorted` is an argument.
-- * Source (src/insitubatch/source.py): a pass. `drop_edge_anchors`, `blocks`, `block_read_keys`
--   and `release` are the methods and the part of `_iterate` of these names; Source/Producer has
--   `produce`, whose run is the list of its calls. What each call that may raise comes to (`Site`),
--   and when the consumer stops, are arguments. The sets of keys are lists without repeats, and
--   numpy's `unique` is an argument.
-- * Pool (src/insitubatch/pool.py): `ChunkPool`. Pool/State has its fields, with the `OrderedDict`
--   of slots as an association list, least recently used first, and what `__init__` fixes as
--   `Config`. The private methods keep their names without the underscore: Room has `_make_room`,
--   `_drop` and `_free`, Pins `_pin` and `_unpin_one`, Admit `try_admit`, `pin_if_ready` and
--   `_revive`, Lifecycle `tile_write`, `_deliver`, `_advance`, `fail` and `set_error`, Owners
--   `new_owner`, `release_owner` and the waits. A method that runs under the lock is one function
--   from pool to pool. `_advance` gives the lock up while a transform runs, so it is two:
--   `begin_publish` and `finish_publish`. Pool/Calls has the calls that concurrent passes and
--   decode threads make, and `run` makes any sequence of them. Pool/Gather has `gather` and
--   `_assemble`, on slots whose tiles are functions from positions, and Pool/Manifest the loading
--   of the log of finished files, `_load_log`, with its JSON library as an argument: a file is its
--   list of lines, and what is deleted is a list of names.
-- * Buffers (src/insitubatch/buffers.py): `BatchBuffers`. An allocation is a number, the views that
--   anybody holds are a list of them, and the reference count of an allocation is a function, with
--   arguments' numbers, of how many views it has and of whether `take` names it. `run` makes any
--   sequence of calls.
--
-- The theorems on the pool stand by subject: Pool/Budget on the byte account, Pool/Holding on what
-- a pass holds, Pool/Reclaim on eviction, Pool/Complete on publication; Pool/Facts has the laws of
-- its dictionaries, Pool/Gather/Rows is on what a batch holds, Pool/Manifest/Reopen on the log.
-- Those on a pass stand in Source: Anchors, Release, ReadAhead, Produced, Pass and Planned. Tests
-- has concrete runs. Base passes the library's names on, and has integers, lists and
-- rearrangements.
--
-- Signed counters are ℤ. `np.prod` of 64-bit integers wraps (`int64`); the pool's byte counts are
-- natural numbers, so a charge that wraps below 0 counts as 0 there. A dict that is only read with
-- a default is a function. `_make_room` loops with a bound, the number of slots: every round drops
-- one. The windows of a draw order are cut with a bound, the number of chunks.
--
-- The producer's loops are over lists that shrink, the blocks behind each frontier and the starts
-- of the batches, `range(0, n, batch_size)`, so they need no bound.
--
-- Not modelled: what a chunk transform computes, which is the field `prepare`; files, which a call
-- finds in a `Disk`; the part of `ChunkPool.__init__` that checks its arguments and loads the log
-- (a modelled pool starts with none, and `load_log` stands on its own); the cache directory's locks
-- and temporary files; the event loop and the admission of src/insitubatch/scheduler.py; of
-- src/insitubatch/source.py the threads, the queue, the bound of the re-reading mode and the
-- construction of a dataset; and the adapters, reports and machine tuning around them.
pub mod Base
pub mod Geometry
pub mod Split
pub mod Plan
pub mod Shuffle
pub mod Pool
pub mod Source
pub mod Buffers
pub mod Tests
