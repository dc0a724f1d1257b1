-- ===== src/Lib.antt =====
-- Verification of the serving core of nano-vllm-qos: the part that decides which request runs,
-- which pages of the KV cache it gets, and where its pages come from.
--
-- The scheduler asks a policy (nanovllm/engine/qos.py) which request to run, the admission reserve
-- (kv_admission.py) how many pages to hold back, and the block manager (block_manager.py) for the
-- pages. It keeps the requests in three queues (scheduler.py), and a step is a prefill batch or a
-- decode batch. The block manager owns the pool of blocks: a block is free, or in use with a
-- reference count, and keeps its contents for later requests that begin with the same tokens. When
-- the pool runs short, the reclaim policy (kv_reclaim.py) plans how much a preempted request keeps,
-- and the block manager gives back the rest. Requests are `Sequence` objects (sequence.py). Remote
-- objects are read and written through a coordinator (transfer_coordinator.py).
--
-- Files, and the code that they model (in nanovllm/engine/ where no path is given):
--   Request          qos.py: RequestQoS and its check, RequestMetrics
--   Sequence         sequence.py: the request and its transitions; Sequence/Restore, Transport and
--                    Metrics hold the remote restore, pickling and `metrics`; Sequence/Laws the proofs
--   BlockManager     block_manager.py: the state and the constructor. Its operations are in
--                    BlockManager/Lookup, Pool, Allocate, Release and Resume, its theorems in
--                    Invariant (one block), Accounts (lists of blocks), Correct, Match, Capacity,
--                    Compress, Append and Initial.
--                    BlockManager/QueryAware is `compress_query_aware`; Keeps and Labels show for
--                    each operation that it keeps the references accounted for
--   Radix            radix_cache.py: the index of token blocks as a tree value; Radix/Insert, Remove and
--                    Validate hold the operations. Radix/Paths says what a tree means, Lookup, Growth,
--                    Added, Reuse, Cut, Tree, Compress and Pruned what the operations do to that, and
--                    Index makes it the block manager's `PrefixIndex`
--   Tiers            hierarchical_cache.py: a radix index for each tier; Tiers/Longest the proofs
--   Remote           remote_restore.py: the catalog of remote prefixes; Remote/Restore is `plan_restore`,
--                    Remote/Pending the reads and writes under way, Remote/Writeback which pages are
--                    written; Occurrences, Consistent, Match, Pages, Offer, Inflight and Required
--                    the proofs
--   Queues           scheduler.py: the queues as lists of requests
--   Scheduler        scheduler.py: the state, `add` and the readings. Scheduler/Cancel, Restores,
--                    Preempt, Decode, Room (`_ensure_resume_capacity`), Prefill and Step hold the
--                    operations; Sound the account of all requests, and Hands, Batch, Transfers,
--                    Launch, Resumes, Admits, Stepping and Finish that the operations keep it;
--                    Enough, Rounds, Progress, Candidates and Ends that its loops end
--   Reclaim          kv_reclaim.py
--   Admission        kv_admission.py
--   Policy           qos.py: the estimator and the budgets; Policy/Select the choice of a request
--   Planner          hierarchical_cache.py: whether a prefix is restored from another tier or recomputed;
--                    Planner/Best the proofs
--   Trace            scheduler_trace.py: the flight recorder, with its proofs
--   Catalog          remote_catalog.py: the records and their checks, with the proofs
--   Config           nanovllm/config.py: the options and their assertions
--   Transfer         transfer_coordinator.py: one object key; Transfer/Invariant and Drain the proofs
--   Prelude          library names, the error monad, lists, dictionaries, integers, counting
--   Scalar           the parameter that stands for Python's floats
--   Tests            tests and the theorems at concrete inputs
--
-- A method of a mutable object is a function from the old state to the new one. A method that may
-- raise returns `Result`, whose `Error` has a constructor for each kind of exception; the state
-- that an exception leaves behind is not followed. The block manager is one record with the fields
-- of the class; a request is in a queue of the scheduler or in the hands of the operation that took
-- it out, and a reference to it is its number; a dictionary is an association list, and the used
-- set and the free queue are lists. `count b xs` is how often `b` occurs in `xs`. A `hash` of -1 is
-- `none`, and so is a result of -1. A position before the start of a list is out of range in the
-- model.
--
-- Loops are structural recursion on a list or on a number of steps. The four `while` loops of the
-- scheduler count their rounds, and answer `none` if the count runs out, which the step turns into
-- `out_of_rounds`, an `Error` that stands for no exception. The decode loops are given one round more
-- than there are requests running, and Scheduler/Batch proves that enough. The loop that makes room
-- for a resumed request is given two more than there are requests waiting, since each round takes the
-- pages of one; the prefill loop two for each waiting request, five for each place in the batch, and
-- two more. Scheduler/Ends proves these enough: a round that goes on admits, defers or restores a
-- request, or goes over to the requests that hold pages.
-- Python's integers are unbounded, and so are the naturals that stand for them; where the source
-- subtracts, either the result is cut at 0 there too, or a guard before it keeps it from going
-- below 0.
--
-- Parameters: the floats and their arithmetic (`Scalar`, with the order laws where a proof
-- compares), the digest xxh64 (any function of the bytes), the radix index (`PrefixIndex`: its
-- operations, that a match is no longer than the keys, and that a leaf to evict is one of the
-- eligible blocks, which Radix/Index gives for the radix cache), the answers of the storage
-- backend and what its `put` leaves of what it held, what the scheduler calls of the restore
-- service (`RestoreService`), the sizes of JSON lines, the equality of strings, the clock, and
-- the counter of request numbers.
--
-- Not modelled: the flight recorder's calls in the scheduler, which runs with its trace off, and
-- its report `metrics`; the catalog's codec, the snapshot and the saves of the remote catalog, the
-- event loop of the remote store, the storage backends, the page codec and the service; and the
-- model runner, the layers and the kernels, which are numerical code over torch.
pub mod Prelude
pub mod Scalar
pub mod Request
pub mod Sequence
pub mod BlockManager
pub mod Reclaim
pub mod Admission
pub mod Policy
pub mod Radix
pub mod Queues
pub mod Scheduler
pub mod Config
pub mod Catalog
pub mod Tiers
pub mod Remote
pub mod Trace
pub mod Planner
mod Tests
pub mod Transfer
