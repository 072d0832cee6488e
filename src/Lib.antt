-- ===== src/Lib.antt =====
-- Verification of viy, an IDA plugin that combines IDA's analysis with an embedded decoder and
-- emulator (rax). This library models the parts of the plugin that are free of IDA and rax.
--
-- The parts and how they interact. The main thread copies the database into a snapshot, builds the
-- entry state of each run by the calling convention, and submits jobs to a pool of worker threads;
-- the pool hands the results back in the order of submission. The static decoder asks rax for one
-- instruction at a time and takes the answer only if it is well formed. What the providers and runs
-- find goes as facts with evidence into a ledger, which merges the histories of several runs; a policy
-- decides which of its records may change the database.
--
-- - Base: shared names, Boolean tests, lists, bits and signed integers over the native numbers.
-- - Workers (src/emulation_workers.cpp, src/emulation_workers.hpp): `Pool` is the state of
--   `EmulationWorkerPool::Impl`, with each thread's place in `worker_main` and its local job in
--   `threads`. Calls has `try_submit`, `try_take_next`, `take_ready`, `cancel_pending` and `shutdown`;
--   Threads has the three sections of `worker_main` that run under the mutex; Events runs any
--   sequence of these. A condition variable's wait is the absence of an event, so each order in
--   which the threads can run is one sequence. The job and the result's evidence are type
--   parameters, since the pool only moves them.
-- - Program (src/program_model.hpp, src/program_model_core.cpp): the snapshot, its binary search,
--   its permission and loaded-byte queries, and the view of the loaded bytes from an address.
-- - Abi (src/abi_policy.cpp, src/abi_policy.hpp, src/emu_input.hpp): the table of calling
--   conventions, the placement plan of an input, and the deterministic argument values.
-- - Decoder (src/decoder_core.cpp, src/decoder_core.hpp): the window of bytes to offer, the check of
--   rax's answer, direct targets, and the comparison of two decoders.
-- - Runtime (src/runtime_enrich_core.hpp, src/runtime_enrich_core.cpp, and the observations of
--   src/emu_driver.hpp): Utf8 and Wide decode text; Candidates and Pascal read the strings that may
--   start at a byte; Pointers has the pointer ranges and Scan the scan of a write; Writes groups equal
--   writes of several runs; Conflict has the tests of a range and the temporal gates. `RAX_MEM_READ`
--   and `RAX_MEM_WRITE` are parameters.
-- - Facts (src/analysis_facts.hpp, src/analysis_facts.cpp): Enums, Kinds and Schema have the fact
--   schema; Text, Sort and Validate the validators and normal forms; Bytes the reader and writer;
--   Encode, Decode and Codec the canonical encodings of payloads, evidence and facts. Strings are the
--   lists of their bytes, and a failure is `none`, without its text. Sha256 has the digest.
-- - Store (src/evidence_store.hpp, src/evidence_store.cpp): Defs has the ledger, a list of entries in
--   the order of their canonical bytes, with `add`, `merge`, `flattened_facts` and the counts;
--   Support has `is_corroborated`, Latest `latest_generation_view`, and Envelope `serialize` and
--   `deserialize`.
-- - Conflicts (src/evidence_store.hpp, src/evidence_store.cpp): Payloads, Dispatch, Calls and
--   Compare have `compare_payloads`, with a list of conflicts for each block of the source, without
--   explanations; Keys has the keys and tests of the index, Loops the loops over the groups of Base.Buckets and
--   over the regions, Index `contradicted_payload_digests`, and Detect `detect_conflicts` up to its last
--   sort (`detected_conflicts`).
-- - Policy (src/evidence_apply_policy.hpp, src/evidence_apply_policy.cpp): `classify_record` and
--   `plan_evidence_application`, which asks the ledger's index for the contradicted payloads.
-- - Lifecycle (src/evidence_lifecycle.hpp, src/evidence_lifecycle.cpp): the allocator of generations,
--   with its set as a list without repetition, and the active view of a ledger.
--
-- Numbers of the source are natural numbers here, with the wrap-around or the overflow test that the
-- source has written out. Vectors, deques and maps are lists; a map is a list of results, of which
-- only lookup, insertion and removal by key are used.
--
-- Fuel. `take_loop` has the number of stored results as fuel, of which each round removes one.
-- `search_loop` has the number of segments, and each round makes the interval smaller. `view_loop`
-- has the limit, and each round advances by one at least. `utf8_loop`, `utf16_loop`, `word_offsets` and
-- `scan` have the number of bytes, of which each round passes one at least. `utf8_valid_loop` has the
-- number of bytes too, and `update_loop` of SHA-256 as well; `read_items` has the count that was read,
-- and `find_free` the number of used generations and one more.
--
-- Not modelled: the parts that call IDA or rax (snapshotting, providers, consumers, decompiler and
-- plugin glue), logging, and clocks. The rax library is not in the repository: its register numbers
-- (`Abi.Layout.Ids`), flow values (`Decoder.Defs.Flows`) and decoder are parameters. The hashes of the
-- snapshot and of a job, the ledger's query for one candidate (`ContradictionIndex`), persistence adapters
-- and summaries of support, the display names and previews of strings, and the recognition of gadgets
-- are not modelled either.
pub mod Base
pub mod Workers
pub mod Program
pub mod Decoder
pub mod Abi
pub mod Runtime
pub mod Facts
pub mod Store
pub mod Lifecycle
pub mod Policy
pub mod Conflicts
