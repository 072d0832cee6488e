-- ===== src/Workers/Defs.antt =====
-- The state of `EmulationWorkerPool::Impl` (src/emulation_workers.cpp) and the operations that run
-- under its mutex. The worker threads' local variables are part of the state.
-- `J` is the part of a job that the pool hands on unread, `P` that of a result.
use Prim.Native.String.{String}
use text.Mathlib.Text.{◌==◌ as str_eq}
use viy.Base.{
  ℕ, ◌+◌, ◌-◌, ◌^◌, Bool, true, false, Option, none, some, List, [], ◌∷◌, replicate, ◌==◌,
  if◌then◌else◌, min, max,
}

-- std::numeric_limits<uint64_t>::max()
abbrev pub u64_max : ℕ
u64_max = 2 ^ 64 - 1

-- EmulationJobStatus
pub data JobStatus : Type 0 where
  completed cancelled unavailable failed : JobStatus

-- EmulationJobResult; `payload` is `runs`, `merged` and `decoder_audit`.
pub record JobResult (P : Type 0) : Type 0 where
  pub ticket : ℕ
  pub function_start : ℕ
  pub status : JobStatus
  pub diagnostic : String
  pub payload : P

-- Impl::QueuedJob; `function_start` is `job.function.start`, `job` is the rest of the job.
pub record QueuedJob (J : Type 0) : Type 0 where
  pub ticket : ℕ
  pub generation : ℕ
  pub function_start : ℕ
  pub job : J

-- Where a thread is in `worker_main`; `executing` holds its local `item`.
pub data Worker (J : Type 0) : Type 0 where
  initializing waiting exited : Worker J
  executing : QueuedJob J → Worker J

pub record Pool (J P : Type 0) : Type 0 where
  pub requested_workers : ℕ
  pub max_queued_jobs : ℕ
  pub generation : ℕ
  pub threads : List (Worker J)
  pub queue : List (QueuedJob J)
  pub results : List (JobResult P)
  pub first_unavailable_reason : String
  pub next_ticket : ℕ
  pub next_delivery : ℕ
  pub submitted : ℕ
  pub settled : ℕ
  pub delivered : ℕ
  pub unsettled : ℕ
  pub initialized_workers : ℕ
  pub available_workers : ℕ
  pub unavailable_workers : ℕ
  pub running : ℕ
  pub stopping : Bool

abbrev pub is_cancelled : JobStatus → Bool
is_cancelled cancelled = true
is_cancelled completed = false
is_cancelled unavailable = false
is_cancelled failed = false

-- completed.find(ticket)
module _ {P : Type 0} where
  unfoldable pub find : ℕ → List (JobResult P) → Option (JobResult P)
  find t [] = none
  find t (r ∷ rs) = if r.ticket == t then some r else find t rs

  -- completed.erase(it)
  unfoldable pub erase : ℕ → List (JobResult P) → List (JobResult P)
  erase t [] = []
  erase t (r ∷ rs) = if r.ticket == t then rs else r ∷ erase t rs

abbrev pub or_default : String → String → String
or_default s d = if str_eq s "" then d else s

module _ {J P : Type 0} where
  -- settle_locked: an emplace that does nothing where the ticket is there already
  unfoldable pub settle_locked : JobResult P → Pool J P → Pool J P
  unfolding find
  settle_locked r p = elim (find r.ticket p.results) [
    | some old ↦ p
    | none ↦ record p {
      results = r ∷ p.results;
      settled = p.settled + 1;
      unsettled = if p.unsettled == 0 then p.unsettled else p.unsettled - 1;
    }
  ]

module _ {J P : Type 0} (nothing : P) where
  -- cancelled_result, unavailable_result
  unfoldable pub refused_result : JobStatus → String → QueuedJob J → JobResult P
  refused_result status reason item = record {
    ticket = item.ticket;
    function_start = item.function_start;
    status = status;
    diagnostic = reason;
    payload = nothing;
  }

  -- the loop of drain_queued_locked, on the queue
  unfoldable pub drain_loop : JobStatus → String → List (QueuedJob J) → Pool J P → Pool J P
  unfolding settle_locked refused_result
  drain_loop status reason [] p = p
  drain_loop status reason (item ∷ rest) p =
      drain_loop status reason rest
        (settle_locked (refused_result status reason item) (record p { queue = rest }))

  unfoldable pub drain_queued_locked : JobStatus → String → Pool J P → Pool J P
  unfolding drain_loop
  drain_queued_locked status reason p = drain_loop status reason p.queue p

-- The constructor: `created` threads could be started of `worker_count`.
unfoldable pub construct : {J P : Type 0} → ℕ → ℕ → ℕ → Pool J P
construct worker_count max_queued created = record {
  requested_workers = requested;
  max_queued_jobs = max_queued;
  generation = 1;
  threads = replicate (min created requested) initializing;
  queue = [];
  results = [];
  first_unavailable_reason = if missing == 0 then "" else "worker thread creation failed";
  next_ticket = 1;
  next_delivery = 1;
  submitted = 0;
  settled = 0;
  delivered = 0;
  unsettled = 0;
  initialized_workers = missing;
  available_workers = 0;
  unavailable_workers = missing;
  running = 0;
  stopping = false;
}
  where
    requested : ℕ
    requested = max worker_count 1

    missing : ℕ
    missing = requested - created
