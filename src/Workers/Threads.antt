-- ===== src/Workers/Threads.antt =====
-- The three sections of `worker_main` that run under the mutex (src/emulation_workers.cpp).
use Prim.Native.String.{String}
use viy.Base.{ℕ, ◌+◌, ◌-◌, not, ◌&&◌, List, [], ◌∷◌, set, ◌==◌, if◌then◌else◌}
use viy.Workers.Defs.{
  cancelled, unavailable, failed, JobStatus, JobResult, QueuedJob, Worker, waiting, exited,
  executing, Pool, is_cancelled, settle_locked, drain_queued_locked, or_default,
}
use viy.Workers.Calls.{no_workers}

-- Whether a worker's executor could be made, with `initialization_error` where not.
pub data InitOutcome : Type 0 where
  ready : InitOutcome
  not_ready : String → InitOutcome

-- How `executor->execute` ends: a result, an exception with its message, or another one.
pub data ExecOutcome (P : Type 0) : Type 0 where
  returned : JobStatus → String → P → ExecOutcome P
  threw : String → ExecOutcome P
  threw_unknown : ExecOutcome P

module _ {P : Type 0} where
  -- a result of an older generation is turned into a cancellation, its evidence kept
  unfoldable pub stamp : ℕ → ℕ → JobResult P → JobResult P
  stamp now generation r =
      if not (now == generation) && not (is_cancelled r.status)
      then record r { status = cancelled; diagnostic = "emulation generation cancelled" }
      else r

abbrev pub after_init : {J : Type 0} → InitOutcome → Worker J
after_init ready = waiting
after_init (not_ready error) = exited

module _ {J P : Type 0} where
  -- the first section of worker_main
  unfoldable pub count_worker : InitOutcome → Pool J P → Pool J P
  count_worker ready p = record p {
    initialized_workers = p.initialized_workers + 1;
    available_workers = p.available_workers + 1;
  }
  count_worker (not_ready error) p = record p {
    initialized_workers = p.initialized_workers + 1;
    unavailable_workers = p.unavailable_workers + 1;
    first_unavailable_reason =
        or_default p.first_unavailable_reason (or_default error "worker executor is unavailable");
  }

  -- the second section: wait for work, take the front of the queue
  unfoldable pub take_front : ℕ → List (QueuedJob J) → Pool J P → Pool J P
  take_front i [] p = p
  take_front i (item ∷ rest) p = record p {
    queue = rest;
    running = p.running + 1;
    threads = set p.threads i (executing item);
  }

  unfoldable pub take_job : ℕ → Pool J P → Pool J P
  unfolding take_front
  take_job i p =
      if p.stopping then record p { threads = set p.threads i exited } else take_front i p.queue p

module _ {J P : Type 0} (nothing : P) where
  unfoldable pub drain_if_unusable : Pool J P → Pool J P
  unfolding drain_queued_locked
  drain_if_unusable p =
      if no_workers p
      then drain_queued_locked nothing unavailable p.first_unavailable_reason p
      else p

  unfoldable pub initialize : ℕ → InitOutcome → Pool J P → Pool J P
  unfolding count_worker drain_if_unusable
  initialize i outcome p =
      drain_if_unusable
        (count_worker outcome (record p { threads = set p.threads i (after_init outcome) }))

  -- the result of an execution, with the ticket and start of the job it ran
  unfoldable pub executed : QueuedJob J → ExecOutcome P → JobResult P
  executed item (returned status diagnostic payload) = record {
    ticket = item.ticket;
    function_start = item.function_start;
    status = status;
    diagnostic = diagnostic;
    payload = payload;
  }
  executed item (threw what) = record {
    ticket = item.ticket;
    function_start = item.function_start;
    status = failed;
    diagnostic = what;
    payload = nothing;
  }
  executed item threw_unknown = record {
    ticket = item.ticket;
    function_start = item.function_start;
    status = failed;
    diagnostic = "worker executor threw";
    payload = nothing;
  }

  -- the third section
  unfoldable pub finish : ℕ → QueuedJob J → ExecOutcome P → Pool J P → Pool J P
  unfolding executed stamp settle_locked
  finish i item outcome p =
      settle_locked (stamp p.generation item.generation (executed item outcome)) (record p {
        running = if p.running == 0 then p.running else p.running - 1;
        threads = set p.threads i waiting;
      })
