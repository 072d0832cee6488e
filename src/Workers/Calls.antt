-- ===== src/Workers/Calls.antt =====
-- The operations of `EmulationWorkerPool` (src/emulation_workers.cpp), each under the pool's mutex.
use viy.Base.{
  ℕ, zero, suc, ◌+◌, ◌-◌, ◌%◌, ◌^◌, Bool, true, not, ◌&&◌, ◌||◌, Option, none, some, List, [], ◌∷◌,
  ◌++◌, length, leb, ltb, ◌==◌, if◌then◌else◌,
}
use viy.Workers.Defs.{
  u64_max, cancelled, unavailable, JobResult, QueuedJob, Pool, find, erase, settle_locked,
  refused_result, drain_queued_locked, or_default,
}

module _ {J P : Type 0} where
  -- try_submit refuses: shut down, queue full, too much undelivered work, or no ticket left.
  unfoldable pub refuses : Pool J P → Bool
  refuses p =
      p.stopping
      || not (p.max_queued_jobs == 0) && leb p.max_queued_jobs (length p.queue)
      || not (p.max_queued_jobs == 0)
        && leb p.requested_workers (p.next_ticket - p.next_delivery)
        && leb p.max_queued_jobs (p.next_ticket - p.next_delivery - p.requested_workers)
      || p.next_ticket == u64_max

  abbrev pub no_workers : Pool J P → Bool
  no_workers p = p.initialized_workers == p.requested_workers && p.available_workers == 0

  -- the entry at the front of the delivery order leaves the map
  unfoldable pub deliver : Pool J P → Pool J P
  unfolding erase
  deliver p = record p {
    results = erase p.next_delivery p.results;
    next_delivery = p.next_delivery + 1;
    delivered = p.delivered + 1;
  }

  -- try_take_next, and wait_take_next once its wait is over
  unfoldable pub try_take_next : Pool J P → Option (JobResult P) × Pool J P
  unfolding find deliver
  try_take_next p = elim (find p.next_delivery p.results) [
    | none ↦ (none, p)
    | some r ↦ (some r, deliver p)
  ]

  unfoldable pub consed :
      JobResult P → List (JobResult P) × Pool J P → List (JobResult P) × Pool J P
  consed r (rs, p) = (r ∷ rs, p)

  -- the loop of take_ready: `taken` results so far, `fuel` the most rounds left
  unfoldable pub take_loop : ℕ → ℕ → ℕ → Pool J P → List (JobResult P) × Pool J P
  unfolding find deliver consed
  take_loop zero maximum taken p = ([], p)
  take_loop (suc fuel) maximum taken p =
      let more : List (JobResult P) × Pool J P = elim (find p.next_delivery p.results) [
        | none ↦ ([], p)
        | some r ↦ consed r (take_loop fuel maximum (taken + 1) (deliver p))
      ] in
      if maximum == 0 || ltb taken maximum then more else ([], p)

  -- Each round takes one entry out of the map, so their number is fuel enough.
  unfoldable pub take_ready : ℕ → Pool J P → List (JobResult P) × Pool J P
  unfolding take_loop
  take_ready maximum p = take_loop (length p.results) maximum 0 p

module _ {J P : Type 0} (nothing : P) where
  -- what try_submit does with an accepted job, after the ticket is assigned
  unfoldable pub admit : QueuedJob J → Pool J P → Pool J P
  unfolding settle_locked refused_result
  admit item p =
      if no_workers p
      then settle_locked
          (refused_result nothing unavailable
            (or_default p.first_unavailable_reason "no emulation worker is available") item)
          p
      else record p { queue = p.queue ++ item ∷ [] }

  unfoldable pub try_submit : ℕ → J → Pool J P → Option ℕ × Pool J P
  unfolding refuses admit
  try_submit function_start job p = if refuses p then (none, p) else (
    some p.next_ticket,
    admit
        (record {
          ticket = p.next_ticket;
          generation = p.generation;
          function_start = function_start;
          job = job;
        })
        (record p {
          next_ticket = p.next_ticket + 1;
          submitted = p.submitted + 1;
          unsettled = p.unsettled + 1;
        }),
  )

  unfoldable pub cancel_pending : Pool J P → Pool J P
  unfolding drain_queued_locked
  cancel_pending p =
      if p.stopping
      then p
      else drain_queued_locked nothing cancelled "emulation generation cancelled"
          (record p { generation = (p.generation + 1) % 2 ^ 64 })

  -- shutdown up to the joins, which wait until every thread has left `worker_main`
  unfoldable pub shutdown : Pool J P → Pool J P
  unfolding drain_queued_locked
  shutdown p =
      if p.stopping
      then p
      else drain_queued_locked nothing cancelled "worker pool shut down"
          (record p { stopping = true; generation = (p.generation + 1) % 2 ^ 64 })
