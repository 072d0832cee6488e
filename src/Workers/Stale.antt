-- ===== src/Workers/Stale.antt =====
-- What becomes of the jobs that wait or run when cancel_pending is called
-- (src/emulation_workers.cpp).
use viy.Base.{
  ℕ, zero, suc, ◌+◌, ◌%◌, ◌^◌, ◌-◌, ◌≤◌, ◌<◌, ◌≡◌, ◌≢◌, refl, ap, ◌∙◌, false, Option, none, some,
  List, [], ◌∷◌, All, arith, length, count, get_elem?,
}
use viy.Workers.Defs.{
  cancelled, JobResult, QueuedJob, Worker, initializing, waiting, exited, executing, Pool, find,
  construct,
}
use viy.Workers.Calls.{cancel_pending}
use viy.Workers.Threads.{ExecOutcome, executed, finish}
use viy.Workers.Events.{Event, run}
use viy.Workers.Drain.{queue_tickets}
use viy.Workers.Invariant.{Inv}
use viy.Workers.Keeps.Drain.{cancel_pending-Inv}
use viy.Workers.Run.{run-construct-Inv}
use viy.Workers.Settle.{finish-result}
use viy.Workers.Cancel.{cancel_drained, cancel_pending-settles}
use viy.Workers.Stamped.{UpTo, Stamped}
use viy.Workers.StampedRun.{run-Stamped, construct-Stamped}

module _ {J : Type 0} where
  -- What a predicate says of the job that a thread executes, if it executes one.
  abbrev pub AtWorker : (QueuedJob J → Type 0) → Option (Worker J) → Type 0
  AtWorker K none = Unit
  AtWorker K (some initializing) = Unit
  AtWorker K (some waiting) = Unit
  AtWorker K (some exited) = Unit
  AtWorker K (some (executing item)) = K item

  at_worker :
      (K : QueuedJob J → Type 0) (w : Option (Worker J))
      → ((item : QueuedJob J) → w ≡ some (executing item) → K item)
      → AtWorker K w
  at_worker K none h = tt
  at_worker K (some initializing) h = tt
  at_worker K (some waiting) h = tt
  at_worker K (some exited) h = tt
  at_worker K (some (executing item)) h = h item refl

  All-queued :
      (K : QueuedJob J → Type 0) (q : List (QueuedJob J))
      → ((item : QueuedJob J) → count item.ticket (queue_tickets q) ≢ 0 → K item)
      → All K q
  unfolding count
  All-queued K [] h = tt
  All-queued K (item ∷ q) h =
      (h item (ground arith), All-queued K q λ other found. h other (ground arith))

  executing-UpTo :
      (g i : ℕ) (item : QueuedJob J) (ws : List (Worker J))
      → All (UpTo g) ws
      → get_elem? ws i ≡ some (executing item)
      → item.generation ≤ g
  executing-UpTo g i item [] us e = ground arith
  executing-UpTo g zero item (w ∷ ws) (u, us) e = at_first w u e
    where
      at_first :
          (v : Worker J)
          → UpTo g v
          → ◌≡◌ {A = Option (Worker J)} (some v) (some (executing item))
          → item.generation ≤ g
      at_first initializing u e = ground arith
      at_first waiting u e = ground arith
      at_first exited u e = ground arith
      at_first (executing other) u e = ground arith
  executing-UpTo g (suc i) item (w ∷ ws) (u, us) e = executing-UpTo g i item ws us e

module _ {J P : Type 0} where
  -- The result of a job that waited.
  abbrev pub Withdrawn : Pool J P → QueuedJob J → Type 0
  Withdrawn after item =
      (r : JobResult P) × (find item.ticket after.results ≡ some r) × (r.status ≡ cancelled)

module _ {J P : Type 0} (nothing : P) where
  -- The result of a job that ran when the generation moved on.
  abbrev pub Stale : ℕ → ExecOutcome P → Pool J P → QueuedJob J → Type 0
  Stale i outcome after item =
      (r : JobResult P) × (find item.ticket (finish nothing i item outcome after).results ≡ some r)
      × (r.status ≡ cancelled)
      × (r.payload ≡ (executed nothing item outcome).payload)

  cancelled-Stale :
      (i : ℕ) (item : QueuedJob J) (outcome : ExecOutcome P) (p : Pool J P)
      → Inv p
      → Stamped (2 ^ 64 - 2) p
      → p.stopping ≡ false
      → get_elem? p.threads i ≡ some (executing item)
      → Stale i outcome (cancel_pending nothing p) item
  cancelled-Stale i item outcome p v s e at =
      let after = cancel_drained nothing p v.core e in
      let threads : (cancel_pending nothing p).threads ≡ p.threads =
        ap (λ (q : Pool J P). q.threads) after in
      let generation : (cancel_pending nothing p).generation ≡ (p.generation + 1) % 2 ^ 64 =
        ap (λ (q : Pool J P). q.generation) after in
      let old = executing-UpTo p.generation i item p.threads s.1 at in
      let (r, found, payload, status) =
        finish-result nothing i item outcome (cancel_pending nothing p)
          (cancel_pending-Inv nothing p v)
          (ap (λ (ws : List (Worker J)). get_elem? ws i) threads ∙ at) in
      (r, found, ground (arith, s.0), payload)

  cancel_pending-Stamped_jobs :
      (n i : ℕ) (outcome : ExecOutcome P) (p : Pool J P)
      → Inv p
      → Stamped n p
      → n < 2 ^ 64 - 1
      → p.stopping ≡ false
      → All (Withdrawn (cancel_pending nothing p)) p.queue
        × ((cancel_pending nothing p).queue ≡ [])
        × AtWorker (Stale i outcome (cancel_pending nothing p)) (get_elem? p.threads i)
  cancel_pending-Stamped_jobs n i outcome p v s le e =
      let g : p.generation < 2 ^ 64 = omega (arith, s.0) in
      (
        All-queued (Withdrawn (cancel_pending nothing p)) p.queue (λ item h.
            let (r, found, status, reason, payload) =
              (cancel_pending-settles nothing item.ticket p v e g h).0 in
            (r, found, status)),
        ap (λ (q : Pool J P). q.queue) (cancel_drained nothing p v.core e),
        at_worker (Stale i outcome (cancel_pending nothing p)) (get_elem? p.threads i)
            λ item here. cancelled-Stale i item outcome p v (omega (arith, s.0), s.1, s.2) e here,
      )

  -- When a pool that has gone through any fewer than 2^64 - 2 events, and is not shut down, is
  -- cancelled, every job that waits is settled as cancelled and the queue is empty; and the job that
  -- a thread executes, when its execution ends next, in whatever way, is settled as cancelled with
  -- the payload of that execution.
  pub run-cancel_pending :
      (workers max_queued created : ℕ) (es : List (Event J P)) (i : ℕ) (outcome : ExecOutcome P)
      → (run nothing es (construct workers max_queued created)).1.stopping ≡ false
      → length es + 2 < 2 ^ 64
      → All
          (Withdrawn
            (cancel_pending nothing (run nothing es (construct workers max_queued created)).1))
          (run nothing es (construct workers max_queued created)).1.queue
        × ((cancel_pending nothing (run nothing es (construct workers max_queued created)).1).queue
            ≡ [])
        × AtWorker
            (Stale i outcome
              (cancel_pending nothing (run nothing es (construct workers max_queued created)).1))
            (get_elem? (run nothing es (construct workers max_queued created)).1.threads i)
  run-cancel_pending workers max_queued created es i outcome e le =
      let new : Pool J P = construct workers max_queued created in
      let s =
        run-Stamped nothing 1 es new (omega arith)
          (construct-Stamped J P workers max_queued created) in
      cancel_pending-Stamped_jobs (1 + length es) i outcome (run nothing es new).1
        (run-construct-Inv nothing workers max_queued created es) s (omega arith) e
