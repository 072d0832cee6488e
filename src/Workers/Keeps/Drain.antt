-- ===== src/Workers/Keeps/Drain.antt =====
-- Draining, cancelling and shutting down keep the invariant (src/emulation_workers.cpp).
use Prim.Native.String.{String}
use viy.Base.{ℕ, ◌+◌, ◌%◌, ◌^◌, ◌≤◌, ◌≡◌, inr, Bool, true, arith, count, if_rule}
use viy.Workers.Defs.{JobStatus, Pool, drain_queued_locked, cancelled}
use viy.Workers.Calls.{cancel_pending, shutdown}
use viy.Workers.Drain.{count-drained, length-drained, drained_pool, drain_loop_lem}
use viy.Workers.Invariant.{places, Core, Inv}

module _ {J P : Type 0} (nothing : P) where
  module _ (status : JobStatus) (reason : String) where
    pub drain_queued_locked_lem :
        (p : Pool J P)
        → ((t : ℕ) → places t p ≤ 1)
        → drain_queued_locked nothing status reason p ≡ drained_pool nothing status reason p.queue p
    unfolding drain_queued_locked
    drain_queued_locked_lem p h =
        drain_loop_lem nothing status reason p.queue p λ t. omega (arith, h t)

    drained_pool-Core :
        (p : Pool J P) → Core p → Core (drained_pool nothing status reason p.queue p)
    unfolding count
    drained_pool-Core p v = record {
      once = λ t. omega (arith, v.once t, count-drained nothing status reason t p.queue p.results);
      ordered = v.ordered;
      within = v.within;
      submitted_all = v.submitted_all;
      delivered_all = v.delivered_all;
      settled_all =
          omega (arith, v.settled_all, length-drained nothing status reason p.queue p.results);
      unsettled_all = omega (arith, v.unsettled_all);
      accounted_all = omega (
        arith,
        v.accounted_all,
        v.unsettled_all,
        length-drained nothing status reason p.queue p.results,
      );
      running_all = v.running_all;
      queue_bound = inr (omega arith);
      work_bound = v.work_bound;
      initialized_all = v.initialized_all;
      available_all = v.available_all;
    }

    pub places-le-one : (p : Pool J P) → Core p → (t : ℕ) → places t p ≤ 1
    places-le-one p v t = ground (arith, v.once t)

    -- A drained pool has no job in its queue.
    pub drain_queued_locked-Inv :
        (p : Pool J P) → Core p → Inv (drain_queued_locked nothing status reason p)
    drain_queued_locked-Inv p v = rw (drain_queued_locked_lem p (places-le-one p v)) (record {
      core = drained_pool-Core p v;
      served = inr (omega arith);
      closed = inr (omega arith);
    })

  -- The generation and the stopping flag do not matter to the counters.
  pub flagged-Core :
      (p : Pool J P) (generation : ℕ) (stopping : Bool)
      → Core p
      → Core (record p { generation = generation; stopping = stopping })
  flagged-Core p generation stopping v = record {
    once = v.once;
    ordered = v.ordered;
    within = v.within;
    submitted_all = v.submitted_all;
    delivered_all = v.delivered_all;
    settled_all = v.settled_all;
    unsettled_all = v.unsettled_all;
    accounted_all = v.accounted_all;
    running_all = v.running_all;
    queue_bound = v.queue_bound;
    work_bound = v.work_bound;
    initialized_all = v.initialized_all;
    available_all = v.available_all;
  }

  pub cancel_pending-Inv : (p : Pool J P) → Inv p → Inv (cancel_pending nothing p)
  unfolding cancel_pending
  cancel_pending-Inv p v =
      if_rule Inv p.stopping _ _ (λ h. v)
        λ h.
          drain_queued_locked-Inv cancelled "emulation generation cancelled" _
            (flagged-Core p ((p.generation + 1) % 2 ^ 64) p.stopping v.core)

  pub shutdown-Inv : (p : Pool J P) → Inv p → Inv (shutdown nothing p)
  unfolding shutdown
  shutdown-Inv p v =
      if_rule Inv p.stopping _ _ (λ h. v)
        λ h.
          drain_queued_locked-Inv cancelled "worker pool shut down" _
            (flagged-Core p ((p.generation + 1) % 2 ^ 64) true v.core)
