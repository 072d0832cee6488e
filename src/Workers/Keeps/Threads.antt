-- ===== src/Workers/Keeps/Threads.antt =====
-- The sections that the worker threads run keep the invariant (worker_main of
-- src/emulation_workers.cpp).
use viy.Base.{
  ℕ, ◌-◌, ◌≤◌, ◌≡◌, ◌⊎◌, refl, ap, false, some, List, [], ◌∷◌, arith, length, count, get_elem?, set,
  ◌==◌, if◌then◌else◌, if_rule,
}
use viy.Workers.Defs.{
  JobResult, QueuedJob, initializing, waiting, exited, executing, Pool, unavailable,
}
use viy.Workers.Calls.{no_workers}
use viy.Workers.Threads.{
  InitOutcome, ready, not_ready, ExecOutcome, returned, threw, threw_unknown, stamp, after_init,
  count_worker, take_front, take_job, drain_if_unusable, initialize, executed, finish,
}
use viy.Workers.Drain.{queue_tickets, result_tickets, settled_by, settle_locked_lem}
use viy.Workers.Invariant.{total-set, holds, busy, starting, Core, Inv}
use viy.Workers.Keeps.Drain.{drain_queued_locked-Inv}

module _ {J P : Type 0} (nothing : P) where
  drain_if_unusable-Inv :
      (p : Pool J P)
      → Core p
      → (p.stopping ≡ false) ⊎ (length p.queue ≡ 0)
      → Inv (drain_if_unusable nothing p)
  unfolding drain_if_unusable
  drain_if_unusable-Inv p v shut =
      if_rule Inv (no_workers p) _ _
        (λ h. drain_queued_locked-Inv nothing unavailable p.first_unavailable_reason p v)
        λ h. record { core = v; served = ground arith; closed = shut }

  module _ (i : ℕ) (p : Pool J P) (v : Inv p) where
    module _ (at : get_elem? p.threads i ≡ some initializing) where
      count_worker-Core :
          (o : InitOutcome)
          → Core (count_worker o (record p { threads = set p.threads i (after_init o) }))
      unfolding count_worker
      count_worker-Core ready = record {
        once =
            λ t. omega (arith, v.once t, total-set (holds t) p.threads i initializing waiting at);
        ordered = v.ordered;
        within = v.within;
        submitted_all = v.submitted_all;
        delivered_all = v.delivered_all;
        settled_all = v.settled_all;
        unsettled_all = v.unsettled_all;
        accounted_all = v.accounted_all;
        running_all =
            omega (arith, v.running_all, total-set busy p.threads i initializing waiting at);
        queue_bound = v.queue_bound;
        work_bound = v.work_bound;
        initialized_all =
            omega
              (arith, v.initialized_all, total-set starting p.threads i initializing waiting at);
        available_all = omega (arith, v.available_all);
      }
      count_worker-Core (not_ready error) = record {
        once = λ t. omega (arith, v.once t, total-set (holds t) p.threads i initializing exited at);
        ordered = v.ordered;
        within = v.within;
        submitted_all = v.submitted_all;
        delivered_all = v.delivered_all;
        settled_all = v.settled_all;
        unsettled_all = v.unsettled_all;
        accounted_all = v.accounted_all;
        running_all =
            omega (arith, v.running_all, total-set busy p.threads i initializing exited at);
        queue_bound = v.queue_bound;
        work_bound = v.work_bound;
        initialized_all =
            omega (arith, v.initialized_all, total-set starting p.threads i initializing exited at);
        available_all = omega (arith, v.available_all);
      }

      pub initialize-Inv : (o : InitOutcome) → Inv (initialize nothing i o p)
      unfolding initialize count_worker
      initialize-Inv ready = drain_if_unusable-Inv _ (count_worker-Core ready) v.closed
      initialize-Inv (not_ready error) =
          drain_if_unusable-Inv _ (count_worker-Core (not_ready error)) v.closed

    module _ (at : get_elem? p.threads i ≡ some waiting) where
      exited-Inv : Inv (record p { threads = set p.threads i exited })
      exited-Inv = record {
        core = record {
          once = λ t. omega (arith, v.once t, total-set (holds t) p.threads i waiting exited at);
          ordered = v.ordered;
          within = v.within;
          submitted_all = v.submitted_all;
          delivered_all = v.delivered_all;
          settled_all = v.settled_all;
          unsettled_all = v.unsettled_all;
          accounted_all = v.accounted_all;
          running_all = omega (arith, v.running_all, total-set busy p.threads i waiting exited at);
          queue_bound = v.queue_bound;
          work_bound = v.work_bound;
          initialized_all =
              omega (arith, v.initialized_all, total-set starting p.threads i waiting exited at);
          available_all = v.available_all;
        };
        served = v.served;
        closed = v.closed;
      }

      take_front-Inv : (q : List (QueuedJob J)) → q ≡ p.queue → Inv (take_front i q p)
      unfolding take_front count
      take_front-Inv [] e = v
      take_front-Inv (item ∷ rest) e = record {
        core = record {
          once = λ t. ground (
            arith,
            v.once t,
            e,
            ap (λ q. count t (queue_tickets q)) e,
            total-set (holds t) p.threads i waiting (executing item) at,
          );
          ordered = v.ordered;
          within = v.within;
          submitted_all = v.submitted_all;
          delivered_all = v.delivered_all;
          settled_all = v.settled_all;
          unsettled_all = omega (arith, v.unsettled_all, ap length e);
          accounted_all = v.accounted_all;
          running_all =
              omega (arith, v.running_all, total-set busy p.threads i waiting (executing item) at);
          queue_bound = ground (arith, v.queue_bound, ap length e);
          work_bound = v.work_bound;
          initialized_all = omega (
            arith,
            v.initialized_all,
            total-set starting p.threads i waiting (executing item) at,
          );
          available_all = v.available_all;
        };
        served = ground (arith, v.served, ap length e);
        closed = ground (arith, v.closed, ap length e);
      }

      pub take_job-Inv : Inv (take_job i p)
      unfolding take_job
      take_job-Inv = if_rule Inv p.stopping _ _ (λ h. exited-Inv) λ h. take_front-Inv p.queue refl

    module _ (item : QueuedJob J) (at : get_elem? p.threads i ≡ some (executing item)) where
      abbrev pub result_of : ExecOutcome P → JobResult P
      result_of outcome = stamp p.generation item.generation (executed nothing item outcome)

      abbrev pub freed : Pool J P
      freed = record p {
        running = if p.running == 0 then p.running else p.running - 1;
        threads = set p.threads i waiting;
      }

      pub ticket-result_of : (outcome : ExecOutcome P) → (result_of outcome).ticket ≡ item.ticket
      unfolding stamp executed
      ticket-result_of (returned s d x) = ground arith
      ticket-result_of (threw what) = ground arith
      ticket-result_of threw_unknown = ground arith

      fresh : (t : ℕ) → t ≡ item.ticket → count t (result_tickets p.results) ≡ 0
      fresh t e =
          ground (arith, v.once t, total-set (holds t) p.threads i (executing item) waiting at)

      busy_one : 1 ≤ p.running
      busy_one =
          omega (arith, v.running_all, total-set busy p.threads i (executing item) waiting at)

      settled-Inv : (r : JobResult P) → r.ticket ≡ item.ticket → Inv (settled_by r freed)
      unfolding count
      settled-Inv r e = record {
        core = record {
          once = λ t.
              ground
                (arith, e, v.once t, total-set (holds t) p.threads i (executing item) waiting at);
          ordered = v.ordered;
          within = v.within;
          submitted_all = v.submitted_all;
          delivered_all = v.delivered_all;
          settled_all = omega (arith, v.settled_all);
          unsettled_all = ground (
            arith,
            v.unsettled_all,
            v.running_all,
            total-set busy p.threads i (executing item) waiting at,
          );
          accounted_all = omega (arith, v.accounted_all, v.unsettled_all, busy_one);
          running_all =
              ground (arith, v.running_all, total-set busy p.threads i (executing item) waiting at);
          queue_bound = v.queue_bound;
          work_bound = v.work_bound;
          initialized_all = omega (
            arith,
            v.initialized_all,
            total-set starting p.threads i (executing item) waiting at,
          );
          available_all = v.available_all;
        };
        served = v.served;
        closed = v.closed;
      }

      -- An execution settles its own ticket, which was not settled before.
      pub finish_lem :
          (outcome : ExecOutcome P)
          → finish nothing i item outcome p ≡ settled_by (result_of outcome) freed
      unfolding finish
      finish_lem outcome =
          settle_locked_lem (result_of outcome) freed (fresh _ (ticket-result_of outcome))

      pub finish-Inv : (outcome : ExecOutcome P) → Inv (finish nothing i item outcome p)
      finish-Inv outcome =
          rw (finish_lem outcome) (settled-Inv (result_of outcome) (ticket-result_of outcome))
