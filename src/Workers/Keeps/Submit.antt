-- ===== src/Workers/Keeps/Submit.antt =====
-- Submitting a job keeps the invariant (try_submit of src/emulation_workers.cpp).
use viy.Base.{
  ℕ, ◌+◌, ◌≤◌, ◌≡◌, ◌⊎◌, inl, false, Option, List, [], ◌∷◌, ◌++◌, arith, length, length-append,
  count, ◌==◌, if◌then◌else◌, if_rule,
}
use viy.Workers.Defs.{u64_max, JobResult, QueuedJob, Pool, refused_result, unavailable, or_default}
use viy.Workers.Calls.{refuses, no_workers, admit, try_submit}
use viy.Workers.Drain.{queue_tickets, settled_by, settle_locked_lem}
use viy.Workers.Invariant.{places, Core, Inv}

module _ {J P : Type 0} (nothing : P) where
  -- An accepted job: a ticket more, and the job in the queue or refused at once.
  module _ (start : ℕ) (job : J) (p : Pool J P) (v : Inv p) (open_for : refuses p ≡ false) where
    abbrev item : QueuedJob J
    item = record {
      ticket = p.next_ticket;
      generation = p.generation;
      function_start = start;
      job = job;
    }

    abbrev ticketed : Pool J P
    ticketed = record p {
      next_ticket = p.next_ticket + 1;
      submitted = p.submitted + 1;
      unsettled = p.unsettled + 1;
    }

    fresh_ticket : places p.next_ticket p ≡ 0
    fresh_ticket = ground (arith, v.once p.next_ticket)

    room :
        (p.max_queued_jobs ≡ 0)
        ⊎ (p.next_ticket + 1 ≤ p.next_delivery + p.requested_workers + p.max_queued_jobs)
    unfolding refuses
    room = ground (arith, v.ordered)

    queue_room : (p.max_queued_jobs ≡ 0) ⊎ (length p.queue + 1 ≤ p.max_queued_jobs)
    unfolding refuses
    queue_room = ground arith

    below_max : p.next_ticket + 1 ≤ u64_max
    unfolding refuses
    below_max = ground (arith, v.within)

    count-append_one :
        (t : ℕ) (q : List (QueuedJob J))
        → count t (queue_tickets (q ++ item ∷ []))
          ≡ count t (queue_tickets q) + (if p.next_ticket == t then 1 else 0)
    unfolding count
    count-append_one t [] = ground arith
    count-append_one t (x ∷ q) = ground (arith, count-append_one t q)

    queued-Core : Core (record ticketed { queue = p.queue ++ item ∷ [] })
    queued-Core = record {
      once = λ t. ground (arith, v.once t, count-append_one t p.queue, v.ordered);
      ordered = omega arith;
      within = below_max;
      submitted_all = omega arith;
      delivered_all = v.delivered_all;
      settled_all = v.settled_all;
      unsettled_all = omega (arith, length-append p.queue (item ∷ []));
      accounted_all = omega (arith, v.accounted_all);
      running_all = v.running_all;
      queue_bound = ground (arith, queue_room, length-append p.queue (item ∷ []));
      work_bound = room;
      initialized_all = v.initialized_all;
      available_all = v.available_all;
    }

    refusal : JobResult P
    unfolding refused_result
    refusal =
        refused_result nothing unavailable
          (or_default p.first_unavailable_reason "no emulation worker is available") item

    refused-Core : Core (settled_by refusal ticketed)
    unfolding refusal refused_result count
    refused-Core = record {
      once = λ t. ground (arith, v.once t, v.ordered);
      ordered = omega arith;
      within = below_max;
      submitted_all = omega arith;
      delivered_all = v.delivered_all;
      settled_all = omega arith;
      unsettled_all = omega arith;
      accounted_all = omega (arith, v.accounted_all);
      running_all = v.running_all;
      queue_bound = v.queue_bound;
      work_bound = room;
      initialized_all = v.initialized_all;
      available_all = v.available_all;
    }

    stays_open : p.stopping ≡ false
    unfolding refuses
    stays_open = ground arith

    admitted-Inv : Inv (admit nothing item ticketed)
    unfolding admit refusal refused_result
    admitted-Inv =
        if_rule Inv (no_workers ticketed) _ _
          (λ h.
            rw (settle_locked_lem refusal ticketed (omega (arith, fresh_ticket)))
              (record { core = refused-Core; served = v.served; closed = v.closed }))
          λ h. record { core = queued-Core; served = ground arith; closed = inl stays_open }

  pub try_submit-Inv :
      (start : ℕ) (job : J) (p : Pool J P) → Inv p → Inv (try_submit nothing start job p).1
  unfolding try_submit
  try_submit-Inv start job p v =
      if_rule (λ (r : Option ℕ × Pool J P). Inv r.1) (refuses p) _ _ (λ h. v)
        λ h. admitted-Inv start job p v h
