-- ===== src/Workers/Settle.antt =====
-- How jobs are settled: at the end of an execution, by a cancellation, by a shutdown
-- (src/emulation_workers.cpp).
use viy.Base.{
  ℕ, zero, suc, ◌+◌, ◌-◌, ◌≤◌, ◌≡◌, ◌≢◌, refl, ap, inl, inr, some, List, [], ◌∷◌, arith, length,
  count, get_elem?, ◌==◌, if◌then◌else◌, Bool-cases,
}
use viy.Workers.Defs.{
  cancelled, JobResult, QueuedJob, Worker, initializing, waiting, exited, executing, Pool, find,
}
use viy.Workers.Calls.{deliver, consed, take_loop, take_ready}
use viy.Workers.Threads.{ExecOutcome, stamp, executed, finish}
use viy.Workers.Drain.{queue_tickets, result_tickets}
use viy.Workers.Invariant.{total, holds, busy, Inv}
use viy.Workers.Keeps.Deliver.{deliver-Inv}
use viy.Workers.Keeps.Threads.{ticket-result_of, finish_lem}
use viy.Workers.Delivery.{numbers_from, take_loop-InOrder}

module _ {P : Type 0} where
  find-some :
      (t : ℕ) (rs : List (JobResult P))
      → count t (result_tickets rs) ≢ 0
      → (r : JobResult P) × (find t rs ≡ some r)
  unfolding find count
  find-some t [] h = absurd (h refl)
  find-some t (r ∷ rs) h = elim (Bool-cases (r.ticket == t)) [
    | inl e ↦ (r, rw e refl)
    | inr e ↦ rw e (find-some t rs λ z. h (rw e z))
  ]

module _ {P : Type 0} where
  stamp-payload :
      (now generation : ℕ) (r : JobResult P) → (stamp now generation r).payload ≡ r.payload
  unfolding stamp
  stamp-payload now generation r = ground arith

  stamp-status :
      (now generation : ℕ) (r : JobResult P)
      → (stamp now generation r).status ≡ (if now == generation then r.status else cancelled)
  unfolding stamp
  stamp-status now generation r = ground arith

module _ {J : Type 0} where
  count-le-length : (t : ℕ) (q : List (QueuedJob J)) → count t (queue_tickets q) ≤ length q
  unfolding count
  count-le-length t [] = omega arith
  count-le-length t (item ∷ q) = ground (arith, count-le-length t q)

  holds-le-busy : (t : ℕ) (ws : List (Worker J)) → total (holds t) ws ≤ total busy ws
  unfolding total
  holds-le-busy t [] = omega arith
  holds-le-busy t (initializing ∷ ws) = omega (arith, holds-le-busy t ws)
  holds-le-busy t (waiting ∷ ws) = omega (arith, holds-le-busy t ws)
  holds-le-busy t (exited ∷ ws) = omega (arith, holds-le-busy t ws)
  holds-le-busy t (executing item ∷ ws) = ground (arith, holds-le-busy t ws)

module _ {J P : Type 0} where
  module _ (p : Pool J P) (v : Inv p) (idle : p.unsettled ≡ 0) where
    next_found :
        p.next_delivery + 1 ≤ p.next_ticket
        → (r : JobResult P) × (find p.next_delivery p.results ≡ some r)
    unfolding count
    next_found h = find-some p.next_delivery p.results (
        ground (
          arith,
          v.once p.next_delivery,
          v.unsettled_all,
          v.running_all,
          holds-le-busy p.next_delivery p.threads,
          count-le-length p.next_delivery p.queue,
        ))

  take_loop-length :
      (n taken : ℕ) (p : Pool J P)
      → Inv p
      → p.unsettled ≡ 0
      → n + p.next_delivery ≡ p.next_ticket
      → length (take_loop n 0 taken p).0 ≡ n
  unfolding take_loop consed deliver
  take_loop-length zero taken p v idle e = refl
  take_loop-length (suc n) taken p v idle e =
      let found = next_found p v idle (omega arith) in
      rw (found.1, consed)
        (omega (
          arith,
          take_loop-length n (taken + 1) (deliver p) (deliver-Inv p found.0 found.1 v) idle
              (omega arith),
        ))

  -- Once no accepted job is unsettled, one unlimited take_ready hands over every result that the
  -- owner has not had, in the order of their tickets, and none is left behind.
  pub take_ready_complete :
      (p : Pool J P)
      → Inv p
      → p.unsettled ≡ 0
      → (result_tickets (take_ready 0 p).0
          ≡ numbers_from p.next_delivery (p.next_ticket - p.next_delivery))
        × ((take_ready 0 p).1.next_delivery ≡ p.next_ticket)
  unfolding take_ready
  take_ready_complete p v idle =
      let n : ℕ = p.next_ticket - p.next_delivery in
      let enough : length p.results ≡ n =
        omega (arith, v.settled_all, v.accounted_all, v.submitted_all, v.delivered_all) in
      let all = take_loop-length n 0 p v idle (omega (arith, v.ordered)) in
      let order = take_loop-InOrder n 0 0 p in
      rw enough (ground (arith, order.0, all), omega (arith, order.1, all, v.ordered))

  -- A finished execution is found under its ticket: with the status that the executor gave if the
  -- generation has not changed since the job was submitted, and as cancelled if it has; the payload
  -- is the executor's in both cases.
  pub finish-result :
      (nothing : P) (i : ℕ) (item : QueuedJob J) (outcome : ExecOutcome P) (p : Pool J P)
      → Inv p
      → get_elem? p.threads i ≡ some (executing item)
      → (r : JobResult P) × (find item.ticket (finish nothing i item outcome p).results ≡ some r)
        × (r.payload ≡ (executed nothing item outcome).payload)
        × (r.status ≡ (
            if p.generation == item.generation
            then (executed nothing item outcome).status
            else cancelled))
  unfolding find
  finish-result nothing i item outcome p v at =
      let r = stamp p.generation item.generation (executed nothing item outcome) in
      (
        r,
        ground (
          arith,
          ap (λ (q : Pool J P). find item.ticket q.results)
              (finish_lem nothing i p v item at outcome),
          ticket-result_of nothing i p v item at outcome,
        ),
        stamp-payload p.generation item.generation (executed nothing item outcome),
        stamp-status p.generation item.generation (executed nothing item outcome),
      )
