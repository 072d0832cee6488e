-- ===== src/Workers/StampedRun.antt =====
-- The same along any events (src/emulation_workers.cpp).
use Prim.Native.String.{String}
use viy.Base.{
  ℕ, ◌+◌, ◌-◌, ◌%◌, if◌then◌else◌, ◌^◌, ◌≤◌, ◌<◌, ◌≡◌, Bool, true, Option, none, some, List, [],
  ◌∷◌, All, arith, length, get_elem?, set, ◌==◌, if_rule, option_rule, min, max,
}
use viy.Workers.Defs.{
  JobStatus, unavailable, or_default, JobResult, QueuedJob, Worker, initializing, waiting, exited,
  executing, Pool, find, construct, refused_result, drain_loop, drain_queued_locked,
}
use viy.Workers.Calls.{
  no_workers, refuses, admit, try_submit, deliver, try_take_next, take_loop, take_ready,
  cancel_pending, shutdown,
}
use viy.Workers.Threads.{
  InitOutcome, ready, not_ready, count_worker, drain_if_unusable, initialize, finish, stamp,
  executed,
}
use viy.Workers.Events.{
  Event, submits, takes, cancels, shuts_down, takes_ready, initializes, picks_up, finishes,
  run_thread, step, run,
}
use viy.Workers.Stamped.{
  JobUpTo, Stamped, threads-later, queue-later, All-set, All-behind, All-initializing,
  settle_locked-Stamped, deliver-Stamped, take_loop-Stamped, take_job-Stamped,
}

module _ {J P : Type 0} (nothing : P) where
  drain_loop-Stamped :
      (n : ℕ) (st : JobStatus) (d : String) (q : List (QueuedJob J)) (p : Pool J P)
      → Stamped n p
      → All (JobUpTo p.generation) q
      → Stamped n (drain_loop nothing st d q p)
  unfolding drain_loop
  drain_loop-Stamped n st d [] p s us = s
  drain_loop-Stamped n st d (item ∷ rest) p s (u, us) =
      drain_loop-Stamped n st d rest _
        (settle_locked-Stamped n (refused_result nothing st d item) (record p { queue = rest })
          (s.0, s.1, us))
        (option_rule (λ (q : Pool J P). All (JobUpTo q.generation) rest)
          (find item.ticket p.results) _ _ (λ e. us) (λ old e. us))

  drain_queued_locked-Stamped :
      (n : ℕ) (st : JobStatus) (d : String) (p : Pool J P)
      → Stamped n p
      → Stamped n (drain_queued_locked nothing st d p)
  unfolding drain_queued_locked
  drain_queued_locked-Stamped n st d p s = drain_loop-Stamped n st d p.queue p s s.2

  -- The next generation, and whether the pool stops.
  moved :
      (n : ℕ) (p : Pool J P) (stop : Bool)
      → n + 1 < 2 ^ 64
      → Stamped n p
      → Stamped (n + 1) (record p { stopping = stop; generation = (p.generation + 1) % 2 ^ 64 })
  moved n p stop le s =
      let e : (p.generation + 1) % 2 ^ 64 ≡ p.generation + 1 = omega (arith, s.0) in
      (
        omega (arith, s.0),
        threads-later p.generation ((p.generation + 1) % 2 ^ 64) p.threads (omega arith) s.1,
        queue-later p.generation ((p.generation + 1) % 2 ^ 64) p.queue (omega arith) s.2,
      )

  stays : (n : ℕ) (p : Pool J P) → Stamped n p → Stamped (n + 1) p
  stays n p s = (omega (arith, s.0), s.1, s.2)

  cancel_pending-Stamped :
      (n : ℕ) (p : Pool J P)
      → n + 1 < 2 ^ 64
      → Stamped n p
      → Stamped (n + 1) (cancel_pending nothing p)
  unfolding cancel_pending
  cancel_pending-Stamped n p le s =
      if_rule (Stamped (n + 1)) p.stopping _ _ (λ h. stays n p s)
        λ h. drain_queued_locked-Stamped (n + 1) _ _ _ (moved n p p.stopping le s)

  shutdown-Stamped :
      (n : ℕ) (p : Pool J P) → n + 1 < 2 ^ 64 → Stamped n p → Stamped (n + 1) (shutdown nothing p)
  unfolding shutdown
  shutdown-Stamped n p le s =
      if_rule (Stamped (n + 1)) p.stopping _ _ (λ h. stays n p s)
        λ h. drain_queued_locked-Stamped (n + 1) _ _ _ (moved n p true le s)

  admit-Stamped :
      (n : ℕ) (item : QueuedJob J) (p : Pool J P)
      → item.generation ≤ p.generation
      → Stamped n p
      → Stamped n (admit nothing item p)
  unfolding admit
  admit-Stamped n item p u s =
      if_rule (Stamped n) (no_workers p) _ _
        (λ k.
          settle_locked-Stamped n
            (refused_result nothing unavailable
              (or_default p.first_unavailable_reason "no emulation worker is available") item)
            p s)
        (λ k. (s.0, s.1, All-behind p.generation p.queue item s.2 u))

  try_submit-Stamped :
      (n start : ℕ) (job : J) (p : Pool J P)
      → Stamped n p
      → Stamped n (try_submit nothing start job p).1
  unfolding try_submit
  try_submit-Stamped n start job p s =
      if_rule (λ (r : Option ℕ × Pool J P). Stamped n r.1) (refuses p) _ _ (λ h. s)
        λ h.
          admit-Stamped n
            (record {
              ticket = p.next_ticket;
              generation = p.generation;
              function_start = start;
              job = job;
            })
            (record p {
              next_ticket = p.next_ticket + 1;
              submitted = p.submitted + 1;
              unsettled = p.unsettled + 1;
            })
            (omega arith) s

  drain_if_unusable-Stamped :
      (n : ℕ) (q : Pool J P) → Stamped n q → Stamped n (drain_if_unusable nothing q)
  unfolding drain_if_unusable
  drain_if_unusable-Stamped n q u =
      if_rule (Stamped n) (no_workers q) _ _
        (λ h. drain_queued_locked-Stamped n unavailable q.first_unavailable_reason q u) (λ h. u)

  initialize-Stamped :
      (n i : ℕ) (o : InitOutcome) (p : Pool J P)
      → Stamped n p
      → Stamped n (initialize nothing i o p)
  unfolding initialize count_worker
  initialize-Stamped n i ready p s =
      drain_if_unusable-Stamped n
        (count_worker ready (record p { threads = set p.threads i waiting }))
        (s.0, All-set p.generation i waiting p.threads tt s.1, s.2)
  initialize-Stamped n i (not_ready e) p s =
      drain_if_unusable-Stamped n
        (count_worker (not_ready e) (record p { threads = set p.threads i exited }))
        (s.0, All-set p.generation i exited p.threads tt s.1, s.2)

  thread-Stamped :
      (n i : ℕ) (w : Option (Worker J)) (p : Pool J P)
      → Stamped n p
      → ((o : _) → Stamped n (run_thread nothing w (initializes i o) p))
        × Stamped n (run_thread nothing w (picks_up i) p)
        × ((o : _) → Stamped n (run_thread nothing w (finishes i o) p))
  unfolding run_thread finish
  thread-Stamped n i none p s = ((λ o. s), s, (λ o. s))
  thread-Stamped n i (some initializing) p s = ((λ o. initialize-Stamped n i o p s), s, (λ o. s))
  thread-Stamped n i (some waiting) p s = ((λ o. s), take_job-Stamped n i p s, (λ o. s))
  thread-Stamped n i (some exited) p s = ((λ o. s), s, (λ o. s))
  thread-Stamped n i (some (executing item)) p s = (
    (λ o. s),
    s,
    (λ o.
        settle_locked-Stamped n (stamp p.generation item.generation (executed nothing item o))
          (record p {
            running = if p.running == 0 then p.running else p.running - 1;
            threads = set p.threads i waiting;
          })
          (s.0, All-set p.generation i waiting p.threads tt s.1, s.2)),
  )

  step-Stamped :
      (n : ℕ) (e : Event J P) (p : Pool J P)
      → n + 1 < 2 ^ 64
      → Stamped n p
      → Stamped (n + 1) (step nothing e p).1
  unfolding step try_take_next take_ready
  step-Stamped n (submits start job) p le s =
      stays n (try_submit nothing start job p).1 (try_submit-Stamped n start job p s)
  step-Stamped n takes p le s =
      option_rule (λ (r : Option (JobResult P) × Pool J P). Stamped (n + 1) r.1)
        (find p.next_delivery p.results) _ _ (λ e. stays n p s)
        (λ r e. stays n (deliver p) (deliver-Stamped n p s))
  step-Stamped n cancels p le s = cancel_pending-Stamped n p le s
  step-Stamped n shuts_down p le s = shutdown-Stamped n p le s
  step-Stamped n (takes_ready maximum) p le s =
      stays n (take_loop (length p.results) maximum 0 p).1
        (take_loop-Stamped n (length p.results) maximum 0 p s)
  step-Stamped n (initializes i o) p le s =
      stays n (run_thread nothing (get_elem? p.threads i) (initializes i o) p)
        ((thread-Stamped n i (get_elem? p.threads i) p s).0 o)
  step-Stamped n (picks_up i) p le s =
      stays n (run_thread nothing (get_elem? p.threads i) (picks_up i) p)
        (thread-Stamped n i (get_elem? p.threads i) p s).1
  step-Stamped n (finishes i o) p le s =
      stays n (run_thread nothing (get_elem? p.threads i) (finishes i o) p)
        ((thread-Stamped n i (get_elem? p.threads i) p s).2 o)

  pub run-Stamped :
      (n : ℕ) (es : List (Event J P)) (p : Pool J P)
      → n + length es < 2 ^ 64
      → Stamped n p
      → Stamped (n + length es) (run nothing es p).1
  unfolding run
  run-Stamped n [] p le s = (omega (arith, s.0), s.1, s.2)
  run-Stamped n (e ∷ es) p le s =
      let rest =
        run-Stamped (n + 1) es (step nothing e p).1 (omega arith)
          (step-Stamped n e p (omega arith) s) in
      (omega (arith, rest.0), rest.1, rest.2)

-- A new pool.
pub construct-Stamped :
    (J P : Type 0) (workers max_queued created : ℕ)
    → Stamped 1 (construct {J = J} {P = P} workers max_queued created)
unfolding construct
construct-Stamped J P workers max_queued created =
    (omega arith, All-initializing J 1 (min created (max workers 1)), tt)
