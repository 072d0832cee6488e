-- ===== src/Workers/Run.antt =====
-- The invariant of a pool along any run, and what a run delivers (src/emulation_workers.cpp).
use viy.Base.{ℕ, ◌≡◌, refl, Option, none, some, List, [], ◌∷◌, get_elem?}
use viy.Workers.Defs.{Worker, initializing, waiting, exited, executing, Pool, construct}
use viy.Workers.Events.{
  Event, submits, takes, cancels, shuts_down, takes_ready, initializes, picks_up, finishes,
  run_thread, step, run,
}
use viy.Workers.Invariant.{Inv, construct-Inv}
use viy.Workers.Keeps.Drain.{cancel_pending-Inv, shutdown-Inv}
use viy.Workers.Keeps.Submit.{try_submit-Inv}
use viy.Workers.Keeps.Deliver.{try_take_next-Inv, take_ready-Inv}
use viy.Workers.Keeps.Threads.{initialize-Inv, take_job-Inv, finish-Inv}

module _ {J P : Type 0} (nothing : P) where
  thread-Inv :
      (i : ℕ) (w : Option (Worker J)) (p : Pool J P)
      → get_elem? p.threads i ≡ w
      → Inv p
      → ((o : _) → Inv (run_thread nothing w (initializes i o) p))
        × Inv (run_thread nothing w (picks_up i) p)
        × ((o : _) → Inv (run_thread nothing w (finishes i o) p))
  unfolding run_thread
  thread-Inv i none p e v = ((λ o. v), v, (λ o. v))
  thread-Inv i (some initializing) p e v = ((λ o. initialize-Inv nothing i p v e o), v, (λ o. v))
  thread-Inv i (some waiting) p e v = ((λ o. v), take_job-Inv nothing i p v e, (λ o. v))
  thread-Inv i (some exited) p e v = ((λ o. v), v, (λ o. v))
  thread-Inv i (some (executing item)) p e v =
      ((λ o. v), v, (λ o. finish-Inv nothing i p v item e o))

  -- Whatever happens next, by a call or in a thread, the invariant holds after it.
  pub step-Inv : (e : Event J P) (p : Pool J P) → Inv p → Inv (step nothing e p).1
  unfolding step
  step-Inv (submits start job) p v = try_submit-Inv nothing start job p v
  step-Inv takes p v = try_take_next-Inv p v
  step-Inv cancels p v = cancel_pending-Inv nothing p v
  step-Inv shuts_down p v = shutdown-Inv nothing p v
  step-Inv (takes_ready maximum) p v = take_ready-Inv maximum p v
  step-Inv (initializes i o) p v = (thread-Inv i _ p refl v).0 o
  step-Inv (picks_up i) p v = (thread-Inv i _ p refl v).1
  step-Inv (finishes i o) p v = (thread-Inv i _ p refl v).2 o

  pub run-Inv : (es : List (Event J P)) (p : Pool J P) → Inv p → Inv (run nothing es p).1
  unfolding run
  run-Inv [] p v = v
  run-Inv (e ∷ es) p v = run-Inv es _ (step-Inv e p v)

  -- After any sequence of submissions, deliveries, cancellations, shutdowns and thread steps on a
  -- newly constructed pool, in any order, the invariant holds: each accepted and undelivered ticket
  -- is in exactly one of the queue, a thread and the map of results, every other in none, and the
  -- counters and bounds of `Core` and `Inv` agree with these.
  pub run-construct-Inv :
      (workers max_queued created : ℕ) (es : List (Event J P))
      → Inv (run nothing es (construct workers max_queued created)).1
  run-construct-Inv workers max_queued created es =
      run-Inv es (construct workers max_queued created) (construct-Inv workers max_queued created)
