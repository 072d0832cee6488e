-- ===== src/Workers/Events.antt =====
-- The pool driven by any sequence of calls and of threads' sections (src/emulation_workers.cpp).
use viy.Base.{ℕ, Option, none, some, List, [], ◌∷◌, ◌++◌, get_elem?}
use viy.Workers.Defs.{JobResult, Worker, initializing, waiting, executing, Pool}
use viy.Workers.Calls.{try_submit, try_take_next, take_ready, cancel_pending, shutdown}
use viy.Workers.Threads.{InitOutcome, ExecOutcome, initialize, take_job, finish}

abbrev pub one {ℓ} : {A : Type ℓ} → Option A → List A
one none = []
one (some r) = r ∷ []

-- What may happen to a pool: calls by its owner, and sections run by the thread at an index.
pub data Event (J P : Type 0) : Type 0 where
  submits : ℕ → J → Event J P
  takes cancels shuts_down : Event J P
  takes_ready : ℕ → Event J P
  initializes : ℕ → InitOutcome → Event J P
  picks_up : ℕ → Event J P
  finishes : ℕ → ExecOutcome P → Event J P

module _ {J P : Type 0} (nothing : P) where
  -- A thread runs the section that it is at; other events of it do not occur.
  unfoldable pub run_thread : Option (Worker J) → Event J P → Pool J P → Pool J P
  unfolding initialize take_job finish
  run_thread (some initializing) (initializes i outcome) p = initialize nothing i outcome p
  run_thread (some waiting) (picks_up i) p = take_job i p
  run_thread (some (executing item)) (finishes i outcome) p = finish nothing i item outcome p
  run_thread w e p = p

  -- The results handed to the owner, and the pool after the event.
  unfoldable pub step : Event J P → Pool J P → List (JobResult P) × Pool J P
  unfolding try_submit try_take_next take_ready cancel_pending shutdown run_thread
  step (submits start job) p = ([], (try_submit nothing start job p).1)
  step takes p = (one (try_take_next p).0, (try_take_next p).1)
  step (takes_ready maximum) p = take_ready maximum p
  step cancels p = ([], cancel_pending nothing p)
  step shuts_down p = ([], shutdown nothing p)
  step (initializes i outcome) p =
      ([], run_thread (get_elem? p.threads i) (initializes i outcome) p)
  step (picks_up i) p = ([], run_thread (get_elem? p.threads i) (picks_up i) p)
  step (finishes i outcome) p = ([], run_thread (get_elem? p.threads i) (finishes i outcome) p)

  unfoldable pub run : List (Event J P) → Pool J P → List (JobResult P) × Pool J P
  unfolding step
  run [] p = ([], p)
  run (e ∷ es) p = let first = step e p in let rest = run es first.1 in (first.0 ++ rest.0, rest.1)
