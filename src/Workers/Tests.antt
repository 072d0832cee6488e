-- ===== src/Workers/Tests.antt =====
-- A history of a small pool, and the pool's theorems at it.
use viy.Base.{ℕ, ◌≡◌, refl, arith, some, List, [], ◌∷◌, ◌++◌, length}
use viy.Workers.Defs.{completed, JobResult, QueuedJob, Pool, construct, find}
use viy.Workers.Threads.{ready, returned, executed, finish}
use viy.Workers.Calls.{cancel_pending, take_ready}
use viy.Workers.Events.{
  Event, submits, takes, cancels, takes_ready, initializes, picks_up, finishes, run,
}
use viy.Workers.Drain.{result_tickets}
use viy.Workers.Invariant.{Inv}
use viy.Workers.Run.{run-Inv, run-construct-Inv}
use viy.Workers.Order.{run-construct-order}
use viy.Workers.Delivery.{numbers_from}
use viy.Workers.Settle.{take_ready_complete, finish-result}
use viy.Workers.Stale.{Withdrawn, Stale, run-cancel_pending}

-- Two workers take two of three jobs, the second job ends first, and the third is cancelled.
abbrev start_two : List (Event ℕ ℕ)
start_two =
    initializes 0 ready
    ∷ initializes 1 ready
    ∷ submits 100 7
    ∷ submits 200 8
    ∷ submits 300 9
    ∷ picks_up 0
    ∷ picks_up 1
    ∷ []

abbrev out_of_order : List (Event ℕ ℕ)
out_of_order =
    start_two
    ++ finishes 1 (returned completed "" 80)
      ∷ takes
      ∷ cancels
      ∷ finishes 0 (returned completed "" 70)
      ∷ takes_ready 0
      ∷ []

abbrev history : List (JobResult ℕ) × Pool ℕ ℕ
history = run 0 out_of_order (construct 2 4 2)

delivered_in_order : result_tickets history.0 ≡ 1 ∷ 2 ∷ 3 ∷ []
unfolding run construct
delivered_in_order = refl

run-construct-Inv_example : Inv history.1
run-construct-Inv_example = run-construct-Inv 0 2 4 2 out_of_order

run-construct-order_example : result_tickets history.0 ≡ numbers_from 1 (length history.0)
run-construct-order_example = run-construct-order 0 2 4 2 out_of_order

-- Both workers are busy and the third job waits.
abbrev busy_pool : Pool ℕ ℕ
busy_pool = (run 0 start_two (construct 2 4 2)).1

abbrev end_all : List (Event ℕ ℕ)
end_all =
    finishes 1 (returned completed "" 80) ∷ cancels ∷ finishes 0 (returned completed "" 70) ∷ []

-- The second job ended, the first and third were cancelled; nothing was taken.
abbrev settled_pool : Pool ℕ ℕ
settled_pool = (run 0 end_all busy_pool).1

abbrev first_job : QueuedJob ℕ
first_job = record { ticket = 1; generation = 1; function_start = 100; job = 7 }

busy_pool-Inv : Inv busy_pool
busy_pool-Inv = run-construct-Inv 0 2 4 2 start_two

finish-result_example :
    (r : JobResult ℕ) × (find 1 (finish 0 0 first_job (returned completed "" 70) busy_pool).results
      ≡ some r)
    × (r.payload ≡ 70)
    × (r.status ≡ completed)
unfolding run construct executed
finish-result_example =
    finish-result 0 0 first_job (returned completed "" 70) busy_pool busy_pool-Inv refl

abbrev third_job : QueuedJob ℕ
third_job = record { ticket = 3; generation = 1; function_start = 300; job = 9 }

run-cancel_pending_example :
    (Withdrawn (cancel_pending 0 busy_pool) third_job × Unit {0})
    × ((cancel_pending 0 busy_pool).queue ≡ [])
    × Stale 0 0 (returned completed "" 70) (cancel_pending 0 busy_pool) first_job
unfolding run construct
run-cancel_pending_example =
    run-cancel_pending 0 2 4 2 start_two 0 (returned completed "" 70) refl (omega arith)

take_ready_complete_example :
    (result_tickets (take_ready 0 settled_pool).0 ≡ 1 ∷ 2 ∷ 3 ∷ [])
    × ((take_ready 0 settled_pool).1.next_delivery ≡ 4)
unfolding run construct
take_ready_complete_example =
    take_ready_complete settled_pool (run-Inv 0 end_all busy_pool busy_pool-Inv) refl
