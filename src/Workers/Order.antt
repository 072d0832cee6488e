-- ===== src/Workers/Order.antt =====
-- The order in which results reach the owner of a pool (src/emulation_workers.cpp).
use Prim.Native.String.{String}
use viy.Base.{
  ℕ, zero, suc, ◌+◌, ◌≡◌, refl, ap, ◌∙◌, Option, some, List, [], ◌∷◌, ◌++◌, arith, length,
  length-append, get_elem?, set, option_rule,
}
use viy.Workers.Defs.{
  JobStatus, JobResult, QueuedJob, Worker, initializing, waiting, executing, Pool, find, construct,
  settle_locked, refused_result, drain_loop, drain_queued_locked,
}
use viy.Workers.Calls.{
  admit, try_submit, deliver, try_take_next, take_ready, cancel_pending, shutdown,
}
use viy.Workers.Threads.{
  InitOutcome, ready, not_ready, after_init, count_worker, drain_if_unusable, initialize,
  take_front, take_job, finish,
}
use viy.Workers.Events.{
  Event, submits, takes, cancels, shuts_down, takes_ready, initializes, picks_up, finishes, one,
  run_thread, step, run,
}
use viy.Workers.Drain.{result_tickets}
use viy.Workers.Keeps.Deliver.{find-ticket}
use viy.Workers.Delivery.{numbers_from, InOrder, take_loop-InOrder}

module _ {J P : Type 0} where
  settle_locked-next :
      (r : JobResult P) (p : Pool J P) → (settle_locked r p).next_delivery ≡ p.next_delivery
  unfolding settle_locked
  settle_locked-next r p = ground arith

module _ {J P : Type 0} (nothing : P) where
  drain_loop-next :
      (s : JobStatus) (d : String) (q : List (QueuedJob J)) (p : Pool J P)
      → (drain_loop nothing s d q p).next_delivery ≡ p.next_delivery
  unfolding drain_loop
  drain_loop-next s d [] p = refl
  drain_loop-next s d (item ∷ rest) p =
      drain_loop-next s d rest _
      ∙ settle_locked-next (refused_result nothing s d item) (record p { queue = rest })

  drain-next :
      (s : JobStatus) (d : String) (p : Pool J P)
      → (drain_queued_locked nothing s d p).next_delivery ≡ p.next_delivery
  unfolding drain_queued_locked
  drain-next s d p = drain_loop-next s d p.queue p

  admit-next :
      (item : QueuedJob J) (p : Pool J P) → (admit nothing item p).next_delivery ≡ p.next_delivery
  unfolding admit settle_locked
  admit-next item p = ground arith

  submit-next :
      (start : ℕ) (job : J) (p : Pool J P)
      → (try_submit nothing start job p).1.next_delivery ≡ p.next_delivery
  unfolding try_submit
  submit-next start job p = grind (arith, admit-next)

  cancel-next : (p : Pool J P) → (cancel_pending nothing p).next_delivery ≡ p.next_delivery
  unfolding cancel_pending
  cancel-next p = grind (arith, drain-next)

  shutdown-next : (p : Pool J P) → (shutdown nothing p).next_delivery ≡ p.next_delivery
  unfolding shutdown
  shutdown-next p = grind (arith, drain-next)

  unusable-next : (p : Pool J P) → (drain_if_unusable nothing p).next_delivery ≡ p.next_delivery
  unfolding drain_if_unusable
  unusable-next p = grind (arith, drain-next)

  count-next : (o : InitOutcome) (p : Pool J P) → (count_worker o p).next_delivery ≡ p.next_delivery
  unfolding count_worker
  count-next ready p = refl
  count-next (not_ready d) p = refl

  initialize-next :
      (i : ℕ) (o : InitOutcome) (p : Pool J P)
      → (initialize nothing i o p).next_delivery ≡ p.next_delivery
  unfolding initialize
  initialize-next i o p =
      unusable-next (count_worker o (record p { threads = set p.threads i (after_init o) }))
      ∙ count-next o (record p { threads = set p.threads i (after_init o) })

  take_front-next :
      (i : ℕ) (q : List (QueuedJob J)) (p : Pool J P)
      → (take_front i q p).next_delivery ≡ p.next_delivery
  unfolding take_front
  take_front-next i [] p = refl
  take_front-next i (item ∷ rest) p = refl

  thread-next :
      (w : Option (Worker J)) (e : Event J P) (p : Pool J P)
      → (run_thread nothing w e p).next_delivery ≡ p.next_delivery
  unfolding run_thread take_job finish
  thread-next (some initializing) (initializes i o) p = initialize-next i o p
  thread-next (some waiting) (picks_up i) p = ground (arith, take_front-next i p.queue p)
  thread-next (some (executing item)) (finishes i o) p = grind (arith, settle_locked-next)
  thread-next _ _ p = refl

  taken_next-InOrder : (p : Pool J P) → InOrder p (one (try_take_next p).0, (try_take_next p).1)
  unfolding try_take_next deliver
  taken_next-InOrder p =
      option_rule (λ (r : Option (JobResult P) × Pool J P). InOrder p (one r.0, r.1))
        (find p.next_delivery p.results) _ _ (λ h. (refl, omega arith))
        λ r h. (ap (λ t. t ∷ []) (find-ticket p.next_delivery p.results r h), refl)

  -- One event hands over the next tickets in order, if any.
  pub step-InOrder : (e : Event J P) (p : Pool J P) → InOrder p (step nothing e p)
  unfolding step take_ready
  step-InOrder (submits start job) p = (refl, omega (arith, submit-next start job p))
  step-InOrder takes p = taken_next-InOrder p
  step-InOrder (takes_ready maximum) p = take_loop-InOrder (length p.results) maximum 0 p
  step-InOrder cancels p = (refl, omega (arith, cancel-next p))
  step-InOrder shuts_down p = (refl, omega (arith, shutdown-next p))
  step-InOrder (initializes i o) p =
      (refl, omega (arith, thread-next (get_elem? p.threads i) (initializes i o) p))
  step-InOrder (picks_up i) p =
      (refl, omega (arith, thread-next (get_elem? p.threads i) (picks_up i) p))
  step-InOrder (finishes i o) p =
      (refl, omega (arith, thread-next (get_elem? p.threads i) (finishes i o) p))

numbers_from-append :
    (k n m j : ℕ) → j ≡ k + n → numbers_from k n ++ numbers_from j m ≡ numbers_from k (n + m)
numbers_from-append k zero m j e = ground arith
numbers_from-append k (suc n) m j e =
    let shift : suc n + m ≡ suc (n + m) = omega arith in
    rw shift (ap (◌∷◌ k) (numbers_from-append (k + 1) n m j (omega arith)))

map-append_tickets :
    {P : Type 0} (xs ys : List (JobResult P))
    → result_tickets (xs ++ ys) ≡ result_tickets xs ++ result_tickets ys
map-append_tickets [] ys = refl
map-append_tickets (x ∷ xs) ys = ap (◌∷◌ x.ticket) (map-append_tickets xs ys)

module _ {J P : Type 0} (nothing : P) where
  pub run-InOrder : (es : List (Event J P)) (p : Pool J P) → InOrder p (run nothing es p)
  unfolding run
  run-InOrder [] p = (refl, omega arith)
  run-InOrder (e ∷ es) p =
      let first = step nothing e p in
      let rest = run nothing es first.1 in
      let a = step-InOrder nothing e p in
      let b = run-InOrder es first.1 in
      (
        ground (
          arith,
          map-append_tickets first.0 rest.0,
          a.0,
          b.0,
          a.1,
          length-append first.0 rest.0,
          numbers_from-append p.next_delivery (length first.0) (length rest.0) first.1.next_delivery
              a.1,
        ),
        omega (arith, a.1, b.1, length-append first.0 rest.0),
      )

  -- Whatever happens to a new pool and in whatever order its jobs finish, the results that its owner
  -- receives carry the tickets 1, 2, 3 and so on, in this order and with none left out.
  pub run-construct-order :
      (workers max_queued created : ℕ) (es : List (Event J P))
      → result_tickets (run nothing es (construct workers max_queued created)).0
        ≡ numbers_from 1 (length (run nothing es (construct workers max_queued created)).0)
  run-construct-order workers max_queued created es =
      (run-InOrder es (construct workers max_queued created)).0
      ∙ ap (λ k. numbers_from k (length (run nothing es (construct workers max_queued created)).0))
          start
    where
      start : (construct {J = J} {P = P} workers max_queued created).next_delivery ≡ 1
      start = unfold construct in refl
