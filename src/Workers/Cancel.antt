-- ===== src/Workers/Cancel.antt =====
-- What cancel_pending and shutdown do with the jobs that still wait (src/emulation_workers.cpp).
use Prim.Native.String.{String}
use viy.Base.{
  ℕ, ◌+◌, ◌%◌, ◌^◌, ◌<◌, ◌≡◌, ◌≢◌, refl, ◌∙◌, inl, inr, true, false, some, List, [], ◌∷◌, arith,
  count, ◌==◌, Bool-cases,
}
use viy.Workers.Defs.{
  JobStatus, cancelled, JobResult, QueuedJob, Pool, find, settle_locked, refused_result, drain_loop,
  drain_queued_locked,
}
use viy.Workers.Calls.{cancel_pending, shutdown}
use viy.Workers.Drain.{queue_tickets, drained, drained_pool}
use viy.Workers.Invariant.{Core, Inv}
use viy.Workers.Keeps.Drain.{drain_queued_locked_lem, places-le-one}

module _ {J P : Type 0} (nothing : P) (status : JobStatus) (reason : String) where
  find-drained_other :
      (t : ℕ) (q : List (QueuedJob J)) (rs : List (JobResult P))
      → count t (queue_tickets q) ≡ 0
      → find t (drained nothing status reason q rs) ≡ find t rs
  unfolding drained count
  find-drained_other t [] rs h = refl
  find-drained_other t (item ∷ q) rs h =
      find-drained_other t q (refused_result nothing status reason item ∷ rs) (ground arith) ∙ skip
    where
      skip : find t (refused_result nothing status reason item ∷ rs) ≡ find t rs
      skip = unfold find refused_result in ground arith

  -- A drained job is found under its ticket, with the status that the drain gives.
  find-drained :
      (t : ℕ) (q : List (QueuedJob J)) (rs : List (JobResult P))
      → count t (queue_tickets q) ≢ 0
      → (r : JobResult P) × (find t (drained nothing status reason q rs) ≡ some r)
        × (r.status ≡ status)
        × (r.diagnostic ≡ reason)
        × (r.payload ≡ nothing)
  unfolding drained count
  find-drained t [] rs h = absurd (h refl)
  find-drained t (item ∷ q) rs h = elim (Bool-cases (count t (queue_tickets q) == 0)) [
    | inl e ↦ (
      refused,
      find-drained_other t q (refused ∷ rs) (ground arith) ∙ hit (ground arith),
      unfold refused_result in refl,
      unfold refused_result in refl,
      unfold refused_result in refl,
    )
    | inr e ↦ find-drained t q (refused ∷ rs) (ground arith)
  ]
    where
      refused : JobResult P
      refused = refused_result nothing status reason item

      hit : item.ticket ≡ t → find t (refused ∷ rs) ≡ some refused
      hit k = unfold find refused_result in ground arith

module _ {J P : Type 0} (nothing : P) where
  abbrev next_generation : Pool J P → Pool J P
  next_generation p = record p { generation = (p.generation + 1) % 2 ^ 64 }

  cancel_running :
      (p : Pool J P)
      → p.stopping ≡ false
      → cancel_pending nothing p
        ≡ drain_queued_locked nothing cancelled "emulation generation cancelled" (next_generation p)
  unfolding cancel_pending
  cancel_running p e = ground arith

  pub cancel_drained :
      (p : Pool J P)
      → Core p
      → p.stopping ≡ false
      → cancel_pending nothing p
        ≡ drained_pool nothing cancelled "emulation generation cancelled" p.queue
            (next_generation p)
  cancel_drained p v e =
      cancel_running p e
      ∙ drain_queued_locked_lem nothing cancelled "emulation generation cancelled"
          (next_generation p) (places-le-one nothing cancelled "emulation generation cancelled" p v)

  -- Cancelling settles each waiting job of a running pool as cancelled, empties the queue, moves the
  -- generation, and leaves the threads alone.
  pub cancel_pending-settles :
      (t : ℕ) (p : Pool J P)
      → Inv p
      → p.stopping ≡ false
      → p.generation < 2 ^ 64
      → count t (queue_tickets p.queue) ≢ 0
      → ((r : JobResult P) × (find t (cancel_pending nothing p).results ≡ some r)
          × (r.status ≡ cancelled)
          × (r.diagnostic ≡ "emulation generation cancelled")
          × (r.payload ≡ nothing))
        × ((cancel_pending nothing p).queue ≡ [])
        × ((cancel_pending nothing p).generation ≢ p.generation)
        × ((cancel_pending nothing p).threads ≡ p.threads)
  cancel_pending-settles t p v e g h = rw (cancel_drained p v.core e) (
    find-drained nothing cancelled "emulation generation cancelled" t p.queue p.results h,
    refl,
    omega arith,
    refl,
  )

  drain_loop-stopping :
      (s : JobStatus) (d : String) (q : List (QueuedJob J)) (p : Pool J P)
      → (drain_loop nothing s d q p).stopping ≡ p.stopping
  unfolding drain_loop settle_locked
  drain_loop-stopping s d [] p = refl
  drain_loop-stopping s d (item ∷ rest) p =
      drain_loop-stopping s d rest
        (settle_locked (refused_result nothing s d item) (record p { queue = rest }))
      ∙ settle_locked-stopping (refused_result nothing s d item) (record p { queue = rest })
    where
      settle_locked-stopping :
          (r : JobResult P) (p : Pool J P) → (settle_locked r p).stopping ≡ p.stopping
      settle_locked-stopping r p = ground arith

  shutdown-stopping : (p : Pool J P) → (shutdown nothing p).stopping ≡ true
  unfolding shutdown drain_queued_locked
  shutdown-stopping p = grind (arith, drain_loop-stopping)

  -- Shutting down is idempotent.
  pub shutdown-shutdown :
      (p : Pool J P) → shutdown nothing (shutdown nothing p) ≡ shutdown nothing p
  shutdown-shutdown p = stopped (shutdown nothing p) (shutdown-stopping p)
    where
      stopped : (q : Pool J P) → q.stopping ≡ true → shutdown nothing q ≡ q
      stopped q e = unfold shutdown in ground arith
