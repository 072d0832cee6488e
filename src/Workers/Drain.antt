-- ===== src/Workers/Drain.antt =====
-- What settling and draining do when no ticket is settled twice, in closed form
-- (settle_locked and drain_queued_locked of src/emulation_workers.cpp).
use Prim.Native.String.{String}
use viy.Base.{ℕ, ◌+◌, ◌-◌, ◌≤◌, ◌≡◌, refl, ◌∙◌, ap, none, List, [], ◌∷◌, map, arith, length, count}
use viy.Workers.Defs.{
  JobStatus, JobResult, QueuedJob, Pool, find, settle_locked, refused_result, drain_loop,
}

module _ {J : Type 0} where
  abbrev pub queue_tickets : List (QueuedJob J) → List ℕ
  queue_tickets = map λ j. j.ticket

module _ {P : Type 0} where
  abbrev pub result_tickets : List (JobResult P) → List ℕ
  result_tickets = map λ r. r.ticket

  pub find-none :
      (t : ℕ) (rs : List (JobResult P)) → count t (result_tickets rs) ≡ 0 → find t rs ≡ none
  unfolding find count
  find-none t [] h = refl
  find-none t (r ∷ rs) h = ground (arith, find-none t rs)

module _ {J P : Type 0} where
  abbrev pub settled_by : JobResult P → Pool J P → Pool J P
  settled_by r p = record p {
    results = r ∷ p.results;
    settled = p.settled + 1;
    unsettled = p.unsettled - 1;
  }

  pub settle_locked_lem :
      (r : JobResult P) (p : Pool J P)
      → count r.ticket (result_tickets p.results) ≡ 0
      → settle_locked r p ≡ settled_by r p
  unfolding settle_locked
  settle_locked_lem r p h = ground (arith, find-none r.ticket p.results h)

module _ {J P : Type 0} (nothing : P) (status : JobStatus) (reason : String) where
  unfoldable pub drained : List (QueuedJob J) → List (JobResult P) → List (JobResult P)
  drained [] rs = rs
  drained (item ∷ rest) rs = drained rest (refused_result nothing status reason item ∷ rs)

  pub count-drained :
      (t : ℕ) (q : List (QueuedJob J)) (rs : List (JobResult P))
      → count t (result_tickets (drained q rs))
        ≡ count t (queue_tickets q) + count t (result_tickets rs)
  unfolding drained count refused_result
  count-drained t [] rs = omega arith
  count-drained t (item ∷ rest) rs =
      ground (arith, count-drained t rest (refused_result nothing status reason item ∷ rs))

  pub length-drained :
      (q : List (QueuedJob J)) (rs : List (JobResult P))
      → length (drained q rs) ≡ length q + length rs
  unfolding drained
  length-drained [] rs = omega arith
  length-drained (item ∷ rest) rs =
      omega (arith, length-drained rest (refused_result nothing status reason item ∷ rs))

  abbrev pub drained_pool : List (QueuedJob J) → Pool J P → Pool J P
  drained_pool q p = record p {
    queue = [];
    results = drained q p.results;
    settled = p.settled + length q;
    unsettled = p.unsettled - length q;
  }

  pub drain_loop_lem :
      (q : List (QueuedJob J)) (p : Pool J P)
      → ((t : ℕ) → count t (queue_tickets q) + count t (result_tickets p.results) ≤ 1)
      → drain_loop nothing status reason q (record p { queue = q }) ≡ drained_pool q p
  unfolding drain_loop drained refused_result count
  drain_loop_lem [] p h = ground arith
  drain_loop_lem (item ∷ rest) p h =
      ap (drain_loop nothing status reason rest)
        (settle_locked_lem first (record p { queue = rest }) fresh)
      ∙ drain_loop_lem rest (settled_by first p) later
      ∙ same
    where
      first : JobResult P
      first = refused_result nothing status reason item

      fresh : count item.ticket (result_tickets p.results) ≡ 0
      fresh = ground (arith, h item.ticket)

      later :
          (t : ℕ) → count t (queue_tickets rest) + count t (result_tickets (first ∷ p.results)) ≤ 1
      later t = ground (arith, h t)

      same : drained_pool rest (settled_by first p) ≡ drained_pool (item ∷ rest) p
      same = ground arith
