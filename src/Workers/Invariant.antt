-- ===== src/Workers/Invariant.antt =====
-- What always holds of a pool (src/emulation_workers.cpp): where each ticket is, and what the
-- counters count.
use viy.Base.{
  ℕ, zero, suc, ◌+◌, ◌≤◌, ◌≡◌, ◌⊎◌, inr, refl, false, some, List, [], ◌∷◌, arith, length, count,
  get_elem?, set, replicate, leb, ltb, ◌==◌, if◌then◌else◌, ◌&&◌, min, max,
}
use viy.Workers.Defs.{u64_max, Worker, initializing, waiting, exited, executing, Pool, construct}
use viy.Workers.Calls.{no_workers}
use viy.Workers.Drain.{queue_tickets, result_tickets}

-- The sum of a number over the threads.
module _ {J : Type 0} (f : Worker J → ℕ) where
  unfoldable pub total : List (Worker J) → ℕ
  total [] = 0
  total (w ∷ ws) = f w + total ws

  pub total-set :
      (ws : List (Worker J)) (i : ℕ) (w w' : Worker J)
      → get_elem? ws i ≡ some w
      → total (set ws i w') + f w ≡ total ws + f w'
  unfolding total
  total-set [] i w w' h = ground arith
  total-set (x ∷ ws) zero w w' h = ground arith
  total-set (x ∷ ws) (suc i) w w' h = omega (arith, total-set ws i w w' h)

module _ {J : Type 0} where
  abbrev pub holds : ℕ → Worker J → ℕ
  holds t (executing item) = if item.ticket == t then 1 else 0
  holds t initializing = 0
  holds t waiting = 0
  holds t exited = 0

  abbrev pub busy : Worker J → ℕ
  busy (executing item) = 1
  busy initializing = 0
  busy waiting = 0
  busy exited = 0

  abbrev pub starting : Worker J → ℕ
  starting initializing = 1
  starting (executing item) = 0
  starting waiting = 0
  starting exited = 0

-- 1 for the numbers from `lo` up to `hi`, `hi` excluded; 0 for the others.
abbrev pub in_range : ℕ → ℕ → ℕ → ℕ
in_range lo hi t = if leb lo t && ltb t hi then 1 else 0

module _ {J P : Type 0} where
  -- In how many places a ticket is: the queue, the threads, the map of results.
  abbrev pub places : ℕ → Pool J P → ℕ
  places t p =
      count t (queue_tickets p.queue)
      + total (holds t) p.threads
      + count t (result_tickets p.results)

  pub record Core (p : Pool J P) : Type 0 where
    -- every ticket that was given out and not delivered is in one place, and no other in any
    pub once : (t : ℕ) → places t p ≡ in_range p.next_delivery p.next_ticket t
    pub ordered : p.next_delivery ≤ p.next_ticket
    pub within : p.next_ticket ≤ u64_max
    pub submitted_all : p.submitted + 1 ≡ p.next_ticket
    pub delivered_all : p.delivered + 1 ≡ p.next_delivery
    pub settled_all : p.settled ≡ p.delivered + length p.results
    pub unsettled_all : p.unsettled ≡ length p.queue + p.running
    pub accounted_all : p.submitted ≡ p.settled + p.unsettled
    pub running_all : p.running ≡ total busy p.threads
    -- without a limit, or within it
    pub queue_bound : (p.max_queued_jobs ≡ 0) ⊎ (length p.queue ≤ p.max_queued_jobs)
    pub work_bound :
        (p.max_queued_jobs ≡ 0)
        ⊎ (p.next_ticket ≤ p.next_delivery + p.requested_workers + p.max_queued_jobs)
    pub initialized_all : p.initialized_workers + total starting p.threads ≡ p.requested_workers
    pub available_all : p.available_workers + p.unavailable_workers ≡ p.initialized_workers

  pub record Inv (p : Pool J P) : Type 0 where
    pub core : Core p
    pub open core use *
    -- no job waits where no worker can come
    pub served : (no_workers p ≡ false) ⊎ (length p.queue ≡ 0)
    -- nor in a pool that is shut down
    pub closed : (p.stopping ≡ false) ⊎ (length p.queue ≡ 0)

module _ {J : Type 0} where
  total-replicate_zero :
      (f : Worker J → ℕ) (n : ℕ) → f initializing ≡ 0 → total f (replicate n initializing) ≡ 0
  unfolding total
  total-replicate_zero f zero h = refl
  total-replicate_zero f (suc n) h = omega (arith, total-replicate_zero f n h)

  total-replicate_one :
      (f : Worker J → ℕ) (n : ℕ) → f initializing ≡ 1 → total f (replicate n initializing) ≡ n
  unfolding total
  total-replicate_one f zero h = refl
  total-replicate_one f (suc n) h = omega (arith, total-replicate_one f n h)

  -- A new pool satisfies the invariant, however many of its threads could be started.
  pub construct-Inv :
      {P : Type 0} (workers max_queued created : ℕ)
      → Inv (construct {J = J} {P = P} workers max_queued created)
  unfolding construct count
  construct-Inv workers max_queued created = record {
    core = record {
      once = λ t. ground (arith, total-replicate_zero (holds t) n refl);
      ordered = omega arith;
      within = omega arith;
      submitted_all = omega arith;
      delivered_all = omega arith;
      settled_all = omega arith;
      unsettled_all = omega arith;
      accounted_all = omega arith;
      running_all = omega (arith, total-replicate_zero busy n refl);
      queue_bound = inr (omega arith);
      work_bound = inr (omega arith);
      initialized_all = omega (arith, total-replicate_one starting n refl);
      available_all = omega arith;
    };
    served = inr (omega arith);
    closed = inr (omega arith);
  }
    where
      n : ℕ
      n = min created (max workers 1)
