-- ===== src/Workers/Stamped.antt =====
-- No job of a pool is of a later generation than the pool's own (src/emulation_workers.cpp).
use viy.Base.{
  ℕ, zero, suc, ◌+◌, ◌≤◌, List, [], ◌∷◌, ◌++◌, All, arith, set, replicate, ◌==◌, ◌||◌, ltb, if_rule,
  option_rule,
}
use viy.Workers.Defs.{
  JobResult, QueuedJob, Worker, initializing, waiting, exited, executing, Pool, find, settle_locked,
}
use viy.Workers.Calls.{deliver, consed, take_loop}
use viy.Workers.Threads.{take_front, take_job}

module _ {J : Type 0} where
  abbrev pub JobUpTo : ℕ → QueuedJob J → Type 0
  JobUpTo g item = item.generation ≤ g

  abbrev pub UpTo : ℕ → Worker J → Type 0
  UpTo g (executing item) = item.generation ≤ g
  UpTo g initializing = Unit
  UpTo g waiting = Unit
  UpTo g exited = Unit

  UpTo-later : (g h : ℕ) (w : Worker J) → g ≤ h → UpTo g w → UpTo h w
  UpTo-later g h (executing item) le u = omega arith
  UpTo-later g h initializing le u = tt
  UpTo-later g h waiting le u = tt
  UpTo-later g h exited le u = tt

  pub threads-later : (g h : ℕ) (ws : List (Worker J)) → g ≤ h → All (UpTo g) ws → All (UpTo h) ws
  threads-later g h [] le u = tt
  threads-later g h (w ∷ ws) le (u, us) = (UpTo-later g h w le u, threads-later g h ws le us)

  pub queue-later :
      (g h : ℕ) (q : List (QueuedJob J)) → g ≤ h → All (JobUpTo g) q → All (JobUpTo h) q
  queue-later g h [] le u = tt
  queue-later g h (item ∷ q) le (u, us) = (omega arith, queue-later g h q le us)

  pub All-set :
      (g i : ℕ) (w : Worker J) (ws : List (Worker J))
      → UpTo g w
      → All (UpTo g) ws
      → All (UpTo g) (set ws i w)
  All-set g i w [] u us = tt
  All-set g zero w (x ∷ ws) u (v, us) = (u, us)
  All-set g (suc i) w (x ∷ ws) u (v, us) = (v, All-set g i w ws u us)

  pub All-behind :
      (g : ℕ) (q : List (QueuedJob J)) (item : QueuedJob J)
      → All (JobUpTo g) q
      → item.generation ≤ g
      → All (JobUpTo g) (q ++ item ∷ [])
  All-behind g [] item us u = (u, tt)
  All-behind g (x ∷ q) item (v, us) u = (v, All-behind g q item us u)

pub All-initializing : (J : Type 0) (g n : ℕ) → All (UpTo {J = J} g) (replicate n initializing)
All-initializing J g zero = tt
All-initializing J g (suc n) = (tt, All-initializing J g n)

module _ {J P : Type 0} where
  -- The generation is at most n, and no job has a later one than the pool.
  abbrev pub Stamped : ℕ → Pool J P → Type 0
  Stamped n p =
      (p.generation ≤ n) × All (UpTo p.generation) p.threads × All (JobUpTo p.generation) p.queue

  pub settle_locked-Stamped :
      (n : ℕ) (r : JobResult P) (p : Pool J P) → Stamped n p → Stamped n (settle_locked r p)
  unfolding settle_locked
  settle_locked-Stamped n r p s =
      option_rule (Stamped n) (find r.ticket p.results) _ _ (λ e. s) (λ old e. s)

  pub deliver-Stamped : (n : ℕ) (p : Pool J P) → Stamped n p → Stamped n (deliver p)
  unfolding deliver
  deliver-Stamped n p s = s

  pub take_loop-Stamped :
      (n fuel maximum taken : ℕ) (p : Pool J P)
      → Stamped n p
      → Stamped n (take_loop fuel maximum taken p).1
  unfolding take_loop consed
  take_loop-Stamped n zero maximum taken p s = s
  take_loop-Stamped n (suc fuel) maximum taken p s =
      if_rule (λ (r : List (JobResult P) × Pool J P). Stamped n r.1)
        (maximum == 0 || ltb taken maximum) _ _
        (λ h.
          option_rule (λ (r : List (JobResult P) × Pool J P). Stamped n r.1)
            (find p.next_delivery p.results) _ _ (λ h. s)
            λ r h. take_loop-Stamped n fuel maximum (taken + 1) (deliver p) (deliver-Stamped n p s))
        λ h. s

  pub take_job-Stamped : (n i : ℕ) (p : Pool J P) → Stamped n p → Stamped n (take_job i p)
  unfolding take_job
  take_job-Stamped n i p s =
      if_rule (Stamped n) p.stopping _ _
        (λ h. (s.0, All-set p.generation i exited p.threads tt s.1, s.2)) λ h. front p.queue s.2
    where
      front : (q : List (QueuedJob J)) → All (JobUpTo p.generation) q → Stamped n (take_front i q p)
      front q us =
          unfold take_front in
          elim q as (λ k. All (JobUpTo p.generation) k → Stamped n (take_front i k p)) [
            | [] ↦ λ u. s
            | item ∷ rest ↦
                λ u. (s.0, All-set p.generation i (executing item) p.threads u.0 s.1, u.1)
          ]
            us
