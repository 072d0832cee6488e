-- ===== src/Workers/Keeps/Deliver.antt =====
-- Taking results keeps the invariant (try_take_next and take_ready of src/emulation_workers.cpp).
use viy.Base.{
  ℕ, zero, suc, ◌+◌, ◌≤◌, ◌≡◌, some, List, [], ◌∷◌, Option, arith, length, count, ltb, ◌==◌,
  if◌then◌else◌, ◌||◌, if_rule, option_rule,
}
use viy.Workers.Defs.{JobResult, Pool, find, erase}
use viy.Workers.Calls.{deliver, try_take_next, consed, take_loop, take_ready}
use viy.Workers.Drain.{result_tickets}
use viy.Workers.Invariant.{Core, Inv}

module _ {P : Type 0} where
  -- A found entry has the ticket that was looked for.
  pub find-ticket :
      (t : ℕ) (rs : List (JobResult P)) (r : JobResult P) → find t rs ≡ some r → r.ticket ≡ t
  unfolding find
  find-ticket t [] r h = cc
  find-ticket t (x ∷ rs) r h = ground (arith, find-ticket t rs r)

  count-erase :
      (t u : ℕ) (rs : List (JobResult P)) (r : JobResult P)
      → find t rs ≡ some r
      → count u (result_tickets rs)
        ≡ count u (result_tickets (erase t rs)) + (if t == u then 1 else 0)
  unfolding find erase count
  count-erase t u [] r h = cc
  count-erase t u (x ∷ rs) r h = ground (arith, count-erase t u rs r)

  length-erase :
      (t : ℕ) (rs : List (JobResult P)) (r : JobResult P)
      → find t rs ≡ some r
      → length rs ≡ suc (length (erase t rs))
  unfolding find erase
  length-erase t [] r h = cc
  length-erase t (x ∷ rs) r h = ground (arith, length-erase t rs r)

  pub find-count :
      (t : ℕ) (rs : List (JobResult P)) (r : JobResult P)
      → find t rs ≡ some r
      → 1 ≤ count t (result_tickets rs)
  unfolding find count
  find-count t [] r h = cc
  find-count t (x ∷ rs) r h = ground (arith, find-count t rs r)

module _ {J P : Type 0} where
  module _ (p : Pool J P) (r : JobResult P) (found : find p.next_delivery p.results ≡ some r) where
    pub deliver-lt : Core p → p.next_delivery + 1 ≤ p.next_ticket
    deliver-lt v =
        ground (arith, v.once p.next_delivery, find-count p.next_delivery p.results r found)

    deliver-Core : Core p → Core (deliver p)
    unfolding deliver
    deliver-Core v = record {
      once = λ t. ground (
        arith,
        v.once t,
        v.once p.next_delivery,
        count-erase p.next_delivery t p.results r found,
        deliver-lt v,
      );
      ordered = deliver-lt v;
      within = v.within;
      submitted_all = v.submitted_all;
      delivered_all = omega (arith, v.delivered_all);
      settled_all = omega (arith, v.settled_all, length-erase p.next_delivery p.results r found);
      unsettled_all = v.unsettled_all;
      accounted_all = v.accounted_all;
      running_all = v.running_all;
      queue_bound = v.queue_bound;
      work_bound = ground (arith, v.work_bound);
      initialized_all = v.initialized_all;
      available_all = v.available_all;
    }

    pub deliver-Inv : Inv p → Inv (deliver p)
    unfolding deliver
    deliver-Inv v = record { core = deliver-Core v.core; served = v.served; closed = v.closed }

  pub try_take_next-Inv : (p : Pool J P) → Inv p → Inv (try_take_next p).1
  unfolding try_take_next
  try_take_next-Inv p v =
      option_rule (λ (r : Option (JobResult P) × Pool J P). Inv r.1)
        (find p.next_delivery p.results) _ _ (λ h. v) λ r h. deliver-Inv p r h v

  pub take_loop-Inv :
      (fuel maximum taken : ℕ) (p : Pool J P) → Inv p → Inv (take_loop fuel maximum taken p).1
  unfolding take_loop consed
  take_loop-Inv zero maximum taken p v = v
  take_loop-Inv (suc fuel) maximum taken p v =
      if_rule (λ (r : List (JobResult P) × Pool J P). Inv r.1) (maximum == 0 || ltb taken maximum) _
        _
        (λ h.
          option_rule (λ (r : List (JobResult P) × Pool J P). Inv r.1)
            (find p.next_delivery p.results) _ _ (λ h. v)
            λ r h. take_loop-Inv fuel maximum (taken + 1) (deliver p) (deliver-Inv p r h v))
        λ h. v

  pub take_ready-Inv : (maximum : ℕ) (p : Pool J P) → Inv p → Inv (take_ready maximum p).1
  unfolding take_ready
  take_ready-Inv maximum p v = take_loop-Inv (length p.results) maximum 0 p v
