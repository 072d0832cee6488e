-- ===== src/Workers/Delivery.antt =====
-- What the owner of a pool receives, and when (src/emulation_workers.cpp).
use viy.Base.{
  ℕ, zero, suc, ◌+◌, ◌≡◌, refl, List, [], ◌∷◌, arith, length, ltb, ◌==◌, ◌||◌, if_rule, option_rule,
}
use viy.Workers.Defs.{JobResult, Pool, find}
use viy.Workers.Calls.{deliver, consed, take_loop}
use viy.Workers.Drain.{result_tickets}
use viy.Workers.Keeps.Deliver.{find-ticket}

-- The `n` numbers from `k` on.
abbrev pub numbers_from : ℕ → ℕ → List ℕ
numbers_from k zero = []
numbers_from k (suc n) = k ∷ numbers_from (k + 1) n

module _ {J P : Type 0} where
  -- A batch of results has the next tickets in order, and the pool goes on behind them.
  abbrev pub InOrder : Pool J P → List (JobResult P) × Pool J P → Type 0
  InOrder p r =
      (result_tickets r.0 ≡ numbers_from p.next_delivery (length r.0))
      × (r.1.next_delivery ≡ p.next_delivery + length r.0)

  pub InOrder-consed :
      (p : Pool J P) (r : JobResult P) (rest : List (JobResult P) × Pool J P)
      → r.ticket ≡ p.next_delivery
      → InOrder (deliver p) rest
      → InOrder p (consed r rest)
  unfolding consed deliver
  InOrder-consed p r (rs, q) e (a, b) = (ground (arith, a, e), omega (arith, b))

  pub take_loop-InOrder :
      (fuel maximum taken : ℕ) (p : Pool J P) → InOrder p (take_loop fuel maximum taken p)
  unfolding take_loop
  take_loop-InOrder zero maximum taken p = (refl, omega arith)
  take_loop-InOrder (suc fuel) maximum taken p =
      if_rule (InOrder p) (maximum == 0 || ltb taken maximum) _ _
        (λ h.
          option_rule (InOrder p) (find p.next_delivery p.results) _ _ (λ e. (refl, omega arith))
            λ r e.
              InOrder-consed p r (take_loop fuel maximum (taken + 1) (deliver p))
                (find-ticket p.next_delivery p.results r e)
                (take_loop-InOrder fuel maximum (taken + 1) (deliver p)))
        λ h. (refl, omega arith)
