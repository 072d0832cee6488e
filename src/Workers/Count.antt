-- ===== src/Workers/Count.antt =====
-- The number of workers of a pool (viy_resolve_worker_count_for_hardware of
-- src/emulation_workers.cpp).
use viy.Base.{ℕ, ◌-◌, ◌≡◌, ◌↔◌, arith, ltb, ◌==◌, if◌then◌else◌, min, max}
use viy.Base.Int.{ℤ, pos_part}

-- kViyAutomaticWorkerCap
abbrev pub automatic_worker_cap : ℕ
automatic_worker_cap = 4

unfoldable pub resolve_worker_count_for_hardware : ℤ → ℕ → ℕ → ℕ
resolve_worker_count_for_hardware configured reported hard_cap =
    let automatic : ℕ = if ltb 1 reported then reported - 1 else 1 in
    if hard_cap == 0
    then 0
    else if ltb 0 (pos_part configured)
    then min (pos_part configured) hard_cap
    else min (min automatic automatic_worker_cap) hard_cap

-- The number of workers is the configured one where that is positive, and otherwise one less than
-- the hardware's, but at least one and at most four; in either case no more than the hard cap, and
-- it is zero exactly when the hard cap is.
pub resolve_worker_count_lem :
    (configured : ℤ) (reported hard_cap : ℕ)
    → let n = resolve_worker_count_for_hardware configured reported hard_cap in
      (n
        ≡ min hard_cap (
            if pos_part configured == 0 then max 1 (min 4 (reported - 1)) else pos_part configured))
      × ((n ≡ 0) ↔ (hard_cap ≡ 0))
unfolding resolve_worker_count_for_hardware
resolve_worker_count_lem configured reported hard_cap = (ground arith, ground arith)
