-- ===== src/Runtime/Trade/Fees.antt =====
-- runtime/src/shared/mockL1.ts, `computeFeeSplit`.
use co_net_dle.Common.{ℕ, ◌+◌, ◌-◌, ◌*◌, ◌/◌, ◌≤◌, ◌<◌, ◌≡◌, arith}

pub record FeeSplit : Type 0 where
  pub fee_amount : ℕ
  pub scanner_reward : ℕ
  pub committee_reward : ℕ

-- The last subtraction never goes below zero, since the scanner's reward is half of the fee.
unfoldable pub compute_fee_split : ℕ → FeeSplit
compute_fee_split clearing_amount =
    let fee = clearing_amount / 10000 in
    record { fee_amount = fee; scanner_reward = fee / 2; committee_reward = fee - fee / 2 }

-- The two rewards are the fee, they differ by at most one with the odd unit going to the committee, and
-- the fee is one basis point of the amount rounded down.
pub fee_split_conserves :
    (amount : ℕ)
    → let s = compute_fee_split amount in
      (s.scanner_reward + s.committee_reward ≡ s.fee_amount)
      × (s.scanner_reward ≤ s.committee_reward)
      × (s.committee_reward ≤ s.scanner_reward + 1)
      × (s.fee_amount * 10000 ≤ amount)
      × (amount < (s.fee_amount + 1) * 10000)
unfolding compute_fee_split
fee_split_conserves amount = (omega arith, omega arith, omega arith, omega arith, omega arith)
