-- ===== src/Rows/Stale.antt =====
-- lib/booking/rows.ts: when an open op may be taken over, and what a caller is told to wait.
use marlo_scheduling.Prelude.{ℕ, ◌+◌, ◌-◌, ◌*◌, ◌≤◌, ◌≡◌, true, false, arith}
use marlo_scheduling.Rows.{PendingOp, is_stale_op, retry_after_seconds}

-- Of an op that is not stale and did not start in the future: the time to wait is 1 to 120 seconds;
-- the op is still not stale a second before that time is over, and it is stale a millisecond after.
pub retry_after_seconds-exact :
    (op : PendingOp) (now : ℕ)
    → op.started_at ≤ now
    → is_stale_op op now ≡ false
    → (1 ≤ retry_after_seconds op now)
      × (retry_after_seconds op now ≤ 120)
      × (is_stale_op op (now + (retry_after_seconds op now - 1) * 1_000) ≡ false)
      × (is_stale_op op (now + retry_after_seconds op now * 1_000 + 1) ≡ true)
unfolding is_stale_op retry_after_seconds
retry_after_seconds-exact op now past fresh = ground arith
