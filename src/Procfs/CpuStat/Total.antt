-- ===== src/Procfs/CpuStat/Total.antt =====
-- The sum of the ten durations.
use acadock_monitoring.Prelude.Word
use acadock_monitoring.Prelude.Word.{modulus}
use acadock_monitoring.Prelude.{ℕ, ◌+◌, ◌%◌, ◌≤◌, ◌<◌, ◌≡◌, arith}
use acadock_monitoring.Procfs.CpuStat.{SingleCpuStat, sum}

-- The sum without a bound.
unfoldable pub total : SingleCpuStat → ℕ
total c =
    c.user + c.nice + c.system + c.idle + c.io_wait + c.irq + c.soft_irq + c.steal + c.guest
    + c.guest_nice

-- `Sum` is the total modulo 2 ^ 64, so it is the total itself where that fits a word.
pub sum-total :
    (c : SingleCpuStat) → (sum c ≡ total c % modulus) × (total c < modulus → sum c ≡ total c)
unfolding sum total
sum-total c = omega arith

-- Counters that only grow, and whose totals fit a word, give a difference of sums that is the
-- growth: it neither wraps around nor is less than that of the idle time.
pub sum_grows :
    (before after : SingleCpuStat)
    → before.user ≤ after.user
    → before.nice ≤ after.nice
    → before.system ≤ after.system
    → before.idle ≤ after.idle
    → before.io_wait ≤ after.io_wait
    → before.irq ≤ after.irq
    → before.soft_irq ≤ after.soft_irq
    → before.steal ≤ after.steal
    → before.guest ≤ after.guest
    → before.guest_nice ≤ after.guest_nice
    → total after < modulus
    → (Word.sub (sum after) (sum before) + total before ≡ total after)
      × (Word.sub after.idle before.idle ≤ Word.sub (sum after) (sum before))
unfolding sum total
sum_grows before after h₁ h₂ h₃ h₄ h₅ h₆ h₇ h₈ h₉ h₁₀ fits = omega arith
