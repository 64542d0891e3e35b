-- ===== src/Cpu/Host.antt =====
-- The usage of the machine.
use acadock_monitoring.Prelude.Word
use acadock_monitoring.Prelude.Word.{Word, modulus, sub_self}
use acadock_monitoring.Prelude.{
  List, [], ◌∷◌, ◌||◌, Option, none, some, if◌then◌else◌, Outcome, ok, err, panic, ◌≡◌, refl, arith,
  ap, ◌∙◌,
}
use acadock_monitoring.Float.{Float64, KeepsSign}
use acadock_monitoring.Procfs.CpuStat.{SingleCpuStat, CpuStats}
use acadock_monitoring.Procfs.CpuStat
use acadock_monitoring.Client.Types.{HostCpuUsage}
use acadock_monitoring.Cpu.{
  CpuUsageMonitor, new_cpu_usage_monitor, update_host_cpu_usage, host_usage_between, host_usage_of,
  get_host_usage, no_host_usage,
}

-- The monitor after a run of reads of /proc/stat, the latest first.
unfoldable pub after_reads : Word → List (Outcome CpuStats) → CpuUsageMonitor
after_reads num_cpu [] = new_cpu_usage_monitor num_cpu
after_reads num_cpu (r ∷ rs) = (update_host_cpu_usage r (after_reads num_cpu rs)).0

-- The lines of the whole machine of the reads that succeeded.
unfoldable pub successes : List (Outcome CpuStats) → List SingleCpuStat
successes [] = []
successes (ok s ∷ rs) = CpuStat.all s ∷ successes rs
successes (err e ∷ rs) = successes rs
successes (panic ∷ rs) = successes rs

first_of : List SingleCpuStat → Option SingleCpuStat
first_of [] = none
first_of (s ∷ ss) = some s

second_of : List SingleCpuStat → Option SingleCpuStat
unfolding first_of
second_of [] = none
second_of (s ∷ ss) = first_of ss

num_cpu-after_reads : (n : Word) (rs : List (Outcome CpuStats)) → (after_reads n rs).num_cpu ≡ n
unfolding after_reads update_host_cpu_usage new_cpu_usage_monitor
num_cpu-after_reads n [] = refl
num_cpu-after_reads n (ok s ∷ rs) = num_cpu-after_reads n rs
num_cpu-after_reads n (err e ∷ rs) = num_cpu-after_reads n rs
num_cpu-after_reads n (panic ∷ rs) = num_cpu-after_reads n rs

after_reads-last_two :
    (n : Word) (rs : List (Outcome CpuStats))
    → ((after_reads n rs).current_host_usage ≡ first_of (successes rs))
      × ((after_reads n rs).previous_host_usage ≡ second_of (successes rs))
unfolding after_reads update_host_cpu_usage new_cpu_usage_monitor successes first_of second_of
after_reads-last_two n [] = (refl, refl)
after_reads-last_two n (ok s ∷ rs) = (refl, (after_reads-last_two n rs).0)
after_reads-last_two n (err e ∷ rs) = after_reads-last_two n rs
after_reads-last_two n (panic ∷ rs) = after_reads-last_two n rs

module _ (fl : Float64) where
  -- The usage of the latest two samples, or nothing where there are fewer.
  unfoldable pub usage_of_last_two : Word → List SingleCpuStat → HostCpuUsage fl.F
  usage_of_last_two n (current ∷ previous ∷ _) = host_usage_between fl n previous current
  usage_of_last_two n _ = no_host_usage fl

  last_two-usage :
      (n : Word) (ss : List SingleCpuStat)
      → host_usage_of fl n (second_of ss) (first_of ss) ≡ usage_of_last_two n ss
  unfolding usage_of_last_two first_of second_of host_usage_of
  last_two-usage n [] = refl
  last_two-usage n (s ∷ []) = refl
  last_two-usage n (s ∷ t ∷ ss) = refl

  -- Whatever reads failed in between, the host usage is that of the latest two that succeeded.
  pub get_host_usage-after_reads :
      (n : Word) (rs : List (Outcome CpuStats))
      → get_host_usage fl (after_reads n rs) ≡ usage_of_last_two n (successes rs)
  unfolding get_host_usage
  get_host_usage-after_reads n rs =
      let (current, previous) = after_reads-last_two n rs in
      ap
        (λ (h : Option SingleCpuStat).
          host_usage_of fl (after_reads n rs).num_cpu h (after_reads n rs).current_host_usage)
        previous
      ∙ ap
          (λ (h : Option SingleCpuStat).
            host_usage_of fl (after_reads n rs).num_cpu (second_of (successes rs)) h)
          current
      ∙ ap (λ (c : Word). host_usage_of fl c (second_of (successes rs)) (first_of (successes rs)))
          (num_cpu-after_reads n rs)
      ∙ last_two-usage n (successes rs)

  module _ (k : KeepsSign fl) (n : Word) where
    -- A usage is computed if neither difference is negative as a signed number, and else none is.
    pub host_usage_between-sign :
        (before after : SingleCpuStat)
        → host_usage_between fl n before after ≡ (
            if Word.is_negative (Word.sub after.idle before.idle)
              || Word.is_negative (Word.sub (CpuStat.sum after) (CpuStat.sum before))
            then no_host_usage fl
            else record {
              usage =
                  fl.div
                    (fl.sub
                      (fl.of_int64 (Word.sub (CpuStat.sum after) (CpuStat.sum before)))
                      (fl.of_int64 (Word.sub after.idle before.idle)))
                    (fl.of_int64 (Word.sub (CpuStat.sum after) (CpuStat.sum before)));
              amount = n;
              queue_length_exponentially_smoothed = fl.of_int64 0;
            })
    unfolding host_usage_between
    host_usage_between-sign before after = rw (
      k.negative_of_int64 (Word.sub after.idle before.idle) (omega arith),
      k.negative_of_int64 (Word.sub (CpuStat.sum after) (CpuStat.sum before)) (omega arith),
    )

    -- Two samples with the same counters pass the guard, and zero is divided by zero.
    pub host_usage_between-same :
        (c : SingleCpuStat)
        → (host_usage_between fl n c c).usage
          ≡ fl.div (fl.sub (fl.of_int64 0) (fl.of_int64 0)) (fl.of_int64 0)
    host_usage_between-same c =
        ap (λ (h : HostCpuUsage fl.F). h.usage) (host_usage_between-sign c c)
        ∙ rw (sub_self c.idle, sub_self (CpuStat.sum c))
