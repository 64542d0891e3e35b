-- ===== src/Cpu/Acts.antt =====
-- cpu/cpu.go: runs of the goroutines of all containers, and the samples that each run gives.
use acadock_monitoring.Prelude.Word.{Word}
use acadock_monitoring.Prelude.{
  List, [], ◌∷◌, Bytes, bytes_eq, if◌then◌else◌, Error, Outcome, ok, err, panic,
}
use acadock_monitoring.Procfs.CpuStat.{CpuStats}
use acadock_monitoring.Procfs.CpuStat
use acadock_monitoring.Cgroup.Metrics.{Stats}
use acadock_monitoring.Cpu.{
  CpuUsageMonitor, new_cpu_usage_monitor, clean_monitoring_data, is_stats_reader_error,
  monitor_tick,
}

-- What the goroutine of a container does: a tick, with what it reads, or the end of its context.
pub data Act : Type 0 where
  ticked : Bytes → Outcome Stats → Outcome CpuStats → Act
  ended : Bytes → Act

unfoldable pub act : Act → CpuUsageMonitor → CpuUsageMonitor
act (ticked id stats system) m = (monitor_tick stats system id m).0
act (ended id) m = clean_monitoring_data id m

-- A new monitor after a run, the latest act first.
unfoldable pub after_acts : Word → List Act → CpuUsageMonitor
after_acts num_cpu [] = new_cpu_usage_monitor num_cpu
after_acts num_cpu (a ∷ acts) = act a (after_acts num_cpu acts)

-- A tick gives a sample, or it fails: for good, or for this time.
unfoldable pub after_failure : Error → List Stats → List Stats
after_failure e samples = if is_stats_reader_error e then [] else samples

unfoldable pub sampled : Outcome Stats → Outcome CpuStats → List Stats → List Stats
sampled (ok s) (ok y) samples = s ∷ samples
sampled (ok s) (err e) samples = after_failure e samples
sampled (ok s) panic samples = samples
sampled (err e) y samples = after_failure e samples
sampled panic y samples = samples

unfoldable pub clocked : Outcome Stats → Outcome CpuStats → List Word → List Word
clocked (ok s) (ok y) clock = CpuStat.sum (CpuStat.all y) ∷ clock
clocked _ _ clock = clock

-- The samples of a container since its data were cleaned last, the latest first.
unfoldable pub samples_of : Bytes → List Act → List Stats
unfolding sampled after_failure
samples_of id [] = []
samples_of id (ticked j s y ∷ acts) =
    let rest = samples_of id acts in if bytes_eq j id then sampled s y rest else rest
samples_of id (ended j ∷ acts) = if bytes_eq j id then [] else samples_of id acts

-- The CPU time of the machine at each sample of a container, the latest first: no cleaning ends it.
unfoldable pub clock_of : Bytes → List Act → List Word
unfolding clocked
clock_of id [] = []
clock_of id (ticked j s y ∷ acts) =
    let rest = clock_of id acts in if bytes_eq j id then clocked s y rest else rest
clock_of id (ended j ∷ acts) = clock_of id acts

abbrev pub head_or {ℓ} : {A : Type ℓ} → A → List A → A
head_or z [] = z
head_or z (x ∷ xs) = x

abbrev pub tail {ℓ} : {A : Type ℓ} → List A → List A
tail [] = []
tail (x ∷ xs) = xs
