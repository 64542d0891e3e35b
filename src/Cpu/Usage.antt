-- ===== src/Cpu/Usage.antt =====
-- The usage of a container: what the samples make of it.
use acadock_monitoring.Prelude.Word
use acadock_monitoring.Prelude.Word.{Word, modulus}
use acadock_monitoring.Prelude.Dict
use acadock_monitoring.Prelude.Dict.{dict_laws}
use acadock_monitoring.Prelude.{
  ◌<◌, false, ◌&&◌, none, Bytes, bytes_eq, if◌then◌else◌, Error, Outcome, ok, err, panic, ◌≡◌, refl,
  inl, inr, Bool-cases,
}
use acadock_monitoring.Float.{Float64, KeepsSign}
use acadock_monitoring.Procfs.CpuStat.{SingleCpuStat, CpuStats}
use acadock_monitoring.Procfs.CpuStat
use acadock_monitoring.Cgroup.Metrics.{Stats, MountInfos}
use acadock_monitoring.Cgroup.Manager.{CgroupLibrary, Settings}
use acadock_monitoring.Cgroup.Stats.{get_stats}
use acadock_monitoring.Cgroup.Stats.Errors.{get_stats-err}
use acadock_monitoring.Cpu.{
  CpuUsageMonitor, store_sample, update_container_cpu_usage, clean_monitoring_data,
  is_stats_reader_error, goes_on, stops, after_update, monitor_tick, percents, get_container_usage,
}

module _ (fl : Float64) where
  -- After two samples of a container the usage is a function of the two alone: of the growth of
  -- its CPU time and of the machine's. What was known before does not count.
  pub get_container_usage-two_samples :
      (id : Bytes) (m : CpuUsageMonitor) (s t : Stats) (y z : CpuStats)
      → get_container_usage fl id
          (update_container_cpu_usage
            (ok t)
            (ok z)
            id
            (update_container_cpu_usage (ok s) (ok y) id m).0).0
        ≡ record {
          usage_in_percents =
              percents fl m.num_cpu
                (Word.sub t.cpu_usage s.cpu_usage)
                (Word.sub (CpuStat.sum (CpuStat.all z)) (CpuStat.sum (CpuStat.all y)));
        }
  unfolding get_container_usage update_container_cpu_usage store_sample
  get_container_usage-two_samples id m s t y z = simp dict_laws

  -- The first sample of a container is compared with zero: the usage is that of its whole life
  -- against the time since the machine started.
  pub get_container_usage-first_sample :
      (id : Bytes) (m : CpuUsageMonitor) (s : Stats) (y : CpuStats)
      → Dict.lookup id m.current_container_stats ≡ none
      → Dict.lookup id m.current_system_usage ≡ none
      → get_container_usage fl id (update_container_cpu_usage (ok s) (ok y) id m).0 ≡ record {
        usage_in_percents =
            percents fl m.num_cpu
              (Word.sub s.cpu_usage 0)
              (Word.sub (CpuStat.sum (CpuStat.all y)) 0);
      }
  unfolding get_container_usage update_container_cpu_usage store_sample
  get_container_usage-first_sample id m s y h k = simp (dict_laws, Dict.get_or-lookup, h, k)

  store-other :
      (id other : Bytes) (m : CpuUsageMonitor) (s : Stats) (y : CpuStats)
      → bytes_eq id other ≡ false
      → get_container_usage fl other (store_sample s y id m) ≡ get_container_usage fl other m
  unfolding get_container_usage store_sample
  store-other id other m s y h = simp (dict_laws, h)

  clean-other :
      (id other : Bytes) (m : CpuUsageMonitor)
      → bytes_eq id other ≡ false
      → get_container_usage fl other (clean_monitoring_data id m) ≡ get_container_usage fl other m
  unfolding get_container_usage clean_monitoring_data
  clean-other id other m h = simp (dict_laws, h)

  failed-other :
      (id other : Bytes) (m : CpuUsageMonitor) (e : Error)
      → bytes_eq id other ≡ false
      → get_container_usage fl other (after_update id (m, err e)).0 ≡ get_container_usage fl other m
  unfolding after_update
  failed-other id other m e h = elim (Bool-cases (is_stats_reader_error e)) [
    | inl fatal ↦ rw fatal (clean-other id other m h)
    | inr mild ↦ rw mild
  ]

  -- A tick for one container, whatever it reads, does not touch the usage of another.
  pub get_container_usage-other :
      (id other : Bytes) (m : CpuUsageMonitor) (s : Outcome Stats) (y : Outcome CpuStats)
      → bytes_eq id other ≡ false
      → get_container_usage fl other (monitor_tick s y id m).0 ≡ get_container_usage fl other m
  unfolding monitor_tick update_container_cpu_usage
  get_container_usage-other id other m (ok s) (ok y) h = store-other id other m s y h
  get_container_usage-other id other m (ok s) (err e) h = failed-other id other m _ h
  get_container_usage-other id other m (ok s) panic h = refl
  get_container_usage-other id other m (err e) y h = failed-other id other m _ h
  get_container_usage-other id other m panic y h = refl

  -- A container whose data were cleaned has no usage.
  pub get_container_usage-clean :
      (id : Bytes) (m : CpuUsageMonitor)
      → get_container_usage fl id (clean_monitoring_data id m) ≡ record { usage_in_percents = 0 }
  unfolding get_container_usage clean_monitoring_data
  get_container_usage-clean id m = simp dict_laws

-- With conversions that keep the sign, a usage is computed only from two differences that are
-- positive as signed numbers: a counter that stood still or went back gives 0.
pub percents-positive :
    (fl : Float64)
    → KeepsSign fl
    → (num_cpu cpu system : Word) → cpu < modulus
    → system < modulus
    → percents fl num_cpu cpu system ≡ (
        if Word.is_positive cpu && Word.is_positive system
        then fl.to_int64 (
            fl.mul
              (fl.mul (fl.div (fl.of_int64 cpu) (fl.of_int64 system)) (fl.of_int64 100))
              (fl.of_int64 num_cpu))
        else 0)
unfolding percents
percents-positive fl k num_cpu cpu system h₁ h₂ =
    rw (k.positive_of_int64 cpu h₁, k.positive_of_int64 system h₂)

module _ {V1 V2 : Type 0} (lib : CgroupLibrary V1 V2) (infos : MountInfos)
    (settings : Settings) where
  -- Any error of `GetStats` ends the monitoring of the container and cleans its data.
  pub monitor_tick-get_stats_err :
      (id : Bytes) (m : CpuUsageMonitor) (y : Outcome CpuStats) {e : Error}
      → get_stats lib infos settings id ≡ err e
      → monitor_tick (get_stats lib infos settings id) y id m ≡ (clean_monitoring_data id m, stops)
  unfolding monitor_tick update_container_cpu_usage is_stats_reader_error
  monitor_tick-get_stats_err id m y {e} h =
      let (cause, e') = get_stats-err lib infos settings id e h in rw (h, e')

-- A failed read of /proc/stat loses one sample: the data stay and the monitoring goes on.
pub monitor_tick-read_err :
    (id : Bytes) (m : CpuUsageMonitor) (s : Stats) (e : Error)
    → is_stats_reader_error e ≡ false
    → monitor_tick (ok s) (err e) id m ≡ (m, goes_on)
unfolding monitor_tick update_container_cpu_usage is_stats_reader_error
monitor_tick-read_err id m s e h = rw h
