-- ===== src/Cpu/History.antt =====
-- cpu/cpu.go: the usage of a container after any run of the goroutines of all containers.
use acadock_monitoring.Prelude.Word
use acadock_monitoring.Prelude.Word.{Word}
use acadock_monitoring.Prelude.Dict
use acadock_monitoring.Prelude.Dict.{dict_laws}
use acadock_monitoring.Prelude.{
  false, List, [], ◌∷◌, Option, none, some, Bytes, bytes_eq, bytes_eq→eq, bytes_eq_refl, Error,
  wrapped, Outcome, ok, err, panic, ◌≡◌, refl, ap, ◌∙◌, inl, inr, Bool-cases,
}
use mathlib.Core.Option
use acadock_monitoring.Float.{Float64}
use acadock_monitoring.Procfs.CpuStat.{CpuStats}
use acadock_monitoring.Procfs.CpuStat
use acadock_monitoring.Cgroup.Metrics.{Stats}
use acadock_monitoring.Client.Types.{CpuUsage}
use acadock_monitoring.Cpu.{
  CpuUsageMonitor, new_cpu_usage_monitor, zero_stats, store_sample, update_container_cpu_usage,
  clean_monitoring_data, is_stats_reader_error, after_update, monitor_tick, percents,
  get_container_usage,
}
use acadock_monitoring.Cpu.Acts.{
  Act, ticked, ended, act, after_acts, after_failure, sampled, clocked, samples_of, clock_of,
  head_or, tail,
}

-- The sample before the latest: that before the first one is zero.
abbrev previous_of : List Stats → Option Stats
previous_of [] = none
previous_of (s ∷ earlier) = some (head_or zero_stats earlier)

-- What the monitor holds of a container that has such samples and such times.
record Knows (id : Bytes) (samples : List Stats) (clock : List Word) (m : CpuUsageMonitor)
    : Type 0 where
  current : Dict.get_or zero_stats id m.current_container_stats ≡ head_or zero_stats samples
  previous : Dict.lookup id m.previous_container_stats ≡ previous_of samples
  system : Dict.get_or 0 id m.current_system_usage ≡ head_or 0 clock
  previous_system : Dict.get_or 0 id m.previous_system_usage ≡ head_or 0 (tail clock)

module _ (id : Bytes) where
  store-Knows :
      (s : Stats) (y : CpuStats) {samples : List Stats} {clock : List Word} (m : CpuUsageMonitor)
      → Knows id samples clock m
      → Knows id (s ∷ samples) (CpuStat.sum (CpuStat.all y) ∷ clock) (store_sample s y id m)
  unfolding store_sample
  store-Knows s y m k = record {
    current = simp dict_laws;
    previous = simp (dict_laws, k.current);
    system = simp dict_laws;
    previous_system = simp (dict_laws, k.system);
  }

  store_other-Knows :
      (j : Bytes) (s : Stats) (y : CpuStats) {samples : List Stats} {clock : List Word}
      (m : CpuUsageMonitor)
      → bytes_eq j id ≡ false
      → Knows id samples clock m
      → Knows id samples clock (store_sample s y j m)
  unfolding store_sample
  store_other-Knows j s y m h k = record {
    current = simp (dict_laws, h, k.current);
    previous = simp (dict_laws, h, k.previous);
    system = simp (dict_laws, h, k.system);
    previous_system = simp (dict_laws, h, k.previous_system);
  }

  clean-Knows :
      {samples : List Stats} {clock : List Word} (m : CpuUsageMonitor)
      → Knows id samples clock m
      → Knows id [] clock (clean_monitoring_data id m)
  unfolding clean_monitoring_data
  clean-Knows m k = record {
    current = simp dict_laws;
    previous = simp dict_laws;
    system = k.system;
    previous_system = k.previous_system;
  }

  clean_other-Knows :
      (j : Bytes) {samples : List Stats} {clock : List Word} (m : CpuUsageMonitor)
      → bytes_eq j id ≡ false
      → Knows id samples clock m
      → Knows id samples clock (clean_monitoring_data j m)
  unfolding clean_monitoring_data
  clean_other-Knows j m h k = record {
    current = simp (dict_laws, h, k.current);
    previous = simp (dict_laws, h, k.previous);
    system = k.system;
    previous_system = k.previous_system;
  }

  failed-Knows :
      (text : Bytes) (e : Error) {samples : List Stats} {clock : List Word} (m : CpuUsageMonitor)
      → Knows id samples clock m
      → Knows id (after_failure e samples) clock (after_update id (m, err (wrapped text e))).0
  unfolding after_update after_failure is_stats_reader_error
  failed-Knows text e m k = elim (Bool-cases (is_stats_reader_error e)) [
    | inl fatal ↦ rw fatal (clean-Knows m k)
    | inr mild ↦ rw mild k
  ]

  failed_other-Knows :
      (j : Bytes) (e : Error) {samples : List Stats} {clock : List Word} (m : CpuUsageMonitor)
      → bytes_eq j id ≡ false
      → Knows id samples clock m
      → Knows id samples clock (after_update j (m, err e)).0
  unfolding after_update
  failed_other-Knows j e m h k = elim (Bool-cases (is_stats_reader_error e)) [
    | inl fatal ↦ rw fatal (clean_other-Knows j m h k)
    | inr mild ↦ rw mild k
  ]

  tick-Knows :
      (s : Outcome Stats) (y : Outcome CpuStats) {samples : List Stats} {clock : List Word}
      (m : CpuUsageMonitor)
      → Knows id samples clock m
      → Knows id (sampled s y samples) (clocked s y clock) (monitor_tick s y id m).0
  unfolding monitor_tick update_container_cpu_usage sampled clocked
  tick-Knows (ok s) (ok y) m k = store-Knows s y m k
  tick-Knows (ok s) (err e) m k = failed-Knows _ e m k
  tick-Knows (ok s) panic m k = k
  tick-Knows (err e) (ok y) m k = failed-Knows _ e m k
  tick-Knows (err e) (err f) m k = failed-Knows _ e m k
  tick-Knows (err e) panic m k = failed-Knows _ e m k
  tick-Knows panic (ok y) m k = k
  tick-Knows panic (err e) m k = k
  tick-Knows panic panic m k = k

  tick_other-Knows :
      (j : Bytes) (s : Outcome Stats) (y : Outcome CpuStats) {samples : List Stats}
      {clock : List Word} (m : CpuUsageMonitor)
      → bytes_eq j id ≡ false
      → Knows id samples clock m
      → Knows id samples clock (monitor_tick s y j m).0
  unfolding monitor_tick update_container_cpu_usage
  tick_other-Knows j (ok s) (ok y) m h k = store_other-Knows j s y m h k
  tick_other-Knows j (ok s) (err e) m h k = failed_other-Knows j _ m h k
  tick_other-Knows j (ok s) panic m h k = k
  tick_other-Knows j (err e) y m h k = failed_other-Knows j _ m h k
  tick_other-Knows j panic y m h k = k

  after_acts-Knows :
      (n : Word) (acts : List Act)
      → Knows id (samples_of id acts) (clock_of id acts) (after_acts n acts)
  unfolding after_acts act samples_of clock_of new_cpu_usage_monitor Dict.get_or Dict.lookup
  after_acts-Knows n [] = record {
    current = refl;
    previous = refl;
    system = refl;
    previous_system = refl;
  }
  after_acts-Knows n (ticked j s y ∷ acts) = elim (Bool-cases (bytes_eq j id)) [
    | inl same ↦
        rw (bytes_eq→eq j id same, bytes_eq_refl id)
          (tick-Knows s y (after_acts n acts) (after_acts-Knows n acts))
    | inr other ↦
        rw other (tick_other-Knows j s y (after_acts n acts) other (after_acts-Knows n acts))
  ]
  after_acts-Knows n (ended j ∷ acts) = elim (Bool-cases (bytes_eq j id)) [
    | inl same ↦
        rw (bytes_eq→eq j id same, bytes_eq_refl id)
          (clean-Knows (after_acts n acts) (after_acts-Knows n acts))
    | inr other ↦ rw other (clean_other-Knows j (after_acts n acts) other (after_acts-Knows n acts))
  ]

num_cpu-after_update :
    (id : Bytes) (m : CpuUsageMonitor) (e : Error)
    → (after_update id (m, err e)).0.num_cpu ≡ m.num_cpu
unfolding after_update clean_monitoring_data
num_cpu-after_update id m e = elim (Bool-cases (is_stats_reader_error e)) [
  | inl fatal ↦ rw fatal
  | inr mild ↦ rw mild
]

num_cpu-act : (a : Act) (m : CpuUsageMonitor) → (act a m).num_cpu ≡ m.num_cpu
unfolding act monitor_tick update_container_cpu_usage store_sample clean_monitoring_data
num_cpu-act (ended id) m = refl
num_cpu-act (ticked id (ok s) (ok y)) m = unfold after_update in refl
num_cpu-act (ticked id (ok s) (err e)) m = num_cpu-after_update id m _
num_cpu-act (ticked id (ok s) panic) m = unfold after_update in refl
num_cpu-act (ticked id (err e) y) m = num_cpu-after_update id m _
num_cpu-act (ticked id panic y) m = unfold after_update in refl

num_cpu-after_acts : (n : Word) (acts : List Act) → (after_acts n acts).num_cpu ≡ n
unfolding after_acts new_cpu_usage_monitor
num_cpu-after_acts n [] = refl
num_cpu-after_acts n (a ∷ acts) = num_cpu-act a (after_acts n acts) ∙ num_cpu-after_acts n acts

module _ (fl : Float64) where
  -- The growth since the sample before, in percent of the growth of the machine's time; a first
  -- sample is compared with no CPU time at all.
  unfoldable pub usage_of_samples : Word → List Stats → List Word → CpuUsage
  usage_of_samples n [] clock = record { usage_in_percents = 0 }
  usage_of_samples n (s ∷ earlier) clock = record {
    usage_in_percents =
        percents fl n (Word.sub s.cpu_usage (head_or zero_stats earlier).cpu_usage)
          (Word.sub (head_or 0 clock) (head_or 0 (tail clock)));
  }

  known-usage :
      (id : Bytes) (samples : List Stats) (clock : List Word) (m : CpuUsageMonitor)
      → Knows id samples clock m
      → get_container_usage fl id m ≡ usage_of_samples m.num_cpu samples clock
  unfolding get_container_usage usage_of_samples
  known-usage id [] clock m k = simp k.previous
  known-usage id (s ∷ earlier) clock m k =
      let before : Dict.get_or zero_stats id m.previous_container_stats
          ≡ head_or zero_stats earlier =
        Dict.get_or-lookup zero_stats id m.previous_container_stats
        ∙ ap (λ (o : Option Stats). Option.get_or o zero_stats) k.previous in
      simp (k.previous, k.current, before, k.system, k.previous_system)

  -- After any run of the goroutines of all containers, in any order and with any failures, the usage
  -- of a container is made of its own latest samples: of the last two since its data were cleaned
  -- last, or of the first one against no CPU time at all, and of the machine's CPU time at its last
  -- two samples, which a cleaning does not end; it is 0 if there is no sample since.
  pub get_container_usage-after_acts :
      (n : Word) (acts : List Act) (id : Bytes)
      → get_container_usage fl id (after_acts n acts)
        ≡ usage_of_samples n (samples_of id acts) (clock_of id acts)
  get_container_usage-after_acts n acts id =
      known-usage id _ _ (after_acts n acts) (after_acts-Knows id n acts)
      ∙ ap (λ (k : Word). usage_of_samples k (samples_of id acts) (clock_of id acts))
          (num_cpu-after_acts n acts)
