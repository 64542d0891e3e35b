-- ===== src/Main/Startup.antt =====
-- From the environment to the filter that the service starts with.
use acadock_monitoring.Prelude.Word.{Word, half}
use acadock_monitoring.Prelude.Dict
use acadock_monitoring.Prelude.{
  ℕ, ◌+◌, ◌^◌, ◌<◌, Bool, List, [], ◌∷◌, Bytes, codes, Outcome, ok, err, panic, ◌>>=◌, >>=-eq-ok,
  StringMap, ◌≡◌, sym, ap, subst, ◌∙◌, arith,
}
use acadock_monitoring.Text.Decimal.{format_uint}
use acadock_monitoring.Text.Duration.Print.{TimeUnit, print_parts, total}
use acadock_monitoring.Config.{defaults, Config, merge, is_true}
use acadock_monitoring.Config.Merge.{IsDistinct, chosen}
use acadock_monitoring.Config.Settings.{
  refresh_text, elements_text, points_text, interval_text, init-print_parts,
}
use acadock_monitoring.Filters.{
  ExponentialSmoothing, with_queue_length, with_average_config, new_exponential_smoothing,
}
use acadock_monitoring.Filters.Queue.{IsReady, new_exponential_smoothing-IsReady}
use acadock_monitoring.Procfs.Readers.{Os, MemInfoReader, new_mem_info_reader}
use acadock_monitoring.Procfs.MountInfo.{MountInfoReader}
use acadock_monitoring.Main.{Started, open_mounts, started, start, boot}

-- The filter holds the three settings, is ready, and divides by no 0.
abbrev pub IsSetUp : {F : Type 0} → ExponentialSmoothing F → Word → Word → Word → Type 0
IsSetUp e elements points interval =
    IsReady e
    × (e.queue_length ≡ elements)
    × (0 < points)
    × (e.average_length ≡ points)
    × (10 ^ 6 < interval)
    × (e.average_interval ≡ interval)

module _ {F P : Type 0} (duration_string : Word → Bytes) (now : ℕ) (os : Os)
    (new_fs : Bytes → Outcome P) (getpid num_cpu : Word) where
  queue_or : ExponentialSmoothing F → Outcome (Started F P) → ExponentialSmoothing F
  queue_or queue (ok s) = s.queue_length
  queue_or queue _ = queue

  -- The mounts do not touch the filter.
  same_queue :
      (config : Config) (queue : ExponentialSmoothing F) (m : Outcome (P × Word × MountInfoReader))
      {s : Started F P}
      → (m >>= (λ mounts. ok (started os num_cpu config queue mounts))) ≡ ok s
      → queue ≡ s.queue_length
  unfolding started queue_or
  same_queue config queue (ok (proc_fs, pid, mount_infos)) h = ap (queue_or queue) h
  same_queue config queue (err e) h = cc
  same_queue config queue panic h = cc

  pub start-IsSetUp :
      (c : Config) {s : Started F P}
      → c.queue_length_elements_needed + 1 < half
      → c.queue_length_points_per_sample < half
      → c.queue_length_sampling_interval < half
      → start duration_string now os new_fs getpid num_cpu c ≡ ok s
      → IsSetUp s.queue_length c.queue_length_elements_needed c.queue_length_points_per_sample
          c.queue_length_sampling_interval
  unfolding start
  start-IsSetUp c {s} h k l up =
      let opts : List (ExponentialSmoothing F → ExponentialSmoothing F) =
        with_queue_length c.queue_length_elements_needed
        ∷ with_average_config c.queue_length_points_per_sample c.queue_length_sampling_interval
        ∷ [] in
      let (queue, next, made) =
        >>=-eq-ok
          (λ q.
            open_mounts new_fs getpid c.variables.env
            >>= (λ mounts. ok (started os num_cpu c q mounts)))
          s (new_exponential_smoothing duration_string now opts) up in
      subst
        (λ (q : ExponentialSmoothing F).
          IsSetUp q c.queue_length_elements_needed c.queue_length_points_per_sample
            c.queue_length_sampling_interval)
        (same_queue c queue (open_mounts new_fs getpid c.variables.env) next)
        (new_exponential_smoothing-IsReady duration_string now c.queue_length_elements_needed
          c.queue_length_points_per_sample c.queue_length_sampling_interval h k l made)

  same_memory :
      (config : Config) (queue : ExponentialSmoothing F) (m : Outcome (P × Word × MountInfoReader))
      {s : Started F P}
      → (m >>= (λ mounts. ok (started os num_cpu config queue mounts))) ≡ ok s
      → s.host_memory ≡ new_mem_info_reader os
  unfolding started
  same_memory config queue (ok (proc_fs, pid, mount_infos)) {s} h = sym (ap memory_of h)
    where
      memory_of : Outcome (Started F P) → MemInfoReader
      memory_of (ok s) = s.host_memory
      memory_of _ = new_mem_info_reader os
  same_memory config queue (err e) h = cc
  same_memory config queue panic h = cc

  pub start-host_memory :
      (c : Config) {s : Started F P}
      → start duration_string now os new_fs getpid num_cpu c ≡ ok s
      → s.host_memory ≡ new_mem_info_reader os
  unfolding start
  start-host_memory c {s} up =
      let opts : List (ExponentialSmoothing F → ExponentialSmoothing F) =
        with_queue_length c.queue_length_elements_needed
        ∷ with_average_config c.queue_length_points_per_sample c.queue_length_sampling_interval
        ∷ [] in
      let (queue, next, made) =
        >>=-eq-ok
          (λ q.
            open_mounts new_fs getpid c.variables.env
            >>= (λ mounts. ok (started os num_cpu c q mounts)))
          s (new_exponential_smoothing duration_string now opts) up in
      same_memory c queue (open_mounts new_fs getpid c.variables.env) next

  -- If the variables that count - those of the environment, or the defaults - hold the prints of two
  -- durations below 2 ^ 63 nanoseconds and of two numbers below 2 ^ 63 - 1, and the service comes up,
  -- then its filter of the queue length holds the last three, is ready, takes more than a
  -- millisecond, and divides by no 0. This does not depend on the order of the map.
  pub boot-IsSetUp :
      (fraction : ℕ → ℕ → ℕ → Word) (unified : Bool) (order os_env : StringMap Bytes) (n m : ℕ)
      (u v : TimeUnit) (ps qs : List (ℕ × TimeUnit)) (elements points : Word) {s : Started F P}
      → IsDistinct order
      → ((k : Bytes) → Dict.lookup k order ≡ Dict.lookup k defaults)
      → total ((n, u) ∷ ps) < half
      → total ((m, v) ∷ qs) < half
      → elements + 1 < half
      → points < half
      → refresh_text os_env ≡ print_parts ((n, u) ∷ ps)
      → interval_text os_env ≡ print_parts ((m, v) ∷ qs)
      → elements_text os_env ≡ format_uint elements
      → points_text os_env ≡ format_uint points
      → boot fraction unified order os_env duration_string now os new_fs getpid num_cpu ≡ ok s
      → IsSetUp s.queue_length elements points (total ((m, v) ∷ qs))
  unfolding boot
  boot-IsSetUp fraction unified order os_env n m u v ps qs elements points {s} distinct visits h₁ h₂
        h₃ h₄ e₁ e₂ e₃ e₄ up =
      let set =
        init-print_parts fraction unified order os_env distinct visits n m u v ps qs elements points
          h₁ h₂ (omega arith) h₄ e₁ e₂ e₃ e₄ in
      let config : Config = record {
        variables = merge order (record { env = defaults; os_env = os_env });
        refresh_time = total ((n, u) ∷ ps);
        debug = is_true (chosen (codes "DEBUG") (codes "false") os_env);
        queue_length_sampling_interval = total ((m, v) ∷ qs);
        queue_length_points_per_sample = points;
        queue_length_elements_needed = elements;
        is_using_cgroup_v2 = unified;
      } in
      start-IsSetUp config h₃ h₄ h₂ (
        ap (λ (o : Outcome Config). o >>= start duration_string now os new_fs getpid num_cpu)
          (sym set)
        ∙ up)
