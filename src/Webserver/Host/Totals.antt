-- ===== src/Webserver/Host/Totals.antt =====
-- What the host handler adds up.
use acadock_monitoring.Prelude.Word
use acadock_monitoring.Prelude.Word.{Word, modulus}
use acadock_monitoring.Prelude.{
  ℕ, ◌+◌, ◌%◌, ◌/◌, List, [], ◌∷◌, ◌++◌, map, Bytes, bytes_eq, Bool, true, any, StringMap,
  if◌then◌else◌, Outcome, ok, err, panic, ◌>>=◌, ◌≡◌, ◌≢◌, refl, arith, ap, sym, ◌∙◌, inl, inr,
  Bool-cases,
}
use acadock_monitoring.Prelude.Dict
use acadock_monitoring.Float.{Float64}
use acadock_monitoring.Client.Types.{MemoryUsage, HostCpuUsage, HostMemoryUsage, HostUsage}
use acadock_monitoring.Docker.Containers.{ContainerSummary}
use acadock_monitoring.Procfs.MemInfo.{MemInfo, free_buffers, swap_used}
use acadock_monitoring.Webserver.Host.{
  has_label, is_included, add_usage, add_result, add_containers, host_memory, smoothed_queue,
  host_resources,
}

-- No label is asked for, or the container has the one that is.
unfoldable pub is_asked : Bytes → ContainerSummary → Bool
is_asked [] c = true
is_asked (x ∷ label) c = any (λ (l : Bytes × Bytes). bytes_eq l.0 (x ∷ label)) c.labels

has_label-lookup :
    (label : Bytes) (labels : StringMap Bytes)
    → has_label (Dict.lookup label labels) ≡ any (λ (l : Bytes × Bytes). bytes_eq l.0 label) labels
unfolding has_label Dict.lookup
has_label-lookup label [] = refl
has_label-lookup label ((key, value) ∷ labels) = elim (Bool-cases (bytes_eq key label)) [
  | inl same ↦ rw same refl
  | inr other ↦ rw other (has_label-lookup label labels)
]

is_included-is_asked :
    (label : Bytes) (c : ContainerSummary) → is_included label c ≡ is_asked label c
unfolding is_included is_asked bytes_eq
is_included-is_asked [] c = refl
is_included-is_asked (x ∷ label) c = has_label-lookup (x ∷ label) c.labels

module _ (get_memory_usage : Bytes → Outcome MemoryUsage) (label_filter : Bytes) where
  usage_list : Outcome MemoryUsage → List MemoryUsage
  usage_list (ok usage) = usage ∷ []
  usage_list _ = []

  -- The usages that count: of the containers that are asked for and can be read.
  unfoldable pub counted : List ContainerSummary → List MemoryUsage
  unfolding usage_list
  counted [] = []
  counted (c ∷ cs) =
      if is_asked label_filter c
      then usage_list (get_memory_usage c.id) ++ counted cs
      else counted cs

-- The sum, with no wrap-around.
unfoldable pub total : List ℕ → ℕ
total [] = 0
total (x ∷ xs) = x + total xs

add_from : Word → List Word → Word
add_from a [] = a
add_from a (x ∷ xs) = add_from (Word.add a x) xs

add_from-total :
    (a : Word) (xs : List Word) → a % modulus ≡ a → add_from a xs ≡ (a + total xs) % modulus
unfolding add_from total
add_from-total a [] h = omega arith
add_from-total a (x ∷ xs) h = omega (arith, add_from-total (Word.add a x) xs (omega arith))

add_from-zero : (xs : List Word) → add_from 0 xs ≡ total xs % modulus
add_from-zero xs = omega (arith, add_from-total 0 xs (omega arith))

add_all : List MemoryUsage → HostMemoryUsage → HostMemoryUsage
add_all [] memory = memory
add_all (u ∷ us) memory = add_all us (add_usage u memory)

fields-add_all :
    (us : List MemoryUsage) (m : HostMemoryUsage)
    → ((add_all us m).memory_usage ≡ add_from m.memory_usage (map (λ u. u.memory_usage) us))
      × ((add_all us m).memory_committed
          ≡ add_from m.memory_committed (map (λ u. u.memory_limit) us))
      × ((add_all us m).max_memory_usage
          ≡ add_from m.max_memory_usage (map (λ u. u.max_memory_usage) us))
      × ((add_all us m).swap_usage ≡ add_from m.swap_usage (map (λ u. u.swap_usage) us))
      × ((add_all us m).swap_committed ≡ add_from m.swap_committed (map (λ u. u.swap_limit) us))
      × ((add_all us m).max_swap_usage ≡ add_from m.max_swap_usage (map (λ u. u.max_swap_usage) us))
      × ((add_all us m).free ≡ m.free)
      × ((add_all us m).total ≡ m.total)
      × ((add_all us m).swap ≡ m.swap)
unfolding add_all add_from add_usage
fields-add_all [] m = (refl, refl, refl, refl, refl, refl, refl, refl, refl)
fields-add_all (u ∷ us) m = fields-add_all us (add_usage u m)

module _ (get_memory_usage : Bytes → Outcome MemoryUsage) (label_filter : Bytes)
    (returns : (id : Bytes) → get_memory_usage id ≢ panic) where
  add_result-usage_list :
      (o : Outcome MemoryUsage) (us : List MemoryUsage) (memory : HostMemoryUsage)
      (k : HostMemoryUsage → Outcome HostMemoryUsage)
      → o ≢ panic
      → ((m : HostMemoryUsage) → k m ≡ ok (add_all us m))
      → (add_result o memory >>= k)
        ≡ ok (add_all (usage_list get_memory_usage label_filter o ++ us) memory)
  unfolding add_result add_all usage_list
  add_result-usage_list (ok usage) us memory k h ih = ih (add_usage usage memory)
  add_result-usage_list (err e) us memory k h ih = ih memory
  add_result-usage_list panic us memory k h ih = absurd (h refl)

  add_containers-counted :
      (cs : List ContainerSummary) (memory : HostMemoryUsage)
      → add_containers get_memory_usage label_filter cs memory
        ≡ ok (add_all (counted get_memory_usage label_filter cs) memory)
  unfolding add_containers counted
  add_containers-counted [] memory = unfold add_all in refl
  add_containers-counted (c ∷ cs) memory = elim (Bool-cases (is_asked label_filter c)) [
    | inl asked ↦
        rw (is_included-is_asked label_filter c, asked)
          (add_result-usage_list (get_memory_usage c.id) (counted get_memory_usage label_filter cs)
            memory (add_containers get_memory_usage label_filter cs) (returns c.id)
            (add_containers-counted cs))
    | inr out ↦ rw (is_included-is_asked label_filter c, out) (add_containers-counted cs memory)
  ]

  pub add_containers-ne-panic :
      (cs : List ContainerSummary) (memory : HostMemoryUsage)
      → add_containers get_memory_usage label_filter cs memory ≢ panic
  add_containers-ne-panic cs memory e = let q = sym (add_containers-counted cs memory) ∙ e in cc

  -- Take a queue that has a value, a memory that could be read, a list of containers, and a getter
  -- of usages that never panics. Then the handler replies, and each figure of the containers is
  -- the sum over those that have the label that is asked for, if one is, and can be read, modulo 2 ^ 64; the figures of the
  -- machine are those of /proc/meminfo in mebibytes.
  pub host_resources-totals :
      (fl : Float64) (cpu : HostCpuUsage fl.F) (queue : fl.F) (m : MemInfo)
      (cs : List ContainerSummary)
      → (r : HostUsage fl.F) × (host_resources fl cpu
            (ok queue)
            (ok m)
            (ok cs)
            get_memory_usage
            label_filter
          ≡ ok r)
        × (r.cpu ≡ record cpu { queue_length_exponentially_smoothed = queue })
        × (r.memory.memory_usage
            ≡ total (map (λ u. u.memory_usage) (counted get_memory_usage label_filter cs))
              % modulus)
        × (r.memory.memory_committed
            ≡ total (map (λ u. u.memory_limit) (counted get_memory_usage label_filter cs))
              % modulus)
        × (r.memory.max_memory_usage
            ≡ total (map (λ u. u.max_memory_usage) (counted get_memory_usage label_filter cs))
              % modulus)
        × (r.memory.swap_usage
            ≡ total (map (λ u. u.swap_usage) (counted get_memory_usage label_filter cs)) % modulus)
        × (r.memory.swap_committed
            ≡ total (map (λ u. u.swap_limit) (counted get_memory_usage label_filter cs)) % modulus)
        × (r.memory.max_swap_usage
            ≡ total (map (λ u. u.max_swap_usage) (counted get_memory_usage label_filter cs))
              % modulus)
        × (r.memory.free ≡ Word.add (Word.add m.mem_free m.buffers) m.cached / 1024 / 1024)
        × (r.memory.total ≡ m.mem_total / 1024 / 1024)
        × (r.memory.swap ≡ Word.sub m.swap_total m.swap_free / 1024 / 1024)
  unfolding host_resources smoothed_queue host_memory free_buffers swap_used
  host_resources-totals fl cpu queue m cs =
      let (a, b, c, d, e, f, g, h, i) =
        fields-add_all (counted get_memory_usage label_filter cs) (host_memory m) in
      (
        record {
          cpu = record cpu { queue_length_exponentially_smoothed = queue };
          memory = add_all (counted get_memory_usage label_filter cs) (host_memory m);
        },
        ap
            (λ (o : Outcome HostMemoryUsage). o >>= (λ memory. ok (record {
              cpu = record cpu { queue_length_exponentially_smoothed = queue };
              memory = memory;
            })))
            (add_containers-counted cs (host_memory m)),
        refl,
        a ∙ add_from-zero _,
        b ∙ add_from-zero _,
        c ∙ add_from-zero _,
        d ∙ add_from-zero _,
        e ∙ add_from-zero _,
        f ∙ add_from-zero _,
        g,
        h,
        i,
      )
