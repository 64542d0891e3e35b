-- ===== src/Cpu/Workers/Settle.antt =====
-- The goroutines that were cancelled can end, and take the data of their containers with them.
use acadock_monitoring.Prelude.Word.{Word}
use acadock_monitoring.Prelude.{
  ℕ, zero, suc, Bool, true, false, List, [], ◌∷◌, ◌++◌, some, some-injective, none-ne-some, Bytes,
  length, update_at-length, get_elem?, get_elem?-append_length, update_at, map, append_assoc,
  if◌then◌else◌, ◌≡◌, refl, sym, ap, ◌∙◌, inl, inr, Bool-cases,
}
use acadock_monitoring.Cpu.{new_cpu_usage_monitor}
use acadock_monitoring.Cpu.Workers.{
  Worker, Service, exit, worker_done, context_done, Reach, here, next, new_service,
}
use acadock_monitoring.Cpu.Workers.Owned.{HasData, new_service-IsOwned}

-- A goroutine behind its end, if it was cancelled.
unfoldable pub settled : Worker → Worker
settled w = if w.cancelled then exit w else w

settled-cancelled : (w : Worker) → w.cancelled ≡ true → settled w ≡ exit w
unfolding settled
settled-cancelled w h = simp h

settled-kept : (w : Worker) → w.cancelled ≡ false → settled w ≡ w
unfolding settled
settled-kept w h = simp h

settled-ended : (w : Worker) → w.alive ≡ false → settled w ≡ w
settled-ended w dead = elim (Bool-cases w.cancelled) [
  | inl cut ↦ settled-cancelled w cut ∙ ap (λ (b : Bool). record w { alive = b }) (sym dead)
  | inr kept ↦ settled-kept w kept
]

settled-alive : (w : Worker) → (settled w).alive ≡ true → (settled w ≡ w) × (w.cancelled ≡ false)
settled-alive w a = elim (Bool-cases w.cancelled) [
  | inl cut ↦
      let q : false ≡ true = ap (λ (u : Worker). u.alive) (sym (settled-cancelled w cut)) ∙ a in cc
  | inr kept ↦ (settled-kept w kept, kept)
]

-- A goroutine that runs behind all those ends was there before, and was not cancelled.
pub map-settled-alive :
    (ws : List Worker) (i : ℕ) {v : Worker}
    → get_elem? (map settled ws) i ≡ some v
    → v.alive ≡ true
    → (get_elem? ws i ≡ some v) × (v.cancelled ≡ false)
map-settled-alive [] i h a = absurd (none-ne-some _ h)
map-settled-alive (w ∷ ws) zero {v} h a =
    let e = some-injective (settled w) v h in
    let (same, live) = settled-alive w (ap (λ (u : Worker). u.alive) e ∙ a) in
    (ap some (sym same ∙ e), ap (λ (u : Worker). u.cancelled) (sym e ∙ same) ∙ live)
map-settled-alive (w ∷ ws) (suc i) h a = map-settled-alive ws i h a

Reach-trans : {s t u : Service} → Reach s t → Reach t u → Reach s u
Reach-trans r here = r
Reach-trans r (next q st) = next (Reach-trans r q) st

-- A state that is reached with the workers behind a position settled.
abbrev Settles : Service → List Worker → Type 0
Settles s ws = (t : Service) × Reach s t × (t.cancels ≡ s.cancels) × (t.workers ≡ ws)

-- The worker at a position ends, if it has to.
settle_one :
    (vs : List Worker) (w : Worker) (ws : List Worker) (s : Service)
    → s.workers ≡ vs ++ w ∷ ws
    → Settles s (vs ++ settled w ∷ ws)
unfolding worker_done
settle_one vs w ws s e = elim (Bool-cases w.alive) [
  | inr dead ↦ (s, here, refl, unchanged (settled-ended w dead))
  | inl alive ↦ elim (Bool-cases w.cancelled) [
    | inr kept ↦ (s, here, refl, unchanged (settled-kept w kept))
    | inl cut ↦ (
      worker_done (length vs) w s,
      next here (
          context_done (length vs) w
            (ap (λ (us : List Worker). get_elem? us (length vs)) e
              ∙ get_elem?-append_length vs w ws)
            alive cut),
      refl,
      ap (λ (us : List Worker). update_at (length vs) exit us) e
          ∙ update_at-length exit vs w ws
          ∙ ap (λ (u : Worker). vs ++ u ∷ ws) (sym (settled-cancelled w cut)),
    )
  ]
]
  where
    unchanged : settled w ≡ w → s.workers ≡ vs ++ settled w ∷ ws
    unchanged q = e ∙ ap (λ (u : Worker). vs ++ u ∷ ws) (sym q)

settle_from :
    (vs ws : List Worker) (s : Service) → s.workers ≡ vs ++ ws → Settles s (vs ++ map settled ws)
settle_from vs [] s e = (s, here, refl, e)
settle_from vs (w ∷ ws) s e =
    let (t, r, c, k) = settle_one vs w ws s e in
    let (u, q, d, l) =
      settle_from (vs ++ settled w ∷ []) ws t (k ∙ sym (append_assoc vs (settled w ∷ []) ws)) in
    (u, Reach-trans r q, d ∙ c, l ∙ append_assoc vs (settled w ∷ []) (map settled ws))

-- From every reachable state there is a run, in which no event is handled, after which the goroutines
-- that were cancelled have ended, the others and the cancel functions are as before, and the monitor
-- has samples only of containers with a running goroutine that was not cancelled.
pub new_service-settles :
    (num_cpu : Word) {s : Service}
    → Reach (new_service (new_cpu_usage_monitor num_cpu)) s
    → (t : Service) × Reach s t
      × (t.cancels ≡ s.cancels)
      × (t.workers ≡ map settled s.workers)
      × ((id : Bytes)
          → HasData t.monitor id
          → (i : ℕ) × (w : Worker) × (get_elem? t.workers i ≡ some w)
            × (w.container ≡ id)
            × (w.alive ≡ true)
            × (w.cancelled ≡ false))
new_service-settles num_cpu {s} r =
    let (t, q, c, k) = settle_from [] s.workers s refl in
    (
      t,
      q,
      c,
      k,
      λ id h.
          let (i, w, e, own, a) = new_service-IsOwned num_cpu (Reach-trans r q) id h in
          (
            i,
            w,
            e,
            own,
            a,
            (map-settled-alive s.workers i (ap (λ (us : List Worker). get_elem? us i) (sym k) ∙ e)
                a).1,
          ),
    )
