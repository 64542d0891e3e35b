-- ===== src/Filters/History.antt =====
-- What `Read` returns after any rounds of the loop of `Start`.
use acadock_monitoring.Prelude.Word.{Word, half}
use acadock_monitoring.Prelude.{
  ℕ, ◌+◌, ◌<◌, Bool, true, false, List, [], ◌∷◌, ◌++◌, Bytes, ltb, if◌then◌else◌, Error, Outcome,
  ok, err, panic, not_enough_metrics, length, last, ◌≡◌, refl, sym, subst, ap, ap₂, ◌∙◌, arith, inl,
  inr, Bool-cases,
}
use acadock_monitoring.Float.{Float64}
use acadock_monitoring.Filters.{
  ExponentialSmoothing, new_exponential_smoothing, with_queue_length, with_average_config,
  apply_options, defaults, append_to_queue, slept_until, Loop, read, round, take_value,
}
use acadock_monitoring.Filters.Queue.{
  append_all, validate-accepts, new_exponential_smoothing-IsReady,
}
use acadock_monitoring.Filters.Smoothing.{smoothed, read-append_all}
use acadock_monitoring.Filters.Batch.{
  Inputs, rounds, mean, deadline_of, waited, awake, quiet_round, due_round,
}

module _ (fl : Float64) where
  open fl use {F}

  -- The means of the readings between two averages, the oldest first: a mean is made at the first
  -- reading behind the interval since the last one. Readings that failed are left out, and a panic
  -- ends it all.
  unfoldable pub means_of : ℕ → ℕ → List F → List (Inputs fl) → List F
  means_of interval since held [] = []
  means_of interval since held (i ∷ is) = elim i.reading [
    | ok v ↦ elim (ltb (since + interval) i.tested) [
      | true ↦ mean fl (held ++ v ∷ []) ∷ means_of interval i.set [] is
      | false ↦ means_of interval since (held ++ v ∷ []) is
    ]
    | err e ↦ means_of interval since held is
    | panic ↦ []
  ]

  means_from : Loop fl → List (Inputs fl) → List F
  means_from s is = means_of s.filter.average_interval s.filter.last_average_time s.values is

  -- Filters that read the same.
  abbrev IsSame : ExponentialSmoothing F → ExponentialSmoothing F → Type 0
  IsSame e f = (e.queue ≡ f.queue) × (e.queue_length ≡ f.queue_length)

  append_all-IsSame :
      (vs : List F) (e : ExponentialSmoothing F) (slept set : ℕ)
      → IsSame
          (append_all vs (record e { last_sample_time = slept; last_average_time = set }))
          (append_all vs e)
  unfolding append_all append_to_queue
  append_all-IsSame [] e slept set = (refl, refl)
  append_all-IsSame (v ∷ vs) e slept set = append_all-IsSame vs (append_to_queue v e) slept set

  read_same : (e f : ExponentialSmoothing F) → IsSame e f → read fl e ≡ read fl f
  unfolding read
  read_same e f (q, n) =
      ap₂ (λ (vs : List F) (k : Word). read fl (record e { queue = vs; queue_length = k })) q n

  if_false : (b : Bool) (x y : Loop fl) → b ≡ false → (if b then x else y) ≡ y
  if_false b x y h = rw h refl

  ended_round :
      (slept tested set : ℕ) (reading : Outcome F) (s : Loop fl)
      → s.running ≡ false
      → round fl slept tested set reading s ≡ s
  unfolding round
  ended_round slept tested set reading s h = if_false s.running _ s h

  rounds-ended : (is : List (Inputs fl)) (s : Loop fl) → s.running ≡ false → rounds fl is s ≡ s
  unfolding rounds
  rounds-ended [] s h = refl
  rounds-ended (i ∷ is) s h =
      ap (rounds fl is) (ended_round i.slept i.tested i.set i.reading s h) ∙ rounds-ended is s h

  panic_round :
      (slept tested set : ℕ) (s : Loop fl)
      → 0 < s.filter.average_length
      → s.running ≡ true
      → s.filter.stopped ≡ false
      → round fl slept tested set panic s
        ≡ record s { filter = slept_until slept s.filter; running = false }
  unfolding take_value
  panic_round slept tested set s pos live on = awake fl slept tested set panic s pos live on

  failed_round :
      (slept tested set : ℕ) (x : Error) (s : Loop fl)
      → 0 < s.filter.average_length
      → s.running ≡ true
      → s.filter.stopped ≡ false
      → round fl slept tested set (err x) s
        ≡ record { filter = slept_until slept s.filter; values = s.values; running = true }
  unfolding take_value
  failed_round slept tested set x s pos live on = awake fl slept tested set (err x) s pos live on

  -- A round that leaves this state, and the rounds behind it.
  rounds-after :
      (is : List (Inputs fl)) (u t : Loop fl) (vs : List F) (e : ExponentialSmoothing F)
      (slept set : ℕ)
      → u ≡ t
      → IsSame
          (rounds fl is t).filter
          (append_all vs (record e { last_sample_time = slept; last_average_time = set }))
      → IsSame (rounds fl is u).filter (append_all vs e)
  rounds-after is u t vs e slept set k (q, n) =
      let (q', n') = append_all-IsSame vs e slept set in
      subst (λ (x : Loop fl). IsSame (rounds fl is x).filter (append_all vs e)) (sym k)
        (q ∙ q', n ∙ n')

  abbrev Sends : List (Inputs fl) → Loop fl → Type 0
  Sends is s = IsSame (rounds fl is s).filter (append_all (means_from s is) s.filter)

  round-append_all :
      (i : Inputs fl) (is : List (Inputs fl)) (s : Loop fl)
      → 0 < s.filter.average_length
      → s.running ≡ true
      → s.filter.stopped ≡ false
      → ((t : Loop fl)
          → 0 < t.filter.average_length
          → t.running ≡ true
          → t.filter.stopped ≡ false
          → Sends is t)
      → (r : Outcome F) → i.reading ≡ r
      → Sends (i ∷ is) s
  unfolding rounds means_of append_all means_from append_to_queue
  round-append_all i is s pos live on rest (ok v) e =
      elim (Bool-cases (ltb (deadline_of fl s) i.tested)) [
        | inl late ↦
            let k = due_round fl i.slept i.tested i.set v s (ground arith) pos live on in
            rw (e, late)
              (rounds-after is _ _ (means_of s.filter.average_interval i.set [] is)
                (append_to_queue (mean fl (s.values ++ v ∷ [])) s.filter) i.slept i.set k
                (rest _ pos refl on))
        | inr early ↦
            let k =
              quiet_round fl i.slept i.tested i.set (ok v) s (ground arith) (λ p. cc) pos live on in
            rw (e, early)
              (rounds-after is _ _ (means_from (waited fl i.slept (v ∷ []) s) is) s.filter i.slept
                s.filter.last_average_time k (rest (waited fl i.slept (v ∷ []) s) pos refl on))
      ]
  round-append_all i is s pos live on rest (err x) e = rw e (
      rounds-after is _ _ (means_from s is) s.filter i.slept s.filter.last_average_time
        (failed_round i.slept i.tested i.set x s pos live on) (rest _ pos refl on))
  round-append_all i is s pos live on rest panic e =
      let over =
        rounds-ended is (record s { filter = slept_until i.slept s.filter; running = false })
          refl in
      rw e (
        rounds-after is _ _ [] s.filter i.slept s.filter.last_average_time
          (panic_round i.slept i.tested i.set s pos live on)
          (
            ap (λ (t : Loop fl). t.filter.queue) over,
            ap (λ (t : Loop fl). t.filter.queue_length) over,
          ))

  -- The loop puts the means into the queue, one after the other.
  rounds-append_all :
      (is : List (Inputs fl)) (s : Loop fl)
      → 0 < s.filter.average_length
      → s.running ≡ true
      → s.filter.stopped ≡ false
      → Sends is s
  unfolding rounds means_of means_from append_all
  rounds-append_all [] s pos live on = (refl, refl)
  rounds-append_all (i ∷ is) s pos live on =
      round-append_all i is s pos live on (rounds-append_all is) i.reading refl

  -- The state in which `Start` begins.
  abbrev pub first_loop : ExponentialSmoothing F → Loop fl
  first_loop e = record { filter = e; values = []; running = true }

  -- Take a filter that the constructor made with the two options, and any rounds of its loop, with
  -- readings that may fail. `Read` returns an error as long as there are fewer means of readings
  -- than the queue's length, and from then on the smoothing of the latest means, as many as this
  -- length.
  pub new_exponential_smoothing-read :
      (duration_string : Word → Bytes) (now : ℕ) (n count interval : Word)
      {e : ExponentialSmoothing F}
      → n + 1 < half
      → count < half
      → interval < half
      → new_exponential_smoothing duration_string now
          (with_queue_length n ∷ with_average_config count interval ∷ [])
        ≡ ok e
      → (is : List (Inputs fl))
      → read fl (rounds fl is (first_loop e)).filter ≡ (
          if ltb (length (means_of interval now [] is)) n
          then err not_enough_metrics
          else smoothed fl (last n (means_of interval now [] is)))
  unfolding new_exponential_smoothing with_queue_length with_average_config apply_options defaults
      means_from
  new_exponential_smoothing-read duration_string now n count interval {e} h k l made is =
      let (_, _, _, same) =
        validate-accepts duration_string
          (apply_options (with_queue_length n ∷ with_average_config count interval ∷ [])
            (defaults now))
          made in
      let (ready, _, some_count, kept_count, _, _) =
        new_exponential_smoothing-IsReady duration_string now n count interval h k l made in
      read_same _ _ (
        rounds-append_all is (first_loop e) (omega (arith, some_count, kept_count)) refl
          (ap (λ (f : ExponentialSmoothing F). f.stopped) same))
      ∙ read-append_all fl (means_from (first_loop e) is) e ready
      ∙ ap
          (λ (f : ExponentialSmoothing F).
            if ltb (length (f.queue ++ means_from (first_loop f) is)) f.queue_length
            then err not_enough_metrics
            else smoothed fl (last f.queue_length (f.queue ++ means_from (first_loop f) is)))
          same
