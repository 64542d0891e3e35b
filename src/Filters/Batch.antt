-- ===== src/Filters/Batch.antt =====
-- The loop of `Start`: the readings between two averages.
use acadock_monitoring.Prelude.{
  ℕ, ◌+◌, ◌≤◌, ◌<◌, true, false, List, [], ◌∷◌, ◌++◌, append-nil, append_assoc, All, ltb, Outcome,
  ok, err, panic, length, last, ◌==◌, ◌≡◌, ◌≢◌, refl, sym, ap, ◌∙◌, arith,
}
use acadock_monitoring.Float.{Float64}
use acadock_monitoring.Filters.{
  append_to_queue, slept_until, wait_for_next_sample, Loop, sum_from, average, take_value,
  after_wait, round,
}
use acadock_monitoring.Filters.Queue.{IsReady, append_all, queue-append_all}

module _ (fl : Float64) where
  open fl use {F, of_int64, add, div}

  -- What a round reads: the instant behind the sleep, the metric, and the clock twice.
  pub record Inputs : Type 0 where
    pub slept : ℕ
    pub reading : Outcome F
    pub tested : ℕ
    pub set : ℕ

  unfoldable pub rounds : List Inputs → Loop fl → Loop fl
  rounds [] s = s
  rounds (i ∷ is) s = rounds is (round fl i.slept i.tested i.set i.reading s)

  abbrev pub value_of : Outcome F → List F
  value_of (ok v) = v ∷ []
  value_of (err e) = []
  value_of panic = []

  -- The readings that succeeded.
  unfoldable pub values_of : List Inputs → List F
  values_of [] = []
  values_of (i ∷ is) = value_of i.reading ++ values_of is

  -- The sum of readings, the latest first: what they come to when they are added in their order.
  abbrev pub total : List F → F
  total [] = of_int64 0
  total (v ∷ earlier) = add (total earlier) v

  abbrev pub latest_first : List F → List F → List F
  latest_first [] earlier = earlier
  latest_first (v ∷ vs) earlier = latest_first vs (v ∷ earlier)

  abbrev pub mean : List F → F
  mean vs = div (total (latest_first vs [])) (of_int64 (length vs))

  sum_from-total :
      (vs earlier : List F) → sum_from fl (total earlier) vs ≡ total (latest_first vs earlier)
  unfolding sum_from
  sum_from-total [] earlier = refl
  sum_from-total (v ∷ vs) earlier = sum_from-total vs (v ∷ earlier)

  -- A round that does not reach a deadline.
  abbrev pub IsQuiet : ℕ → Inputs → Type 0
  IsQuiet deadline i = (i.tested ≤ deadline) × (i.reading ≢ panic)

  abbrev pub deadline_of : Loop fl → ℕ
  deadline_of s = s.filter.last_average_time + s.filter.average_interval

  abbrev pub waited : ℕ → List F → Loop fl → Loop fl
  waited slept vs s = record {
    filter = slept_until slept s.filter;
    values = s.values ++ vs;
    running = true;
  }

  -- A round of a loop that goes on.
  pub awake :
      (slept tested set : ℕ) (r : Outcome F) (s : Loop fl)
      → 0 < s.filter.average_length
      → s.running ≡ true
      → s.filter.stopped ≡ false
      → round fl slept tested set r s
        ≡ take_value fl tested set r
            (record { filter = slept_until slept s.filter; values = s.values; running = true })
  unfolding round after_wait wait_for_next_sample
  awake slept tested set r s pos live on =
      let divides : (s.filter.average_length == 0) ≡ false = ground arith in
      rw (live, divides, on) refl

  pub quiet_round :
      (slept tested set : ℕ) (r : Outcome F) (s : Loop fl)
      → tested ≤ deadline_of s
      → r ≢ panic
      → 0 < s.filter.average_length
      → s.running ≡ true
      → s.filter.stopped ≡ false
      → round fl slept tested set r s ≡ waited slept (value_of r) s
  unfolding take_value average
  quiet_round slept tested set (ok v) s h p pos live on =
      let early : ltb (deadline_of s) tested ≡ false = ground arith in
      awake slept tested set (ok v) s pos live on ∙ rw early refl
  quiet_round slept tested set (err e) s h p pos live on =
      awake slept tested set (err e) s pos live on
      ∙ ap
          (λ (vs : List F). record {
            filter = slept_until slept s.filter;
            values = vs;
            running = true;
          })
          (sym (append-nil s.values))
  quiet_round slept tested set panic s h p pos live on = absurd (p refl)

  pub due_round :
      (slept tested set : ℕ) (v : F) (s : Loop fl)
      → deadline_of s < tested
      → 0 < s.filter.average_length
      → s.running ≡ true
      → s.filter.stopped ≡ false
      → round fl slept tested set (ok v) s ≡ record {
        filter = record (append_to_queue (mean (s.values ++ v ∷ [])) (slept_until slept s.filter)) {
          last_average_time = set;
        };
        values = [];
        running = true;
      }
  unfolding take_value average
  due_round slept tested set v s h pos live on =
      let late : ltb (deadline_of s) tested ≡ true = ground arith in
      let vs = s.values ++ v ∷ [] in
      awake slept tested set (ok v) s pos live on
      ∙ rw late (
          ap
            (λ (sum : F). record {
              filter =
                  record (append_to_queue (div sum (of_int64 (length vs)))
                    (slept_until slept s.filter)) { last_average_time = set };
              values = [];
              running = true;
            })
            (sum_from-total vs []))

  -- The filter behind such a run holds the mean, and the rest is new.
  rounds-append :
      (is : List Inputs) (slept tested set : ℕ) (v : F) (s : Loop fl)
      → All (IsQuiet (deadline_of s)) is
      → deadline_of s < tested
      → 0 < s.filter.average_length
      → s.running ≡ true
      → s.filter.stopped ≡ false
      → ((round fl slept tested set (ok v) (rounds is s)).filter.queue
          ≡ (append_to_queue (mean (s.values ++ values_of is ++ v ∷ [])) s.filter).queue)
        × ((round fl slept tested set (ok v) (rounds is s)).values ≡ [])
        × ((round fl slept tested set (ok v) (rounds is s)).filter.last_average_time ≡ set)
  unfolding rounds values_of append_to_queue
  rounds-append [] slept tested set v s quiet late pos live on =
      let e = due_round slept tested set v s late pos live on in
      (
        ap (λ (t : Loop fl). t.filter.queue) e
            ∙ ap (λ (vs : List F). (append_to_queue (mean (vs ++ v ∷ [])) s.filter).queue)
                (sym (append-nil s.values)),
        ap (λ (t : Loop fl). t.values) e,
        ap (λ (t : Loop fl). t.filter.last_average_time) e,
      )
  rounds-append (i ∷ is) slept tested set v s ((h, p), quiet) late pos live on =
      let e = quiet_round i.slept i.tested i.set i.reading s h p pos live on in
      let (q, n, t) =
        rounds-append is slept tested set v (waited i.slept (value_of i.reading) s) quiet late pos
          refl on in
      rw e (
        q
            ∙ ap (λ (vs : List F). (append_to_queue (mean (vs ++ v ∷ [])) s.filter).queue)
                (append_assoc s.values (value_of i.reading) (values_of is)),
        n,
        t,
      )

  -- From a running loop, with a filter that is ready and a number of readings per interval that is not
  -- 0, take rounds that read nothing or a value before the deadline, and then one behind it that reads a
  -- value. Then the queue holds the latest values, as many as its length, of what it held and the mean
  -- of all values since the last average, those that the loop held included: their sum in their order by
  -- their number. The loop starts again with no values and the new time of the average.
  pub rounds-mean :
      (is : List Inputs) (slept tested set : ℕ) (v : F) (s : Loop fl)
      → IsReady s.filter
      → All (IsQuiet (deadline_of s)) is
      → deadline_of s < tested
      → 0 < s.filter.average_length
      → s.running ≡ true
      → s.filter.stopped ≡ false
      → ((round fl slept tested set (ok v) (rounds is s)).filter.queue
          ≡ last s.filter.queue_length
              (s.filter.queue ++ mean (s.values ++ values_of is ++ v ∷ []) ∷ []))
        × ((round fl slept tested set (ok v) (rounds is s)).values ≡ [])
        × ((round fl slept tested set (ok v) (rounds is s)).filter.last_average_time ≡ set)
  unfolding append_all
  rounds-mean is slept tested set v s ready quiet late pos live on =
      let (q, n, t) = rounds-append is slept tested set v s quiet late pos live on in
      (q ∙ queue-append_all (mean (s.values ++ values_of is ++ v ∷ []) ∷ []) s.filter ready, n, t)
