-- ===== src/Filters/Rounds.antt =====
-- The loop of `Start` keeps the filter ready.
use acadock_monitoring.Prelude.{
  ℕ, ◌+◌, ◌==◌, Bool, true, false, if◌then◌else◌, [], ◌∷◌, ◌++◌, Outcome, ok, err, panic, ltb,
  length, if-case, inl, inr, Bool-cases,
}
use acadock_monitoring.Float.{Float64}
use acadock_monitoring.Filters.{
  Loop, average, take_value, slept_until, wait_for_next_sample, after_wait, round, sum_from,
}
use acadock_monitoring.Filters.Queue.{IsReady, append_to_queue-IsReady}

module _ (fl : Float64) where
  open fl use {F, of_int64, div}

  average-IsReady :
      (tested set : ℕ) (s : Loop fl) → IsReady s.filter → IsReady (average fl tested set s).filter
  unfolding average
  average-IsReady tested set s h =
      elim (Bool-cases (ltb (s.filter.last_average_time + s.filter.average_interval) tested)) [
        | inl late ↦ rw late (
            append_to_queue-IsReady
              (div (sum_from fl (of_int64 0) s.values) (of_int64 (length s.values))) s.filter h)
        | inr early ↦ rw early h
      ]

  take_value-IsReady :
      (tested set : ℕ) (reading : Outcome F) (s : Loop fl)
      → IsReady s.filter
      → IsReady (take_value fl tested set reading s).filter
  unfolding take_value
  take_value-IsReady tested set (ok value) s h =
      average-IsReady tested set (record s { values = s.values ++ value ∷ [] }) h
  take_value-IsReady tested set (err e) s h = h
  take_value-IsReady tested set panic s h = h

  after_wait-IsReady :
      (slept tested set : ℕ) (reading : Outcome F) (s : Loop fl) (fails : Bool)
      → IsReady s.filter
      → IsReady
          (after_wait fl tested set reading s
            (if fails then panic else ok (slept_until slept s.filter))).filter
  unfolding after_wait
  after_wait-IsReady slept tested set reading s true h = h
  after_wait-IsReady slept tested set reading s false h =
      if-case (λ (l : Loop fl). IsReady l.filter) s.filter.stopped _ _ h
        (take_value-IsReady tested set reading (record s { filter = slept_until slept s.filter }) h)

  pub round-IsReady :
      (slept tested set : ℕ) (reading : Outcome F) (s : Loop fl)
      → IsReady s.filter
      → IsReady (round fl slept tested set reading s).filter
  unfolding round wait_for_next_sample
  round-IsReady slept tested set reading s h =
      if-case (λ (l : Loop fl). IsReady l.filter) s.running _ s
        (after_wait-IsReady slept tested set reading s (s.filter.average_length == 0) h) h
