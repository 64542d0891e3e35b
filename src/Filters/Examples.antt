-- ===== src/Filters/Examples.antt =====
-- Runs of the filter, with integers in place of floats.
use acadock_monitoring.Prelude.{
  not_enough_metrics, ℕ, message, true, false, List, [], ◌∷◌, ◌++◌, codes, ltb, if◌then◌else◌, eof,
  length, ok, err, last, ◌≡◌, refl, arith,
}
use acadock_monitoring.Text.{text}
use acadock_monitoring.Float.{whole}
use acadock_monitoring.Filters.{
  ExponentialSmoothing, with_average_config, with_queue_length, new_exponential_smoothing, read,
  Loop, round, sum_from,
}
use acadock_monitoring.Filters.Smoothing.{smoothed}
use acadock_monitoring.Filters.History.{means_of, first_loop, new_exponential_smoothing-read}
use acadock_monitoring.Filters.Batch.{Inputs, rounds, values_of, mean, rounds-mean}

-- An interval of a second with 2 samples, and 3 averages.
abbrev filter : ExponentialSmoothing ℕ
filter = record {
  average_length = 2;
  average_interval = 1_000_000_000;
  queue_length = 3;
  stopped = false;
  queue = [];
  last_sample_time = 0;
  last_average_time = 0;
}

made :
    new_exponential_smoothing
      (λ _. [])
      0
      (with_queue_length 3 ∷ with_average_config 2 1_000_000_000 ∷ [])
    ≡ ok filter
unfolding new_exponential_smoothing with_queue_length with_average_config
made = refl

refused :
    new_exponential_smoothing {F = ℕ} (λ _. []) 0 (with_queue_length 0 ∷ [])
    ≡ err (message (codes "QueueLength should be >0, current value: 0"))
unfolding new_exponential_smoothing with_queue_length text
refused = refl

abbrev loop : Loop whole
loop = record { filter = filter; values = []; running = true }

abbrev early : List (Inputs whole)
early =
    record { slept = 500_000_000; reading = ok 4; tested = 500_000_001; set = 0 }
    ∷ record { slept = 999_000_000; reading = err eof; tested = 999_000_001; set = 0 }
    ∷ []

rounds-mean_example :
    ((round whole 1_500_000_000 1_500_000_001 1_500_000_002
        (ok 8)
        (rounds whole early loop)).filter.queue
      ≡ last 3 ([] ++ mean whole ([] ++ values_of whole early ++ 8 ∷ []) ∷ []))
    × ((round whole 1_500_000_000 1_500_000_001 1_500_000_002
          (ok 8)
          (rounds whole early loop)).values
        ≡ [])
    × ((round whole 1_500_000_000 1_500_000_001 1_500_000_002
          (ok 8)
          (rounds whole early loop)).filter.last_average_time
        ≡ 1_500_000_002)
rounds-mean_example =
    rounds-mean whole early 1_500_000_000 1_500_000_001 1_500_000_002 8 loop
      (omega arith, omega arith, omega arith) ((omega arith, λ e. cc), ((omega arith, λ e. cc), tt))
      (omega arith) (omega arith) refl refl

-- Four averages, with a reading that fails behind a deadline.
abbrev run : List (Inputs whole)
run =
    record { slept = 500_000_000; reading = ok 4; tested = 500_000_001; set = 0 }
    ∷ record { slept = 1_200_000_000; reading = err eof; tested = 1_200_000_001; set = 0 }
    ∷ record { slept = 1_500_000_000; reading = ok 8; tested = 1_500_000_001; set = 1_500_000_002 }
    ∷ record { slept = 3_000_000_000; reading = ok 6; tested = 3_000_000_001; set = 3_000_000_002 }
    ∷ record { slept = 5_000_000_000; reading = ok 2; tested = 5_000_000_001; set = 5_000_000_002 }
    ∷ record { slept = 7_000_000_000; reading = ok 10; tested = 7_000_000_001; set = 7_000_000_002 }
    ∷ []

four_means : means_of whole 1_000_000_000 0 [] run ≡ 6 ∷ 6 ∷ 2 ∷ 10 ∷ []
unfolding means_of sum_from
four_means = refl

new_exponential_smoothing-read_example :
    read whole (rounds whole run (first_loop whole filter)).filter ≡ (
      if ltb (length (means_of whole 1_000_000_000 0 [] run)) 3
      then err not_enough_metrics
      else smoothed whole (last 3 (means_of whole 1_000_000_000 0 [] run)))
new_exponential_smoothing-read_example =
    new_exponential_smoothing-read whole (λ _. []) 0 3 2 1_000_000_000 (omega arith) (omega arith)
      (omega arith) made run
