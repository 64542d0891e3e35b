-- ===== src/Filters.antt =====
-- filters/exponential_smoothing.go: averages of a metric over intervals, the last of them in a
-- queue, and their exponential smoothing. An instant is a number of nanoseconds.
pub mod Queue
pub mod Smoothing
pub mod Batch
pub mod Rounds
pub mod History
mod Examples
use acadock_monitoring.Prelude.Word
use acadock_monitoring.Prelude.Word.{Word}
use acadock_monitoring.Prelude.{
  ℕ, zero, suc, ◌+◌, ◌-◌, ◌*◌, ◌^◌, Bool, true, false, not, List, [], ◌∷◌, ◌++◌, Option, none, some,
  Bytes, codes, ltb, ◌==◌, if◌then◌else◌, Error, foreign, message, not_enough_metrics, Outcome, ok,
  err, panic, length, get_elem?, drop, ◌>>=◌,
}
use acadock_monitoring.Text.Decimal.{format_int}
use acadock_monitoring.Float.{Float64}

pub record ExponentialSmoothing (F : Type 0) : Type 0 where
  pub average_length : Word
  pub average_interval : Word
  pub queue_length : Word
  pub stopped : Bool
  pub queue : List F
  pub last_sample_time : ℕ
  pub last_average_time : ℕ

module _ {F : Type 0} where
  unfoldable pub with_average_config : Word → Word → ExponentialSmoothing F → ExponentialSmoothing F
  with_average_config sample_count average_interval res = record res {
    average_length = sample_count;
    average_interval = average_interval;
  }

  unfoldable pub with_queue_length : Word → ExponentialSmoothing F → ExponentialSmoothing F
  with_queue_length length res = record res { queue_length = length }

  pub apply_options :
      List (ExponentialSmoothing F → ExponentialSmoothing F)
      → ExponentialSmoothing F
      → ExponentialSmoothing F
  apply_options [] result = result
  apply_options (opt ∷ opts) result = apply_options opts (opt result)

  pub defaults : ℕ → ExponentialSmoothing F
  defaults now = record {
    average_length = 5;
    average_interval = 10 * 10 ^ 9;
    queue_length = 6;
    stopped = false;
    queue = [];
    last_sample_time = now;
    last_average_time = now;
  }

-- The text that a duration prints as is the library's.
pub validate :
    {F : Type 0} → (Word → Bytes) → ExponentialSmoothing F → Outcome (ExponentialSmoothing F)
validate duration_string result =
    if not (Word.signed_lt 0 result.queue_length)
    then err (
        message
          (codes "QueueLength should be >0, current value: " ++ format_int result.queue_length))
    else if not (Word.signed_lt 0 result.average_length)
    then err (
        message
          (codes "averageLength should be >0, current value: " ++ format_int result.average_length))
    else if not (Word.signed_lt (10 ^ 6) result.average_interval)
    then err (
        message (
          codes "averageInterval should be > 1ms, current values: "
          ++ duration_string result.average_interval))
    else ok result

unfoldable pub new_exponential_smoothing :
    {F : Type 0}
    → (Word → Bytes)
    → ℕ
    → List (ExponentialSmoothing F → ExponentialSmoothing F)
    → Outcome (ExponentialSmoothing F)
unfolding validate apply_options defaults
new_exponential_smoothing duration_string now opts =
    validate duration_string (apply_options opts (defaults now))

-- `queue[len(queue)-queueLength:]`, where the queue has become too long.
pub keep_last : {F : Type 0} → Word → List F → List F
keep_last n queue = if Word.signed_lt n (length queue) then drop (length queue - n) queue else queue

unfoldable pub append_to_queue : {F : Type 0} → F → ExponentialSmoothing F → ExponentialSmoothing F
unfolding keep_last
append_to_queue value e = record e { queue = keep_last e.queue_length (e.queue ++ value ∷ []) }

unfoldable pub stop : {F : Type 0} → ExponentialSmoothing F → ExponentialSmoothing F
stop e = record e { stopped = true }

-- The nanoseconds that `waitForNextSample` sleeps for.
unfoldable pub time_to_wait : {F : Type 0} → ℕ → ExponentialSmoothing F → ℕ
time_to_wait now e = (e.last_sample_time + Word.quotient e.average_interval e.average_length) - now

abbrev pub slept_until : {F : Type 0} → ℕ → ExponentialSmoothing F → ExponentialSmoothing F
slept_until now e = record e { last_sample_time = now }

-- What it leaves: the instant behind the sleep. Its division by `averageLength` panics for 0.
unfoldable pub wait_for_next_sample :
    {F : Type 0} → ℕ → ExponentialSmoothing F → Outcome (ExponentialSmoothing F)
wait_for_next_sample now e = if e.average_length == 0 then panic else ok (slept_until now e)

abbrev pub or_panic : {A : Type 0} → Option A → Outcome A
or_panic none = panic
or_panic (some a) = ok a

-- `values[i]`, which panics out of range.
abbrev pub index : {A : Type 0} → List A → ℕ → Outcome A
index values i = or_panic (get_elem? values i)

module _ (fl : Float64) where
  open fl use {F, of_int64, add, sub, mul, div, exp}

  abbrev pub combine : F → F → F → F
  combine alpha value rest = add (mul alpha value) (mul (sub (of_int64 1) alpha) rest)

  pub exponential_smoothing : List F → ℕ → F → Outcome F
  exponential_smoothing values zero alpha = index values 0
  exponential_smoothing values (suc ptr) alpha = do
    value ← index values (suc ptr)
    rest ← exponential_smoothing values ptr alpha
    ok (combine alpha value rest)

  unfoldable pub read : ExponentialSmoothing F → Outcome F
  unfolding exponential_smoothing
  read e =
      if Word.signed_lt (length e.queue) e.queue_length
      then err not_enough_metrics
      else exponential_smoothing e.queue (length e.queue - 1)
          (exp (of_int64 (Word.sub 0 (length e.queue))))

  pub sum_from : F → List F → F
  sum_from result [] = result
  sum_from result (v ∷ values) = sum_from (add result v) values

  -- The state of the loop of `Start`: the filter and the readings since the last average.
  pub record Loop : Type 0 where
    pub filter : ExponentialSmoothing F
    pub values : List F
    pub running : Bool

  -- Behind a reading that succeeded: the test of `time.Now()` and the new `lastAverageTime` are
  -- given the instants that they read.
  pub average : ℕ → ℕ → Loop → Loop
  average tested set s =
      if ltb (s.filter.last_average_time + s.filter.average_interval) tested
      then record s {
        filter =
            record (append_to_queue
              (div (sum_from (of_int64 0) s.values) (of_int64 (length s.values))) s.filter) {
                last_average_time = set;
              };
        values = [];
      }
      else s

  pub take_value : ℕ → ℕ → Outcome F → Loop → Loop
  take_value tested set (ok value) s =
      average tested set (record s { values = s.values ++ value ∷ [] })
  take_value tested set (err e) s = s
  take_value tested set panic s = record s { running = false }

  -- What a round does behind the wait.
  pub after_wait : ℕ → ℕ → Outcome F → Loop → Outcome (ExponentialSmoothing F) → Loop
  after_wait tested set reading s (ok filter) =
      let waited = record s { filter = filter } in
      if filter.stopped
      then record waited { running = false }
      else take_value tested set reading waited
  after_wait tested set reading s (err e) = s
  after_wait tested set reading s panic = record s { running = false }

  -- A round of the loop: it waits until an instant, reads, and then reads the clock twice.
  unfoldable pub round : ℕ → ℕ → ℕ → Outcome F → Loop → Loop
  unfolding after_wait take_value average sum_from
  round slept tested set reading s =
      if s.running then after_wait tested set reading s (wait_for_next_sample slept s.filter) else s
