-- ===== src/Filters/Queue.antt =====
-- The queue of averages is a window on the latest of them.
use acadock_monitoring.Prelude.Word
use acadock_monitoring.Prelude.Word.{Word, half, modulus}
use acadock_monitoring.Prelude.{
  ℕ, ◌+◌, ◌-◌, ◌^◌, ◌≤◌, ◌<◌, true, List, [], ◌∷◌, ◌++◌, Bytes, ok, length, last, length-append,
  length-drop, last-of_le, last-append_last, append_assoc, append-nil, ◌≡◌, refl, sym, ap, ◌∙◌,
  arith, inl, inr, Bool-cases,
}
use acadock_monitoring.Filters.{
  ExponentialSmoothing, apply_options, defaults, validate, new_exponential_smoothing,
  with_queue_length, with_average_config, keep_last, append_to_queue,
}

-- Appending values, the first one first.
unfoldable pub append_all : {F : Type 0} → List F → ExponentialSmoothing F → ExponentialSmoothing F
append_all [] e = e
append_all (v ∷ vs) e = append_all vs (append_to_queue v e)

module _ {F : Type 0} where
  -- What the constructor ensures and the queue needs.
  abbrev pub IsReady : ExponentialSmoothing F → Type 0
  IsReady e = (0 < e.queue_length) × (e.queue_length + 1 < half) × (length e.queue ≤ e.queue_length)

  keep_last-last :
      (n : Word) (queue : List F)
      → n + 1 < half
      → length queue ≤ n + 1
      → keep_last n queue ≡ last n queue
  unfolding keep_last
  keep_last-last n queue h k = elim (Bool-cases (Word.signed_lt n (length queue))) [
    | inl longer ↦ rw longer
    | inr shorter ↦ rw shorter (sym (last-of_le n queue (ground arith)))
  ]

  window :
      (v : F) (e : ExponentialSmoothing F)
      → IsReady e
      → keep_last e.queue_length (e.queue ++ v ∷ []) ≡ last e.queue_length (e.queue ++ v ∷ [])
  window v e (h, l, k) =
      keep_last-last e.queue_length (e.queue ++ v ∷ []) l
        (omega (arith, length-append e.queue (v ∷ [])))

  pub append_to_queue-IsReady :
      (v : F) (e : ExponentialSmoothing F) → IsReady e → IsReady (append_to_queue v e)
  unfolding append_to_queue
  append_to_queue-IsReady v e (h, l, k) = (
    h,
    l,
    omega (
      arith,
      ap (λ (q : List F). length q) (window v e (h, l, k)),
      length-drop (length (e.queue ++ v ∷ []) - e.queue_length) (e.queue ++ v ∷ []),
    ),
  )

  -- On a filter that is ready, the queue after any values were appended is the latest of them and
  -- of what was there, as many as the queue's length at most.
  pub queue-append_all :
      (vs : List F) (e : ExponentialSmoothing F)
      → IsReady e
      → (append_all vs e).queue ≡ last e.queue_length (e.queue ++ vs)
  unfolding append_all append_to_queue
  queue-append_all [] e (h, l, k) = sym (
      ap (λ (q : List F). last e.queue_length q) (append-nil e.queue)
      ∙ last-of_le e.queue_length e.queue k)
  queue-append_all (v ∷ vs) e (h, l, k) =
      queue-append_all vs (append_to_queue v e) (append_to_queue-IsReady v e (h, l, k))
      ∙ ap (λ (q : List F). last e.queue_length (q ++ vs)) (window v e (h, l, k))
      ∙ last-append_last e.queue_length (e.queue ++ v ∷ []) vs
      ∙ ap (λ (q : List F). last e.queue_length q) (append_assoc e.queue (v ∷ []) vs)

  pub append_all-queue_length :
      (vs : List F) (e : ExponentialSmoothing F) → (append_all vs e).queue_length ≡ e.queue_length
  unfolding append_all append_to_queue
  append_all-queue_length [] e = refl
  append_all-queue_length (v ∷ vs) e = append_all-queue_length vs (append_to_queue v e)

  pub append_all-IsReady :
      (vs : List F) (e : ExponentialSmoothing F) → IsReady e → IsReady (append_all vs e)
  unfolding append_all
  append_all-IsReady [] e h = h
  append_all-IsReady (v ∷ vs) e h =
      append_all-IsReady vs (append_to_queue v e) (append_to_queue-IsReady v e h)

  pub validate-accepts :
      (duration_string : Word → Bytes) (e : ExponentialSmoothing F) {r : ExponentialSmoothing F}
      → validate duration_string e ≡ ok r
      → (Word.signed_lt 0 e.queue_length ≡ true)
        × (Word.signed_lt 0 e.average_length ≡ true)
        × (Word.signed_lt (10 ^ 6) e.average_interval ≡ true)
        × (r ≡ e)
  unfolding validate
  validate-accepts duration_string e made = ground (
    arith,
    Bool-cases (Word.signed_lt 0 e.queue_length),
    Bool-cases (Word.signed_lt 0 e.average_length),
    Bool-cases (Word.signed_lt (10 ^ 6) e.average_interval),
  )

  -- If the constructor accepts the two options, then the numbers are positive, the interval is over
  -- a millisecond, and the filter holds them and is ready.
  pub new_exponential_smoothing-IsReady :
      (duration_string : Word → Bytes) (now : ℕ) (n count interval : Word)
      {r : ExponentialSmoothing F}
      → n + 1 < half
      → count < half
      → interval < half
      → new_exponential_smoothing duration_string now
          (with_queue_length n ∷ with_average_config count interval ∷ [])
        ≡ ok r
      → IsReady r
        × (r.queue_length ≡ n)
        × (0 < count)
        × (r.average_length ≡ count)
        × (10 ^ 6 < interval)
        × (r.average_interval ≡ interval)
  unfolding new_exponential_smoothing with_queue_length with_average_config apply_options defaults
  new_exponential_smoothing-IsReady duration_string now n count interval h k l made =
      let (a, b, c, e) =
        validate-accepts duration_string
          (apply_options (with_queue_length n ∷ with_average_config count interval ∷ [])
            (defaults now))
          made in
      rw e ((ground arith, h, omega arith), refl, ground arith, refl, ground arith, refl)
