-- ===== src/Filters/Smoothing.antt =====
-- What `Read` returns: an exponential smoothing over the whole queue.
use acadock_monitoring.Prelude.Word
use acadock_monitoring.Prelude.Word.{Word, half}
use acadock_monitoring.Prelude.{
  not_enough_metrics, ℕ, zero, suc, ◌-◌, ◌≤◌, ◌<◌, Bool, List, [], ◌∷◌, ◌++◌, Option, some, ltb,
  if◌then◌else◌, Outcome, ok, err, panic, length, get_elem?, get_elem?-of_lt, take, take-length,
  last, ◌>>=◌, ◌≡◌, ◌≢◌, refl, sym, ap, ap₂, length-drop, ◌∙◌, arith, inl, inr, Bool-cases,
}
use mathlib.Core.Option
use acadock_monitoring.Float.{Float64}
use acadock_monitoring.Filters.{
  ExponentialSmoothing, or_panic, combine, exponential_smoothing, read,
}
use acadock_monitoring.Filters.Queue.{
  append_all, IsReady, queue-append_all, append_all-queue_length, append_all-IsReady,
}

module _ (fl : Float64) where
  open fl use {F, of_int64, add, sub, mul, exp}

  -- A value that is smoothed with the values behind it, the oldest first.
  unfoldable pub smooth : F → F → List F → F
  smooth alpha acc [] = acc
  smooth alpha acc (v ∷ vs) = smooth alpha (add (mul alpha v) (mul (sub (of_int64 1) alpha) acc)) vs

  -- The smoothing of a queue with its own factor.
  unfoldable pub smoothed : List F → Outcome F
  smoothed [] = panic
  smoothed (x ∷ xs) = ok (smooth (exp (of_int64 (Word.sub 0 (length (x ∷ xs))))) x xs)

  smooth-take-suc :
      (alpha acc : F) (xs : List F) (p : ℕ) {v : F}
      → get_elem? xs p ≡ some v
      → smooth alpha acc (take (suc p) xs) ≡ combine fl alpha v (smooth alpha acc (take p xs))
  unfolding smooth
  smooth-take-suc alpha acc [] p h = absurd (ground arith)
  smooth-take-suc alpha acc (x ∷ xs) zero h =
      ap (λ (o : Option F). combine fl alpha (Option.get_or o x) acc) h
  smooth-take-suc alpha acc (x ∷ xs) (suc p) h =
      smooth-take-suc alpha (combine fl alpha x acc) xs p h

  exponential_smoothing-smooth :
      (alpha x : F) (xs : List F) (p : ℕ)
      → p ≤ length xs
      → exponential_smoothing fl (x ∷ xs) p alpha ≡ ok (smooth alpha x (take p xs))
  unfolding exponential_smoothing smooth
  exponential_smoothing-smooth alpha x xs zero h = refl
  exponential_smoothing-smooth alpha x xs (suc p) h =
      let (v, e) = get_elem?-of_lt xs p (omega arith) in
      ap
        (λ (o : Option F). or_panic o >>= (λ value.
          exponential_smoothing fl (x ∷ xs) p alpha >>= (λ rest. ok (combine fl alpha value rest))))
        e
      ∙ ap (λ (o : Outcome F). o >>= (λ rest. ok (combine fl alpha v rest)))
          (exponential_smoothing-smooth alpha x xs p (omega arith))
      ∙ ap ok (sym (smooth-take-suc alpha x xs p e))

  smoothed-queue :
      (xs : List F)
      → 0 < length xs
      → exponential_smoothing fl xs (length xs - 1) (exp (of_int64 (Word.sub 0 (length xs))))
        ≡ smoothed xs
  unfolding smoothed
  smoothed-queue [] h = absurd (omega arith)
  smoothed-queue (x ∷ xs) h =
      ap (λ (i : ℕ). exponential_smoothing fl (x ∷ xs) i alpha) {x = suc (length xs) - 1}
        {y = length xs} (omega arith)
      ∙ exponential_smoothing-smooth alpha x xs (length xs) (omega arith)
      ∙ ap (λ (ys : List F). ok (smooth alpha x ys)) (take-length xs)
    where
      alpha : F
      alpha = exp (of_int64 (Word.sub 0 (length (x ∷ xs))))

  read-queue :
      (e : ExponentialSmoothing F)
      → IsReady e
      → read fl e
        ≡ (if ltb (length e.queue) e.queue_length then err not_enough_metrics else smoothed e.queue)
  unfolding read
  read-queue e (h, l, k) =
      rw (Word.signed_lt-of_small (length e.queue) e.queue_length (omega arith) (omega arith))
        (elim (Bool-cases (ltb (length e.queue) e.queue_length)) [
          | inl fewer ↦ rw fewer refl
          | inr full ↦ rw full (smoothed-queue e.queue (ground arith))
        ])

  -- On a filter that is ready, `Read` returns an error as long as fewer values were put in than
  -- the queue's length, and from then on the smoothing of the latest values, as many as this
  -- length. It never panics.
  pub read-append_all :
      (vs : List F) (e : ExponentialSmoothing F)
      → IsReady e
      → read fl (append_all vs e) ≡ (
          if ltb (length (e.queue ++ vs)) e.queue_length
          then err not_enough_metrics
          else smoothed (last e.queue_length (e.queue ++ vs)))
  read-append_all vs e h =
      read-queue (append_all vs e) (append_all-IsReady vs e h)
      ∙ ap₂
          (λ (q : List F) (n : Word).
            if ltb (length q) n then err not_enough_metrics else smoothed q)
          (queue-append_all vs e h) (append_all-queue_length vs e)
      ∙ ap
          (λ (b : Bool).
            if b then err not_enough_metrics else smoothed (last e.queue_length (e.queue ++ vs)))
          (ground (arith, length-drop (length (e.queue ++ vs) - e.queue_length) (e.queue ++ vs)))

  smoothed-ne-panic : (xs : List F) → 0 < length xs → smoothed xs ≢ panic
  unfolding smoothed
  smoothed-ne-panic [] h = absurd (omega arith)
  smoothed-ne-panic (x ∷ xs) h = λ e. cc

  -- On a filter that is ready, `Read` never panics.
  pub read-ne-panic : (e : ExponentialSmoothing F) → IsReady e → read fl e ≢ panic
  read-ne-panic e (h, l, k) p =
      let q = sym (read-queue e (h, l, k)) ∙ p in
      elim (Bool-cases (ltb (length e.queue) e.queue_length)) [
        | inl fewer ↦ let q' = rw fewer at q in cc
        | inr full ↦ smoothed-ne-panic e.queue (ground arith) (rw full at q)
      ]
