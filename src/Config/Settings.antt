-- ===== src/Config/Settings.antt =====
-- The settings that `init` reads from the variables.
use acadock_monitoring.Prelude.Word.{Word, half}
use acadock_monitoring.Prelude.Dict
use acadock_monitoring.Prelude.Dict.{get_or-lookup}
use mathlib.Core.Option
use acadock_monitoring.Prelude.{
  ℕ, ◌<◌, Bool, List, [], ◌∷◌, Option, some, Bytes, codes, bytes_eq, Error, Outcome, ok, err, panic,
  ◌>>=◌, StringMap, ◌⊎◌, inl, inr, ◌≡◌, ◌≢◌, refl, sym, ap, subst, ◌∙◌,
}
use acadock_monitoring.Text.Decimal.{format_uint}
use acadock_monitoring.Text.Decimal.Integer.{atoi, atoi-format_uint, atoi-ne-panic}
use acadock_monitoring.Text.Duration.{parse_duration}
use acadock_monitoring.Text.Duration.Fuel.{parse_duration-ne-panic}
use acadock_monitoring.Text.Duration.Print.{TimeUnit, print_parts, total}
use acadock_monitoring.Text.Duration.RoundTrip.{parse_duration-print_parts}
use acadock_monitoring.Config.{
  defaults, Variables, value_of, merge, Config, must, is_true, read_config, init,
}
use acadock_monitoring.Config.Merge.{chosen, IsDistinct, merge-chosen}

-- The four texts that are parsed.
abbrev pub refresh_text : StringMap Bytes → Bytes
refresh_text os_env = chosen (codes "REFRESH_TIME") (codes "20s") os_env

abbrev pub elements_text : StringMap Bytes → Bytes
elements_text os_env = chosen (codes "QUEUE_LENGTH_ELEMENTS_NEEDED") (codes "6") os_env

abbrev pub points_text : StringMap Bytes → Bytes
points_text os_env = chosen (codes "QUEUE_LENGTH_POINTS_PER_SAMPLE") (codes "5") os_env

abbrev pub interval_text : StringMap Bytes → Bytes
interval_text os_env = chosen (codes "QUEUE_LENGTH_SAMPLING_INTERVAL") (codes "5s") os_env

-- A text that counts cannot be parsed.
abbrev pub IsUnreadable : (ℕ → ℕ → ℕ → Word) → StringMap Bytes → Type 0
IsUnreadable fraction os_env =
    (e : Error) × ((parse_duration fraction (refresh_text os_env) ≡ err e)
      ⊎ (atoi (elements_text os_env) ≡ err e)
      ⊎ (atoi (points_text os_env) ≡ err e)
      ⊎ (parse_duration fraction (interval_text os_env) ≡ err e))

module _ (fraction : ℕ → ℕ → ℕ → Word) (unified : Bool) (order os_env : StringMap Bytes)
    (distinct : IsDistinct order)
    (visits_all : (k : Bytes) → Dict.lookup k order ≡ Dict.lookup k defaults) where
  merged : Variables
  merged = merge order (record { env = defaults; os_env = os_env })

  value_of-merged :
      (k w : Bytes) → Dict.lookup k defaults ≡ some w → value_of k merged.env ≡ chosen k w os_env
  unfolding merged
  value_of-merged k w h =
      (merge-chosen order (record { env = defaults; os_env = os_env }) k w distinct
        (visits_all k ∙ h)
        (get_or-lookup [] k defaults ∙ ap (λ (o : Option Bytes). Option.get_or o []) h)).0

  refresh_value :
      value_of (codes "REFRESH_TIME") merged.env
      ≡ chosen (codes "REFRESH_TIME") (codes "20s") os_env
  unfolding Dict.lookup bytes_eq
  refresh_value = value_of-merged (codes "REFRESH_TIME") (codes "20s") refl

  elements_value :
      value_of (codes "QUEUE_LENGTH_ELEMENTS_NEEDED") merged.env
      ≡ chosen (codes "QUEUE_LENGTH_ELEMENTS_NEEDED") (codes "6") os_env
  unfolding Dict.lookup bytes_eq
  elements_value = value_of-merged (codes "QUEUE_LENGTH_ELEMENTS_NEEDED") (codes "6") refl

  points_value :
      value_of (codes "QUEUE_LENGTH_POINTS_PER_SAMPLE") merged.env
      ≡ chosen (codes "QUEUE_LENGTH_POINTS_PER_SAMPLE") (codes "5") os_env
  unfolding Dict.lookup bytes_eq
  points_value = value_of-merged (codes "QUEUE_LENGTH_POINTS_PER_SAMPLE") (codes "5") refl

  interval_value :
      value_of (codes "QUEUE_LENGTH_SAMPLING_INTERVAL") merged.env
      ≡ chosen (codes "QUEUE_LENGTH_SAMPLING_INTERVAL") (codes "5s") os_env
  unfolding Dict.lookup bytes_eq
  interval_value = value_of-merged (codes "QUEUE_LENGTH_SAMPLING_INTERVAL") (codes "5s") refl

  debug_value : value_of (codes "DEBUG") merged.env ≡ chosen (codes "DEBUG") (codes "false") os_env
  unfolding Dict.lookup bytes_eq
  debug_value = value_of-merged (codes "DEBUG") (codes "false") refl

  -- `init` with the four results in place of the parsing.
  read_results : Outcome Word → Outcome Word → Outcome Word → Outcome Word → Outcome Config
  read_results refresh elements points interval = do
    r ← must refresh
    e ← must elements
    p ← must points
    i ← must interval
    ok (record {
      variables = merged;
      refresh_time = r;
      debug = is_true (chosen (codes "DEBUG") (codes "false") os_env);
      queue_length_sampling_interval = i;
      queue_length_points_per_sample = p;
      queue_length_elements_needed = e;
      is_using_cgroup_v2 = unified;
    })

  init-read_results :
      init fraction unified order os_env
      ≡ read_results
          (parse_duration fraction (refresh_text os_env))
          (atoi (elements_text os_env))
          (atoi (points_text os_env))
          (parse_duration fraction (interval_text os_env))
  unfolding init read_config read_results merged
  init-read_results =
      rw
        (
          sym refresh_value,
          sym elements_value,
          sym points_value,
          sym interval_value,
          sym debug_value,
        )
        refl

  pub init-print_parts :
      (n m : ℕ) (u v : TimeUnit) (ps qs : List (ℕ × TimeUnit)) (elements points : Word)
      → total ((n, u) ∷ ps) < half
      → total ((m, v) ∷ qs) < half
      → elements < half
      → points < half
      → chosen (codes "REFRESH_TIME") (codes "20s") os_env ≡ print_parts ((n, u) ∷ ps)
      → chosen (codes "QUEUE_LENGTH_SAMPLING_INTERVAL") (codes "5s") os_env
        ≡ print_parts ((m, v) ∷ qs)
      → chosen (codes "QUEUE_LENGTH_ELEMENTS_NEEDED") (codes "6") os_env ≡ format_uint elements
      → chosen (codes "QUEUE_LENGTH_POINTS_PER_SAMPLE") (codes "5") os_env ≡ format_uint points
      → init fraction unified order os_env
        ≡ ok (record {
          variables = merge order (record { env = defaults; os_env = os_env });
          refresh_time = total ((n, u) ∷ ps);
          debug = is_true (chosen (codes "DEBUG") (codes "false") os_env);
          queue_length_sampling_interval = total ((m, v) ∷ qs);
          queue_length_points_per_sample = points;
          queue_length_elements_needed = elements;
          is_using_cgroup_v2 = unified;
        })
  unfolding read_results must merged
  init-print_parts n m u v ps qs elements points h₁ h₂ h₃ h₄ refresh interval needed sampled =
      let r =
        ap (parse_duration fraction) refresh ∙ parse_duration-print_parts fraction n u ps h₁ in
      let i =
        ap (parse_duration fraction) interval ∙ parse_duration-print_parts fraction m v qs h₂ in
      let e = ap atoi needed ∙ atoi-format_uint elements h₃ in
      let p = ap atoi sampled ∙ atoi-format_uint points h₄ in
      init-read_results
      ∙ ap
          (λ (o : Outcome Word).
            read_results o (atoi (elements_text os_env)) (atoi (points_text os_env))
              (parse_duration fraction (interval_text os_env)))
          r
      ∙ ap
          (λ (o : Outcome Word).
            read_results (ok (total ((n, u) ∷ ps))) o (atoi (points_text os_env))
              (parse_duration fraction (interval_text os_env)))
          e
      ∙ ap
          (λ (o : Outcome Word).
            read_results (ok (total ((n, u) ∷ ps))) (ok elements) o
              (parse_duration fraction (interval_text os_env)))
          p
      ∙ ap
          (λ (o : Outcome Word).
            read_results (ok (total ((n, u) ∷ ps))) (ok elements) (ok points) o)
          i

  results :
      (r e p i : Outcome Word)
      → r ≢ panic
      → e ≢ panic
      → p ≢ panic
      → i ≢ panic
      → ((c : Config) × (read_results r e p i ≡ ok c))
        ⊎ ((read_results r e p i ≡ panic)
            × ((x : Error) × ((r ≡ err x) ⊎ (e ≡ err x) ⊎ (p ≡ err x) ⊎ (i ≡ err x))))
  unfolding read_results must
  results (err x) e p i h₁ h₂ h₃ h₄ = inr (refl, (x, inl refl))
  results (ok r) (err x) p i h₁ h₂ h₃ h₄ = inr (refl, (x, inr (inl refl)))
  results (ok r) (ok e) (err x) i h₁ h₂ h₃ h₄ = inr (refl, (x, inr (inr (inl refl))))
  results (ok r) (ok e) (ok p) (err x) h₁ h₂ h₃ h₄ = inr (refl, (x, inr (inr (inr refl))))
  results (ok r) (ok e) (ok p) (ok i) h₁ h₂ h₃ h₄ = inl (_, refl)
  results panic e p i h₁ h₂ h₃ h₄ = absurd (h₁ refl)
  results (ok r) panic p i h₁ h₂ h₃ h₄ = absurd (h₂ refl)
  results (ok r) (ok e) panic i h₁ h₂ h₃ h₄ = absurd (h₃ refl)
  results (ok r) (ok e) (ok p) panic h₁ h₂ h₃ h₄ = absurd (h₄ refl)

  -- `init` comes to an end for every environment: with a configuration, or with a panic, and then one
  -- of the four texts that count cannot be parsed.
  pub init-ends :
      ((c : Config) × (init fraction unified order os_env ≡ ok c))
      ⊎ ((init fraction unified order os_env ≡ panic) × IsUnreadable fraction os_env)
  init-ends =
      subst
        (λ (o : Outcome Config).
          ((c : Config) × (o ≡ ok c)) ⊎ ((o ≡ panic) × IsUnreadable fraction os_env))
        (sym init-read_results)
        (results _ _ _ _ (parse_duration-ne-panic fraction (refresh_text os_env))
          (atoi-ne-panic (elements_text os_env)) (atoi-ne-panic (points_text os_env))
          (parse_duration-ne-panic fraction (interval_text os_env)))
