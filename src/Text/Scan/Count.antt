-- ===== src/Text/Scan/Count.antt =====
-- `Sscanf` counts each operand that it stores.
use acadock_monitoring.Prelude.{
  ℕ, ◌+◌, Bytes, Option, [], ◌∷◌, ◌==◌, Bool-cases, inl, inr, some, none, ◌≡◌, refl, arith, subst,
}
use acadock_monitoring.Text.Decimal.{parse_uint}
use acadock_monitoring.Text.Fields.{Marked}
use acadock_monitoring.Text.Scan.{
  Scanned, done, stopped, Scanner, ◌>>=◌, pure, operand, number_of, take_digits, take_word,
  match_space, scan_space, scan_uint, scan_string, scan_literal, scan_float, float_of, float_token,
}

abbrev pub CountsTo {ℓ} : {A : Type ℓ} → ℕ → Scanned A → Type 0
CountsTo k (done a n s) = n ≡ k
CountsTo k (stopped n) = Unit

-- The scanner stores `k` operands if it succeeds.
abbrev pub Counts {ℓ} : {A : Type ℓ} → ℕ → Scanner A → Type 0
Counts k m = (n : ℕ) (s : Marked) → CountsTo (n + k) (m n s)

CountsTo->>= {ℓ κ} :
    {A : Type ℓ} {B : Type κ} (f : A → Scanner B) (j k n : ℕ) (r : Scanned A)
    → CountsTo (n + j) r
    → ((a : A) → Counts k (f a))
    → CountsTo
        (n + (j + k))
        (elim r as (λ x. Scanned B) [ done a n' s' ↦ f a n' s' | stopped n' ↦ stopped n' ])
CountsTo->>= f j k n (done a n' s') e h =
    subst (λ c. CountsTo c (f a n' s')) (omega arith) (h a n' s')
CountsTo->>= f j k n (stopped _) e h = tt

pub Counts->>= {ℓ κ} :
    {A : Type ℓ} {B : Type κ} (m : Scanner A) (f : A → Scanner B) (j k : ℕ)
    → Counts j m
    → ((a : A) → Counts k (f a))
    → Counts (j + k) (m >>= f)
Counts->>= m f j k h g n s = CountsTo->>= f j k n (m n s) (h n s) g

pub Counts-pure {ℓ} : {A : Type ℓ} (a : A) → Counts 0 (pure a)
Counts-pure a n s = omega arith

number_of-CountsTo : (n : ℕ) (p : Bytes × Marked) → CountsTo (n + 1) (number_of n p)
unfolding number_of
number_of-CountsTo n p =
    elim (parse_uint p.0)
      as (λ o.
        CountsTo (n + 1)
          (elim o as (λ x. Scanned ℕ) [ none ↦ stopped n | some v ↦ done v (n + 1) p.1 ])) [
            | none ↦ tt
            | some v ↦ refl
          ]

pub scan_uint-Counts : Counts 1 scan_uint
unfolding scan_uint
scan_uint-Counts n s =
    elim (operand s)
      as (λ o.
        CountsTo (n + 1) (elim o as (λ x. Scanned ℕ) [
          | none ↦ stopped n
          | some r ↦ number_of n (take_digits r)
        ])) [ none ↦ tt | some r ↦ number_of-CountsTo n (take_digits r) ]

pub scan_string-Counts : Counts 1 scan_string
unfolding scan_string
scan_string-Counts n s =
    elim (operand s)
      as (λ o. CountsTo (n + 1) (elim o as (λ x. Scanned Bytes) [
        | none ↦ stopped n
        | some r ↦ done (take_word r).0 (n + 1) (take_word r).1
      ])) [ none ↦ tt | some r ↦ refl ]

pub scan_space-Counts : Counts 0 scan_space
unfolding scan_space
scan_space-Counts n s =
    elim (match_space s)
      as (λ o.
        CountsTo {0} {A = Unit {0}} (n + 0)
          (elim o as (λ x. Scanned (Unit {0})) [ none ↦ stopped n | some r ↦ done tt n r ])) [
            | none ↦ tt
            | some r ↦ omega arith
          ]

float_of-CountsTo :
    {F : Type 0} (convert : Bytes → Option F) (n : ℕ) (p : Bytes × Marked)
    → CountsTo (n + 1) (float_of convert n p)
unfolding float_of
float_of-CountsTo {F} convert n p =
    elim (convert p.0)
      as (λ o.
        CountsTo (n + 1)
          (elim o as (λ x. Scanned F) [ none ↦ stopped n | some v ↦ done v (n + 1) p.1 ])) [
            | none ↦ tt
            | some v ↦ refl
          ]

pub scan_float-Counts : {F : Type 0} (convert : Bytes → Option F) → Counts 1 (scan_float convert)
unfolding scan_float
scan_float-Counts {F} convert n s =
    elim (operand s)
      as (λ o. CountsTo (n + 1) (elim o as (λ x. Scanned F) [
        | none ↦ stopped n
        | some r ↦ float_of convert n (float_token r)
      ])) [ none ↦ tt | some r ↦ float_of-CountsTo convert n (float_token r) ]

pub scan_literal-Counts : (c : ℕ) → Counts 0 (scan_literal c)
unfolding scan_literal
scan_literal-Counts c n [] = tt
scan_literal-Counts c n ((d, space) ∷ s) = elim (Bool-cases (c == d)) [
  | inl same ↦ rw same (omega arith)
  | inr other ↦ rw other tt
]
