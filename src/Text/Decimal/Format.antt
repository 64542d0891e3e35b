-- ===== src/Text/Decimal/Format.antt =====
-- What `FormatUint` prints: digits that spell the number, so different numbers print differently.
use native.Mathlib.Nat.{pow-suc}
use mathlib.Core.List.{cons-ne-nil}
use acadock_monitoring.Prelude.{
  ℕ, zero, suc, ◌/◌, ◌^◌, ◌<◌, Bytes, [], ◌≡◌, ◌≢◌, sym, ap, ◌∙◌, arith, ltb, All, inl, inr,
  Bool-cases, tests,
}
use acadock_monitoring.Prelude.Word.{modulus}
use acadock_monitoring.Text.Decimal.{IsDigit, digits, format_uint, value}

value-digits :
    (fuel n : ℕ) (out : Bytes) → n < 10 ^ fuel → value 0 (digits fuel n out) ≡ value n out
unfolding digits
value-digits zero n out h = ap (λ (k : ℕ). value k out) (omega arith)
value-digits (suc fuel) n out h = elim (Bool-cases (ltb n 10)) [
  | inl small ↦ rw (small, digits) (ap (λ (k : ℕ). value k out) (omega tests))
  | inr large ↦
      rw (large, digits)
        (value-digits fuel (n / 10) _ (omega (arith, pow-suc 10 fuel))
          ∙ ap (λ (k : ℕ). value k out) (omega arith))
]

-- The print of a `uint64` spells it.
pub value-format_uint : (n : ℕ) → n < modulus → value 0 (format_uint n) ≡ n
unfolding format_uint
value-format_uint n h = value-digits 20 n [] (omega arith)

pub format_uint_injective :
    (m n : ℕ) → m < modulus → n < modulus → format_uint m ≡ format_uint n → m ≡ n
format_uint_injective m n hm hn e =
    sym (value-format_uint m hm) ∙ ap (value 0) e ∙ value-format_uint n hn

digits-IsDigit : (fuel n : ℕ) (out : Bytes) → All IsDigit out → All IsDigit (digits fuel n out)
unfolding digits
digits-IsDigit zero n out h = h
digits-IsDigit (suc fuel) n out h = elim (Bool-cases (ltb n 10)) [
  | inl small ↦ rw (small, digits) ((omega arith, omega arith), h)
  | inr large ↦ rw (large, digits) (digits-IsDigit fuel (n / 10) _ ((omega arith, omega arith), h))
]

pub format_uint-IsDigit : (n : ℕ) → All IsDigit (format_uint n)
unfolding format_uint
format_uint-IsDigit n = digits-IsDigit 20 n [] tt

digits-ne-nil : (fuel n : ℕ) (out : Bytes) → out ≢ [] → digits fuel n out ≢ []
unfolding digits
digits-ne-nil zero n out h = h
digits-ne-nil (suc fuel) n out h = elim (Bool-cases (ltb n 10)) [
  | inl small ↦ rw (small, digits) (cons-ne-nil _ out)
  | inr large ↦ rw (large, digits) (digits-ne-nil fuel (n / 10) _ (cons-ne-nil _ out))
]

pub format_uint-ne-nil : (n : ℕ) → format_uint n ≢ []
unfolding format_uint digits
format_uint-ne-nil n = elim (Bool-cases (ltb n 10)) [
  | inl small ↦ rw (small, digits) (cons-ne-nil _ [])
  | inr large ↦ rw (large, digits) (digits-ne-nil 19 (n / 10) _ (cons-ne-nil _ []))
]
