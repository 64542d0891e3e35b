-- ===== src/Prelude/Errors.antt =====
-- Errors as values. A constructor stands for the call that makes the error, so that nothing is
-- assumed of the error library; `wrapped_nil` is a wrap of a nil error, and is not nil itself.
use Prim.Native.Nat.{ℕ}
use mathlib.Core.Option.{Option, none, some}
use mathlib.Core.Path.{◌≡◌, refl}
use mathlib.Core.Bool.{Bool, true, false}
use mathlib.Core.Logic.{◌≢◌}
use acadock_monitoring.Prelude.Tests.{if◌then◌else◌}
use acadock_monitoring.Prelude.Strings.{Bytes}

pub data Error : Type 0 where
  eof not_enough_metrics : Error
  foreign : ℕ → Error
  message : Bytes → Error
  wrapped : Bytes → Error → Error
  wrapped_nil : Bytes → Error
  stats_reader : Error → Error

-- A Go function's `(value, error)`, or a run-time panic.
pub data Outcome {ℓ} (A : Type ℓ) : Type ℓ where
  ok : A → Outcome A
  err : Error → Outcome A
  panic : Outcome A

infixl 5 ◌>>=◌
abbrev pub ◌>>=◌ {ℓ κ} : {A : Type ℓ} {B : Type κ} → Outcome A → (A → Outcome B) → Outcome B
ok a >>= f = f a
err e >>= f = err e
panic >>= f = panic

-- `if err != nil { return errors.Wrap(ctx, err, text) }`
abbrev pub wrap {ℓ} : {A : Type ℓ} → Bytes → Outcome A → Outcome A
wrap text (ok a) = ok a
wrap text (err e) = err (wrapped text e)
wrap text panic = panic

-- `errors.Wrap(ctx, err, text)` for an `err` that may be nil.
abbrev pub wrap_error : Bytes → Option Error → Error
wrap_error text none = wrapped_nil text
wrap_error text (some e) = wrapped text e

module _ {ℓ} {A : Type ℓ} where
  pub wrap-eq-ok : (text : Bytes) (m : Outcome A) {a : A} → wrap text m ≡ ok a → m ≡ ok a
  wrap-eq-ok text (ok a) h = h
  wrap-eq-ok text (err e) h = cc
  wrap-eq-ok text panic h = cc

  pub if-ne-panic :
      (b : Bool) (x y : Outcome A) → x ≢ panic → y ≢ panic → (if b then x else y) ≢ panic
  if-ne-panic true x y h k = h
  if-ne-panic false x y h k = k

  -- A chain with a result: that of its last step, on what the first step gave.
  pub >>=-eq-ok :
      {B : Type 0} (last : A → Outcome B) (result : B) (first : Outcome A)
      → first >>= last ≡ ok result
      → (between : A) × (last between ≡ ok result) × (first ≡ ok between)
  >>=-eq-ok last result panic e = cc
  >>=-eq-ok last result (err x) e = cc
  >>=-eq-ok last result (ok between) e = (between, e, refl)

  -- Chains with the same last step, argument by argument.
  pub >>=-ext :
      {B : Type 0} (first : Outcome A) (f g : A → Outcome B)
      → ((between : A) → f between ≡ g between)
      → first >>= f ≡ first >>= g
  >>=-ext panic f g same = refl
  >>=-ext (err x) f g same = refl
  >>=-ext (ok between) f g same = same between

  pub wrap-ne-panic : (text : Bytes) {m : Outcome A} → m ≢ panic → wrap text m ≢ panic
  wrap-ne-panic text {m} h e = h (wrapped_panic m e)
    where
      wrapped_panic : (o : Outcome A) → wrap text o ≡ panic → o ≡ panic
      wrapped_panic (ok a) q = cc
      wrapped_panic (err x) q = cc
      wrapped_panic panic q = refl

  pub >>=-ne-panic :
      {B : Type 0} (m : Outcome A) (f : A → Outcome B)
      → m ≢ panic
      → ((a : A) → f a ≢ panic)
      → (m >>= f) ≢ panic
  >>=-ne-panic (ok a) f h k = k a
  >>=-ne-panic (err x) f h k = λ e. cc
  >>=-ne-panic panic f h k = absurd (h refl)
