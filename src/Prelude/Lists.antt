-- ===== src/Prelude/Lists.antt =====
-- Lists over the native numbers, and predicates on lists.
use Prim.Native.Nat.{ℕ, zero, suc, ◌+◌, ◌-◌, ◌≤◌, ◌<◌}
use mathlib.Core.Bool.{Bool, false, ◌||◌}
use mathlib.Core.List.{List, [], ◌∷◌, ◌++◌, map}
use mathlib.Core.Logic.{◌≢◌, ◌⊎◌, inl, inr}
use mathlib.Core.Option
use mathlib.Core.Option.{Option, none, some, none-ne-some, some-injective}
use mathlib.Core.Path.{◌≡◌, refl, sym, ap, ◌∙◌}
use native.Mathlib.Omega.{arith}

module _ {ℓ} {A : Type ℓ} where
  abbrev pub length : List A → ℕ
  length [] = 0
  length (x ∷ xs) = suc (length xs)

  abbrev pub get_elem? : List A → ℕ → Option A
  get_elem? [] i = none
  get_elem? (x ∷ xs) zero = some x
  get_elem? (x ∷ xs) (suc i) = get_elem? xs i

  -- A slice `xs[n:]`, where `n` is at most the length.
  abbrev pub drop : ℕ → List A → List A
  drop zero xs = xs
  drop (suc n) [] = []
  drop (suc n) (x ∷ xs) = drop n xs

  abbrev pub take : ℕ → List A → List A
  take zero xs = []
  take (suc n) [] = []
  take (suc n) (x ∷ xs) = x ∷ take n xs

  pub take-length : (xs : List A) → take (length xs) xs ≡ xs
  take-length [] = refl
  take-length (x ∷ xs) = ap (λ (ys : List A). x ∷ ys) (take-length xs)

  pub length-append : (xs ys : List A) → length (xs ++ ys) ≡ length xs + length ys
  length-append [] ys = omega arith
  length-append (x ∷ xs) ys = omega (arith, length-append xs ys)

  pub length-drop : (n : ℕ) (xs : List A) → length (drop n xs) ≡ length xs - n
  length-drop zero xs = omega arith
  length-drop (suc n) [] = omega arith
  length-drop (suc n) (x ∷ xs) = omega (arith, length-drop n xs)

  pub drop-length : (xs : List A) → drop (length xs) xs ≡ []
  drop-length [] = refl
  drop-length (x ∷ xs) = drop-length xs

  pub drop-append : (n : ℕ) (xs ys : List A) → n ≤ length xs → drop n (xs ++ ys) ≡ drop n xs ++ ys
  drop-append zero xs ys h = refl
  drop-append (suc n) [] ys h = absurd (omega arith)
  drop-append (suc n) (x ∷ xs) ys h = drop-append n xs ys (omega arith)

  abbrev pub any : (A → Bool) → List A → Bool
  any p [] = false
  any p (x ∷ xs) = p x || any p xs

  pub any-append : (p : A → Bool) (xs ys : List A) → any p (xs ++ ys) ≡ (any p xs || any p ys)
  any-append p [] ys = refl
  any-append p (x ∷ xs) ys = ground (arith, any-append p xs ys)

module _ {ℓ κ} {A : Type ℓ} (P : A → Type κ) where
  abbrev pub All : List A → Type κ
  All [] = Unit
  All (x ∷ xs) = P x × All xs

  pub All-append : (xs ys : List A) → All xs → All ys → All (xs ++ ys)
  All-append [] ys _ hy = hy
  All-append (x ∷ xs) ys (px, hx) hy = (px, All-append xs ys hx hy)

pub length-map {ℓ κ} :
    {A : Type ℓ} {B : Type κ} (f : A → B) (xs : List A) → length (map f xs) ≡ length xs
length-map f [] = refl
length-map f (x ∷ xs) = ap suc (length-map f xs)

module _ {ℓ} {A : Type ℓ} where
  -- `f` applied to the element at a position, if there is one.
  unfoldable pub update_at : ℕ → (A → A) → List A → List A
  update_at n f [] = []
  update_at zero f (x ∷ xs) = f x ∷ xs
  update_at (suc n) f (x ∷ xs) = x ∷ update_at n f xs

  pub get_elem?-update_at_self :
      (n : ℕ) (f : A → A) (xs : List A) {x : A}
      → get_elem? xs n ≡ some x
      → get_elem? (update_at n f xs) n ≡ some (f x)
  unfolding update_at
  get_elem?-update_at_self n f [] h = absurd (none-ne-some _ h)
  get_elem?-update_at_self zero f (x ∷ xs) h = ap (Option.map f) h
  get_elem?-update_at_self (suc n) f (x ∷ xs) h = get_elem?-update_at_self n f xs h

  pub get_elem?-update_at_ne :
      (n i : ℕ) (f : A → A) (xs : List A) → n ≢ i → get_elem? (update_at n f xs) i ≡ get_elem? xs i
  unfolding update_at
  get_elem?-update_at_ne n i f [] h = refl
  get_elem?-update_at_ne zero zero f (x ∷ xs) h = absurd (h refl)
  get_elem?-update_at_ne zero (suc i) f (x ∷ xs) h = refl
  get_elem?-update_at_ne (suc n) zero f (x ∷ xs) h = refl
  get_elem?-update_at_ne (suc n) (suc i) f (x ∷ xs) h =
      get_elem?-update_at_ne n i f xs (λ e. h (omega arith))

  pub get_elem?-append_left :
      (xs ys : List A) (i : ℕ) {x : A} → get_elem? xs i ≡ some x → get_elem? (xs ++ ys) i ≡ some x
  get_elem?-append_left [] ys i h = absurd (none-ne-some _ h)
  get_elem?-append_left (x ∷ xs) ys zero h = h
  get_elem?-append_left (x ∷ xs) ys (suc i) h = get_elem?-append_left xs ys i h

  pub get_elem?-append_length :
      (xs : List A) (x : A) (ys : List A) → get_elem? (xs ++ x ∷ ys) (length xs) ≡ some x
  get_elem?-append_length [] x ys = refl
  get_elem?-append_length (y ∷ xs) x ys = get_elem?-append_length xs x ys

  pub get_elem?-of_lt : (xs : List A) (i : ℕ) → i < length xs → (x : A) × (get_elem? xs i ≡ some x)
  get_elem?-of_lt [] i h = absurd (omega arith)
  get_elem?-of_lt (x ∷ xs) zero h = (x, refl)
  get_elem?-of_lt (x ∷ xs) (suc i) h = get_elem?-of_lt xs i (omega arith)

  pub get_elem?-lt : (xs : List A) (i : ℕ) {x : A} → get_elem? xs i ≡ some x → i < length xs
  get_elem?-lt [] i h = absurd (none-ne-some _ h)
  get_elem?-lt (x ∷ xs) zero h = omega arith
  get_elem?-lt (x ∷ xs) (suc i) h = omega (arith, get_elem?-lt xs i h)

module _ {ℓ κ} {A : Type ℓ} (P : A → Type κ) where
  -- An update that preserves `P` leaves an element with `P` at each position that had one.
  pub update_at-preserves :
      (n i : ℕ) (f : A → A)
      → ((x : A) → P x → P (f x))
      → (xs : List A) {x : A} → get_elem? xs i ≡ some x
      → P x
      → (y : A) × (get_elem? (update_at n f xs) i ≡ some y) × P y
  unfolding update_at
  update_at-preserves n i f k [] h p = absurd (none-ne-some _ h)
  update_at-preserves zero zero f k (y ∷ xs) {x} h p = (f x, ap (Option.map f) h, k x p)
  update_at-preserves zero (suc i) f k (y ∷ xs) {x} h p = (x, h, p)
  update_at-preserves (suc n) zero f k (y ∷ xs) {x} h p = (x, h, p)
  update_at-preserves (suc n) (suc i) f k (y ∷ xs) h p = update_at-preserves n i f k xs h p

module _ {ℓ} {A : Type ℓ} where
  drop-nil : (n : ℕ) → drop {A = A} n [] ≡ []
  drop-nil zero = refl
  drop-nil (suc n) = refl

  pub drop-drop : (n k : ℕ) (xs : List A) → drop n (drop k xs) ≡ drop (k + n) xs
  drop-drop n zero xs = ap (λ i. drop i xs) (omega arith)
  drop-drop n (suc k) [] = drop-nil n ∙ sym (drop-nil (suc k + n))
  drop-drop n (suc k) (x ∷ xs) =
      drop-drop n k xs ∙ ap (λ (i : ℕ). drop i (x ∷ xs)) {x = suc (k + n)} (omega arith)

  -- The last `n` elements, or all where there are fewer.
  abbrev pub last : ℕ → List A → List A
  last n xs = drop (length xs - n) xs

  pub length-last : (n : ℕ) (xs : List A) → n ≤ length xs → length (last n xs) ≡ n
  length-last n xs h = omega (arith, length-drop (length xs - n) xs)

  pub last-of_le : (n : ℕ) (xs : List A) → length xs ≤ n → last n xs ≡ xs
  last-of_le n xs h = ap (λ (i : ℕ). drop i xs) {x = length xs - n} {y = 0} (omega arith)

  -- What came before the last elements does not count.
  pub last-append_last : (n : ℕ) (xs ys : List A) → last n (last n xs ++ ys) ≡ last n (xs ++ ys)
  last-append_last n xs ys =
      ap (λ (zs : List A). last n zs) (sym (drop-append (length xs - n) xs ys (omega arith)))
      ∙ drop-drop _ (length xs - n) (xs ++ ys)
      ∙ ap (λ (i : ℕ). drop i (xs ++ ys))
          (omega (arith, length-append xs ys, length-drop (length xs - n) (xs ++ ys)))

module _ {ℓ} {A : Type ℓ} where
  -- An element behind an update is an old one at another position, or the updated one.
  pub update_at-cases :
      (n i : ℕ) (f : A → A) (xs : List A) {y : A}
      → get_elem? (update_at n f xs) i ≡ some y
      → ((n ≢ i) × (get_elem? xs i ≡ some y))
        ⊎ ((n ≡ i) × ((x : A) × (get_elem? xs i ≡ some x) × (f x ≡ y)))
  unfolding update_at
  update_at-cases n i f [] h = absurd (none-ne-some _ h)
  update_at-cases zero zero f (x ∷ xs) h = inr (refl, (x, refl, some-injective _ _ h))
  update_at-cases zero (suc i) f (x ∷ xs) h = inl ((λ e. omega arith), h)
  update_at-cases (suc n) zero f (x ∷ xs) h = inl ((λ e. omega arith), h)
  update_at-cases (suc n) (suc i) f (x ∷ xs) h = elim (update_at-cases n i f xs h) [
    | inl (ne, old) ↦ inl ((λ e. ne (omega arith)), old)
    | inr (e, found) ↦ inr (ap suc e, found)
  ]

  -- An element of a list with one more at its end.
  pub append-cases :
      (xs : List A) (z : A) (i : ℕ) {y : A}
      → get_elem? (xs ++ z ∷ []) i ≡ some y
      → (get_elem? xs i ≡ some y) ⊎ ((i ≡ length xs) × (z ≡ y))
  append-cases [] z zero h = inr (refl, some-injective _ _ h)
  append-cases [] z (suc i) h = absurd (none-ne-some _ h)
  append-cases (x ∷ xs) z zero h = inl h
  append-cases (x ∷ xs) z (suc i) h = elim (append-cases xs z i h) [
    | inl old ↦ inl old
    | inr (e, new) ↦ inr (ap suc e, new)
  ]
