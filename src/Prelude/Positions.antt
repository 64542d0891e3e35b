-- ===== src/Prelude/Positions.antt =====
-- Lists with the positions of their elements.
use Prim.Native.Nat.{ℕ, zero, suc}
use mathlib.Core.List.{List, [], ◌∷◌, ◌++◌}
use mathlib.Core.Logic.{◌≢◌, inl, inr}
use mathlib.Core.Option.{some}
use mathlib.Core.Path.{◌≡◌, refl, ap, subst, ◌∙◌}
use acadock_monitoring.Prelude.Lists.{length, get_elem?, update_at, update_at-cases}

module _ {ℓ κ} {A : Type ℓ} where
  -- Each element, with its position.
  abbrev pub AllAt : (ℕ → A → Type κ) → List A → Type (ℓ ⊔ κ)
  AllAt P xs = (i : ℕ) (x : A) → get_elem? xs i ≡ some x → P i x

  pub AllAt-update_at :
      (P Q : ℕ → A → Type κ) (n : ℕ) (f : A → A) (xs : List A)
      → ((i : ℕ) (x : A) → n ≢ i → P i x → Q i x)
      → ((x : A) → get_elem? xs n ≡ some x → P n x → Q n (f x))
      → AllAt P xs
      → AllAt Q (update_at n f xs)
  AllAt-update_at P Q n f xs others own h i x e = elim (update_at-cases n i f xs e) [
    | inl (ne, old) ↦ others i x ne (h i x old)
    | inr (same, (y, old, new)) ↦
        let at_n : get_elem? xs n ≡ some y = ap (get_elem? xs) same ∙ old in
        subst (λ (k : ℕ). Q k x) same (subst (λ (z : A). Q n z) new (own y at_n (h n y at_n)))
  ]

pub length-update_at {ℓ} :
    {A : Type ℓ} (n : ℕ) (f : A → A) (xs : List A) → length (update_at n f xs) ≡ length xs
unfolding update_at
length-update_at n f [] = refl
length-update_at zero f (x ∷ xs) = refl
length-update_at (suc n) f (x ∷ xs) = ap suc (length-update_at n f xs)

pub update_at-length {ℓ} :
    {A : Type ℓ} (f : A → A) (xs : List A) (y : A) (ys : List A)
    → update_at (length xs) f (xs ++ y ∷ ys) ≡ xs ++ f y ∷ ys
unfolding update_at
update_at-length f [] y ys = refl
update_at-length f (x ∷ xs) y ys = ap (λ zs. x ∷ zs) (update_at-length f xs y ys)
