-- ===== src/Client/Requests/Url.antt =====
-- The paths of two requests differ.
use mathlib.Core.List.{append_cancel_left, head-eq_of_cons-eq, tail-eq_of_cons-eq}
use acadock_monitoring.Prelude.{
  [], ◌∷◌, ◌++◌, append_assoc, Bytes, bytes_eq, All, ◌≡◌, ◌≢◌, refl, sym, ap₂, codes, ◌∙◌,
}
use acadock_monitoring.Client.Requests.{resource_path}

abbrev pub HasNoSlash : Bytes → Type 0
HasNoSlash s = All (λ c. c ≢ b'/') s

-- The text in front of the first slash is known.
pub before_slash :
    (i j r s : Bytes)
    → HasNoSlash i
    → HasNoSlash j
    → i ++ b'/' ∷ r ≡ j ++ b'/' ∷ s
    → (i ≡ j) × (r ≡ s)
before_slash [] [] r s p q e = (refl, tail-eq_of_cons-eq e)
before_slash [] (d ∷ j) r s p (q, qs) e = absurd (q (sym (head-eq_of_cons-eq e)))
before_slash (c ∷ i) [] r s (p, ps) q e = absurd (p (head-eq_of_cons-eq e))
before_slash (c ∷ i) (d ∷ j) r s (p, ps) (q, qs) e =
    let (same, rest) = before_slash i j r s ps qs (tail-eq_of_cons-eq e) in
    (ap₂ (◌∷◌) (head-eq_of_cons-eq e) same, rest)

pub slash_inside : (i r s : Bytes) → HasNoSlash s → i ++ b'/' ∷ r ≢ s
slash_inside [] r [] p e = cc
slash_inside (d ∷ i) r [] p e = cc
slash_inside [] r (c ∷ s) (p, ps) e = p (sym (head-eq_of_cons-eq e))
slash_inside (d ∷ i) r (c ∷ s) (p, ps) e = slash_inside i r s ps (tail-eq_of_cons-eq e)

abbrev pub containers : Bytes
containers = codes "/containers/"

pub behind : (i r : Bytes) → containers ++ i ++ codes "/" ++ r ≡ containers ++ (i ++ b'/' ∷ r)
behind i r = append_assoc (containers ++ i) (codes "/") r ∙ append_assoc containers i (b'/' ∷ r)

-- Two requests for containers and resources without a slash in their names go to the same path only
-- if they are for the same container, or both for all containers, and for the same resource.
pub resource_path_injective :
    (i j r s : Bytes)
    → HasNoSlash i
    → HasNoSlash j
    → HasNoSlash r
    → HasNoSlash s
    → resource_path i r ≡ resource_path j s
    → (i ≡ j) × (r ≡ s)
unfolding resource_path bytes_eq
resource_path_injective [] [] r s p q u v e =
    (refl, append_cancel_left (codes "/containers/") r s e)
resource_path_injective [] (d ∷ j) r s p q u v e =
    absurd
      (slash_inside (d ∷ j) s r u (append_cancel_left containers _ _ (sym (e ∙ behind (d ∷ j) s))))
resource_path_injective (c ∷ i) [] r s p q u v e =
    absurd
      (slash_inside (c ∷ i) r s v (append_cancel_left containers _ _ (sym (behind (c ∷ i) r) ∙ e)))
resource_path_injective (c ∷ i) (d ∷ j) r s p q u v e =
    before_slash (c ∷ i) (d ∷ j) r s p q
      (append_cancel_left containers _ _ (sym (behind (c ∷ i) r) ∙ e ∙ behind (d ∷ j) s))
