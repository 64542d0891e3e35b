-- ===== src/Text/Split.antt =====
-- `strings.Split` at a byte, and `strings.TrimSpace` of text in UTF-8.
use acadock_monitoring.Prelude.{
  ℕ, Bool, true, false, List, [], ◌∷◌, ◌++◌, Bytes, All, ◌==◌, if◌then◌else◌, codes, ◌≡◌, ◌≢◌, refl,
  sym, append-nil, ap, ◌∙◌, arith, inl, inr, Bool-cases,
}
use acadock_monitoring.Text.Fields.{Marked, mark, space_width, wide_space}
use acadock_monitoring.Text.Scan.RoundTrip.{IsPlain, plain, mark-plain, mark_space}

-- The byte before the parts.
abbrev pub push : ℕ → List Bytes → List Bytes
push c [] = (c ∷ []) ∷ []
push c (part ∷ parts) = (c ∷ part) ∷ parts

unfoldable pub split_on : ℕ → Bytes → List Bytes
split_on sep [] = [] ∷ []
split_on sep (c ∷ s) = let more = split_on sep s in if c == sep then [] ∷ more else push c more

drop_spaces : Marked → Marked
drop_spaces [] = []
drop_spaces ((c, true) ∷ s) = drop_spaces s
drop_spaces ((c, false) ∷ s) = (c, false) ∷ s

-- The byte before what is left, unless all is white space.
abbrev keep : ℕ → Bool → Bytes → Bytes
keep c space [] = if space then [] else c ∷ []
keep c space (d ∷ s) = c ∷ d ∷ s

-- The text without the white space at its end.
drop_end : Marked → Bytes
drop_end [] = []
drop_end ((c, space) ∷ s) = keep c space (drop_end s)

unfoldable pub trim_space : Bytes → Bytes
unfolding drop_spaces drop_end mark space_width wide_space
trim_space s = drop_end (drop_spaces (mark 0 s))

abbrev pub first_part : List Bytes → Bytes
first_part [] = []
first_part (part ∷ parts) = part

pub first_part-push :
    (c : ℕ) (parts : List Bytes) → first_part (push c parts) ≡ c ∷ first_part parts
first_part-push c [] = refl
first_part-push c (part ∷ parts) = refl

keep-word : (c : ℕ) (w : Bytes) → keep c false w ≡ c ∷ w
keep-word c [] = refl
keep-word c (d ∷ w) = refl

-- A part that ends with the separator.
pub split_on-part :
    (sep : ℕ) (w s : Bytes)
    → All (λ c. c ≢ sep) w
    → split_on sep (w ++ sep ∷ s) ≡ w ∷ split_on sep s
unfolding split_on
split_on-part sep [] s _ = ground arith
split_on-part sep (c ∷ w) s (p, ps) = ground (arith, split_on-part sep w s ps)

-- What stands in front, without a separator, belongs to the first part.
pub split_on-front :
    (sep : ℕ) (w s : Bytes)
    → All (λ c. c ≢ sep) w
    → first_part (split_on sep (w ++ s)) ≡ w ++ first_part (split_on sep s)
unfolding split_on
split_on-front sep [] s _ = refl
split_on-front sep (c ∷ w) s (p, ps) =
    let front = split_on-front sep w s ps in
    let parts = split_on sep (w ++ s) in
    elim (Bool-cases (c == sep)) [
      | inl same ↦ absurd (ground arith)
      | inr other ↦ rw other (first_part-push c parts ∙ ap (λ (t : Bytes). c ∷ t) front)
    ]

drop_end-plain : (w : Bytes) → drop_end (plain w) ≡ w
unfolding drop_end
drop_end-plain [] = refl
drop_end-plain (c ∷ w) = ap (keep c false) (drop_end-plain w) ∙ keep-word c w

-- A word behind a space.
pub trim_space-word : (c : ℕ) (w : Bytes) → All IsPlain (c ∷ w) → trim_space (32 ∷ c ∷ w) ≡ c ∷ w
unfolding trim_space drop_spaces
trim_space-word c w p =
    let marked =
      ap (λ (t : Bytes). mark 0 t) (sym (append-nil (c ∷ w)))
      ∙ mark-plain (c ∷ w) [] p
      ∙ append-nil (plain (c ∷ w)) in
    ap (λ (m : Marked). drop_end (drop_spaces m))
      (mark_space (c ∷ w) ∙ ap (λ (m : Marked). (32, true) ∷ m) marked)
    ∙ drop_end-plain (c ∷ w)

trim_test : trim_space (codes " \ta b\n ") ≡ codes "a b"
unfolding trim_space
trim_test = refl
