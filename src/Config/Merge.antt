-- ===== src/Config/Merge.antt =====
-- What the loop over `ENV` leaves, in whatever order the map is visited.
use acadock_monitoring.Prelude.Dict
use acadock_monitoring.Prelude.Dict.{dict_laws}
use acadock_monitoring.Prelude.{
  [], ◌∷◌, false, none, some, none-ne-some, some-injective, Bytes, bytes_eq, bytes_eq_iff,
  if◌then◌else◌, StringMap, ◌≡◌, refl, sym, ap, subst, ◌∙◌, arith, inl, inr, Bool-cases,
}
use acadock_monitoring.Config.{defaults, Variables, value_of, merge_one, merge}

-- The value that counts: that of the environment, unless it is empty.
abbrev pub chosen : Bytes → Bytes → StringMap Bytes → Bytes
chosen k v os_env = if bytes_eq (value_of k os_env) [] then v else value_of k os_env

-- No key comes twice.
abbrev pub IsDistinct : StringMap Bytes → Type 0
IsDistinct [] = Unit
IsDistinct ((k, v) ∷ m) = (Dict.lookup k m ≡ none) × IsDistinct m

-- No key of the initial map does.
pub defaults-IsDistinct : IsDistinct defaults
unfolding Dict.lookup bytes_eq
defaults-IsDistinct = (
  refl,
  (
    refl,
    (
      refl,
      (
        refl,
        (refl, (refl, (refl, (refl, (refl, (refl, (refl, (refl, (refl, (refl, (refl, tt))))))))))),
      ),
    ),
  ),
)

merge_one-other :
    (k j v : Bytes) (s : Variables)
    → bytes_eq k j ≡ false
    → (value_of j (merge_one k v s).env ≡ value_of j s.env)
      × (value_of j (merge_one k v s).os_env ≡ value_of j s.os_env)
unfolding merge_one
merge_one-other k j v s h = elim (Bool-cases (bytes_eq (value_of k s.os_env) [])) [
  | inl empty ↦ rw empty (refl, simp (dict_laws, h))
  | inr given ↦ rw given (simp (dict_laws, h), refl)
]

merge_one_self :
    (k v : Bytes) (s : Variables)
    → value_of k s.env ≡ v
    → (value_of k (merge_one k v s).env ≡ chosen k v s.os_env)
      × (value_of k (merge_one k v s).os_env ≡ chosen k v s.os_env)
unfolding merge_one
merge_one_self k v s h = elim (Bool-cases (bytes_eq (value_of k s.os_env) [])) [
  | inl empty ↦ rw empty (h, simp dict_laws)
  | inr given ↦ rw given (simp dict_laws, refl)
]

merge-absent :
    (order : StringMap Bytes) (s : Variables) (j : Bytes)
    → Dict.lookup j order ≡ none
    → (value_of j (merge order s).env ≡ value_of j s.env)
      × (value_of j (merge order s).os_env ≡ value_of j s.os_env)
unfolding merge Dict.lookup
merge-absent [] s j h = (refl, refl)
merge-absent ((k, v) ∷ order) s j h = elim (Bool-cases (bytes_eq k j)) [
  | inl same ↦ absurd (none-ne-some v (sym h ∙ rw same refl))
  | inr other ↦
      let (a, b) = merge_one-other k j v s other in
      let (c, d) = merge-absent order (merge_one k v s) j (rw other at h) in (c ∙ a, d ∙ b)
]

-- For each variable of `ENV`, whatever the order of the visits: the loop leaves the value of the
-- environment unless that is empty, else the default, and the environment has the same value then.
pub merge-chosen :
    (order : StringMap Bytes) (s : Variables) (j w : Bytes)
    → IsDistinct order
    → Dict.lookup j order ≡ some w
    → value_of j s.env ≡ w
    → (value_of j (merge order s).env ≡ chosen j w s.os_env)
      × (value_of j (merge order s).os_env ≡ chosen j w s.os_env)
unfolding merge Dict.lookup
merge-chosen [] s j w p h e = absurd (none-ne-some w h)
merge-chosen ((k, v) ∷ order) s j w (free, p) h e = elim (Bool-cases (bytes_eq k j)) [
  | inl same ↦
      let k≡j : k ≡ j = ground (arith, bytes_eq_iff k j) in
      let v≡w : v ≡ w = some-injective _ _ (sym (rw same refl) ∙ h) in
      let (a, b) = merge_one_self k v s (ap (λ (i : Bytes). value_of i s.env) k≡j ∙ e ∙ sym v≡w) in
      let (c, d) = merge-absent order (merge_one k v s) k free in
      subst
        (λ (i : Bytes).
          (value_of i (merge order (merge_one k v s)).env ≡ chosen i w s.os_env)
          × (value_of i (merge order (merge_one k v s)).os_env ≡ chosen i w s.os_env))
        k≡j
        (
          c ∙ a ∙ ap (λ (x : Bytes). chosen k x s.os_env) v≡w,
          d ∙ b ∙ ap (λ (x : Bytes). chosen k x s.os_env) v≡w,
        )
  | inr other ↦
      let (a, b) = merge_one-other k j v s other in
      let (c, d) = merge-chosen order (merge_one k v s) j w p (rw other at h) (a ∙ e) in
      let kept = ap (λ (x : Bytes). if bytes_eq x [] then w else x) b in (c ∙ kept, d ∙ kept)
]
