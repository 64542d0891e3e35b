-- ===== src/Prelude/Dict.antt =====
-- Go maps with string keys, as association lists. An insertion replaces the value of a key or
-- puts the key last.
use mathlib.Core.List.{List, [], ◌∷◌}
use mathlib.Core.Option
use mathlib.Core.Option.{Option, none, some}
use mathlib.Core.Path.{◌≡◌, refl, ap, ◌∙◌}
use native.Mathlib.Omega.{arith}
use acadock_monitoring.Prelude.Tests.{if◌then◌else◌}
use acadock_monitoring.Prelude.Strings.{Bytes, bytes_eq, bytes_eq_iff, bytes_eq_refl}

abbrev pub StringMap {ℓ} : Type ℓ → Type ℓ
StringMap V = List (Bytes × V)

module _ {ℓ} {V : Type ℓ} where
  -- `v, ok := m[k]`
  unfoldable pub lookup : Bytes → StringMap V → Option V
  lookup k [] = none
  lookup k ((j, v) ∷ m) = if bytes_eq j k then some v else lookup k m

  -- `m[k]`, with the zero value for a missing key
  unfoldable pub get_or : V → Bytes → StringMap V → V
  get_or z k [] = z
  get_or z k ((j, v) ∷ m) = if bytes_eq j k then v else get_or z k m

  -- `m[k] = v`
  unfoldable pub insert : Bytes → V → StringMap V → StringMap V
  insert k v [] = (k, v) ∷ []
  insert k v ((j, w) ∷ m) = if bytes_eq j k then (j, v) ∷ m else (j, w) ∷ insert k v m

  -- `delete(m, k)`
  unfoldable pub delete : Bytes → StringMap V → StringMap V
  delete k [] = []
  delete k ((j, w) ∷ m) = if bytes_eq j k then delete k m else (j, w) ∷ delete k m

  pub lookup-insert :
      (k j : Bytes) (v : V) (m : StringMap V)
      → lookup j (insert k v m) ≡ (if bytes_eq k j then some v else lookup j m)
  unfolding lookup insert
  lookup-insert k j v [] = refl
  lookup-insert k j v ((i, w) ∷ m) =
      ground (arith, bytes_eq_iff k j, bytes_eq_iff i k, bytes_eq_iff i j, lookup-insert k j v m)

  pub lookup-delete :
      (k j : Bytes) (m : StringMap V)
      → lookup j (delete k m) ≡ (if bytes_eq k j then none else lookup j m)
  unfolding lookup delete
  lookup-delete k j [] = ground arith
  lookup-delete k j ((i, w) ∷ m) =
      ground (arith, bytes_eq_iff k j, bytes_eq_iff i k, bytes_eq_iff i j, lookup-delete k j m)

  pub get_or-insert :
      (z : V) (k j : Bytes) (v : V) (m : StringMap V)
      → get_or z j (insert k v m) ≡ (if bytes_eq k j then v else get_or z j m)
  unfolding get_or insert
  get_or-insert z k j v [] = refl
  get_or-insert z k j v ((i, w) ∷ m) =
      ground (arith, bytes_eq_iff k j, bytes_eq_iff i k, bytes_eq_iff i j, get_or-insert z k j v m)

  pub get_or-delete :
      (z : V) (k j : Bytes) (m : StringMap V)
      → get_or z j (delete k m) ≡ (if bytes_eq k j then z else get_or z j m)
  unfolding get_or delete
  get_or-delete z k j [] = ground arith
  get_or-delete z k j ((i, w) ∷ m) =
      ground (arith, bytes_eq_iff k j, bytes_eq_iff i k, bytes_eq_iff i j, get_or-delete z k j m)

  pub lookup-insert_self : (k : Bytes) (v : V) (m : StringMap V) → lookup k (insert k v m) ≡ some v
  lookup-insert_self k v m = simp (lookup-insert, bytes_eq_refl)

  pub get_or-insert_self :
      (z : V) (k : Bytes) (v : V) (m : StringMap V) → get_or z k (insert k v m) ≡ v
  get_or-insert_self z k v m = simp (get_or-insert, bytes_eq_refl)

  pub lookup-delete_self : (k : Bytes) (m : StringMap V) → lookup k (delete k m) ≡ none
  lookup-delete_self k m = simp (lookup-delete, bytes_eq_refl)

  pub get_or-lookup :
      (z : V) (k : Bytes) (m : StringMap V) → get_or z k m ≡ Option.get_or (lookup k m) z
  unfolding lookup get_or
  get_or-lookup z k [] = refl
  get_or-lookup z k ((i, w) ∷ m) = ground (arith, get_or-lookup z k m)

module _ {ℓ} {V : Type ℓ} where
  -- `m[k] = v` for each pair, the first one first.
  unfoldable pub insert_all : List (Bytes × V) → StringMap V → StringMap V
  insert_all [] m = m
  insert_all ((k, v) ∷ kvs) m = insert_all kvs (insert k v m)

  -- The value of the last pair with that key, or else the one given.
  unfoldable pub last_of : Bytes → List (Bytes × V) → V → V
  last_of k [] z = z
  last_of k ((j, v) ∷ kvs) z = last_of k kvs (if bytes_eq j k then v else z)

  pub get_or-insert_all :
      (z : V) (k : Bytes) (kvs : List (Bytes × V)) (m : StringMap V)
      → get_or z k (insert_all kvs m) ≡ last_of k kvs (get_or z k m)
  unfolding insert_all last_of
  get_or-insert_all z k [] m = refl
  get_or-insert_all z k ((j, v) ∷ kvs) m =
      get_or-insert_all z k kvs (insert j v m) ∙ ap (last_of k kvs) (get_or-insert z j k v m)

  pub get_or-insert_all_nil :
      (z : V) (k : Bytes) (kvs : List (Bytes × V))
      → get_or z k (insert_all kvs []) ≡ last_of k kvs z
  unfolding get_or
  get_or-insert_all_nil z k kvs = get_or-insert_all z k kvs []

pub ruleset dict_laws = (
  lookup-insert, lookup-delete, get_or-insert, get_or-delete, lookup-insert_self,
  get_or-insert_self, lookup-delete_self, bytes_eq_refl,
)
