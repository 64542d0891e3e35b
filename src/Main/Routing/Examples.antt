-- ===== src/Main/Routing/Examples.antt =====
-- A router that does what mux documents, and a client's paths in it.
use acadock_monitoring.Prelude.{
  List, [], ◌∷◌, ◌++◌, Option, none, some, Bytes, bytes_eq, bytes_eq_refl, bytes_eq→eq, codes,
  StringMap, drop, ◌==◌, if◌then◌else◌, ◌≡◌, ◌≢◌, refl, ap, ap₂, ◌∙◌, arith, inl, inr, Bool-cases,
}
use acadock_monitoring.Client.Requests.{resource_path}
use acadock_monitoring.Client.Requests.Url.{HasNoSlash}
use acadock_monitoring.Main.{
  Handler, container_mem, container_io, container_cpu, container_net, container_usage, routes,
}
use acadock_monitoring.Main.Routing.{HasNoBrace, plain-HasNoSlash, IsRouter}
use acadock_monitoring.Main.Routing.Client.{find-resource_path}

-- The first segment of a path, and what stands behind it.
cut_slash : Bytes → Bytes × Bytes
cut_slash [] = ([], [])
cut_slash (c ∷ s) =
    let (segment, rest) = cut_slash s in if c == b'/' then ([], c ∷ s) else (c ∷ segment, rest)

cut_slash-segment : (id s : Bytes) → HasNoSlash id → cut_slash (id ++ b'/' ∷ s) ≡ (id, b'/' ∷ s)
unfolding cut_slash
cut_slash-segment [] s h = refl
cut_slash-segment (c ∷ id) s (h, hs) = ground (arith, cut_slash-segment id s hs)

cut_slash-parts :
    (s : Bytes) → HasNoSlash (cut_slash s).0 × (s ≡ (cut_slash s).0 ++ (cut_slash s).1)
unfolding cut_slash
cut_slash-parts [] = (tt, refl)
cut_slash-parts (c ∷ s) = elim (Bool-cases (c == b'/')) [
  | inl slash ↦ rw slash (tt, refl)
  | inr other ↦
      let (h, e) = cut_slash-parts s in rw other (((λ q. ground arith), h), ap (λ t. c ∷ t) e)
]

match_variable : Bytes → Bytes → Option (StringMap Bytes)
unfolding cut_slash
match_variable after path =
    if bytes_eq (cut_slash path).1 after then some ((codes "id", (cut_slash path).0) ∷ []) else none

-- The pattern of a route, and a path. A variable is taken to be `id`.
match : Bytes → Bytes → Option (StringMap Bytes)
unfolding match_variable
match [] [] = some []
match [] (d ∷ path) = none
match (c ∷ p) [] = if c == b'{' then match_variable (drop 3 p) [] else none
match (c ∷ p) (d ∷ path) =
    if c == b'{'
    then match_variable (drop 3 p) (d ∷ path)
    else if c == d
    then match p path
    else none

unfoldable pub mux : List (Bytes × Handler) → Bytes → Option (Handler × StringMap Bytes)
unfolding match
mux [] path = none
mux ((p, h) ∷ rs) path = elim (match p path) [ none ↦ mux rs path | some params ↦ some (h, params) ]

match_self : (p : Bytes) → HasNoBrace p → match p p ≡ some []
unfolding match
match_self [] h = refl
match_self (c ∷ p) h = ground (arith, match_self p)

match-literal :
    (p path : Bytes) (m : StringMap Bytes) → HasNoBrace p → match p path ≡ some m → p ≡ path
unfolding match
match-literal [] [] m h e = refl
match-literal [] (d ∷ path) m h e = cc
match-literal (c ∷ p) [] m h e = ground arith
match-literal (c ∷ p) (d ∷ path) m h e = ground (arith, match-literal p path m)

module _ (after : Bytes) where
  match_variable-segment :
      (id : Bytes)
      → HasNoSlash id
      → match_variable (b'/' ∷ after) (id ++ b'/' ∷ after) ≡ some ((codes "id", id) ∷ [])
  unfolding match_variable
  match_variable-segment id h = rw (cut_slash-segment id after h, bytes_eq_refl (b'/' ∷ after))

  match_variable-only :
      (path : Bytes) (m : StringMap Bytes)
      → match_variable (b'/' ∷ after) path ≡ some m
      → (id : Bytes) × HasNoSlash id × (path ≡ id ++ b'/' ∷ after)
  unfolding match_variable
  match_variable-only path m e =
      let (h, parts) = cut_slash-parts path in
      elim (Bool-cases (bytes_eq (cut_slash path).1 (b'/' ∷ after))) [
        | inl same ↦ (
          (cut_slash path).0,
          h,
          parts ∙ ap (λ s. (cut_slash path).0 ++ s) (bytes_eq→eq _ _ same),
        )
        | inr other ↦ absurd (ground arith)
      ]

  match-variable :
      (before id : Bytes)
      → HasNoBrace before
      → HasNoSlash id
      → match (before ++ (codes "{id}" ++ b'/' ∷ after)) (before ++ (id ++ b'/' ∷ after))
        ≡ some ((codes "id", id) ∷ [])
  unfolding match
  match-variable [] [] h k = match_variable-segment [] k
  match-variable [] (c ∷ id) h k = match_variable-segment (c ∷ id) k
  match-variable (c ∷ before) id h k = ground (arith, match-variable before id)

  match-variable_only :
      (before path : Bytes) (m : StringMap Bytes)
      → HasNoBrace before
      → match (before ++ (codes "{id}" ++ b'/' ∷ after)) path ≡ some m
      → (id : Bytes) × HasNoSlash id × (path ≡ before ++ (id ++ b'/' ∷ after))
  unfolding match
  match-variable_only [] [] m h e = match_variable-only [] m e
  match-variable_only [] (d ∷ path) m h e = match_variable-only (d ∷ path) m e
  match-variable_only (c ∷ before) [] m h e = absurd (ground arith)
  match-variable_only (c ∷ before) (d ∷ path) m h e = elim (Bool-cases (c == d)) [
    | inl same ↦
        let (id, k, q) = match-variable_only before path m (ground arith) (ground arith) in
        (id, k, ap₂ (◌∷◌) (ground arith) q)
    | inr other ↦ absurd (ground arith)
  ]

mux-take :
    (p path : Bytes) (h : Handler) (rs : List (Bytes × Handler)) (m : StringMap Bytes)
    → match p path ≡ some m
    → mux ((p, h) ∷ rs) path ≡ some (h, m)
unfolding mux
mux-take p path h rs m e = rw (e, mux)

mux-skip :
    (p path : Bytes) (h : Handler) (rs : List (Bytes × Handler)) (o : Option (StringMap Bytes))
    → match p path ≡ o
    → ((m : StringMap Bytes) → o ≢ some m)
    → mux ((p, h) ∷ rs) path ≡ mux rs path
unfolding mux
mux-skip p path h rs none e free = rw (e, mux)
mux-skip p path h rs (some m) e free = absurd (free m refl)

pub mux-IsRouter : IsRouter mux
mux-IsRouter = record {
  literal = λ p h rs brace. mux-take p p h rs [] (match_self p brace);
  literal_skip = λ p path h rs brace other.
      mux-skip p path h rs _ refl (λ m e. other (match-literal p path m brace e));
  variable = λ before after id h rs brace _ segment.
      mux-take _ _ h rs _ (match-variable after before id brace (plain-HasNoSlash id segment.1));
  variable_skip = λ before after path h rs brace _ other.
      mux-skip _ path h rs _ refl
        (λ m e. let (id, k, q) = match-variable_only after before path m brace e in other id k q);
}

find-resource_path_example :
    (mux routes (resource_path (codes "c1") (codes "mem"))
      ≡ some (container_mem, (codes "id", codes "c1") ∷ []))
    × (mux routes (resource_path (codes "c1") (codes "io"))
        ≡ some (container_io, (codes "id", codes "c1") ∷ []))
    × (mux routes (resource_path (codes "c1") (codes "cpu"))
        ≡ some (container_cpu, (codes "id", codes "c1") ∷ []))
    × (mux routes (resource_path (codes "c1") (codes "net"))
        ≡ some (container_net, (codes "id", codes "c1") ∷ []))
    × (mux routes (resource_path (codes "c1") (codes "usage"))
        ≡ some (container_usage, (codes "id", codes "c1") ∷ []))
find-resource_path_example =
    find-resource_path mux-IsRouter (codes "c1") ((λ e. cc), (refl, (refl, tt)))
