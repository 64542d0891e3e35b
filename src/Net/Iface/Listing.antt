-- ===== src/Net/Iface/Listing.antt =====
-- The listing of `ip link show`, and what is read of its lines.
use acadock_monitoring.Prelude.Word.{Word, half}
use acadock_monitoring.Prelude.{
  ℕ, ◌<◌, Bool, true, false, List, [], ◌∷◌, ◌++◌, append-nil, Option, some, Bytes, codes, All,
  All-append, ◌==◌, if◌then◌else◌, get_elem?, Outcome, ok, ◌>>=◌, ◌≡◌, ◌≢◌, refl, ap, ◌∙◌, arith,
}
use acadock_monitoring.Text.Decimal.{IsDigit, format_uint}
use acadock_monitoring.Text.Decimal.Format.{format_uint-IsDigit}
use acadock_monitoring.Text.Scan.RoundTrip.{IsPlain}
use acadock_monitoring.Text.Split.{
  split_on, push, first_part, first_part-push, split_on-part, split_on-front, trim_space,
  trim_space-word,
}
use acadock_monitoring.Net.Iface.{part_of, name_of_line}

-- A link, as `ip link show` prints it: on a first line its index, its name, and more behind a colon or
-- behind an at sign; on a second line, which is indented, its addresses.
pub record Link : Type 0 where
  pub index : Word
  pub first : ℕ
  pub others : Bytes
  pub peer : Bool
  pub more : Bytes
  pub detail : Bytes

abbrev pub name : Link → Bytes
name l = l.first ∷ l.others

abbrev pub IsNameByte : ℕ → Type 0
IsNameByte c = IsPlain c × ((c ≢ b'@') × (c ≢ b':'))

abbrev pub IsOneLine : Bytes → Type 0
IsOneLine s = All (λ c. c ≢ b'\n') s

pub record IsLink (l : Link) : Type 0 where
  pub small : l.index < half
  pub named : All IsNameByte (name l)
  pub more_line : IsOneLine l.more
  pub detail_line : IsOneLine l.detail

abbrev pub separator : Bool → ℕ
separator peer = if peer then b'@' else b':'

-- Behind the name.
abbrev pub tail_of : Link → Bytes
tail_of l = separator l.peer ∷ l.more

abbrev pub first_line : Link → Bytes
first_line l = format_uint l.index ++ (b':' ∷ 32 ∷ (name l ++ tail_of l))

abbrev pub second_line : Link → Bytes
second_line l = codes "    " ++ l.detail

unfoldable pub print_links : List Link → Bytes
print_links [] = []
print_links (l ∷ ls) = first_line l ++ b'\n' ∷ (second_line l ++ b'\n' ∷ print_links ls)

All-map : {P Q : ℕ → Type 0} → ((c : ℕ) → P c → Q c) → (s : Bytes) → All P s → All Q s
All-map f [] _ = tt
All-map f (c ∷ s) (p, ps) = (f c p, All-map f s ps)

get_elem?-split_on :
    (sep : ℕ) (s : Bytes) → get_elem? (split_on sep s) 0 ≡ some (first_part (split_on sep s))
unfolding split_on
get_elem?-split_on sep [] = refl
get_elem?-split_on sep (c ∷ s) = go (c == sep) (split_on sep s)
  where
    go :
        (b : Bool) (parts : List Bytes)
        → get_elem? (if b then [] ∷ parts else push c parts) 0
          ≡ some (first_part (if b then [] ∷ parts else push c parts))
    go true parts = refl
    go false [] = refl
    go false (part ∷ parts) = refl

IsDigit→ne : (sep : ℕ) → (b'9' < sep) → (c : ℕ) → IsDigit c → c ≢ sep
IsDigit→ne sep h c d e = omega (arith, d, e)

tail_byte : (peer : Bool) → separator peer ≢ b'\n'
tail_byte true e = omega (arith, e)
tail_byte false e = omega (arith, e)

module _ (l : Link) (valid : IsLink l) where
  no_colon : All (λ c. c ≢ b':') (format_uint l.index)
  no_colon =
      All-map (IsDigit→ne b':' (omega arith)) (format_uint l.index) (format_uint-IsDigit l.index)

  no_at : All (λ c. c ≢ b'@') (format_uint l.index)
  no_at =
      All-map (IsDigit→ne b'@' (omega arith)) (format_uint l.index) (format_uint-IsDigit l.index)

  no_newline : All (λ c. c ≢ b'\n') (format_uint l.index)
  no_newline =
      All-map (λ c d e. omega (arith, d, e)) (format_uint l.index) (format_uint-IsDigit l.index)

  -- In front of the at sign, if any.
  front : Bytes → Bytes
  front rest = format_uint l.index ++ (b':' ∷ 32 ∷ (name l ++ rest))

  at-name : All (λ c. c ≢ b'@') (b':' ∷ 32 ∷ name l)
  at-name = (
    (λ e. omega (arith, e)),
    ((λ e. omega (arith, e)), All-map (λ c p. (p.1).0) (name l) valid.named),
  )

  colon-name : All (λ c. c ≢ b':') (32 ∷ name l)
  colon-name = ((λ e. omega (arith, e)), All-map (λ c p. (p.1).1) (name l) valid.named)

  front-split :
      (s : Bytes) → first_part (split_on b'@' (front s)) ≡ front (first_part (split_on b'@' s))
  unfolding front
  front-split s =
      split_on-front b'@' (format_uint l.index) (b':' ∷ 32 ∷ (name l ++ s)) no_at
      ∙ ap (λ (t : Bytes). format_uint l.index ++ t)
          (split_on-front b'@' (b':' ∷ 32 ∷ name l) s at-name)

  name_of_front :
      (t : Bytes)
      → first_part (split_on b':' t) ≡ []
      → (get_elem? (split_on b':' (front t)) 1 ≡ some (32 ∷ name l))
  unfolding front
  name_of_front t h =
      ap (λ (parts : List Bytes). get_elem? parts 1)
        (split_on-part b':' (format_uint l.index) (32 ∷ (name l ++ t)) no_colon)
      ∙ get_elem?-split_on b':' (32 ∷ (name l ++ t))
      ∙ ap some (
          split_on-front b':' (32 ∷ name l) t colon-name
          ∙ ap (λ (u : Bytes). 32 ∷ (name l ++ u)) h
          ∙ ap (λ (u : Bytes). 32 ∷ u) (append-nil (name l)))

  tail-split :
      (peer : Bool) (more : Bytes)
      → first_part (split_on b':' (first_part (split_on b'@' (separator peer ∷ more)))) ≡ []
  unfolding split_on
  tail-split true more = refl
  tail-split false more = rw (first_part-push b':' (split_on b'@' more)) refl

  -- The name is read back from the first line.
  pub name_of_line-first_line : name_of_line (first_line l) ≡ ok (name l)
  unfolding name_of_line part_of front
  name_of_line-first_line =
      let rest : Bytes = first_part (split_on b'@' (tail_of l)) in
      let second : Option Bytes → Outcome Bytes =
        λ o. part_of o >>= (λ name. ok (trim_space name)) in
      ap (λ (o : Option Bytes). part_of o >>= (λ line. second (get_elem? (split_on b':' line) 1)))
        (get_elem?-split_on b'@' (front (tail_of l)) ∙ ap some (front-split (tail_of l)))
      ∙ ap second (name_of_front rest (tail-split l.peer l.more))
      ∙ ap ok (trim_space-word l.first l.others (All-map (λ c p. p.0) (name l) valid.named))

  first_line-IsOneLine : IsOneLine (first_line l)
  first_line-IsOneLine =
      All-append (λ c. c ≢ b'\n') (format_uint l.index) _ no_newline
        (
          (λ e. omega (arith, e)),
          (
            (λ e. omega (arith, e)),
            All-append (λ c. c ≢ b'\n') (name l) (tail_of l)
                (All-map (λ c p e. omega (arith, p.0, e)) (name l) valid.named)
                (tail_byte l.peer, valid.more_line),
          ),
        )

  second_line-IsOneLine : IsOneLine (second_line l)
  second_line-IsOneLine = (
    (λ e. omega (arith, e)),
    (
      (λ e. omega (arith, e)),
      ((λ e. omega (arith, e)), ((λ e. omega (arith, e)), valid.detail_line)),
    ),
  )

  -- The lines of a listing.
  pub split-link :
      (rest : Bytes)
      → split_on b'\n' (first_line l ++ b'\n' ∷ (second_line l ++ b'\n' ∷ rest))
        ≡ first_line l ∷ second_line l ∷ split_on b'\n' rest
  split-link rest =
      split_on-part b'\n' (first_line l) (second_line l ++ b'\n' ∷ rest) first_line-IsOneLine
      ∙ ap (λ (lines : List Bytes). first_line l ∷ lines)
          (split_on-part b'\n' (second_line l) rest second_line-IsOneLine)
