-- ===== src/Net/Iface/Lookup.antt =====
-- What the search finds in a listing of links.
use acadock_monitoring.Prelude.Word.{Word, half}
use acadock_monitoring.Prelude.{
  ℕ, ◌<◌, ◌≤◌, true, false, List, [], ◌∷◌, ◌++◌, Bytes, and-eq-true, ==→eq, codes, All, ◌==◌, ok,
  ◌≡◌, ◌≢◌, refl, subst, arith, inl, inr, Bool-cases,
}
use acadock_monitoring.Text.Decimal.{IsDigit, append_digit, value, format_int, format_uint}
use acadock_monitoring.Text.Decimal.Format.{
  format_uint-IsDigit, format_uint-ne-nil, value-format_uint,
}
use acadock_monitoring.Text.Decimal.Parse.{append_digit-le-value}
use acadock_monitoring.Text.Fields.{has_prefix}
use acadock_monitoring.Text.Split.{split_on}
use acadock_monitoring.Net.Iface.{Links, find_iface, get_container_iface_id, get_container_iface}
use acadock_monitoring.Net.Iface.Listing.{
  Link, name, IsLink, tail_of, first_line, print_links, name_of_line-first_line, split-link,
}

value-ge : (x : ℕ) (w : Bytes) → x ≤ value x w
value-ge x [] = omega arith
value-ge x (c ∷ w) = omega (arith, append_digit-le-value x c w)

-- Digits that begin a number are no larger than the number.
has_prefix-le :
    (w p r : Bytes) (x : ℕ)
    → All IsDigit p
    → has_prefix (w ++ b':' ∷ r) p ≡ true
    → value x p ≤ value x w
unfolding has_prefix
has_prefix-le w [] r x ps h = value-ge x w
has_prefix-le [] (d ∷ p) r x (q, qs) h = absurd (ground arith)
has_prefix-le (c ∷ w) (d ∷ p) r x (q, qs) h =
    let (same, rest) = and-eq-true (c == d) (has_prefix (w ++ b':' ∷ r) p) h in
    subst (λ (k : ℕ). value (append_digit x k) p ≤ value (append_digit x c) w) (==→eq c d same)
      (has_prefix-le w p r (append_digit x c) qs rest)

has_prefix-append : (w r : Bytes) → has_prefix (w ++ r) w ≡ true
unfolding has_prefix
has_prefix-append [] r = refl
has_prefix-append (c ∷ w) r = ground (arith, has_prefix-append w r)

has_prefix-indented : (w r : Bytes) → w ≢ [] → All IsDigit w → has_prefix (32 ∷ r) w ≡ false
unfolding has_prefix
has_prefix-indented [] r h p = absurd (h refl)
has_prefix-indented (c ∷ w) r h (p, ps) = ground arith

-- A line that starts with the digits of a number below its index is of another link.
has_prefix-before :
    (k : Link) (n : Word)
    → IsLink k
    → n < half
    → k.index < n
    → has_prefix (first_line k) (format_uint n) ≡ false
has_prefix-before k n valid small less =
    elim (Bool-cases (has_prefix (first_line k) (format_uint n))) [
      | inr other ↦ other
      | inl begins ↦
          let over =
            has_prefix-le (format_uint k.index) (format_uint n) (32 ∷ (name k ++ tail_of k)) 0
              (format_uint-IsDigit n) begins in
          absurd (
            omega (
              arith,
              over,
              value-format_uint n (omega arith),
              value-format_uint k.index (omega (arith, valid.small)),
            ))
    ]

-- In a listing by index the link with an index is found: those before it have smaller indices.
find_iface-print_links :
    (before after : List Link) (l : Link)
    → All IsLink before
    → All (λ k. k.index < l.index) before
    → IsLink l
    → find_iface (format_uint l.index) (split_on b'\n' (print_links (before ++ l ∷ after)))
      ≡ ok (name l)
unfolding find_iface print_links
find_iface-print_links [] after l _ _ valid =
    rw
      (
        split-link l valid (print_links after),
        has_prefix-append (format_uint l.index) (b':' ∷ 32 ∷ (name l ++ tail_of l)),
      )
      (name_of_line-first_line l valid)
find_iface-print_links (k ∷ before) after l (v, vs) (less, lesser) valid =
    rw
      (
        split-link k v (print_links (before ++ l ∷ after)),
        has_prefix-before k l.index v valid.small less,
        has_prefix-indented (format_uint l.index) (codes "   " ++ k.detail)
            (format_uint-ne-nil l.index) (format_uint-IsDigit l.index),
      )
      (find_iface-print_links before after l vs lesser valid)

eq_zero : (n : ℕ) → 0 < n → (n == 0) ≡ false
eq_zero n h = ground arith

format_int-small : (n : Word) → n < half → format_int n ≡ format_uint n
unfolding format_int
format_int-small n h = ground arith

-- If the libraries give the index of a link, which is not 0, and `ip link show` lists the links by
-- ascending index and has this one, then the result is the link's name.
pub get_container_iface-print_links :
    {N H : Type 0} (links : Links N H) (id : Bytes) (namespace : N) (handle : H)
    (before after : List Link) (l : Link)
    → links.get_from_docker id ≡ ok namespace
    → links.new_handle_at namespace ≡ ok handle
    → links.link_by_name handle (codes "eth0") ≡ ok l.index
    → 0 < l.index
    → All IsLink before
    → All (λ k. k.index < l.index) before
    → IsLink l
    → get_container_iface links (ok (print_links (before ++ l ∷ after))) id ≡ ok (name l)
unfolding get_container_iface get_container_iface_id
get_container_iface-print_links links id namespace handle before after l h₁ h₂ h₃ pos valid less
      own =
    rw (h₁, h₂, h₃, eq_zero l.index pos, format_int-small l.index own.small)
      (find_iface-print_links before after l valid less own)
