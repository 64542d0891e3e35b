-- ===== src/Text/Fields.antt =====
-- `strings.HasPrefix`, `TrimSuffix`, `Fields` and `ToLower`, and the white space of `unicode.IsSpace`.
use acadock_monitoring.Prelude.{
  ℕ, zero, suc, ◌+◌, ◌-◌, Bool, true, false, ◌&&◌, ◌||◌, List, [], ◌∷◌, ◌++◌, Bytes, codes, ltb,
  leb, ◌==◌, if◌then◌else◌, ◌≡◌, refl, ap, ◌<◌, arith,
}

unfoldable pub has_prefix : Bytes → Bytes → Bool
has_prefix s [] = true
has_prefix [] (p ∷ ps) = false
has_prefix (c ∷ s) (p ∷ ps) = (c == p) && has_prefix s ps

-- `strings.TrimSuffix(s, suffix)` for a suffix of one byte.
unfoldable pub trim_suffix : Bytes → ℕ → Bytes
trim_suffix [] b = []
trim_suffix (c ∷ []) b = if c == b then [] else c ∷ []
trim_suffix (c ∷ d ∷ s) b = c ∷ trim_suffix (d ∷ s) b

pub trim_suffix-append : (s : Bytes) (b : ℕ) → trim_suffix (s ++ b ∷ []) b ≡ s
unfolding trim_suffix
trim_suffix-append [] b = ground arith
trim_suffix-append (c ∷ []) b = ap (λ (t : Bytes). c ∷ t) (trim_suffix-append [] b)
trim_suffix-append (c ∷ d ∷ s) b = ap (λ (t : Bytes). c ∷ t) (trim_suffix-append (d ∷ s) b)

abbrev pub byte_at : ℕ → Bytes → ℕ
byte_at i [] = 0
byte_at zero (c ∷ s) = c
byte_at (suc i) (c ∷ s) = byte_at i s

abbrev ascii_space : ℕ → Bool
ascii_space c = (leb 9 c && leb c 13) || (c == 32)

-- The white space beyond ASCII, in UTF-8: the length of the rune, or 0.
unfoldable pub wide_space : ℕ → ℕ → ℕ → ℕ
wide_space c d e =
    if (c == 0xc2) && ((d == 0x85) || (d == 0xa0))
    then 2
    else if (c == 0xe1) && (d == 0x9a) && (e == 0x80)
    then 3
    else if (c == 0xe2)
        && (d == 0x80)
        && ((leb 0x80 e && leb e 0x8a) || (e == 0xa8) || (e == 0xa9) || (e == 0xaf))
    then 3
    else if (c == 0xe2) && (d == 0x81) && (e == 0x9f)
    then 3
    else if (c == 0xe3) && (d == 0x80) && (e == 0x80)
    then 3
    else 0

-- How many bytes of white space the text begins with: one rune, or none.
unfoldable pub space_width : Bytes → ℕ
space_width [] = 0
space_width (c ∷ s) = if ascii_space c then 1 else wide_space c (byte_at 0 s) (byte_at 1 s)

pub wide_space-ascii : (c d e : ℕ) → c < 128 → wide_space c d e ≡ 0
unfolding wide_space
wide_space-ascii c d e h = ground arith

-- A text whose bytes are marked: does the byte belong to white space?
abbrev pub Marked : Type 0
Marked = List (ℕ × Bool)

-- The first argument counts the bytes of the current space that are still to come.
unfoldable pub mark : ℕ → Bytes → Marked
mark k [] = []
mark (suc k) (c ∷ s) = (c, true) ∷ mark k s
mark zero (c ∷ s) = (c, ltb 0 (space_width (c ∷ s))) ∷ mark (space_width (c ∷ s) - 1) s

abbrev pub flush : Bytes → List Bytes → List Bytes
flush [] words = words
flush (c ∷ s) words = (c ∷ s) ∷ words

-- The words of a marked text, the current one so far given.
words : Bytes → Marked → List Bytes
words word [] = flush word []
words word ((c, true) ∷ s) = flush word (words [] s)
words word ((c, false) ∷ s) = words (word ++ c ∷ []) s

unfoldable pub fields : Bytes → List Bytes
unfolding words mark space_width wide_space
fields s = words [] (mark 0 s)

-- `strings.ToLower`, as far as a comparison with an ASCII text can tell: beside the ASCII capitals
-- only U+0130 and U+212A have an ASCII letter for their lower case.
unfoldable pub to_lower : Bytes → Bytes
to_lower [] = []
to_lower (c ∷ []) = (if leb b'A' c && leb c b'Z' then c + 32 else c) ∷ []
to_lower (c ∷ d ∷ []) =
    if (c == 0xc4) && (d == 0xb0)
    then b'i' ∷ []
    else (if leb b'A' c && leb c b'Z' then c + 32 else c) ∷ to_lower (d ∷ [])
to_lower (c ∷ d ∷ e ∷ s) =
    let wide = to_lower s in
    let pair = to_lower (e ∷ s) in
    let rest = to_lower (d ∷ e ∷ s) in
    if (c == 0xc4) && (d == 0xb0)
    then b'i' ∷ pair
    else if (c == 0xe2) && (d == 0x84) && (e == 0xaa)
    then b'k' ∷ wide
    else (if leb b'A' c && leb c b'Z' then c + 32 else c) ∷ rest

meminfo_fields :
    fields (codes "MemTotal:       15996348 kB\n")
    ≡ codes "MemTotal:" ∷ codes "15996348" ∷ codes "kB" ∷ []
unfolding fields
meminfo_fields = refl

lower_read : (to_lower (codes "Read") ≡ codes "read") × (to_lower (codes "WRITE") ≡ codes "write")
unfolding to_lower
lower_read = (refl, refl)
