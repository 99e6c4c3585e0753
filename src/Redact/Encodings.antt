-- ===== src/Redact/Encodings.antt =====
-- internal/redact/encodings.go: the escapers and the line wrapper that make further forms of a
-- secret. Bytes are below 256.
use ironrun.Prelude.{
  ℕ, zero, suc, ◌+◌, ◌-◌, ◌/◌, ◌%◌, Bool, false, ◌&&◌, ◌||◌, List, [], ◌∷◌, ◌++◌, leb, ltb, ◌==◌,
  if◌then◌else◌, length, take, drop, Bytes, codes, join,
}

-- `"0123456789ABCDEF"[n]`
unfoldable pub hex_up : ℕ → ℕ
hex_up n = if ltb n 10 then b'0' + n else b'A' + (n - 10)

unfoldable pub has_index : Bytes → ℕ → Bool
has_index [] c = false
has_index (s ∷ safe) c = s == c || has_index safe c

-- The bytes that `percentEncode` keeps.
unfoldable pub is_kept : Bytes → ℕ → Bool
unfolding has_index
is_kept safe c =
    (leb b'a' c && leb c b'z')
    || (leb b'A' c && leb c b'Z')
    || (leb b'0' c && leb c b'9')
    || has_index (codes "-_.~" ++ safe) c

unfoldable pub percent_encode : Bytes → Bytes → Bytes
unfolding is_kept hex_up
percent_encode safe [] = []
percent_encode safe (c ∷ s) =
    let rest = percent_encode safe s in
    if is_kept safe c then c ∷ rest else b'%' ∷ hex_up (c / 16) ∷ hex_up (c % 16) ∷ rest

unfoldable pub lower_hex_digit : ℕ → ℕ
lower_hex_digit c = if leb b'A' c && leb c b'F' then c + 32 else c

unfoldable pub lower_pct_escapes : Bytes → Bytes
unfolding lower_hex_digit
lower_pct_escapes [] = []
lower_pct_escapes (c ∷ []) = c ∷ []
lower_pct_escapes (c ∷ d ∷ []) = c ∷ d ∷ []
lower_pct_escapes (c ∷ d ∷ e ∷ s) =
    let escape = lower_pct_escapes s in
    let next = lower_pct_escapes (d ∷ e ∷ s) in
    if c == b'%' then c ∷ lower_hex_digit d ∷ lower_hex_digit e ∷ escape else c ∷ next

-- The pieces of `width` bytes; the length of the text is enough rounds for a width that is not 0.
unfoldable pub chunks : ℕ → ℕ → Bytes → List Bytes
chunks zero width s = []
chunks (suc rounds) width [] = []
chunks (suc rounds) width (c ∷ s) = take width (c ∷ s) ∷ chunks rounds width (drop width (c ∷ s))

unfoldable pub wrap_lines : Bytes → ℕ → Bytes
unfolding chunks
wrap_lines s width =
    if leb (length s) width then s else join (codes "\n") (chunks (length s) width s)
