-- ===== src/Redact/Escapes.antt =====
-- internal/redact/encodings.go: what the escaped and the wrapped forms of a secret stand for.
use ironrun.Prelude.{
  ℕ, zero, suc, ◌+◌, ◌-◌, ◌*◌, ◌/◌, ◌%◌, ◌≤◌, ◌<◌, ◌≡◌, refl, ap, ◌∙◌, true, false, List, [], ◌∷◌,
  ◌++◌, leb, ◌==◌, if◌then◌else◌, inl, inr, length, length-drop, length-take, take, drop,
  take-append-drop, Bool-cases, ==_iff, subst, All, Bytes, codes, join, arith,
}
use ironrun.Redact.Encodings.{
  hex_up, has_index, is_kept, percent_encode, lower_hex_digit, lower_pct_escapes, chunks,
  wrap_lines,
}

-- What a reader of percent escapes makes of a text (RFC 3986), with hex digits of either case.
unfoldable pub hex_value : ℕ → ℕ
hex_value c = if leb c b'9' then c - b'0' else if leb c b'F' then c - 55 else c - 87

unfoldable pub percent_decode : Bytes → Bytes
unfolding hex_value
percent_decode [] = []
percent_decode (c ∷ []) = c ∷ []
percent_decode (c ∷ d ∷ []) = c ∷ d ∷ []
percent_decode (c ∷ d ∷ e ∷ s) =
    let escape = percent_decode s in
    let next = percent_decode (d ∷ e ∷ s) in
    if c == b'%' then (16 * hex_value d + hex_value e) ∷ escape else c ∷ next

hex_value-lower : (c : ℕ) → hex_value (lower_hex_digit c) ≡ hex_value c
unfolding hex_value lower_hex_digit
hex_value-lower c = ground arith

percent_decode_other :
    (c : ℕ) (s : Bytes) → (c == b'%') ≡ false → percent_decode (c ∷ s) ≡ c ∷ percent_decode s
unfolding percent_decode
percent_decode_other c [] h = refl
percent_decode_other c (d ∷ []) h = refl
percent_decode_other c (d ∷ e ∷ s) h = rw h refl

percent_decode_escape :
    (c d e : ℕ) (s : Bytes)
    → (c == b'%') ≡ true
    → percent_decode (c ∷ d ∷ e ∷ s) ≡ (16 * hex_value d + hex_value e) ∷ percent_decode s
unfolding percent_decode
percent_decode_escape c d e s h = rw h refl

percent_decode_nil : percent_decode [] ≡ []
unfolding percent_decode
percent_decode_nil = refl

lower_pct_escapes_escape :
    (c d e : ℕ) (s : Bytes)
    → (c == b'%') ≡ true
    → lower_pct_escapes (c ∷ d ∷ e ∷ s)
      ≡ c ∷ lower_hex_digit d ∷ lower_hex_digit e ∷ lower_pct_escapes s
unfolding lower_pct_escapes
lower_pct_escapes_escape c d e s h = rw h refl

lower_pct_escapes_other :
    (c d e : ℕ) (s : Bytes)
    → (c == b'%') ≡ false
    → lower_pct_escapes (c ∷ d ∷ e ∷ s) ≡ c ∷ lower_pct_escapes (d ∷ e ∷ s)
unfolding lower_pct_escapes
lower_pct_escapes_other c d e s h = rw h refl

lower_pct_escapes_short :
    (c d : ℕ)
    → (lower_pct_escapes [] ≡ [])
      × (lower_pct_escapes (c ∷ []) ≡ c ∷ [])
      × (lower_pct_escapes (c ∷ d ∷ []) ≡ c ∷ d ∷ [])
unfolding lower_pct_escapes
lower_pct_escapes_short c d = (refl, refl, refl)

percent_decode-lower : (s : Bytes) → percent_decode (lower_pct_escapes s) ≡ percent_decode s
percent_decode-lower [] = ap percent_decode (lower_pct_escapes_short 0 0).0
percent_decode-lower (c ∷ []) = ap percent_decode (lower_pct_escapes_short c 0).1
percent_decode-lower (c ∷ d ∷ []) = ap percent_decode (lower_pct_escapes_short c d).2
percent_decode-lower (c ∷ d ∷ e ∷ s) = elim (Bool-cases (c == b'%')) [
  | inl h ↦
      let tail = percent_decode-lower s in
      let digits = hex_value-lower d in
      let last = hex_value-lower e in
      rw (lower_pct_escapes_escape c d e s h, percent_decode_escape c d e s h)
        (percent_decode_escape c (lower_hex_digit d) (lower_hex_digit e) (lower_pct_escapes s) h
          ∙ rw (digits, last, tail) refl)
  | inr h ↦
      let tail = percent_decode-lower (d ∷ e ∷ s) in
      rw (lower_pct_escapes_other c d e s h, percent_decode_other c (d ∷ e ∷ s) h)
        (percent_decode_other c (lower_pct_escapes (d ∷ e ∷ s)) h ∙ ap (◌∷◌ c) tail)
]

hex_value-up : (n : ℕ) → n < 16 → hex_value (hex_up n) ≡ n
unfolding hex_value hex_up
hex_value-up n h = ground arith

hex_byte : (c : ℕ) → c < 256 → 16 * hex_value (hex_up (c / 16)) + hex_value (hex_up (c % 16)) ≡ c
hex_byte c h =
    rw (hex_value-up (c / 16) (omega arith), hex_value-up (c % 16) (omega arith)) (omega arith)

-- A byte that the escaper keeps is no percent sign, when none is in `safe`.
kept-other :
    (safe : Bytes) (c : ℕ)
    → has_index safe b'%' ≡ false
    → is_kept safe c ≡ true
    → (c == b'%') ≡ false
unfolding is_kept has_index
kept-other safe c no_percent kept = elim (Bool-cases (c == b'%')) [
  | inl e ↦
      let same : c ≡ b'%' = (==_iff c b'%').0 e in
      let stays : is_kept safe b'%' ≡ true = subst (λ x. is_kept safe x ≡ true) same kept in cc
  | inr e ↦ e
]

percent_decode-encode :
    (safe s : Bytes)
    → has_index safe b'%' ≡ false
    → All (λ c. c < 256) s
    → percent_decode (percent_encode safe s) ≡ s
unfolding percent_encode
percent_decode-encode safe [] p h = percent_decode_nil
percent_decode-encode safe (c ∷ s) p h =
    let tail = percent_decode-encode safe s p h.1 in
    elim (Bool-cases (is_kept safe c)) [
      | inl kept ↦ rw kept (
          percent_decode_other c (percent_encode safe s) (kept-other safe c p kept)
          ∙ ap (◌∷◌ c) tail)
      | inr escaped ↦ rw escaped (
          percent_decode_escape b'%' (hex_up (c / 16)) (hex_up (c % 16)) (percent_encode safe s)
            refl
          ∙ (ap (λ x. x ∷ percent_decode (percent_encode safe s)) (hex_byte c h.0)
              ∙ ap (◌∷◌ c) tail))
    ]

-- Both forms that `percentEncode` gives for a text of bytes, with upper-case and with lower-case hex
-- digits, decode to the text, when the characters that it keeps are without a percent sign.
pub escapes_decode :
    (safe s : Bytes)
    → has_index safe b'%' ≡ false
    → All (λ c. c < 256) s
    → (percent_decode (percent_encode safe s) ≡ s)
      × (percent_decode (lower_pct_escapes (percent_encode safe s)) ≡ s)
escapes_decode safe s p h =
    let upper = percent_decode-encode safe s p h in
    (upper, percent_decode-lower (percent_encode safe s) ∙ upper)

-- The bytes of the pieces, one after the other.
abbrev pub concat : List Bytes → Bytes
concat [] = []
concat (p ∷ ps) = p ++ concat ps

concat-chunks :
    (rounds width : ℕ) (s : Bytes)
    → 0 < width
    → length s ≤ rounds
    → concat (chunks rounds width s) ≡ s
unfolding chunks
concat-chunks zero width [] w h = refl
concat-chunks zero width (c ∷ s) w h = absurd (omega arith)
concat-chunks (suc rounds) width [] w h = refl
concat-chunks (suc rounds) width (c ∷ s) w h =
    let left : length (drop width (c ∷ s)) ≤ rounds = omega (arith, length-drop width (c ∷ s)) in
    ap (◌++◌ (take width (c ∷ s))) (concat-chunks rounds width (drop width (c ∷ s)) w left)
    ∙ take-append-drop width (c ∷ s)

-- Lines of exactly the width, and a last one of at least one byte and at most the width.
unfoldable pub Filled : ℕ → List Bytes → Type 0
Filled width [] = ⊥
Filled width (p ∷ []) = (0 < length p) × (length p ≤ width)
Filled width (p ∷ q ∷ ps) = (length p ≡ width) × Filled width (q ∷ ps)

Filled-cons :
    (width : ℕ) (p : Bytes) (ps : List Bytes)
    → length p ≡ width
    → Filled width ps
    → Filled width (p ∷ ps)
unfolding Filled
Filled-cons width p [] full h = absurd h
Filled-cons width p (q ∷ ps) full h = (full, h)

Filled-one : (width : ℕ) (p : Bytes) → 0 < length p → length p ≤ width → Filled width (p ∷ [])
unfolding Filled
Filled-one width p given small = (given, small)

chunks-nil : (rounds width : ℕ) → chunks rounds width [] ≡ []
unfolding chunks
chunks-nil zero width = refl
chunks-nil (suc rounds) width = refl

no_bytes : (s : Bytes) → length s ≤ 0 → s ≡ []
no_bytes [] h = refl
no_bytes (c ∷ s) h = absurd (omega arith)

chunks-Filled :
    (rounds width : ℕ) (s : Bytes)
    → 0 < width
    → 0 < length s
    → length s ≤ rounds
    → Filled width (chunks rounds width s)
unfolding chunks
chunks-Filled zero width s w given h = absurd (omega arith)
chunks-Filled (suc rounds) width [] w given h = absurd (omega arith)
chunks-Filled (suc rounds) width (c ∷ s) w given h =
    let taken = length-take width (c ∷ s) in
    let left = length-drop width (c ∷ s) in
    elim (Bool-cases (leb (length (c ∷ s)) width)) [
      | inl short ↦
          let none_left : drop width (c ∷ s) ≡ [] = no_bytes (drop width (c ∷ s)) (ground arith) in
          rw (none_left, chunks-nil rounds width)
            (Filled-one width (take width (c ∷ s)) (ground arith) (ground arith))
      | inr long ↦
          Filled-cons width (take width (c ∷ s)) (chunks rounds width (drop width (c ∷ s)))
            (ground arith)
            (chunks-Filled rounds width (drop width (c ∷ s)) w (ground arith) (ground arith))
    ]

-- At a width that is not 0, a text of at most that width is not changed. A longer one becomes lines with
-- line breaks between them, all of exactly that width but the last, which is not empty and not longer;
-- the lines make up the text.
pub wrap_lines_keeps :
    (s : Bytes) (width : ℕ)
    → 0 < width
    → (length s ≤ width → wrap_lines s width ≡ s)
      × (width < length s
          → (lines : List Bytes) × (wrap_lines s width ≡ join (codes "\n") lines)
            × (concat lines ≡ s)
            × Filled width lines)
unfolding wrap_lines
wrap_lines_keeps s width w = (
  (λ short. let test : leb (length s) width ≡ true = ground arith in rw test refl),
  λ long.
      let test : leb (length s) width ≡ false = ground arith in
      rw test (
        chunks (length s) width s,
        refl,
        concat-chunks (length s) width s w (omega arith),
        chunks-Filled (length s) width s w (omega arith) (omega arith),
      ),
)
