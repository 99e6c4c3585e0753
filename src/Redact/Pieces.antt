-- ===== src/Redact/Pieces.antt =====
-- internal/redact/redact.go: what a `Writer` is for, as one pass over a whole text: at each
-- position the matchers decide between the byte and the placeholder.
use ironrun.Prelude.{
  ℕ, zero, suc, ◌+◌, ◌≤◌, ◌≡◌, refl, sym, ap, ◌∙◌, ◌⊎◌, inl, inr, List, [], ◌∷◌, ◌++◌, arith,
  length, take, drop, append-nil, append_assoc, Bytes, ltb, if◌then◌else◌,
}
use ironrun.Redact.Match.{placeholder}
use ironrun.Redact.Index.{Index, match_at}
use ironrun.Redact.Writer.{seek}
use ironrun.Redact.Window.{Covers, match_at-le, match_at-append}

pub data Piece : Type 0 where
  literal : ℕ → Piece
  redacted : Piece

-- The pieces of a text whose first `skip` bytes belong to a match already replaced.
unfoldable pub pieces : Index → ℕ → Bytes → List Piece
pieces ix skip [] = []
pieces ix (suc skip) (b ∷ bs) = pieces ix skip bs
pieces ix zero (b ∷ bs) = elim (match_at ix (b ∷ bs)) [
  | zero ↦ literal b ∷ pieces ix zero bs
  | suc n ↦ redacted ∷ pieces ix n bs
]

abbrev pub piece_bytes : Piece → Bytes
piece_bytes (literal b) = b ∷ []
piece_bytes redacted = placeholder

abbrev pub render : List Piece → Bytes
render [] = []
render (p ∷ ps) = piece_bytes p ++ render ps

abbrev pub count_redacted : List Piece → ℕ
count_redacted [] = 0
count_redacted (literal b ∷ ps) = count_redacted ps
count_redacted (redacted ∷ ps) = suc (count_redacted ps)

abbrev pub literals : Bytes → List Piece
literals [] = []
literals (b ∷ bs) = literal b ∷ literals bs

pub render-append : (ps qs : List Piece) → render (ps ++ qs) ≡ render ps ++ render qs
render-append [] qs = refl
render-append (p ∷ ps) qs =
    ap (λ t. piece_bytes p ++ t) (render-append ps qs)
    ∙ sym (append_assoc (piece_bytes p) (render ps) (render qs))

pub render-literals : (bs : Bytes) → render (literals bs) ≡ bs
render-literals [] = refl
render-literals (b ∷ bs) = ap (◌∷◌ b) (render-literals bs)

pub count_redacted-append :
    (ps qs : List Piece) → count_redacted (ps ++ qs) ≡ count_redacted ps + count_redacted qs
count_redacted-append [] qs = omega arith
count_redacted-append (literal b ∷ ps) qs = count_redacted-append ps qs
count_redacted-append (redacted ∷ ps) qs = omega (arith, count_redacted-append ps qs)

pub count_redacted-literals : (bs : Bytes) → count_redacted (literals bs) ≡ 0
count_redacted-literals [] = refl
count_redacted-literals (b ∷ bs) = count_redacted-literals bs

pub pieces_skip :
    (ix : Index) (k : ℕ) (xs r : Bytes)
    → k ≤ length xs
    → pieces ix k (xs ++ r) ≡ pieces ix zero (drop k xs ++ r)
unfolding pieces
pieces_skip ix zero xs r h = refl
pieces_skip ix (suc k) [] r h = elim h [ ]
pieces_skip ix (suc k) (x ∷ xs) r h = pieces_skip ix k xs r (omega arith)

-- The pieces from a position at which a match of `n` bytes was found, or the end of the scan.
abbrev pub resume : Index → ℕ → Bytes → Bytes → List Piece
resume ix zero xs r = pieces ix zero (xs ++ r)
resume ix (suc n) xs r = redacted ∷ pieces ix zero (drop (suc n) xs ++ r)

-- No byte is still to come, or all that the `rounds` positions may look at has arrived.
abbrev pub IsVisible : Index → ℕ → Bytes → Bytes → Type 0
IsVisible ix rounds buf r = (r ≡ []) ⊎ (ix.max_span + rounds ≤ suc (length buf))

match_at_visible :
    (ix : Index) (rounds b : ℕ) (bs r : Bytes)
    → Covers ix.max_span ix.secrets
    → IsVisible ix (suc rounds) (b ∷ bs) r
    → match_at ix (b ∷ (bs ++ r)) ≡ match_at ix (b ∷ bs)
match_at_visible ix rounds b bs r c (inl e) =
    ap (λ t. match_at ix (b ∷ t)) (ap (◌++◌ bs) e ∙ append-nil bs)
match_at_visible ix rounds b bs r c (inr h) = match_at-append ix b bs r c (omega arith)

IsVisible-tail :
    (ix : Index) (rounds b : ℕ) (bs r : Bytes)
    → IsVisible ix (suc rounds) (b ∷ bs) r
    → IsVisible ix rounds bs r
IsVisible-tail ix rounds b bs r (inl e) = inl e
IsVisible-tail ix rounds b bs r (inr h) = inr (omega arith)

abbrev seek_step : Index → ℕ → ℕ → Bytes → ℕ → ℕ × ℕ
seek_step ix rounds b bs n =
    let later = seek ix rounds bs in if ltb 0 n then (0, n) else (suc later.0, later.1)

pieces_step :
    (ix : Index) (b : ℕ) (bs r : Bytes) (n : ℕ)
    → n ≤ length (b ∷ bs)
    → match_at ix (b ∷ (bs ++ r)) ≡ n
    → pieces ix zero (b ∷ (bs ++ r)) ≡ elim n [
      | zero ↦ literal b ∷ pieces ix zero (bs ++ r)
      | suc m ↦ redacted ∷ pieces ix zero (drop m bs ++ r)
    ]
unfolding pieces
pieces_step ix b bs r zero h e = rw (e, pieces)
pieces_step ix b bs r (suc m) h e =
    rw (e, pieces) (ap (◌∷◌ redacted) (pieces_skip ix m bs r (omega arith)))

-- The bytes that `seek` passes over are literals of the whole pass, whatever comes later.
pub pieces-seek :
    (ix : Index) (rounds : ℕ) (buf r : Bytes)
    → Covers ix.max_span ix.secrets
    → rounds ≤ length buf
    → IsVisible ix rounds buf r
    → pieces ix zero (buf ++ r)
      ≡ literals (take (seek ix rounds buf).0 buf)
        ++ pieces ix zero (drop (seek ix rounds buf).0 buf ++ r)
unfolding seek
pieces-seek ix zero buf r c h v = refl
pieces-seek ix (suc rounds) [] r c h v = refl
pieces-seek ix (suc rounds) (b ∷ bs) r c h v =
    let seen = match_at_visible ix rounds b bs r c v in
    let step = pieces_step ix b bs r (match_at ix (b ∷ bs)) (match_at-le ix (b ∷ bs)) seen in
    ground
      (arith, step, pieces-seek ix rounds bs r c (omega arith) (IsVisible-tail ix rounds b bs r v))

-- Where it reports a match the whole pass has one, of the same bytes.
pub pieces-seek_match :
    (ix : Index) (rounds : ℕ) (buf r : Bytes)
    → Covers ix.max_span ix.secrets
    → rounds ≤ length buf
    → IsVisible ix rounds buf r
    → pieces ix zero (drop (seek ix rounds buf).0 buf ++ r)
      ≡ resume ix (seek ix rounds buf).1 (drop (seek ix rounds buf).0 buf) r
unfolding seek
pieces-seek_match ix zero buf r c h v = refl
pieces-seek_match ix (suc rounds) [] r c h v = refl
pieces-seek_match ix (suc rounds) (b ∷ bs) r c h v =
    let seen = match_at_visible ix rounds b bs r c v in
    let step = pieces_step ix b bs r (match_at ix (b ∷ bs)) (match_at-le ix (b ∷ bs)) seen in
    ground (
      arith,
      step,
      pieces-seek_match ix rounds bs r c (omega arith) (IsVisible-tail ix rounds b bs r v),
    )

-- The positions passed over, and the match, lie in the buffer.
pub seek-le :
    (ix : Index) (rounds : ℕ) (buf : Bytes)
    → (seek ix rounds buf).0 + (seek ix rounds buf).1 ≤ length buf
unfolding seek
seek-le ix zero buf = omega arith
seek-le ix (suc rounds) [] = omega arith
seek-le ix (suc rounds) (b ∷ bs) = ground (arith, match_at-le ix (b ∷ bs), seek-le ix rounds bs)

-- With no match every position was passed over.
pub seek_none :
    (ix : Index) (rounds : ℕ) (buf : Bytes)
    → rounds ≤ length buf
    → (seek ix rounds buf).1 ≡ 0
    → (seek ix rounds buf).0 ≡ rounds
unfolding seek
seek_none ix zero buf h e = refl
seek_none ix (suc rounds) [] h e = elim h [ ]
seek_none ix (suc rounds) (b ∷ bs) h e = ground (arith, seek_none ix rounds bs)
