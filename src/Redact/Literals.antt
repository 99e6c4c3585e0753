-- ===== src/Redact/Literals.antt =====
-- internal/redact/redact.go: a run of literal pieces is a run of bytes at which nothing matched.
use ironrun.Prelude.{ℕ, zero, suc, ◌≡◌, refl, ap, subst, ◌∙◌, List, [], ◌∷◌, ◌++◌, drop, Bytes}
use ironrun.Redact.Index.{Index, match_at}
use ironrun.Redact.Pieces.{Piece, literal, redacted, pieces, literals}

-- The rest of a list of pieces is the pieces of some rest of the text.
pieces_rest :
    (ix : Index) (k : ℕ) (xs : Bytes) (ps qs : List Piece)
    → pieces ix k xs ≡ ps ++ qs
    → (j : ℕ) × (ys : Bytes) × (pieces ix j ys ≡ qs)
unfolding pieces
pieces_rest ix k xs [] qs e = (k, xs, e)
pieces_rest ix k [] (p ∷ ps) qs e = cc
pieces_rest ix (suc k) (b ∷ bs) (p ∷ ps) qs e = pieces_rest ix k bs (p ∷ ps) qs e
pieces_rest ix zero (b ∷ bs) (p ∷ ps) qs e =
    go (match_at ix (b ∷ bs)) (pieces_rest ix zero bs ps qs) (λ n. pieces_rest ix n bs ps qs) e
  where
    go :
        (n : ℕ)
        → (pieces ix zero bs ≡ ps ++ qs → (j : ℕ) × (ys : Bytes) × (pieces ix j ys ≡ qs))
        → ((m : ℕ) → pieces ix m bs ≡ ps ++ qs → (j : ℕ) × (ys : Bytes) × (pieces ix j ys ≡ qs))
        → (elim n [ zero ↦ literal b ∷ pieces ix zero bs | suc m ↦ redacted ∷ pieces ix m bs ])
          ≡ p ∷ (ps ++ qs)
        → (j : ℕ) × (ys : Bytes) × (pieces ix j ys ≡ qs)
    go zero plain hit e = plain (ap (λ t. drop 1 t) e)
    go (suc m) plain hit e = hit m (ap (λ t. drop 1 t) e)

pieces_unskip :
    (ix : Index) (k : ℕ) (xs : Bytes) (b : ℕ) (qs : List Piece)
    → pieces ix k xs ≡ literal b ∷ qs
    → (ys : Bytes) × (pieces ix zero ys ≡ literal b ∷ qs)
unfolding pieces
pieces_unskip ix zero xs b qs e = (xs, e)
pieces_unskip ix (suc k) [] b qs e = cc
pieces_unskip ix (suc k) (x ∷ xs) b qs e = pieces_unskip ix k xs b qs e

piece_byte : Piece → ℕ
piece_byte (literal b) = b
piece_byte redacted = 0

-- A literal piece stands where nothing matched.
literal_inv :
    (ix : Index) (xs : Bytes) (b : ℕ) (qs : List Piece)
    → pieces ix zero xs ≡ literal b ∷ qs
    → (bs : Bytes) × (xs ≡ b ∷ bs) × (match_at ix (b ∷ bs) ≡ 0) × (pieces ix zero bs ≡ qs)
unfolding pieces
literal_inv ix [] b qs e = cc
literal_inv ix (x ∷ xs) b qs e = go (match_at ix (x ∷ xs)) refl e
  where
    go :
        (n : ℕ)
        → match_at ix (x ∷ xs) ≡ n
        → (elim n [ zero ↦ literal x ∷ pieces ix zero xs | suc m ↦ redacted ∷ pieces ix m xs ])
          ≡ literal b ∷ qs
        → (bs : Bytes) × (x ∷ xs ≡ b ∷ bs) × (match_at ix (b ∷ bs) ≡ 0) × (pieces ix zero bs ≡ qs)
    go zero m e =
        let same : x ≡ b =
          unfold piece_byte in ap (λ t. elim t [ [] ↦ 0 | p ∷ ps ↦ piece_byte p ]) e in
        (
          xs,
          ap (λ c. c ∷ xs) same,
          subst (λ c. match_at ix (c ∷ xs) ≡ 0) same m,
          ap (λ t. drop 1 t) e,
        )
    go (suc n) m e = cc

literals_inv :
    (ix : Index) (l xs : Bytes) (qs : List Piece)
    → pieces ix zero xs ≡ literals l ++ qs
    → (rest : Bytes) × (xs ≡ l ++ rest)
literals_inv ix [] xs qs e = (xs, refl)
literals_inv ix (b ∷ l) xs qs e =
    let (bs, same, _, later) = literal_inv ix xs b (literals l ++ qs) e in
    let (rest, tail) = literals_inv ix l bs qs later in (rest, same ∙ ap (λ t. b ∷ t) tail)

-- A run of literal pieces is a run of bytes of the text, and nothing matches at its start.
pub literal_run :
    (ix : Index) (text : Bytes) (b : ℕ) (l : Bytes) (ps qs : List Piece)
    → pieces ix zero text ≡ ps ++ (literals (b ∷ l) ++ qs)
    → (rest : Bytes) × (match_at ix (b ∷ (l ++ rest)) ≡ 0)
literal_run ix text b l ps qs e =
    let (j, ys, later) = pieces_rest ix zero text ps (literals (b ∷ l) ++ qs) e in
    let (zs, here) = pieces_unskip ix j ys b (literals l ++ qs) later in
    let (bs, same, no_match, tail) = literal_inv ix zs b (literals l ++ qs) here in
    let (rest, split) = literals_inv ix l bs qs tail in
    (rest, subst (λ t. match_at ix (b ∷ t) ≡ 0) split no_match)
