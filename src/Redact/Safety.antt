-- ===== src/Redact/Safety.antt =====
-- internal/redact/redact.go: what cannot be left in the literal pieces of a text.
use ironrun.Prelude.{
  ℕ, zero, ◌+◌, ◌*◌, ◌≤◌, ◌≡◌, ◌≢◌, sym, ap, ◌∙◌, inl, inr, true, false, List, [], ◌∷◌, ◌++◌, arith,
  ltb, Bool-cases, length, take, drop, Bytes, In, All-In,
}
use ironrun.Redact.Match.{is_flex_gap, flex_span_cap, proj}
use ironrun.Redact.Index.{Index, is_long}
use ironrun.Redact.Writer.{new, non_empty}
use ironrun.Redact.Pieces.{Piece, pieces, literals}
use ironrun.Redact.Reindex.{IsNonEmpty, secrets-reindex, sort_longest-In}
use ironrun.Redact.Refines.{new-IsIndexed}
use ironrun.Redact.Literals.{literal_run}
use ironrun.Redact.Tiers.{match_at_secret, match_at_gapped, match_at_fragment}

non_empty-In : (s : Bytes) (ss : List Bytes) → IsNonEmpty s → In s ss → In s (non_empty ss)
unfolding non_empty
non_empty-In s [] h m = m
non_empty-In s (t ∷ ss) h m = elim (Bool-cases (ltb 0 (length t))) [
  | inl kept ↦ rw kept (elim m [ inl e ↦ inl e | inr n ↦ inr (non_empty-In s ss h n) ])
  | inr dropped ↦ rw dropped (elim m [
    | inl e ↦ absurd (ground (arith, ap (λ (u : Bytes). length u) e))
    | inr n ↦ non_empty-In s ss h n
  ])
]

length-proj-le : (s : Bytes) → length (proj s) ≤ length s
unfolding proj
length-proj-le [] = omega arith
length-proj-le (c ∷ s) = ground (arith, length-proj-le s)

module _ {Sink : Type 0} (out : Sink) (secrets : List Bytes) (cap : ℕ) where
  abbrev index : Index
  index = (new out secrets cap).index

  registered : (s : Bytes) → IsNonEmpty s → In s secrets → In s index.secrets
  unfolding new
  registered s h m =
      rw secrets-reindex (sort_longest-In s (non_empty secrets) (non_empty-In s secrets h m))

  -- The literal pieces of a text never spell a registered secret that is not empty.
  pub no_secret_survives :
      (text s : Bytes) (ps qs : List Piece)
      → In s secrets
      → IsNonEmpty s
      → pieces index zero text ≢ ps ++ (literals s ++ qs)
  no_secret_survives text [] ps qs m h = elim h [ ]
  no_secret_survives text (b ∷ s) ps qs m h = λ e.
      let (rest, nothing) = literal_run index text b s ps qs e in
      let found =
        match_at_secret index (b ∷ s) rest (new-IsIndexed out secrets cap) (registered (b ∷ s) h m)
          h in
      absurd (omega arith)

  -- Nor do they spell one with other whitespace and control bytes between its bytes: no run of
  -- literals that starts with a byte that is no gap, is at most `2n + 32` bytes long for a secret of
  -- `n` bytes, and has the secret's bytes when the gaps in both are left out.
  pub no_gapped_secret_survives :
      (text s : Bytes) (b : ℕ) (l : Bytes) (ps qs : List Piece)
      → In s secrets
      → is_flex_gap b ≡ false
      → proj (b ∷ l) ≡ proj s
      → length (b ∷ l) ≤ 2 * length s + 32
      → pieces index zero text ≢ ps ++ (literals (b ∷ l) ++ qs)
  no_gapped_secret_survives text s b l ps qs m real same fits = λ e.
      let (rest, nothing) = literal_run index text b l ps qs e in
      let v = new-IsIndexed out secrets cap in
      let start : proj (b ∷ l) ≡ b ∷ proj l = unfold proj in rw real in
      let m' =
        registered s
          (omega (arith, length-proj-le s, ap (λ (t : Bytes). length t) (sym start ∙ same))) m in
      let span = All-In _ index.secrets s v.covers m' in
      let found =
        match_at_gapped index s b l rest v m' real same (unfold flex_span_cap in omega arith) in
      absurd (omega arith)

  -- Nor do they spell 12 bytes in a row of a secret of 24 to 65,536 bytes that are no gaps, with
  -- any gaps between them, in a run of at most `2n + 32` bytes, where n is the length of the secret. A gap
  -- is white space or a control byte.
  pub no_fragment_survives :
      (text s : Bytes) (off b : ℕ) (l : Bytes) (ps qs : List Piece)
      → In s secrets
      → 24 ≤ length (proj s)
      → length (proj s) ≤ 65536
      → off + 12 ≤ length (proj s)
      → is_flex_gap b ≡ false
      → proj (b ∷ l) ≡ take 12 (drop off (proj s))
      → length (b ∷ l) ≤ 2 * length s + 32
      → pieces index zero text ≢ ps ++ (literals (b ∷ l) ++ qs)
  no_fragment_survives text s off b l ps qs m lo hi inside real same fits = λ e.
      let (rest, nothing) = literal_run index text b l ps qs e in
      let v = new-IsIndexed out secrets cap in
      let m' = registered s (omega (arith, length-proj-le s)) m in
      let span = All-In _ index.secrets s v.covers m' in
      let long : is_long (proj s) ≡ true = unfold is_long in ground arith in
      let found =
        match_at_fragment index s off b l rest v m' long inside real same
          (unfold flex_span_cap in omega arith) in
      absurd (omega arith)
