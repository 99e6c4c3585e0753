-- ===== src/Redact/Scan.antt =====
-- internal/redact/redact.go: one call of `scan` moves the decided pieces from the buffer to the
-- output, and the pieces of the whole text stay what they were.
use ironrun.Prelude.{
  ℕ, zero, suc, ◌+◌, ◌-◌, ◌<◌, ◌≡◌, refl, sym, ap, subst, ◌∙◌, inl, inr, Bool, true, false, List,
  [], ◌∷◌, ◌++◌, arith, leb, Bool-cases, ℕ-cases, length, take, drop, nil_of_length, length-drop,
  append-nil, append_assoc, Bytes,
}
use ironrun.Redact.Match.{placeholder}
use ironrun.Redact.Index.{Index}
use ironrun.Redact.Writer.{
  Output, Writer, emit, seek, hold_back, after_literals, after_placeholder, replace, round, scan,
}
use ironrun.Redact.Window.{Covers}
use ironrun.Redact.Pieces.{
  Piece, redacted, pieces, render, count_redacted, literals, resume, IsVisible, render-append,
  render-literals, count_redacted-append, count_redacted-literals, pieces-seek, pieces-seek_match,
  seek-le, seek_none,
}
use ironrun.Redact.Stream.{IsFaithful, Sent, emit-Sent, emit_lem}

-- What may still come: anything, but nothing after the last scan.
abbrev pub Allowed : Bool → Bytes → Type 0
Allowed true r = r ≡ []
Allowed false r = Unit

module _ {Sink : Type 0} ⦃o : Output Sink⦄ (ok : IsFaithful o) where
  -- From `w` to `w'` the pieces `ps` were decided, rendered and counted.
  pub record Progress (final : Bool) (w w' : Writer Sink) (ps : List Piece) : Type 0 where
    pub index_same : w'.index ≡ w.index
    pub max_out_same : w'.max_out ≡ w.max_out
    pub redactions_are : w'.redactions ≡ w.redactions + count_redacted ps
    pub sends : (sent : Bytes) → Sent ok w sent → Sent ok w' (sent ++ render ps)
    pub ahead :
        (r : Bytes)
        → Allowed final r
        → pieces w.index zero (w.buf ++ r) ≡ ps ++ pieces w.index zero (w'.buf ++ r)

  pub Progress-refl : (final : Bool) (w : Writer Sink) → Progress final w w []
  Progress-refl final w = record {
    index_same = refl;
    max_out_same = refl;
    redactions_are = omega arith;
    sends = λ sent s. rw append-nil s;
    ahead = λ r a. refl;
  }

  pub Progress-trans :
      (final : Bool) (w u v : Writer Sink) (ps qs : List Piece)
      → Progress final w u ps
      → Progress final u v qs
      → Progress final w v (ps ++ qs)
  Progress-trans final w u v ps qs p q = record {
    index_same = q.index_same ∙ p.index_same;
    max_out_same = q.max_out_same ∙ p.max_out_same;
    redactions_are = omega (arith, p.redactions_are, q.redactions_are, count_redacted-append ps qs);
    sends = λ sent s.
        subst (Sent ok v)
          (append_assoc sent (render ps) (render qs)
            ∙ ap (λ t. sent ++ t) (sym (render-append ps qs)))
          (q.sends (sent ++ render ps) (p.sends sent s));
    ahead = λ r a.
        p.ahead r a
        ∙ ap (λ t. ps ++ t)
            (subst (λ ix. pieces ix zero (u.buf ++ r) ≡ qs ++ pieces ix zero (v.buf ++ r))
              p.index_same (q.ahead r a))
        ∙ sym (append_assoc ps qs _);
  }

  -- A change of the buffer and the counter does not show in the output.
  Sent-record :
      (w : Writer Sink) (b : Bytes) (n : ℕ) (sent : Bytes)
      → Sent ok w sent
      → Sent ok (record w { buf = b; redactions = n }) sent
  Sent-record w b n sent s = record { shown = s.shown; counted = s.counted }

  after_literals_lem :
      (safe n : ℕ) (e : Writer Sink × Bool)
      → e.1 ≡ false
      → after_literals safe n e ≡ (record e.0 { buf = drop safe e.0.buf }, false, true)
  unfolding after_literals
  after_literals_lem safe n (w, false) h = refl
  after_literals_lem safe n (w, true) h = cc

  after_placeholder_lem :
      (n : ℕ) (e : Writer Sink × Bool)
      → e.1 ≡ false
      → after_placeholder n e
        ≡ (record e.0 { buf = drop n e.0.buf; redactions = e.0.redactions + 1 }, false, true)
  unfolding after_placeholder
  after_placeholder_lem n (w, false) h = refl
  after_placeholder_lem n (w, true) h = cc

  -- The state once `safe` bytes are passed on, and once a match of `n` bytes is replaced.
  passed : Writer Sink → ℕ → Writer Sink
  passed w safe = let w1 = (emit w (take safe w.buf)).0 in record w1 { buf = drop safe w1.buf }

  replaced : Writer Sink → ℕ → Writer Sink
  replaced w n =
      let w1 = (emit w placeholder).0 in
      record w1 { buf = drop n w1.buf; redactions = w1.redactions + 1 }

  round-zero : (w : Writer Sink) (safe : ℕ) → round w (safe, zero) ≡ (passed w safe, false, false)
  unfolding round replace passed
  round-zero w safe =
      rw (
        after_literals_lem safe zero (emit w (take safe w.buf)) (emit_lem ok w (take safe w.buf)).0)

  round-suc :
      (w : Writer Sink) (safe n : ℕ)
      → round w (safe, suc n) ≡ (replaced (passed w safe) (suc n), false, true)
  unfolding round replace passed replaced
  round-suc w safe n =
      rw
        (after_literals_lem safe (suc n) (emit w (take safe w.buf))
          (emit_lem ok w (take safe w.buf)).0)
        (after_placeholder_lem (suc n) (emit (passed w safe) placeholder)
          (emit_lem ok (passed w safe) placeholder).0)

  buf-passed : (w : Writer Sink) (safe : ℕ) → (passed w safe).buf ≡ drop safe w.buf
  unfolding passed
  buf-passed w safe = ap (λ t. drop safe t) (emit_lem ok w (take safe w.buf)).2

  buf-replaced : (w : Writer Sink) (n : ℕ) → (replaced w n).buf ≡ drop n w.buf
  unfolding replaced
  buf-replaced w n = ap (λ t. drop n t) (emit_lem ok w placeholder).2

  passed-Progress :
      (final : Bool) (w : Writer Sink) (safe : ℕ)
      → ((r : Bytes)
          → Allowed final r
          → pieces w.index zero (w.buf ++ r)
            ≡ literals (take safe w.buf) ++ pieces w.index zero (drop safe w.buf ++ r))
      → Progress final w (passed w safe) (literals (take safe w.buf))
  passed-Progress final w safe split = record {
    index_same = unfold passed in (emit_lem ok w (take safe w.buf)).1;
    max_out_same = unfold passed in (emit_lem ok w (take safe w.buf)).3;
    redactions_are =
        unfold passed in
        omega
          (arith, (emit_lem ok w (take safe w.buf)).4, count_redacted-literals (take safe w.buf));
    sends = λ sent s.
        unfold passed in
        subst (λ t. Sent ok (passed w safe) (sent ++ t)) (sym (render-literals (take safe w.buf)))
          (Sent-record _ _ _ _ (emit-Sent ok w (take safe w.buf) sent s));
    ahead = λ r a.
        split r a
        ∙ ap (λ t. literals (take safe w.buf) ++ pieces w.index zero (t ++ r))
            (sym (buf-passed w safe));
  }

  replaced-Progress :
      (final : Bool) (w : Writer Sink) (n : ℕ)
      → ((r : Bytes)
          → Allowed final r
          → pieces w.index zero (w.buf ++ r) ≡ redacted ∷ pieces w.index zero (drop n w.buf ++ r))
      → Progress final w (replaced w n) (redacted ∷ [])
  replaced-Progress final w n split = record {
    index_same = unfold replaced in (emit_lem ok w placeholder).1;
    max_out_same = unfold replaced in (emit_lem ok w placeholder).3;
    redactions_are = unfold replaced in omega (arith, (emit_lem ok w placeholder).4);
    sends = λ sent s. unfold replaced in Sent-record _ _ _ _ (emit-Sent ok w placeholder sent s);
    ahead = λ r a.
        split r a ∙ ap (λ t. redacted ∷ pieces w.index zero (t ++ r)) (sym (buf-replaced w n));
  }

  round_pieces : Writer Sink → ℕ × ℕ → List Piece
  round_pieces w (safe, zero) = literals (take safe w.buf)
  round_pieces w (safe, suc n) = literals (take safe w.buf) ++ redacted ∷ []

  abbrev more_after : ℕ → Bool
  more_after zero = false
  more_after (suc n) = true

  round-Progress :
      (final : Bool) (w : Writer Sink) (safe n : ℕ)
      → ((r : Bytes)
          → Allowed final r
          → pieces w.index zero (w.buf ++ r)
            ≡ literals (take safe w.buf) ++ pieces w.index zero (drop safe w.buf ++ r))
      → ((r : Bytes)
          → Allowed final r
          → pieces w.index zero (drop safe w.buf ++ r) ≡ resume w.index n (drop safe w.buf) r)
      → Progress final w (round w (safe, n)).0 (round_pieces w (safe, n))
        × ((round w (safe, n)).1 ≡ false)
        × ((round w (safe, n)).2 ≡ more_after n)
        × ((round w (safe, n)).0.buf ≡ drop n (drop safe w.buf))
  unfolding round_pieces
  round-Progress final w safe zero split match =
      rw (round-zero w safe) (passed-Progress final w safe split, refl, refl, buf-passed w safe)
  round-Progress final w safe (suc n) split match =
      let first = passed-Progress final w safe split in
      let second = replaced-Progress final (passed w safe) (suc n) (λ r a.
        subst
          (λ ix.
            pieces ix zero ((passed w safe).buf ++ r)
            ≡ redacted ∷ pieces ix zero (drop (suc n) (passed w safe).buf ++ r))
          (sym first.index_same)
          (subst
            (λ t.
              pieces w.index zero (t ++ r) ≡ redacted ∷ pieces w.index zero (drop (suc n) t ++ r))
            (sym (buf-passed w safe)) (match r a))) in
      rw (round-suc w safe n) (
        Progress-trans final w (passed w safe) _ _ _ first second,
        refl,
        refl,
        buf-replaced (passed w safe) (suc n) ∙ ap (λ t. drop (suc n) t) (buf-passed w safe),
      )

  hold-IsVisible :
      (final : Bool) (w : Writer Sink) (r : Bytes)
      → Allowed final r
      → leb (length w.buf) (hold_back final w.index) ≡ false
      → IsVisible w.index (length w.buf - hold_back final w.index) w.buf r
  unfolding hold_back
  hold-IsVisible true w r a h = inl a
  hold-IsVisible false w r a h = inr (ground arith)

  -- One round that is not stopped at once, at what `seek` finds.
  seek-Progress :
      (final : Bool) (w : Writer Sink)
      → Covers w.index.max_span w.index.secrets
      → leb (length w.buf) (hold_back final w.index) ≡ false
      → (s : ℕ × ℕ) → s ≡ seek w.index (length w.buf - hold_back final w.index) w.buf
      → Progress final w (round w s).0 (round_pieces w s)
        × ((round w s).1 ≡ false)
        × ((round w s).2 ≡ more_after s.1)
        × ((round w s).0.buf ≡ drop s.1 (drop s.0 w.buf))
  seek-Progress final w c h (safe, n) e =
      let rounds = length w.buf - hold_back final w.index in
      let e0 : safe ≡ (seek w.index rounds w.buf).0 = ap (λ (t : ℕ × ℕ). t.0) e in
      let e1 : n ≡ (seek w.index rounds w.buf).1 = ap (λ (t : ℕ × ℕ). t.1) e in
      round-Progress final w safe n
        (λ r a.
          rw e0 (pieces-seek w.index rounds w.buf r c (omega arith) (hold-IsVisible final w r a h)))
        (λ r a.
          rw (e0, e1)
            (pieces-seek_match w.index rounds w.buf r c (omega arith)
              (hold-IsVisible final w r a h)))

  -- The loop decides some pieces, returns no error, and at the end of the text leaves no byte.
  abbrev Scanned : Bool → Writer Sink → Writer Sink × Bool → Type 0
  Scanned final w e =
      (ps : List Piece) × Progress final w e.0 ps × (e.1 ≡ false) × (final ≡ true → e.0.buf ≡ [])

  scan_last :
      (fuel : ℕ) (final : Bool) (w : Writer Sink) (s : ℕ × ℕ)
      → s ≡ seek w.index (length w.buf - hold_back final w.index) w.buf
      → s.1 ≡ 0
      → (round w s).0.buf ≡ drop s.1 (drop s.0 w.buf)
      → final ≡ true
      → (round w s).0.buf ≡ []
  unfolding hold_back
  scan_last fuel true w (safe, n) e z b f =
      let e0 : safe ≡ (seek w.index (length w.buf - 0) w.buf).0 = ap (λ (t : ℕ × ℕ). t.0) e in
      let e1 : n ≡ (seek w.index (length w.buf - 0) w.buf).1 = ap (λ (t : ℕ × ℕ). t.1) e in
      nil_of_length _ (
        omega (
          arith,
          ap (λ (t : Bytes). length t) b,
          length-drop n (drop safe w.buf),
          length-drop safe w.buf,
          seek_none w.index (length w.buf - 0) w.buf (omega arith) (omega arith),
        ))
  scan_last fuel false w s e z b f = cc

  stop_empty :
      (final : Bool) (w : Writer Sink)
      → leb (length w.buf) (hold_back final w.index) ≡ true
      → final ≡ true
      → w.buf ≡ []
  unfolding hold_back
  stop_empty true w h f = nil_of_length w.buf (ground arith)
  stop_empty false w h f = cc

  -- A round with a match leaves a shorter buffer.
  round_shorter :
      (w u : Writer Sink) (rounds m : ℕ)
      → u.buf ≡ drop (seek w.index rounds w.buf).1 (drop (seek w.index rounds w.buf).0 w.buf)
      → (seek w.index rounds w.buf).1 ≡ suc m
      → length u.buf < length w.buf
  round_shorter w u rounds m b e =
      let s = seek w.index rounds w.buf in
      omega (
        arith,
        ap (λ (t : Bytes). length t) b,
        length-drop s.1 (drop s.0 w.buf),
        length-drop s.0 w.buf,
        seek-le w.index rounds w.buf,
      )

  pub scan_Progress :
      (fuel : ℕ) (final : Bool) (w : Writer Sink)
      → Covers w.index.max_span w.index.secrets
      → length w.buf < fuel
      → Scanned final w (scan fuel final w)
  unfolding scan
  scan_Progress zero final w c h = elim h [ ]
  scan_Progress (suc fuel) final w c h =
      let rounds = length w.buf - hold_back final w.index in
      let s = seek w.index rounds w.buf in
      elim (Bool-cases (leb (length w.buf) (hold_back final w.index))) [
        | inl stop ↦ rw stop ([], Progress-refl final w, refl, stop_empty final w stop)
        | inr go ↦
            let (p, not_failed, more, buf_is) = seek-Progress final w c go s refl in
            elim (ℕ-cases s.1) [
              | inl z ↦
                  let ends : (round w s).2 ≡ false = more ∙ ap more_after z in
                  rw (go, ends)
                    (round_pieces w s, p, not_failed, scan_last fuel final w s refl z buf_is)
              | inr (m, e) ↦
                  let goes_on : (round w s).2 ≡ true = more ∙ ap more_after e in
                  let u = (round w s).0 in
                  let shorter = round_shorter w u rounds m buf_is e in
                  let (qs, q, ok_rest, end) =
                    scan_Progress fuel final u
                      (subst (λ (ix : Index). Covers ix.max_span ix.secrets) (sym p.index_same) c)
                      (omega (arith, shorter)) in
                  rw (go, goes_on)
                    (round_pieces w s ++ qs, Progress-trans final w u _ _ qs p q, ok_rest, end)
            ]
      ]
