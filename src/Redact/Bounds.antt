-- ===== src/Redact/Bounds.antt =====
-- internal/redact/redact.go: the output cap, with an underlying writer that may fail or take less
-- than it is given.
use ironrun.Prelude.{
  ℕ, zero, suc, ◌-◌, ◌≤◌, ◌<◌, ◌≡◌, inl, inr, Bool, true, false, [], ◌∷◌, arith, leb, Bool-cases,
  length, take, length-take, Bytes,
}
use ironrun.Redact.Match.{placeholder}
use ironrun.Redact.Writer.{
  Output, Writer, put_counted, emit, seek, hold_back, after_literals, after_placeholder, replace,
  round, scan, write, flush,
}

-- `io.Writer` promises `0 <= n <= len(p)`.
pub record IsCounting {Sink : Type 0} (o : Output Sink) : Type 0 where
  pub count_le : (s : Sink) (d : Bytes) → (o.put s d).1 ≤ length d

module _ {Sink : Type 0} ⦃o : Output Sink⦄ (counts : IsCounting o) where
  -- Under a cap, no more than the cap is written.
  abbrev pub IsCapped : ℕ → Writer Sink → Type 0
  IsCapped cap w = (w.max_out ≡ cap) × (w.written ≤ cap)

  emit-IsCapped :
      (cap : ℕ) (w : Writer Sink) (d : Bytes) → 0 < cap → IsCapped cap w → IsCapped cap (emit w d).0
  unfolding emit put_counted
  emit-IsCapped cap w [] h c = c
  emit-IsCapped cap w (b ∷ bs) h c = ground (
    arith,
    counts.count_le w.out (b ∷ bs),
    counts.count_le w.out (take (w.max_out - w.written) (b ∷ bs)),
    length-take (w.max_out - w.written) (b ∷ bs),
  )

  after_literals-IsCapped :
      (cap safe n : ℕ) (e : Writer Sink × Bool)
      → IsCapped cap e.0
      → IsCapped cap (after_literals safe n e).0
  unfolding after_literals
  after_literals-IsCapped cap safe n (w, false) c = c
  after_literals-IsCapped cap safe n (w, true) c = c

  after_placeholder-IsCapped :
      (cap n : ℕ) (e : Writer Sink × Bool)
      → IsCapped cap e.0
      → IsCapped cap (after_placeholder n e).0
  unfolding after_placeholder
  after_placeholder-IsCapped cap n (w, false) c = c
  after_placeholder-IsCapped cap n (w, true) c = c

  replace-IsCapped :
      (cap n : ℕ) (e : Writer Sink × Bool × Bool)
      → 0 < cap
      → IsCapped cap e.0
      → IsCapped cap (replace n e).0
  unfolding replace
  replace-IsCapped cap n (w, failed, false) h c = c
  replace-IsCapped cap zero (w, failed, true) h c = c
  replace-IsCapped cap (suc n) (w, failed, true) h c =
      after_placeholder-IsCapped cap (suc n) (emit w placeholder)
        (emit-IsCapped cap w placeholder h c)

  round-IsCapped :
      (cap : ℕ) (w : Writer Sink) (s : ℕ × ℕ)
      → 0 < cap
      → IsCapped cap w
      → IsCapped cap (round w s).0
  unfolding round
  round-IsCapped cap w (safe, n) h c =
      let sent = emit w (take safe w.buf) in
      replace-IsCapped cap n (after_literals safe n sent) h
        (after_literals-IsCapped cap safe n sent (emit-IsCapped cap w (take safe w.buf) h c))

  scan-IsCapped :
      (cap fuel : ℕ) (final : Bool) (w : Writer Sink)
      → 0 < cap
      → IsCapped cap w
      → IsCapped cap (scan fuel final w).0
  unfolding scan
  scan-IsCapped cap zero final w h c = c
  scan-IsCapped cap (suc fuel) final w h c =
      let s = seek w.index (length w.buf - hold_back final w.index) w.buf in
      let once = round-IsCapped cap w s h c in
      let again = scan-IsCapped cap fuel final (round w s).0 h once in
      elim (Bool-cases (leb (length w.buf) (hold_back final w.index))) [
        | inl stop ↦ rw stop c
        | inr go ↦ elim (Bool-cases (round w s).2) [
          | inl more ↦ rw (go, more) again
          | inr done ↦ rw (go, done) once
        ]
      ]

  -- With a positive cap, `Write` keeps `written` within it, also when the underlying writer fails
  -- or takes less than it is given.
  pub write-IsCapped :
      (cap : ℕ) (p : Bytes) (w : Writer Sink)
      → 0 < cap
      → IsCapped cap w
      → IsCapped cap (write p w).0
  unfolding write
  write-IsCapped cap [] w h c = c
  write-IsCapped cap (b ∷ bs) w h c = scan-IsCapped cap _ false _ h c

  -- `Flush` keeps `written` within a positive cap, under the same conditions.
  flush-IsCapped : (cap : ℕ) (w : Writer Sink) → 0 < cap → IsCapped cap w → IsCapped cap (flush w).0
  unfolding flush
  flush-IsCapped cap w h c = scan-IsCapped cap _ true w h c
