-- ===== src/Runner/Delivered.antt =====
-- internal/runner/runner.go: what one stream of a run leaves.
use ironrun.Prelude.{
  zero, ◌≡◌, refl, inl, inr, false, List, [], ◌∷◌, ◌++◌, ltb, Bool-cases, length, Bytes, ℤ, arith,
}
use ironrun.Redact.Writer.{Output, Writer, write, flush}
use ironrun.Redact.Pieces.{pieces, render}
use ironrun.Redact.Stream.{IsReliable}
use ironrun.Redact.Refines.{joined, stream}
use ironrun.Runner.Cap.{CapWriter, cap_output, tee_put, tee_output}
use ironrun.Runner.Captured.{cut, captured}
use ironrun.Runner.Values.{secret_values}
use ironrun.Runner.Prepare.{Policy, Options}
use ironrun.Runner.Finish.{StreamEnd}
use ironrun.Runner.Run.{feed, ended, start_stream, run_stream}

module _ {Sink : Type 0} ⦃o : Output Sink⦄ (ok_sink : IsReliable o) where
  tee_put_counts :
      (s : Bytes × Sink) (d : Bytes) → ((tee_put s d).1 ≡ length d) × ((tee_put s d).2 ≡ false)
  unfolding tee_put
  tee_put_counts s d = ground (arith, ok_sink.count_put s.1 d, ok_sink.put_succeeds s.1 d)

  tee_put_appends : (s : Bytes × Sink) (d : Bytes) → (tee_put s d).0.0 ≡ s.0 ++ d
  unfolding tee_put
  tee_put_appends s d = refl

  abbrev tee-IsReliable : IsReliable (tee_output {Sink = Sink})
  tee-IsReliable = record {
    view = λ s. s.0;
    view_put = tee_put_appends;
    count_put = λ s d. (tee_put_counts s d).0;
    put_succeeds = λ s d. (tee_put_counts s d).1;
  }

  feed-stream :
      (chunks : List Bytes) (w : Writer (CapWriter (Bytes × Sink)))
      → (stream chunks w).1 ≡ false
      → flush (feed chunks w) ≡ stream chunks w
  unfolding feed stream
  feed-stream [] w h = refl
  feed-stream (c ∷ cs) w h = elim (Bool-cases (write c w).1) [
    | inl failed ↦ let e = rw failed at h in cc
    | inr fine ↦ rw fine (feed-stream cs (write c w).0 (rw fine at h))
  ]

  -- The text that one stream would leave without a cap.
  pub redacted : (Bytes → List Bytes) → Policy → Options → Sink → List Bytes → Bytes
  redacted j cmd opts sink chunks =
      render (pieces (start_stream j cmd opts sink).index zero (joined chunks))

  abbrev pub Leaves : ℤ → Bytes → StreamEnd → Type 0
  Leaves max text e =
      (e.flush_failed ≡ false)
      × (e.text ≡ cut max text)
      × (e.dropped ≡ ltb (length (cut max text)) (length text))

  pub run_stream-Leaves :
      (j : Bytes → List Bytes) (cmd : Policy) (opts : Options) (sink : Sink) (chunks : List Bytes)
      → Leaves cmd.max_bytes (redacted j cmd opts sink chunks) (run_stream j cmd opts sink chunks)
  unfolding run_stream ended redacted
  run_stream-Leaves j cmd opts sink chunks =
      let values = secret_values j opts.secrets opts.redact_values in
      let (fine, shown, dropped) =
        captured tee-IsReliable ([], sink) cmd.max_bytes values chunks refl in
      rw (feed-stream chunks (start_stream j cmd opts sink) fine) (fine, shown, dropped)
