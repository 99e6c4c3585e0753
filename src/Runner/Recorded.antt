-- ===== src/Runner/Recorded.antt =====
-- internal/runner/runner.go: what `Run` returns and records.
use ironrun.Prelude.{
  ℕ, ◌≡◌, ◌↔◌, refl, sym, ap, ◌∙◌, ◌⊎◌, inl, inr, Bool, true, false, ◌&&◌, ◌||◌, List, Option, none,
  some, Bool-cases, Try-cases, Bytes, ℤ, ok, arith,
}
use ironrun.Policy.Document.{effective_no_network}
use ironrun.Redact.Writer.{Output}
use ironrun.Redact.Stream.{IsReliable}
use ironrun.Runner.Cap.{cap_output, tee_output}
use ironrun.Runner.Captured.{cut}
use ironrun.Runner.Shim.{Command}
use ironrun.Runner.Prepare.{Policy, RunError, Host, Options, Sealing, prepare}
use ironrun.Runner.Finish.{
  Context, live, deadline_exceeded, canceled, Failure, wait_delay, exited, not_permitted,
  other_failure, cleanup_failed_of, Ending, Measured, StreamEnd, Result, is_linux, ending_of,
  ending_live, corrected, is_code, exit_filter_refused, exit_seal_refused, final,
}
use ironrun.Runner.Filtered.{Filtered, prepared-Filtered}
use ironrun.Runner.Delivered.{redacted, run_stream-Leaves}
use ironrun.Runner.Run.{Process, Log, run_stream, finish, run_prepared, run}

-- A live run ends with an exit code, or without a failure at all.
unfoldable pub Completed : Process → Type 0
Completed p =
    (p.failure ≡ none)
    ⊎ ((p.context ≡ live)
        × (((state : Option (ℤ × Option ℕ)) × (p.failure ≡ some (wait_delay state)))
            ⊎ ((code : ℤ) × (signal : Option ℕ) × (p.failure ≡ some (exited code signal)))))

pub ending_iff :
    (context : Context) (namespaced : Bool) (f : Option Failure)
    → ((ending_of context namespaced f).failure ≡ none) ↔ (
        (f ≡ none)
        ⊎ ((context ≡ live)
            × (((state : Option (ℤ × Option ℕ)) × (f ≡ some (wait_delay state)))
                ⊎ ((code : ℤ) × (signal : Option ℕ) × (f ≡ some (exited code signal))))))
unfolding ending_of ending_live
ending_iff context namespaced none = (λ h. inl refl, λ h. refl)
ending_iff live namespaced (some (wait_delay state)) =
    (λ h. inr (refl, inl (state, refl)), λ h. refl)
ending_iff live namespaced (some (exited code signal)) =
    (λ h. inr (refl, inr (code, signal, refl)), λ h. refl)
ending_iff live true (some not_permitted) = (λ h. cc, λ h. ground arith)
ending_iff live false (some not_permitted) = (λ h. cc, λ h. ground arith)
ending_iff live namespaced (some other_failure) = (λ h. cc, λ h. ground arith)
ending_iff deadline_exceeded namespaced (some f) = (λ h. cc, λ h. ground arith)
ending_iff canceled namespaced (some f) = (λ h. cc, λ h. ground arith)

-- The result that the last checks give.
final_iff :
    (at : Measured) (e : Ending) (s : Sealing) (out errs : StreamEnd) (failure : Option RunError)
    → out.flush_failed ≡ false
    → errs.flush_failed ≡ false
    → ((r : Result) × (final at e s out errs failure ≡ ok r))
      ↔ ((failure ≡ none) × (cleanup_failed_of at.cleanup ≡ false))
unfolding final
final_iff at e s out errs (some why) f g = (λ h. cc, λ h. cc)
final_iff at e s out errs none f g = elim (Bool-cases (cleanup_failed_of at.cleanup)) [
  | inl failed ↦ rw (f, g, failed) ((λ h. cc), λ h. cc)
  | inr clean ↦ rw (f, g, clean) ((λ h. (refl, refl)), λ h. (_, refl))
]

-- What a result takes from the streams and the ending.
pub record Reports (e : Ending) (s : Sealing) (out errs : StreamEnd) (r : Result) : Type 0 where
  pub exit_code_is : r.exit_code ≡ e.exit_code
  pub stdout_is : r.stdout ≡ out.text
  pub stderr_is : r.stderr ≡ errs.text
  pub truncated_is : r.truncated ≡ (out.dropped || errs.dropped)
  pub installed_is : r.seccomp_installed ≡ s.installed

pub final-Reports :
    (at : Measured) (e : Ending) (s : Sealing) (out errs : StreamEnd) (failure : Option RunError)
    (r : Result)
    → final at e s out errs failure ≡ ok r
    → Reports e s out errs r
unfolding final
final-Reports at e s out errs (some why) r h = cc
final-Reports at e s out errs none r h = elim (Bool-cases (out.flush_failed || errs.flush_failed)) [
  | inl failed ↦ let h' = rw failed at h in cc
  | inr fine ↦ elim (Bool-cases (cleanup_failed_of at.cleanup)) [
    | inl failed ↦ let h' = rw (fine, failed) at h in cc
    | inr clean ↦
        let h' = rw (fine, clean) at h in
        record {
          exit_code_is = cc;
          stdout_is = cc;
          stderr_is = cc;
          truncated_is = cc;
          installed_is = cc;
        }
  ]
]

-- The filter is said to be installed only when it was asked for of the shim that wrapped the run, and
-- the shim did not end with one of its own codes.
corrected_lem :
    (e : Ending) (s : Sealing)
    → (corrected e s).installed ≡ true
    → (s.installed ≡ true)
      × (e.start_failed ≡ false)
      × (s.shim_armed ≡ true
          → (is_code e.exit_code exit_filter_refused ≡ false)
            × (is_code e.exit_code exit_seal_refused ≡ false))
unfolding corrected
corrected_lem e s h = ground arith

module _ {Sink : Type 0} ⦃o : Output Sink⦄ (ok_sink : IsReliable o) (j : Bytes → List Bytes) where
  -- What a result says of the child that ran.
  pub record Faithful (host : Host) (opts : Options) (cmd : Policy) (argv : List Bytes)
      (child : Command → Process) (out errs : Sink) (r : Result) (c : Command) (s : Sealing)
      : Type 0 where
    pub prepared : prepare host opts cmd argv ≡ ok (c, s)
    pub completed : Completed (child c)
    pub cleaned : cleanup_failed_of (child c).measured.cleanup ≡ false
    pub stdout_is :
        r.stdout ≡ cut cmd.max_bytes (redacted ok_sink j cmd opts out (child c).out_chunks)
    pub stderr_is :
        r.stderr ≡ cut cmd.max_bytes (redacted ok_sink j cmd opts errs (child c).err_chunks)
    pub filter_when :
        r.seccomp_installed ≡ true
        → Filtered host opts c s
          × (is_code r.exit_code exit_filter_refused ≡ false)
          × (is_code r.exit_code exit_seal_refused ≡ false)

  finished-Faithful :
      (log : Log) (host : Host) (opts : Options) (cmd : Policy) (argv : List Bytes)
      (child : Command → Process) (out errs : Sink) (r : Result) (c : Command) (s : Sealing)
      → prepare host opts cmd argv ≡ ok (c, s)
      → (run_prepared j log host opts cmd child out errs (ok (c, s))).0 ≡ ok r
      → Faithful host opts cmd argv child out errs r c s
  unfolding run_prepared finish
  finished-Faithful log host opts cmd argv child out errs r c s prepared h =
      let p = child c in
      let (out_fine, out_text, out_dropped) =
        run_stream-Leaves ok_sink j cmd opts out p.out_chunks in
      let (err_fine, err_text, err_dropped) =
        run_stream-Leaves ok_sink j cmd opts errs p.err_chunks in
      let e = ending_of p.context (effective_no_network cmd && is_linux host.platform) p.failure in
      let (no_failure, cleaned) =
        (final_iff p.measured e (corrected e s) (run_stream j cmd opts out p.out_chunks)
            (run_stream j cmd opts errs p.err_chunks) e.failure out_fine err_fine).0
          (r, h) in
      let report =
        final-Reports p.measured e (corrected e s) (run_stream j cmd opts out p.out_chunks)
          (run_stream j cmd opts errs p.err_chunks) e.failure r h in
      record {
        prepared = prepared;
        completed = unfold Completed in (ending_iff p.context _ p.failure).0 no_failure;
        cleaned = cleaned;
        stdout_is = report.stdout_is ∙ out_text;
        stderr_is = report.stderr_is ∙ err_text;
        filter_when = λ i.
            let (installed, _, apart) = corrected_lem e s (sym report.installed_is ∙ i) in
            let filtered = prepared-Filtered host opts cmd argv c s prepared installed in
            let (no_filter_code, no_seal_code) = apart filtered.shim_is_armed in
            (
              filtered,
              ap (λ n. is_code n exit_filter_refused) report.exit_code_is ∙ no_filter_code,
              ap (λ n. is_code n exit_seal_refused) report.exit_code_is ∙ no_seal_code,
            );
      }

  -- When `Run` returns a result, over outputs that append, count and do not fail: the child was
  -- prepared, it ended with an exit code and the cleanup did not fail; the two texts of the result are
  -- the first `max_bytes` bytes of what one pass of the redactor makes of all that the child wrote, all
  -- of it when `max_bytes` is not positive; and the filter is reported only if it was asked for, the
  -- command was wrapped on Linux by a shim that is armed for it, and the exit code is none of the shim's two refusals.
  pub run-Faithful :
      (log : Log) (host : Host) (opts : Options) (cmd : Policy) (argv : List Bytes)
      (child : Command → Process) (out errs : Sink) (r : Result)
      → (run j log host opts cmd argv child out errs).0 ≡ ok r
      → (c : Command) × (s : Sealing) × Faithful host opts cmd argv child out errs r c s
  unfolding run run_prepared
  run-Faithful log host opts cmd argv child out errs r h =
      elim (Try-cases (prepare host opts cmd argv)) [
        | inl (why, refused) ↦ let h' = rw refused at h in cc
        | inr ((c, s), prepared) ↦ (
          c,
          s,
          finished-Faithful log host opts cmd argv child out errs r c s prepared (rw prepared at h),
        )
      ]

  -- `Run` returns a result exactly when the child can be prepared, ends with an exit code before the
  -- deadline and without a cancellation, and the cleanup does not fail; the outputs append, count and do
  -- not fail.
  pub run_returns_iff :
      (log : Log) (host : Host) (opts : Options) (cmd : Policy) (argv : List Bytes)
      (child : Command → Process) (out errs : Sink)
      → ((r : Result) × ((run j log host opts cmd argv child out errs).0 ≡ ok r)) ↔ (
          (c : Command) × (s : Sealing) × (prepare host opts cmd argv ≡ ok (c, s))
          × Completed (child c)
          × (cleanup_failed_of (child c).measured.cleanup ≡ false))
  unfolding run run_prepared finish
  run_returns_iff log host opts cmd argv child out errs = (
    λ (r, h).
        let (c, s, f) = run-Faithful log host opts cmd argv child out errs r h in
        (c, s, f.prepared, f.completed, f.cleaned),
    λ (c, s, prepared, completed, cleaned).
        let p = child c in
        let (out_fine, _, _) = run_stream-Leaves ok_sink j cmd opts out p.out_chunks in
        let (err_fine, _, _) = run_stream-Leaves ok_sink j cmd opts errs p.err_chunks in
        let e =
          ending_of p.context (effective_no_network cmd && is_linux host.platform) p.failure in
        rw prepared (
          (final_iff p.measured e (corrected e s) (run_stream j cmd opts out p.out_chunks)
              (run_stream j cmd opts errs p.err_chunks) e.failure out_fine err_fine).1
            ((ending_iff p.context _ p.failure).1 (unfold Completed in completed), cleaned)),
  )
