-- ===== src/Runner/Stopped.antt =====
-- internal/runner/runner.go: a run that is ended by its deadline or by its caller.
use ironrun.Prelude.{
  ◌≡◌, ◌↔◌, refl, ap, subst, ◌∙◌, inl, inr, Bool, true, false, ◌&&◌, ◌||◌, List, Option, none, some,
  Bool-cases, Try-cases, Bytes, codes, ok, err,
}
use ironrun.Policy.Document.{effective_no_network}
use ironrun.Audit.Entry.{Entry}
use ironrun.Redact.Writer.{Output}
use ironrun.Runner.Cap.{cap_output, tee_output}
use ironrun.Runner.Shim.{Command}
use ironrun.Runner.Prepare.{
  Policy, RunError, timed_out, cancelled, namespace_denied, exec_failed, flush_failed,
  cleanup_failed, Host, Options, Sealing, prepare,
}
use ironrun.Runner.Finish.{
  Context, live, deadline_exceeded, canceled, Failure, wait_delay, exited, not_permitted,
  other_failure, Ending, Measured, StreamEnd, is_linux, ending_of, ending_live, cleanup_failed_of,
  corrected, audit_entry, kill_reason, final,
}
use ironrun.Runner.Run.{Process, Log, run_stream, finish, run_prepared, run}
use ironrun.Runner.Audited.{handed, recorded_lem}
use ironrun.Runner.Unstopped.{is_stop, prepare-not_stopped}

-- The context that an error comes from.
error_of : Context → Option RunError
error_of live = none
error_of deadline_exceeded = some timed_out
error_of canceled = some cancelled

ending_stopped :
    (x : Context) (namespaced : Bool) (o : Option Failure) (why : RunError)
    → is_stop why ≡ true
    → (ending_of x namespaced o).failure ≡ some why
    → (f : Failure) × (o ≡ some f) × (error_of x ≡ some why)
unfolding ending_of ending_live is_stop error_of
ending_stopped x namespaced none why stop h = cc
ending_stopped live namespaced (some (wait_delay state)) why stop h = cc
ending_stopped live namespaced (some (exited code signal)) why stop h = cc
ending_stopped live true (some not_permitted) why stop h =
    let same : namespace_denied ≡ why = cc in let no = ap is_stop same ∙ stop in cc
ending_stopped live false (some not_permitted) why stop h =
    let same : exec_failed ≡ why = cc in let no = ap is_stop same ∙ stop in cc
ending_stopped live namespaced (some other_failure) why stop h =
    let same : exec_failed ≡ why = cc in let no = ap is_stop same ∙ stop in cc
ending_stopped deadline_exceeded namespaced (some f) why stop h = (f, refl, h)
ending_stopped canceled namespaced (some f) why stop h = (f, refl, h)

stopped_ending :
    (x : Context) (namespaced : Bool) (f : Failure) (why : RunError)
    → error_of x ≡ some why
    → ((ending_of x namespaced (some f)).failure ≡ some why)
      × ((ending_of x namespaced (some f)).start_failed ≡ false)
unfolding ending_of error_of
stopped_ending live namespaced f why h = cc
stopped_ending deadline_exceeded namespaced f why h = (h, refl)
stopped_ending canceled namespaced f why h = (h, refl)

final_stopped :
    (at : Measured) (e : Ending) (s : Sealing) (out errs : StreamEnd) (failure : Option RunError)
    (why : RunError)
    → is_stop why ≡ true
    → final at e s out errs failure ≡ err why
    → failure ≡ some why
unfolding final is_stop
final_stopped at e s out errs (some other) why stop h = let back : other ≡ why = cc in ap some back
final_stopped at e s out errs none why stop h =
    elim (Bool-cases (out.flush_failed || errs.flush_failed)) [
      | inl failed ↦
          let h' = rw failed at h in
          let same : flush_failed ≡ why = cc in let no = ap is_stop same ∙ stop in cc
      | inr fine ↦ elim (Bool-cases (cleanup_failed_of at.cleanup)) [
        | inl failed ↦
            let h' = rw (fine, failed) at h in
            let same : cleanup_failed ≡ why = cc in let no = ap is_stop same ∙ stop in cc
        | inr clean ↦ let h' = rw (fine, clean) at h in cc
      ]
    ]

-- The child was prepared, and its run failed in this context.
unfoldable pub FailedIn :
    Host → Options → Policy → List Bytes → (Command → Process) → Context → Type 0
FailedIn host opts cmd argv child x =
    (c : Command) × (s : Sealing) × (f : Failure) × (prepare host opts cmd argv ≡ ok (c, s))
    × ((child c).failure ≡ some f)
    × ((child c).context ≡ x)

context_of : (x : Context) → error_of x ≡ some timed_out → x ≡ deadline_exceeded
unfolding error_of
context_of live h = cc
context_of deadline_exceeded h = refl
context_of canceled h = let no : cancelled ≡ timed_out = cc in cc

context_cancelled : (x : Context) → error_of x ≡ some cancelled → x ≡ canceled
unfolding error_of
context_cancelled live h = cc
context_cancelled deadline_exceeded h = let no : timed_out ≡ cancelled = cc in cc
context_cancelled canceled h = refl

module _ {Sink : Type 0} ⦃o : Output Sink⦄ (j : Bytes → List Bytes) where
  run_stopped :
      (log : Log) (host : Host) (opts : Options) (cmd : Policy) (argv : List Bytes)
      (child : Command → Process) (out errs : Sink) (why : RunError)
      → is_stop why ≡ true
      → (run j log host opts cmd argv child out errs).0 ≡ err why
      → (x : Context) × (error_of x ≡ some why) × FailedIn host opts cmd argv child x
  unfolding run run_prepared finish FailedIn
  run_stopped log host opts cmd argv child out errs why stop h =
      elim (Try-cases (prepare host opts cmd argv)) [
        | inl (other, failed) ↦
            let h' = rw failed at h in
            let same : other ≡ why = cc in
            let started = prepare-not_stopped host opts cmd argv why (failed ∙ ap err same) in cc
        | inr ((c, s), prepared) ↦
            let namespaced = effective_no_network cmd && is_linux host.platform in
            let e = ending_of (child c).context namespaced (child c).failure in
            let stopped =
              final_stopped (child c).measured e (corrected e s)
                (run_stream j cmd opts out (child c).out_chunks)
                (run_stream j cmd opts errs (child c).err_chunks) e.failure why stop
                (rw prepared at h) in
            let (f, failed, of_context) =
              ending_stopped (child c).context namespaced (child c).failure why stop stopped in
            ((child c).context, of_context, (c, s, f, prepared, failed, refl))
      ]

  stopped_run :
      (log : Log) (host : Host) (opts : Options) (cmd : Policy) (argv : List Bytes)
      (child : Command → Process) (out errs : Sink) (x : Context) (why : RunError)
      → error_of x ≡ some why
      → FailedIn host opts cmd argv child x
      → (run j log host opts cmd argv child out errs).0 ≡ err why
  unfolding run run_prepared finish FailedIn
  stopped_run log host opts cmd argv child out errs x why of_context
        (c, s, f, prepared, failed, at) =
      let namespaced = effective_no_network cmd && is_linux host.platform in
      let (same, started) = stopped_ending x namespaced f why of_context in
      let e = ending_of x namespaced (some f) in
      rw (prepared, failed, at)
        (ap
            (final (child c).measured e (corrected e s)
              (run_stream j cmd opts out (child c).out_chunks)
              (run_stream j cmd opts errs (child c).err_chunks))
            same
          ∙ unfold final in refl)

  stopped_record :
      (appends : Entry → Bool) (host : Host) (opts : Options) (cmd : Policy) (argv : List Bytes)
      (child : Command → Process) (out errs : Sink) (x : Context) (why : RunError)
      → error_of x ≡ some why
      → FailedIn host opts cmd argv child x
      → (e : Entry) × ((run j (some appends) host opts cmd argv child out errs).1
          ≡ handed appends e)
        × (e.command_id ≡ cmd.id)
        × (e.kill_reason ≡ kill_reason x)
  unfolding run run_prepared finish FailedIn
  stopped_record appends host opts cmd argv child out errs x why of_context
        (c, s, f, prepared, failed, at) =
      let (same, started) =
        stopped_ending x (effective_no_network cmd && is_linux host.platform) f why of_context in
      let e = ending_of x (effective_no_network cmd && is_linux host.platform) (some f) in
      rw (prepared, failed, at)
        (
          _,
          recorded_lem appends e _ started,
          unfold audit_entry in refl,
          unfold audit_entry in refl,
        )

  -- `Run` returns the error of a timeout exactly when the child was prepared and its run failed with the
  -- deadline exceeded, and that of a cancellation exactly when it failed with the context cancelled. With
  -- a log it then hands an entry to `Append` that names the command and the reason, in the first case
  -- `timeout` and in the second `cancelled`.
  pub run_stopped_iff :
      (appends : Entry → Bool) (host : Host) (opts : Options) (cmd : Policy) (argv : List Bytes)
      (child : Command → Process) (out errs : Sink)
      → (((run j (some appends) host opts cmd argv child out errs).0 ≡ err timed_out)
          ↔ FailedIn host opts cmd argv child deadline_exceeded)
        × (((run j (some appends) host opts cmd argv child out errs).0 ≡ err cancelled)
            ↔ FailedIn host opts cmd argv child canceled)
        × (FailedIn host opts cmd argv child deadline_exceeded
            → (e : Entry) × ((run j (some appends) host opts cmd argv child out errs).1
                ≡ handed appends e)
              × (e.command_id ≡ cmd.id)
              × (e.kill_reason ≡ codes "timeout"))
        × (FailedIn host opts cmd argv child canceled
            → (e : Entry) × ((run j (some appends) host opts cmd argv child out errs).1
                ≡ handed appends e)
              × (e.command_id ≡ cmd.id)
              × (e.kill_reason ≡ codes "cancelled"))
  unfolding is_stop error_of kill_reason
  run_stopped_iff appends host opts cmd argv child out errs = (
    (
      λ h.
          let (x, of_context, failed) =
            run_stopped (some appends) host opts cmd argv child out errs timed_out refl h in
          subst (FailedIn host opts cmd argv child) (context_of x of_context) failed,
      λ h.
          stopped_run (some appends) host opts cmd argv child out errs deadline_exceeded timed_out
            refl h,
    ),
    (
      λ h.
          let (x, of_context, failed) =
            run_stopped (some appends) host opts cmd argv child out errs cancelled refl h in
          subst (FailedIn host opts cmd argv child) (context_cancelled x of_context) failed,
      λ h. stopped_run (some appends) host opts cmd argv child out errs canceled cancelled refl h,
    ),
    (λ h.
        stopped_record appends host opts cmd argv child out errs deadline_exceeded timed_out refl
          h),
    (λ h. stopped_record appends host opts cmd argv child out errs canceled cancelled refl h),
  )
