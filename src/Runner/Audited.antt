-- ===== src/Runner/Audited.antt =====
-- internal/runner/runner.go: the record of a run.
use ironrun.Prelude.{
  ◌≡◌, refl, sym, inl, inr, Bool, true, false, ◌&&◌, List, Option, none, some, Try-cases, Bytes, ok,
  if◌then◌else◌,
}
use ironrun.Policy.Document.{effective_no_network}
use ironrun.Audit.Entry.{Entry}
use ironrun.Redact.Writer.{Output}
use ironrun.Runner.Cap.{cap_output, tee_output}
use ironrun.Runner.Values.{secret_values}
use ironrun.Runner.Shim.{Command}
use ironrun.Runner.Prepare.{Policy, RunError, Host, Options, Sealing, prepare}
use ironrun.Runner.Finish.{
  Context, live, deadline_exceeded, canceled, Failure, wait_delay, exited, not_permitted,
  other_failure, Ending, Measured, StreamEnd, Result, is_linux, ending_of, ending_live, corrected,
  audit_entry, final,
}
use ironrun.Runner.Run.{
  Process, Log, Recorded, appended, append_failed, run_stream, recorded, finish, run_prepared, run,
}
use ironrun.Runner.Recorded.{final-Reports}

completed_started :
    (context : Context) (namespaced : Bool) (f : Option Failure)
    → (ending_of context namespaced f).failure ≡ none
    → (ending_of context namespaced f).start_failed ≡ false
unfolding ending_of ending_live
completed_started context namespaced none h = refl
completed_started live namespaced (some (wait_delay state)) h = refl
completed_started live namespaced (some (exited code signal)) h = refl
completed_started live true (some not_permitted) h = cc
completed_started live false (some not_permitted) h = cc
completed_started live namespaced (some other_failure) h = cc
completed_started deadline_exceeded namespaced (some f) h = refl
completed_started canceled namespaced (some f) h = refl

final_no_failure :
    (at : Measured) (e : Ending) (s : Sealing) (out errs : StreamEnd) (failure : Option RunError)
    (r : Result)
    → final at e s out errs failure ≡ ok r
    → failure ≡ none
unfolding final
final_no_failure at e s out errs (some why) r h = cc
final_no_failure at e s out errs none r h = refl

-- What becomes of an entry that is handed to the log.
abbrev pub handed : (Entry → Bool) → Entry → Recorded
handed appends e = if appends e then appended e else append_failed e

pub recorded_lem :
    (appends : Entry → Bool) (e : Ending) (entry : Entry)
    → e.start_failed ≡ false
    → recorded (some appends) e entry ≡ handed appends entry
unfolding recorded
recorded_lem appends e entry h = rw h refl

module _ (j : Bytes → List Bytes) where
  -- The record of a result.
  pub record Records (cmd : Policy) (opts : Options) (r : Result) (e : Entry) : Type 0 where
    pub command_is : e.command_id ≡ cmd.id
    pub argv_is : e.argv ≡ cmd.argv
    pub exit_code_is : e.exit_code ≡ r.exit_code
    pub truncated_is : e.truncated ≡ r.truncated
    pub installed_is : e.seccomp_installed ≡ r.seccomp_installed
    pub scrubs : e.scrub_values ≡ secret_values j opts.secrets opts.redact_values

  finished-Records :
      (appends : Entry → Bool) (host : Host) (opts : Options) (cmd : Policy) (s : Sealing)
      (p : Process) (out errs : StreamEnd) (r : Result)
      → (finish j (some appends) host opts cmd s p out errs).0 ≡ ok r
      → (e : Entry) × ((finish j (some appends) host opts cmd s p out errs).1 ≡ handed appends e)
        × Records cmd opts r e
  unfolding finish audit_entry
  finished-Records appends host opts cmd s p out errs r h =
      let namespaced = effective_no_network cmd && is_linux host.platform in
      let e = ending_of p.context namespaced p.failure in
      let fine = final_no_failure p.measured e (corrected e s) out errs e.failure r h in
      let report = final-Reports p.measured e (corrected e s) out errs e.failure r h in
      (
        _,
        recorded_lem appends e _ (completed_started p.context namespaced p.failure fine),
        record {
          command_is = refl;
          argv_is = refl;
          exit_code_is = sym report.exit_code_is;
          truncated_is = sym report.truncated_is;
          installed_is = sym report.installed_is;
          scrubs = refl;
        },
      )

module _ {Sink : Type 0} ⦃o : Output Sink⦄ (j : Bytes → List Bytes) where
  -- With a log, `Run` hands one entry to `Append` for each result that it returns, of the command and its
  -- arguments, with the exit code, the truncation and the filter as the result has them, and with all the
  -- values to scrub; the entry is a record when `Append` succeeds. The result is the same with any other
  -- log, or none.
  pub run-Records :
      (appends : Entry → Bool) (host : Host) (opts : Options) (cmd : Policy) (argv : List Bytes)
      (child : Command → Process) (out errs : Sink) (r : Result)
      → (run j (some appends) host opts cmd argv child out errs).0 ≡ ok r
      → (e : Entry) × ((run j (some appends) host opts cmd argv child out errs).1
          ≡ handed appends e)
        × Records j cmd opts r e
        × ((log : Log) → (run j log host opts cmd argv child out errs).0 ≡ ok r)
  unfolding run run_prepared finish
  run-Records appends host opts cmd argv child out errs r h =
      elim (Try-cases (prepare host opts cmd argv)) [
        | inl (why, refused) ↦ let h' = rw refused at h in cc
        | inr ((c, s), prepared) ↦
            let h' = rw prepared at h in
            let (e, recorded_is, agrees) =
              finished-Records j appends host opts cmd s (child c)
                (run_stream j cmd opts out (child c).out_chunks)
                (run_stream j cmd opts errs (child c).err_chunks) r h' in
            rw prepared (e, recorded_is, agrees, λ log. h')
      ]
