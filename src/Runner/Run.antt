-- ===== src/Runner/Run.antt =====
-- internal/runner/runner.go: `Run`. The child is a parameter: for the command that is started, how it
-- ends, what it writes to each stream, and what is measured. `sink` is the live output.
use ironrun.Prelude.{
  Bool, ◌&&◌, List, [], ◌∷◌, Option, none, some, if◌then◌else◌, Bytes, Try, ok, err,
}
use ironrun.Policy.Document.{effective_no_network}
use ironrun.Audit.Entry.{Entry}
use ironrun.Redact.Writer.{Output, Writer, new, write, flush}
use ironrun.Runner.Cap.{CapWriter, cap_writer, cap_output, tee_output}
use ironrun.Runner.Values.{secret_values}
use ironrun.Runner.Shim.{Command}
use ironrun.Runner.Prepare.{Policy, RunError, Host, Options, Sealing, prepare}
use ironrun.Runner.Finish.{
  Context, Failure, Ending, Measured, StreamEnd, Result, is_linux, ending_of, corrected,
  audit_entry, final,
}

pub record Process : Type 0 where
  pub context : Context
  pub failure : Option Failure
  pub out_chunks : List Bytes
  pub err_chunks : List Bytes
  pub measured : Measured

-- `opts.Audit`, if there is one: whether its `Append` of an entry succeeds.
abbrev pub Log : Type 0
Log = Option (Entry → Bool)

-- What becomes of the record: after a failed `Append` there is only a warning.
pub data Recorded : Type 0 where
  no_record : Recorded
  appended append_failed : Entry → Recorded

-- There is none without a log, and when the child never started.
unfoldable pub recorded : Log → Ending → Entry → Recorded
recorded none e entry = no_record
recorded (some appends) e entry =
    if e.start_failed
    then no_record
    else if appends entry
    then appended entry
    else append_failed entry

-- What `Run` returns, and what becomes of its record.
unfoldable pub finish :
    (Bytes → List Bytes)
    → Log
    → Host
    → Options
    → Policy
    → Sealing
    → Process
    → StreamEnd
    → StreamEnd
    → Try RunError Result × Recorded
finish json_escapes log host opts cmd s p out errs =
    let e = ending_of p.context (effective_no_network cmd && is_linux host.platform) p.failure in
    let s' = corrected e s in
    (
      final p.measured e s' out errs e.failure,
      recorded log e (
          audit_entry cmd opts (secret_values json_escapes opts.secrets opts.redact_values)
            p.measured p.context e s' out errs),
    )

module _ {Sink : Type 0} ⦃o : Output Sink⦄ where
  -- The copying of one stream ends at the first error.
  unfoldable pub feed :
      List Bytes → Writer (CapWriter (Bytes × Sink)) → Writer (CapWriter (Bytes × Sink))
  feed [] w = w
  feed (c ∷ cs) w =
      let (w', failed) = write c w in let more = feed cs w' in if failed then w' else more

  unfoldable pub ended : Writer (CapWriter (Bytes × Sink)) × Bool → StreamEnd
  ended (w, failed) = record {
    text = w.out.w.0;
    dropped = w.out.dropped;
    redactions = w.redactions;
    flush_failed = failed;
  }

module _ {Sink : Type 0} ⦃o : Output Sink⦄ (json_escapes : Bytes → List Bytes) where
  -- The redacting writer of one stream; its own cap is off.
  abbrev pub start_stream : Policy → Options → Sink → Writer (CapWriter (Bytes × Sink))
  start_stream cmd opts sink =
      new (cap_writer {Sink = Bytes × Sink} ([], sink) cmd.max_bytes)
        (secret_values json_escapes opts.secrets opts.redact_values) 0

  unfoldable pub run_stream : Policy → Options → Sink → List Bytes → StreamEnd
  unfolding feed ended
  run_stream cmd opts sink chunks = ended (flush (feed chunks (start_stream cmd opts sink)))

  unfoldable pub run_prepared :
      Log
      → Host
      → Options
      → Policy
      → (Command → Process)
      → Sink
      → Sink
      → Try RunError (Command × Sealing)
      → Try RunError Result × Recorded
  unfolding finish run_stream
  run_prepared log host opts cmd child out errs (err why) = (err why, no_record)
  run_prepared log host opts cmd child out errs (ok (c, s)) =
      finish json_escapes log host opts cmd s (child c)
        (run_stream cmd opts out (child c).out_chunks)
        (run_stream cmd opts errs (child c).err_chunks)

  -- `Run`
  unfoldable pub run :
      Log
      → Host
      → Options
      → Policy
      → List Bytes
      → (Command → Process)
      → Sink
      → Sink
      → Try RunError Result × Recorded
  unfolding run_prepared
  run log host opts cmd argv child out errs =
      run_prepared log host opts cmd child out errs (prepare host opts cmd argv)
