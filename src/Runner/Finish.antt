-- ===== src/Runner/Finish.antt =====
-- internal/runner/runner.go: `Run` after the child has ended, with `processStateExitCode` and
-- `signalExitCode`. Times and counts are below 2^63.
use ironrun.Prelude.{
  ℕ, ◌+◌, Bool, true, false, ◌&&◌, ◌||◌, List, [], ◌∷◌, ◌++◌, Option, none, some, ◌==◌,
  if◌then◌else◌, map, Bytes, codes, bytes_le, ℤ, pos, negsuc, Try, ok, err,
}
use ironrun.Policy.Document.{effective_no_network}
use ironrun.Audit.Entry.{Entry, SecretUse}
use ironrun.Runner.Prepare.{
  Policy, RunError, Platform, linux, darwin, other_os, timed_out, cancelled, namespace_denied,
  exec_failed, flush_failed, cleanup_failed, Detail, filter_armed, never_started,
  filter_refused_detail, seal_refused_detail, Sealing, unsupported, not_requested, seal_only,
  Options,
}

-- `runCtx.Err()`
pub data Context : Type 0 where
  live deadline_exceeded canceled : Context

-- What `c.Run()` returns: `exec.ErrWaitDelay` with the state of the process, if there is one, an exit
-- code with the signal, if one killed the child, `EPERM`, or another error.
pub data Failure : Type 0 where
  wait_delay : Option (ℤ × Option ℕ) → Failure
  exited : ℤ → Option ℕ → Failure
  not_permitted other_failure : Failure

-- The code of a signal stands in for one that is negative.
unfoldable pub signal_exit_code : ℤ → Option ℕ → ℤ
signal_exit_code (pos n) signal = pos n
signal_exit_code (negsuc n) none = negsuc n
signal_exit_code (negsuc n) (some signal) = pos (128 + signal)

unfoldable pub process_state_exit_code : Option (ℤ × Option ℕ) → ℤ
unfolding signal_exit_code
process_state_exit_code none = negsuc 0
process_state_exit_code (some (code, signal)) = signal_exit_code code signal

-- The exit code, the error that is returned, and whether the child never started.
pub record Ending : Type 0 where
  pub exit_code : ℤ
  pub failure : Option RunError
  pub start_failed : Bool

abbrev pub exit_with : ℤ → Ending
exit_with code = record { exit_code = code; failure = none; start_failed = false }

abbrev pub fail_with : RunError → Bool → Ending
fail_with why start_failed = record {
  exit_code = pos 0;
  failure = some why;
  start_failed = start_failed;
}

abbrev pub is_linux : Platform → Bool
is_linux linux = true
is_linux darwin = false
is_linux (other_os name) = false

unfoldable pub ending_live : Bool → Failure → Ending
unfolding process_state_exit_code signal_exit_code
ending_live namespaced (wait_delay state) = exit_with (process_state_exit_code state)
ending_live namespaced (exited code signal) = exit_with (signal_exit_code code signal)
ending_live namespaced not_permitted =
    if namespaced then fail_with namespace_denied true else fail_with exec_failed true
ending_live namespaced other_failure = fail_with exec_failed true

unfoldable pub ending_of : Context → Bool → Option Failure → Ending
unfolding ending_live
ending_of context namespaced none = exit_with (pos 0)
ending_of deadline_exceeded namespaced (some f) = fail_with timed_out false
ending_of canceled namespaced (some f) = fail_with cancelled false
ending_of live namespaced (some f) = ending_live namespaced f

unfoldable pub is_code : ℤ → ℕ → Bool
is_code (pos n) code = n == code
is_code (negsuc n) code = false

abbrev pub exit_seal_refused : ℕ
exit_seal_refused = 124

abbrev pub exit_filter_refused : ℕ
exit_filter_refused = 125

abbrev pub not_installed : Sealing → Detail → Sealing
not_installed s detail = record s { installed = false; detail = detail }

-- What is said of the filter, corrected after the run.
unfoldable pub corrected : Ending → Sealing → Sealing
unfolding is_code
corrected e s =
    if e.start_failed
    then not_installed s never_started
    else if s.shim_armed && is_code e.exit_code exit_filter_refused
    then not_installed s filter_refused_detail
    else if s.shim_armed && is_code e.exit_code exit_seal_refused
    then not_installed s seal_refused_detail
    else s

unfoldable pub insert_name : Bytes → List Bytes → List Bytes
insert_name n [] = n ∷ []
insert_name n (m ∷ ms) =
    let later = insert_name n ms in if bytes_le n m then n ∷ m ∷ ms else m ∷ later

-- `sort.Strings`
unfoldable pub sort_names : List Bytes → List Bytes
unfolding insert_name
sort_names [] = []
sort_names (n ∷ ns) = insert_name n (sort_names ns)

-- What `Run` measures, and what its caller says of the session. `cleanup` is `none` without one, else
-- whether it failed.
pub record Measured : Type 0 where
  pub timestamp : ℕ
  pub cwd : Bytes
  pub session_id : Bytes
  pub audit_secrets : List SecretUse
  pub duration_ms : ℕ
  pub entropy_warnings : ℕ
  pub cleanup : Option Bool

-- What one of the two streams leaves.
pub record StreamEnd : Type 0 where
  pub text : Bytes
  pub dropped : Bool
  pub redactions : ℕ
  pub flush_failed : Bool

unfoldable pub kill_reason : Context → Bytes
kill_reason live = []
kill_reason deadline_exceeded = codes "timeout"
kill_reason canceled = codes "cancelled"

unfoldable pub cleanup_result : Option Bool → Bytes
cleanup_result none = []
cleanup_result (some true) = codes "failed"
cleanup_result (some false) = codes "removed"

-- The text of `seccompDetail`
unfoldable pub detail_text : Detail → Bytes
detail_text (unsupported name) =
    codes "not installed: sealed-exec shim unsupported on GOOS=" ++ name
detail_text not_requested = codes "not requested"
detail_text filter_armed = codes "shim armed; filter installs in-child before execve (fail-closed)"
detail_text seal_only = codes "seal-only shim (seccomp not requested; filter skipped)"
detail_text never_started = codes "child process never started"
detail_text filter_refused_detail =
    codes "shim refused: seccomp filter install failed (fail-closed); child never executed"
detail_text seal_refused_detail =
    codes "shim refused: child seal failed (fail-closed); child never executed"

pub record Result : Type 0 where
  pub exit_code : ℤ
  pub stdout : Bytes
  pub stderr : Bytes
  pub duration_ms : ℕ
  pub truncated : Bool
  pub entropy_warnings : ℕ
  pub seccomp_installed : Bool
  pub seccomp_detail : Detail

unfoldable pub audit_entry :
    Policy
    → Options
    → List Bytes
    → Measured
    → Context
    → Ending
    → Sealing
    → StreamEnd
    → StreamEnd
    → Entry
unfolding sort_names kill_reason cleanup_result detail_text
audit_entry cmd opts values at context e s out errs = record {
  timestamp = at.timestamp;
  schema = 0;
  session_id = at.session_id;
  cwd = at.cwd;
  command_id = cmd.id;
  argv = cmd.argv;
  secret_names = sort_names (map (λ (s : Bytes × Bytes). s.0) opts.secrets);
  secret_uses = at.audit_secrets;
  cleanup_result = cleanup_result at.cleanup;
  redaction_count = out.redactions + errs.redactions;
  entropy_warnings = at.entropy_warnings;
  exit_code = e.exit_code;
  duration_ms = at.duration_ms;
  truncated = out.dropped || errs.dropped;
  kill_reason = kill_reason context;
  seccomp_requested = s.requested;
  seccomp_installed = s.installed;
  seccomp_detail = detail_text s.detail;
  no_network = effective_no_network cmd;
  prev_hash = [];
  hash = [];
  scrub_values = values;
}

unfoldable pub cleanup_failed_of : Option Bool → Bool
cleanup_failed_of none = false
cleanup_failed_of (some failed) = failed

-- The last checks of `Run`; `errors.Join` gives the first of its errors here.
unfoldable pub final :
    Measured → Ending → Sealing → StreamEnd → StreamEnd → Option RunError → Try RunError Result
unfolding cleanup_failed_of
final at e s out errs (some why) = err why
final at e s out errs none =
    if out.flush_failed || errs.flush_failed
    then err flush_failed
    else if cleanup_failed_of at.cleanup
    then err cleanup_failed
    else ok (record {
      exit_code = e.exit_code;
      stdout = out.text;
      stderr = errs.text;
      duration_ms = at.duration_ms;
      truncated = out.dropped || errs.dropped;
      entropy_warnings = at.entropy_warnings;
      seccomp_installed = s.installed;
      seccomp_detail = s.detail;
    })
