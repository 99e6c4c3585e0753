-- ===== src/Runner/Tests.antt =====
-- internal/runner/runner.go: the theorems at one command with a secret, on Linux.
use ironrun.Prelude.{
  ◌≡◌, ◌↔◌, refl, inr, Bool, true, false, List, [], ◌∷◌, ◌++◌, none, some, length, Bytes, codes,
  pos, ok, err, bytes_eq, if◌then◌else◌, contains, join, is_above,
}
use ironrun.Redact.Match.{has_prefix}
use ironrun.Redact.Writer.{Output}
use ironrun.Redact.Stream.{IsReliable}
use ironrun.Audit.Entry.{Entry}
use ironrun.Runner.Cap.{cap_writer, cap_write, remaining, counted, write_some}
use ironrun.Runner.CiTrust.{
  Ci, check_ci_trust, check_git_hub, check_git_lab, check_circle, check_jenkins,
  check_git_hub_event_repos, check_repos, event_repos, event_from_fork,
}
use ironrun.Policy.Document.{effective_no_network, has_secrets}
use ironrun.Policy.Paths.{is_rooted, base, clean}
use ironrun.Policy.Shells.{is_shell_string, lower}
use ironrun.Runner.Environ.{
  started_env, build_env, inherited, assignments, is_dangerous_env, has_prefix_of, env_key,
}
use ironrun.Runner.Child.{child_value}
use ironrun.Runner.Shim.{
  Command, arm_sealed_exec, armed, without, is_for, is_shim, run_shim, seal_refused,
}
use ironrun.Runner.Sealed.{armed_shim}
use ironrun.Runner.Prepare.{
  Policy, Host, Options, Sealing, linux, prepare, filter_armed, launch, trusted, timed_out,
  cancelled, binary_name, child_dir, found, isolate, apply_network_isolation, seal_child,
  seal_on_linux, armed_with, has_slash,
}
use ironrun.Runner.Contained.{Contained}
use ironrun.Runner.Finish.{
  Measured, live, deadline_exceeded, canceled, exited, Result, cleanup_failed_of,
}
use ironrun.Runner.Run.{Process, Log, run}
use ironrun.Runner.Recorded.{Completed, Faithful, run-Faithful, run_returns_iff}
use ironrun.Runner.Audited.{Records, handed, run-Records}
use ironrun.Runner.Stopped.{FailedIn, run_stopped_iff}

instance abbrev buffer : Output Bytes
buffer = record { put = λ s d. (s ++ d, length d, false) }

abbrev buffer-IsReliable : IsReliable buffer
buffer-IsReliable = record {
  view = λ s. s;
  view_put = λ s d. refl;
  count_put = λ s d. refl;
  put_succeeds = λ s d. refl;
}

-- A pull request of a fork and one of the repository itself.
abbrev actions : Bytes → Bytes
actions name =
    if bytes_eq name (codes "GITHUB_ACTIONS")
    then codes "true"
    else if bytes_eq name (codes "GITHUB_EVENT_NAME")
    then codes "pull_request"
    else []

abbrev build : Bytes → Ci
build head = record {
  getenv = actions;
  event_at = λ path. some (record {
    head_repo = head;
    base_repo = codes "me/repo";
    head_repository = [];
    repository = [];
  });
  equal_fold = bytes_eq;
}

abbrev host : Host
host = record {
  platform = linux;
  ci = build (codes "me/repo");
  environ = codes "PATH=/bin" ∷ codes "LD_PRELOAD=/tmp/x.so" ∷ codes "IRONRUN_NO_SEAL=1" ∷ [];
  getwd = some (codes "/home");
  look_path = λ name. some (codes "/bin/deploy");
  has_sandbox = false;
  executable = some (codes "/bin/ironrun");
}

abbrev opts : Options
opts = record {
  env = [];
  secrets = (codes "TOKEN", codes "abcd") ∷ [];
  redact_values = [];
  work_dir = [];
  seccomp = some true;
  allow_pull_request_target = false;
  no_seal = false;
  allow_shell = false;
}

abbrev deploy : Policy
deploy = record {
  id = codes "deploy";
  argv = codes "deploy" ∷ [];
  env = [];
  secrets = codes "TOKEN" ∷ [];
  ttl = pos 0;
  max_bytes = pos 4;
  no_network = false;
  allow_network = false;
  work_dir = [];
  seccomp = none;
}

abbrev measured : Measured
measured = record {
  timestamp = 0;
  cwd = codes "/";
  session_id = codes "s";
  audit_secrets = [];
  duration_ms = 5;
  entropy_warnings = 0;
  cleanup = none;
}

-- A child that prints the secret in two writes.
abbrev leaks : Command → Process
leaks c = record {
  context = live;
  failure = some (exited (pos 3) none);
  out_chunks = codes "tab" ∷ codes "cd" ∷ [];
  err_chunks = [];
  measured = measured;
}

abbrev hangs : Command → Process
hangs c = record (leaks c) { context = deadline_exceeded }

-- A log that fails.
abbrev appends : Entry → Bool
appends e = false

abbrev escapes : Bytes → List Bytes
escapes v = v ∷ []

abbrev launched : Command
launched = record {
  path = codes "/bin/ironrun";
  args = codes "ironrun-sealed-exec" ∷ codes "/bin/deploy" ∷ codes "/bin/deploy" ∷ [];
  env = codes "PATH=/bin" ∷ codes "TOKEN=abcd" ∷ codes "IRONRUN_SEALED_EXEC=1" ∷ [];
  dir = [];
  own_network = true;
}

abbrev sealing : Sealing
sealing = record { shim_armed = true; requested = true; installed = true; detail = filter_armed }

prepared : prepare host opts deploy (codes "deploy" ∷ []) ≡ ok (launched, sealing)
unfolding prepare launch trusted check_ci_trust check_git_hub check_git_lab check_circle
    check_jenkins check_git_hub_event_repos check_repos event_repos binary_name child_dir found
    isolate apply_network_isolation seal_child seal_on_linux armed_with arm_sealed_exec armed
    without is_for build_env inherited assignments is_dangerous_env has_prefix_of env_key has_prefix
    bytes_eq contains is_shell_string effective_no_network has_secrets is_rooted has_slash base
    clean join lower
prepared = refl

fork_refused : check_ci_trust (build (codes "you/repo")) false ≡ err event_from_fork
unfolding check_ci_trust check_git_hub check_git_lab check_circle check_jenkins
    check_git_hub_event_repos check_repos event_repos bytes_eq contains
fork_refused = refl

-- If every variable of the process is one that is stripped, and there is no other, none is stripped.
nothing_stripped :
    child_value
      (codes "LD_PRELOAD")
      (started_env (codes "LD_PRELOAD=/x" ∷ []) (build_env (codes "LD_PRELOAD=/x" ∷ []) [] []))
    ≡ some (codes "/x")
unfolding build_env started_env child_value is_dangerous_env bytes_eq has_prefix
nothing_stripped = refl

abbrev plain : Command
plain = record {
  path = codes "/bin/deploy";
  args = codes "/bin/deploy" ∷ [];
  env = codes "PATH=/bin" ∷ codes "IRONRUN_NO_SEAL=1" ∷ [];
  dir = [];
  own_network = true;
}

armed_shim_example :
    let c' = armed (codes "/bin/ironrun") false true plain in
    (is_shim c'.args c'.env ≡ true) × (run_shim true false true c'.args c'.env ≡ seal_refused)
armed_shim_example =
    armed_shim (codes "/bin/ironrun") false true true false true plain (codes "/bin/deploy") [] refl

returned :
    (r : Result) × ((run {Sink = Bytes} escapes
        (some appends)
        host
        opts
        deploy
        (codes "deploy" ∷ [])
        leaks
        []
        []).0
      ≡ ok r)
unfolding Completed cleanup_failed_of
returned =
    (run_returns_iff buffer-IsReliable escapes (some appends) host opts deploy (codes "deploy" ∷ [])
        leaks [] []).1
      (launched, sealing, prepared, inr (refl, inr (pos 3, none, refl)), refl)

run_returns_iff_example :
    ((r : Result) × ((run {Sink = Bytes} escapes
          (some appends)
          host
          opts
          deploy
          (codes "deploy" ∷ [])
          leaks
          []
          []).0
        ≡ ok r))
    ↔ ((c : Command) × (s : Sealing) × (prepare host opts deploy (codes "deploy" ∷ []) ≡ ok (c, s))
        × Completed (leaks c)
        × (cleanup_failed_of (leaks c).measured.cleanup ≡ false))
run_returns_iff_example =
    run_returns_iff buffer-IsReliable escapes (some appends) host opts deploy (codes "deploy" ∷ [])
      leaks [] []

run-Faithful_example :
    (c : Command) × (s : Sealing) × Faithful buffer-IsReliable escapes host opts deploy
      (codes "deploy" ∷ [])
      leaks
      []
      []
      returned.0
      c
      s
run-Faithful_example =
    run-Faithful buffer-IsReliable escapes (some appends) host opts deploy (codes "deploy" ∷ [])
      leaks [] [] returned.0 returned.1

run-Records_example :
    (e : Entry) × ((run {Sink = Bytes} escapes
        (some appends)
        host
        opts
        deploy
        (codes "deploy" ∷ [])
        leaks
        []
        []).1
      ≡ handed appends e)
    × Records escapes deploy opts returned.0 e
    × ((log : Log)
        → (run {Sink = Bytes} escapes log host opts deploy (codes "deploy" ∷ []) leaks [] []).0
          ≡ ok returned.0)
run-Records_example =
    run-Records escapes appends host opts deploy (codes "deploy" ∷ []) leaks [] [] returned.0
      returned.1

run_stopped_iff_example :
    (((run {Sink = Bytes} escapes
          (some appends)
          host
          opts
          deploy
          (codes "deploy" ∷ [])
          hangs
          []
          []).0
        ≡ err timed_out)
      ↔ FailedIn host opts deploy (codes "deploy" ∷ []) hangs deadline_exceeded)
    × (((run {Sink = Bytes} escapes
            (some appends)
            host
            opts
            deploy
            (codes "deploy" ∷ [])
            hangs
            []
            []).0
          ≡ err cancelled)
        ↔ FailedIn host opts deploy (codes "deploy" ∷ []) hangs canceled)
    × (FailedIn host opts deploy (codes "deploy" ∷ []) hangs deadline_exceeded
        → (e : Entry) × ((run {Sink = Bytes} escapes
              (some appends)
              host
              opts
              deploy
              (codes "deploy" ∷ [])
              hangs
              []
              []).1
            ≡ handed appends e)
          × (e.command_id ≡ codes "deploy")
          × (e.kill_reason ≡ codes "timeout"))
    × (FailedIn host opts deploy (codes "deploy" ∷ []) hangs canceled
        → (e : Entry) × ((run {Sink = Bytes} escapes
              (some appends)
              host
              opts
              deploy
              (codes "deploy" ∷ [])
              hangs
              []
              []).1
            ≡ handed appends e)
          × (e.command_id ≡ codes "deploy")
          × (e.kill_reason ≡ codes "cancelled"))
run_stopped_iff_example =
    run_stopped_iff escapes appends host opts deploy (codes "deploy" ∷ []) hangs [] []

-- The run of the child that hangs has timed out.
hangs_failed : FailedIn host opts deploy (codes "deploy" ∷ []) hangs deadline_exceeded
unfolding FailedIn
hangs_failed = (launched, sealing, exited (pos 3) none, prepared, refl, refl)

times_out :
    (run {Sink = Bytes} escapes (some appends) host opts deploy (codes "deploy" ∷ []) hangs [] []).0
    ≡ err timed_out
times_out = run_stopped_iff_example.0.1 hangs_failed

-- The cap keeps four bytes of six, and says so.
cut_write :
    cap_write {Sink = Bytes} (cap_writer [] (pos 4)) (codes "secret")
    ≡ (record { w = codes "secr"; max = pos 4; written = 4; dropped = true }, 6, false)
unfolding cap_write remaining is_above counted
cut_write = refl

full_write : (cap_write {Sink = Bytes} (cap_writer [] (pos 6)) (codes "secret")).0.dropped ≡ false
unfolding cap_write remaining is_above counted write_some
full_write = refl
