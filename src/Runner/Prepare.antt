-- ===== src/Runner/Prepare.antt =====
-- internal/runner/runner.go: `Run` up to the start of the child, with `applyNetworkIsolation` and its
-- two implementations. What the host has is an argument.
use ironrun.Prelude.{
  Bool, true, false, not, ◌&&◌, ◌||◌, List, [], ◌∷◌, ◌++◌, Option, none, some, ◌==◌, if◌then◌else◌,
  Bytes, codes, bytes_eq, Try, ok, err, guard, ◌>>=◌, ◌>>◌,
}
use ironrun.Policy.Paths.{clean, is_rooted}
use ironrun.Policy.Shells.{is_shell_string}
use ironrun.Policy.Document.{effective_no_network}
use ironrun.Runner.CiTrust.{Ci, CiError, check_ci_trust}
use ironrun.Runner.Environ.{build_env}
use ironrun.Runner.Shim.{Command, arm_sealed_exec}

abbrev pub Policy : Type 0
Policy = ironrun.Policy.Document.Command

pub data RunError : Type 0 where
  empty_argv shell_denied no_directory no_binary network_unsupported not_armed : RunError
  untrusted : CiError → RunError
  timed_out cancelled namespace_denied exec_failed flush_failed cleanup_failed : RunError

pub data Platform : Type 0 where
  linux darwin : Platform
  other_os : Bytes → Platform

-- `runtime.GOOS`
abbrev pub goos : Platform → Bytes
goos linux = codes "linux"
goos darwin = codes "darwin"
goos (other_os name) = name

-- `look_path` is `exec.LookPath`, `getwd` the directory for `filepath.Abs`, `has_sandbox` whether
-- `sandboxExecPath` is there, `executable` is `os.Executable`.
pub record Host : Type 0 where
  pub platform : Platform
  pub ci : Ci
  pub environ : List Bytes
  pub getwd : Option Bytes
  pub look_path : Bytes → Option Bytes
  pub has_sandbox : Bool
  pub executable : Option Bytes

-- The `Options` that decide how the child starts.
pub record Options : Type 0 where
  pub env : List Bytes
  pub secrets : List (Bytes × Bytes)
  pub redact_values : List Bytes
  pub work_dir : Bytes
  pub seccomp : Option Bool
  pub allow_pull_request_target : Bool
  pub no_seal : Bool
  pub allow_shell : Bool

abbrev pub sandbox_exec_path : Bytes
sandbox_exec_path = codes "/usr/bin/sandbox-exec"

abbrev pub profile : Bytes
profile = codes "(version 1)\n(allow default)\n(deny network*)\n"

-- `filepath.Join` of two names.
unfoldable pub join_paths : Bytes → Bytes → Bytes
join_paths [] [] = []
join_paths [] (b ∷ bs) = clean (b ∷ bs)
join_paths (a ∷ as_) [] = clean (a ∷ as_)
join_paths (a ∷ as_) (b ∷ bs) = clean ((a ∷ as_) ++ b'/' ∷ b ∷ bs)

unfoldable pub has_slash : Bytes → Bool
has_slash [] = false
has_slash (c ∷ cs) = c == b'/' || has_slash cs

unfoldable pub child_dir : Bytes → Bytes → Bytes
unfolding join_paths
child_dir of_command of_options =
    if bytes_eq of_command []
    then of_options
    else if is_rooted of_command
    then of_command
    else if bytes_eq of_options []
    then of_command
    else join_paths of_options of_command

-- `filepath.Abs`
unfoldable pub absolute : Option Bytes → Bytes → Try RunError Bytes
absolute none path = if is_rooted path then ok (clean path) else err no_directory
absolute (some cwd) path = if is_rooted path then ok (clean path) else ok (join_paths cwd path)

unfoldable pub binary_name : Host → Bytes → Bytes → Try RunError Bytes
unfolding absolute has_slash
binary_name host dir name =
    if not (bytes_eq dir []) && (not (is_rooted name) && has_slash name)
    then absolute host.getwd (join_paths dir name)
    else ok name

unfoldable pub found : Option Bytes → Try RunError Bytes
found none = err no_binary
found (some bin) = ok bin

unfoldable pub apply_network_isolation : Platform → Bool → Command → Try RunError Command
apply_network_isolation linux has_sandbox c = ok (record c { own_network = true })
apply_network_isolation darwin has_sandbox c =
    if has_sandbox
    then ok (record c {
      path = sandbox_exec_path;
      args = codes "sandbox-exec" ∷ codes "-p" ∷ profile ∷ c.args;
    })
    else err network_unsupported
apply_network_isolation (other_os name) has_sandbox c = err network_unsupported

unfoldable pub isolate : Host → Policy → Command → Try RunError Command
unfolding apply_network_isolation
isolate host cmd c =
    if effective_no_network cmd
    then apply_network_isolation host.platform host.has_sandbox c
    else ok c

-- `seccompDetail`
pub data Detail : Type 0 where
  unsupported : Bytes → Detail
  not_requested filter_armed seal_only : Detail
  never_started filter_refused_detail seal_refused_detail : Detail

-- Whether the shim wraps the run, and what is said of the filter.
pub record Sealing : Type 0 where
  pub shim_armed : Bool
  pub requested : Bool
  pub installed : Bool
  pub detail : Detail

abbrev pub requested_of : Option Bool → Bool
requested_of none = false
requested_of (some b) = b

unfoldable pub armed_with : Bool → Option Command → Try RunError (Command × Sealing)
armed_with requested none = err not_armed
armed_with requested (some c) = ok (
  c,
  record {
    shim_armed = true;
    requested = requested;
    installed = requested;
    detail = if requested then filter_armed else seal_only;
  },
)

abbrev pub unarmed : Bool → Detail → Sealing
unarmed requested detail = record {
  shim_armed = false;
  requested = requested;
  installed = false;
  detail = detail;
}

unfoldable pub seal_on_linux : Host → Options → Command → Try RunError (Command × Sealing)
unfolding armed_with
seal_on_linux host opts c =
    let requested = requested_of opts.seccomp in
    let shim = armed_with requested (arm_sealed_exec host.executable opts.no_seal requested c) in
    if opts.no_seal && not requested then ok (c, unarmed requested not_requested) else shim

unfoldable pub seal_child : Host → Options → Platform → Command → Try RunError (Command × Sealing)
unfolding seal_on_linux
seal_child host opts linux c = seal_on_linux host opts c
seal_child host opts darwin c =
    ok (c, unarmed (requested_of opts.seccomp) (unsupported (goos darwin)))
seal_child host opts (other_os name) c =
    ok (c, unarmed (requested_of opts.seccomp) (unsupported name))

unfoldable pub trusted : Try CiError (Unit {0}) → Try RunError (Unit {0})
trusted (err why) = err (untrusted why)
trusted (ok u) = ok u

abbrev pub command_for : Host → Options → Bytes → Bytes → List Bytes → Command
command_for host opts dir bin rest = record {
  path = bin;
  args = bin ∷ rest;
  env = build_env host.environ opts.env opts.secrets;
  dir = dir;
  own_network = false;
}

-- `Run` up to `c.Run()`: the child that is started.
unfoldable pub launch :
    Host → Options → Policy → Bytes → List Bytes → Try RunError (Command × Sealing)
unfolding binary_name found isolate seal_child child_dir
launch host opts cmd name rest = do
  bin_name ← binary_name host (child_dir cmd.work_dir opts.work_dir) name
  bin ← found (host.look_path bin_name)
  c ← isolate host cmd (command_for host opts (child_dir cmd.work_dir opts.work_dir) bin rest)
  seal_child host opts host.platform c

unfoldable pub prepare : Host → Options → Policy → List Bytes → Try RunError (Command × Sealing)
unfolding trusted launch
prepare host opts cmd [] = err empty_argv
prepare host opts cmd (name ∷ rest) =
    guard (opts.allow_shell || not (is_shell_string (name ∷ rest))) shell_denied
    >> (trusted (check_ci_trust host.ci opts.allow_pull_request_target)
        >> launch host opts cmd name rest)
