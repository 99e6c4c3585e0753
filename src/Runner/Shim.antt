-- ===== src/Runner/Shim.antt =====
-- internal/runner/seccomp_linux.go: `armSealedExec`. internal/sealedexec/sealedexec.go: `IsShim`, `run`
-- and `strippedEnv`. Whether the filter and the seal can be installed, and whether
-- the target can be executed, are arguments.
use ironrun.Prelude.{
  Bool, true, false, not, ◌&&◌, ◌||◌, List, [], ◌∷◌, ◌++◌, Option, none, some, if◌then◌else◌, Bytes,
  codes, bytes_eq,
}
use ironrun.Redact.Match.{has_prefix}
use ironrun.Runner.Environ.{equals}
use ironrun.Runner.Child.{child_value}

-- The parts of `exec.Cmd` that the runner sets, where an empty `env` is nil; `own_network` says that it clones its namespaces.
pub record Command : Type 0 where
  pub path : Bytes
  pub args : List Bytes
  pub env : List Bytes
  pub dir : Bytes
  pub own_network : Bool

abbrev pub sentinel : Bytes
sentinel = codes "ironrun-sealed-exec"

abbrev pub env_sentinel : Bytes
env_sentinel = codes "IRONRUN_SEALED_EXEC"

abbrev pub env_no_seal : Bytes
env_no_seal = codes "IRONRUN_NO_SEAL"

abbrev pub env_skip_seccomp : Bytes
env_skip_seccomp = codes "IRONRUN_SKIP_SECCOMP"

-- The names that the runner strips, and those that the shim strips.
abbrev pub parent_names : List Bytes
parent_names = env_no_seal ∷ env_skip_seccomp ∷ []

abbrev pub shim_names : List Bytes
shim_names = env_sentinel ∷ parent_names

-- The entries for none of the names.
unfoldable pub is_for : List Bytes → Bytes → Bool
is_for [] e = false
is_for (n ∷ names) e = has_prefix e (n ++ equals ∷ []) || is_for names e

unfoldable pub without : List Bytes → List Bytes → List Bytes
unfolding is_for
without names [] = []
without names (e ∷ es) = let more = without names es in if is_for names e then more else e ∷ more

abbrev pub switch : Bool → Bytes → List Bytes
switch false name = []
switch true name = (name ++ codes "=1") ∷ []

unfoldable pub armed : Bytes → Bool → Bool → Command → Command
unfolding without
armed self no_seal seccomp c = record c {
  path = self;
  args = sentinel ∷ c.path ∷ c.args;
  env =
      without parent_names c.env
      ++ (switch true env_sentinel
          ++ (switch no_seal env_no_seal ++ switch (not seccomp) env_skip_seccomp));
}

-- `armSealedExec`; the path of the running binary may be unknown.
unfoldable pub arm_sealed_exec : Option Bytes → Bool → Bool → Command → Option Command
unfolding armed
arm_sealed_exec none no_seal seccomp c = none
arm_sealed_exec (some self) no_seal seccomp c = some (armed self no_seal seccomp c)

-- How the shim ends: a refusal, or the program that it becomes.
pub data ShimEnd : Type 0 where
  broken filter_refused seal_refused : ShimEnd
  became : Bytes → List Bytes → List Bytes → Bool → Bool → ShimEnd

abbrev pub is_one : Option Bytes → Bool
is_one none = false
is_one (some v) = bytes_eq v (codes "1")

unfoldable pub is_shim : List Bytes → List Bytes → Bool
is_shim [] env = false
is_shim (a ∷ args) env = bytes_eq a sentinel && is_one (child_value env_sentinel env)

unfoldable pub stripped_env : List Bytes → List Bytes
stripped_env env = without shim_names env

-- `run` of the shim: whether the filter and the seal can be installed, and whether `syscall.Exec` succeeds.
-- The last two parts of `became` say whether the filter and the seal are on.
unfoldable pub run_shim : Bool → Bool → Bool → List Bytes → List Bytes → ShimEnd
unfolding stripped_env
run_shim filter_installs seals execs (a ∷ target ∷ b ∷ argv) env =
    let skips = is_one (child_value env_skip_seccomp env) in
    let unsealed = is_one (child_value env_no_seal env) in
    if not skips && not filter_installs
    then filter_refused
    else if not unsealed && not seals
    then seal_refused
    else if execs
    then became target (b ∷ argv) (stripped_env env) (not skips) (not unsealed)
    else broken
run_shim filter_installs seals execs _ env = broken
