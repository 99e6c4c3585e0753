-- ===== src/Runner/Contained.antt =====
-- internal/runner/runner.go: what holds of a child that `Run` starts.
use ironrun.Prelude.{◌≡◌, ◌≢◌, ◌⊎◌, true, false, List, [], ◌∷◌, some, Bytes, codes}
use ironrun.Policy.Shells.{is_shell_string}
use ironrun.Policy.Document.{effective_no_network}
use ironrun.Runner.Forks.{Trusted}
use ironrun.Runner.Shim.{Command, armed}
use ironrun.Runner.Prepare.{
  Policy, Platform, linux, darwin, other_os, Host, Options, sandbox_exec_path, profile,
  requested_of,
}

-- Without a network: in namespaces of its own, or in the sandbox.
pub Isolated : Platform → Command → Type 0
Isolated linux c = c.own_network ≡ true
Isolated darwin c =
    (c.path ≡ sandbox_exec_path)
    × ((rest : List Bytes) × (c.args ≡ codes "sandbox-exec" ∷ codes "-p" ∷ profile ∷ rest))
Isolated (other_os name) c = ⊥

-- On Linux, `c` is the shim around a command, unless the operator turned the seal off and no filter is
-- asked for.
pub Shielded : Host → Options → Platform → Command → Type 0
Shielded host opts linux c =
    ((opts.no_seal ≡ true) × (requested_of opts.seccomp ≡ false))
    ⊎ ((self : Bytes) × (d : Command) × (a : Bytes) × (argv : List Bytes) × (host.executable
          ≡ some self)
        × (d.args ≡ a ∷ argv)
        × (c ≡ armed self opts.no_seal (requested_of opts.seccomp) d))
Shielded host opts darwin c = Unit
Shielded host opts (other_os name) c = Unit

pub record Contained (host : Host) (opts : Options) (cmd : Policy) (argv : List Bytes) (c : Command)
    : Type 0 where
  pub given : argv ≢ []
  pub no_shell : opts.allow_shell ≡ false → is_shell_string argv ≡ false
  pub trusted_build : Trusted host.ci opts.allow_pull_request_target
  pub no_network : effective_no_network cmd ≡ true → Isolated host.platform c
  pub shielded : Shielded host opts host.platform c

HasArgs : Command → Type 0
HasArgs c = (a : Bytes) × (argv : List Bytes) × (c.args ≡ a ∷ argv)
