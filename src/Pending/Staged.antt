-- ===== src/Pending/Staged.antt =====
-- mcp/server.go: what a proposal that was accepted is.
use ironrun.Prelude.{◌≡◌, true, false, none, trim_space}
use ironrun.Policy.Document.{PolicyFile}
use ironrun.Policy.Commands.{lookup}
use ironrun.Policy.Shells.{is_shell_string}
use ironrun.Pending.Store.{Proposal}
use ironrun.Pending.Propose.{ProposeRequest, proposal_env}

-- What the handler checked of a request that it accepts, and the proposal that it makes.
pub record Proposed (f : PolicyFile) (req : ProposeRequest) (p : Proposal) : Type 0 where
  pub allowed : f.allow_proposals ≡ true
  pub no_shell : is_shell_string req.argv ≡ false
  pub unknown : lookup f p.id ≡ none
  pub id_is : p.id ≡ trim_space req.id
  pub argv_is : p.argv ≡ req.argv
  pub env_is : p.env ≡ proposal_env f req
  pub reason_is : p.reason ≡ trim_space req.reason
