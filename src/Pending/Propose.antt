-- ===== src/Pending/Propose.antt =====
-- mcp/server.go: `makeProposeHandler`, after the request's arguments are read. The policy as it is
-- reloaded, and the time as text, are arguments; a missing argument is an empty one. White space
-- is that of ASCII.
use ironrun.Prelude.{
  ℕ, Bool, true, false, not, ◌&&◌, ◌||◌, List, [], ◌∷◌, Option, none, some, leb, ltb, ◌==◌,
  if◌then◌else◌, length, Bytes, codes, bytes_eq, bytes_le, trim_space, Try, ok, err, guard, ◌>>◌,
}
use ironrun.Policy.Document.{Command, PolicyFile}
use ironrun.Policy.Names.{every, is_letter, is_digit, valid_env_target}
use ironrun.Policy.Commands.{lookup, uses_environment_entries}
use ironrun.Policy.Shells.{is_shell_string}
use ironrun.Pending.Store.{Proposal, PendingFile, PendingError, Transaction, create}

pub data Refusal : Type 0 where
  reload_failed proposals_disabled bad_id missing_arguments shell_refused : Refusal
  missing_reason reason_lines already_allowed : Refusal
  bad_binding : Bytes → Refusal
  not_created : PendingError → Refusal

pub record ProposeRequest : Type 0 where
  pub id : Bytes
  pub argv : List Bytes
  pub reason : Bytes
  pub env : List (Bytes × Bytes)
  pub secrets : List Bytes

unfoldable pub is_id_byte : ℕ → Bool
is_id_byte c = is_letter c || is_digit c || c == b'-' || c == b'_'

unfoldable pub valid_proposal_id : Bytes → Bool
unfolding is_id_byte
valid_proposal_id id = ltb 0 (length id) && every is_id_byte id

-- A control character of Unicode or a line break starts here, in UTF-8.
unfoldable pub starts_break : Bytes → Bool
starts_break [] = false
starts_break (c ∷ []) = ltb c 0x20 || c == 0x7f
starts_break (c ∷ d ∷ []) = ltb c 0x20 || c == 0x7f || (c == 0xc2 && (leb 0x80 d && leb d 0x9f))
starts_break (c ∷ d ∷ e ∷ rest) =
    ltb c 0x20
    || c == 0x7f
    || (c == 0xc2 && (leb 0x80 d && leb d 0x9f))
    || (c == 0xe2 && (d == 0x80 && (e == 0xa8 || e == 0xa9)))

unfoldable pub single_line : Bytes → Bool
unfolding starts_break
single_line [] = true
single_line (c ∷ cs) = not (starts_break (c ∷ cs)) && single_line cs

-- `proposalEnv[name] = ref`, on the bindings by key.
unfoldable pub put_binding : Bytes → Bytes → List (Bytes × Bytes) → List (Bytes × Bytes)
put_binding name ref [] = (name, ref) ∷ []
put_binding name ref ((k, v) ∷ m) =
    let later = put_binding name ref m in
    if bytes_eq k name
    then (name, ref) ∷ m
    else if bytes_le name k
    then (name, ref) ∷ (k, v) ∷ m
    else (k, v) ∷ later

unfoldable pub put_names : List Bytes → List (Bytes × Bytes) → List (Bytes × Bytes)
unfolding put_binding
put_names [] m = m
put_names (name ∷ names) m = put_names names (put_binding name name m)

unfoldable pub proposal_env : PolicyFile → ProposeRequest → List (Bytes × Bytes)
unfolding put_names
proposal_env f req = if uses_environment_entries f then put_names req.secrets req.env else req.env

unfoldable pub check_bindings : List (Bytes × Bytes) → Try Refusal (Unit {0})
unfolding single_line
check_bindings [] = ok tt
check_bindings ((name, ref) ∷ m) = do
  guard (valid_env_target name && single_line ref) (bad_binding name)
  check_bindings m

unfoldable pub not_known : Option Command → Bool
not_known none = true
not_known (some c) = false

-- The checks of the handler, in its order, and the proposal that it makes.
unfoldable pub make_proposal : Option PolicyFile → Bytes → ProposeRequest → Try Refusal Proposal
unfolding valid_proposal_id single_line proposal_env check_bindings not_known
make_proposal none now req = err reload_failed
make_proposal (some f) now req = do
  guard f.allow_proposals proposals_disabled
  let id = trim_space req.id
  guard (valid_proposal_id id) bad_id
  guard (ltb 0 (length req.argv)) missing_arguments
  guard (not (is_shell_string req.argv)) shell_refused
  let reason = trim_space req.reason
  guard (ltb 0 (length reason)) missing_reason
  guard (single_line reason) reason_lines
  guard (not_known (lookup f id)) already_allowed
  let env = proposal_env f req
  check_bindings env
  ok (record {
    id = id;
    argv = req.argv;
    env = env;
    reason = reason;
    proposed_at = now;
    status = codes "pending";
  })

unfoldable pub created :
    PendingFile × Try PendingError Proposal → PendingFile × Try Refusal Proposal
created (file, ok p) = (file, ok p)
created (file, err why) = (file, err (not_created why))

unfoldable pub stage :
    Try Refusal Proposal → Transaction → PendingFile → PendingFile × Try Refusal Proposal
unfolding created
stage (err why) t file = (file, err why)
stage (ok p) t file = created (create p t file)

unfoldable pub propose :
    Option PolicyFile
    → Bytes
    → ProposeRequest
    → Transaction
    → PendingFile
    → PendingFile × Try Refusal Proposal
unfolding stage make_proposal
propose current now req t file = stage (make_proposal current now req) t file
