-- ===== src/Lib.antt =====
-- ironrun runs the commands that a policy allows with secrets that an agent never sees. This
-- library models the parts that decide what an agent may do and what it may read.
--
-- The program's parts, and how they interact:
-- - internal/redact filters the output of a child process. `Writer` stands between the child and
--   the agent: it replaces registered secrets, whole, with gaps, or in fragments, by a placeholder.
-- - internal/access keeps, in one JSON file, what an agent asked for and what a human granted:
--   requests for secrets, leases on commands, and grants on a workspace. The command line and
--   the MCP server ask `Authorize` and `AuthorizeWorkspace` before a run.
-- - internal/policy reads the policy file, which lists the commands and the secrets that each may
--   have; every run starts from a command that it accepted.
-- - internal/pending keeps the commands that agents propose; the MCP server adds to it, and only a
--   human moves a proposal into the policy.
-- - internal/audit keeps one record of each run in a log whose records are chained by SHA-256.
-- - internal/runner runs an allowed command: it checks the CI event, builds the child's environment,
--   isolates and seals it, redacts and caps its output, and writes the audit record.
--   internal/sealedexec is the shim in which the child starts.
-- - internal/vault keeps a project's values in an encrypted and authenticated document.
-- - internal/envset groups the secrets of a project into environment sets: it keeps their names and targets, and
--   the vault, as its store of values, keeps what they hold.
--
-- Files, and the code they model:
-- - Redact.Match: `hasPrefix`, `isFlexGap`, `matchFlex`. Redact.Index: `reindexLocked`, `matchAt`,
--   `matchFragment`. Redact.Writer: `New`, `AddSecret`, `Write`, `Flush`, `scan`, `emit`. All are
--   in internal/redact/redact.go. Redact.Pieces is the specification: one pass over the whole
--   text into literal and placeholder pieces. Redact.{Window, Scan, Stream, Refines} hold
--   the proofs that relate the writer to it, Redact.{Reindex, Tiers, Literals, Safety} those about
--   the index and the literals, Redact.Bounds those about the cap.
-- - Redact.Encodings: `percentEncode`, `lowerPctEscapes`, `wrapLines` of internal/redact/encodings.go.
--   Redact.Base64: `Base64Cores`, with the encoder of encoding/base64. Redact.Forms:
--   `EncodingsWithDepth`, with `JSONEscapes` as an argument. Redact.{Escapes, Cores, Shapes, Listed, Registered}
--   hold the proofs about these forms. `chunks` gets the length of the text as its
--   rounds, which are enough for a width that is not 0.
-- - Access.State, Access.Reason, Access.Store: the records, the cleaning of names and reasons,
--   `load`, `mutate`, `saveAtomic`. Access.{Requests, Resolution, Leases, Workspace}: the methods of
--   `Manager`. All are in internal/access/access.go. Access.Step gives the changes of the stored state as a
--   relation, Access.Calls the calls and which step each applies. Access.{Backed, Authorize, Final,
--   Revoked, Pending} hold the proofs about histories of calls.
-- - Policy.Document, Policy.Names, Policy.Parse: the document, `validEnvTarget` and its kin, `Load`
--   and `Parse`. Policy.Commands: `Lookup`, `AuthorizeArgv`, `SecretBinding`. Policy.Paths and
--   Policy.Shells: `IsShellString` with the parts of path/filepath that it calls. All are of
--   internal/policy/policy.go. Policy.Lint is internal/policy/lint.go. Policy.WellFormed is the
--   specification of `Parse`; Policy.{Distinct, Aliases, Sound, Validated} hold the proofs
--   that relate the two, Policy.Binding and Policy.Reviewed those about the callers and `Lint`.
-- - Pending.Store: `Load`, `Find`, `Upsert`, `Remove`, `Create`, `Update` of internal/pending/pending.go.
--   Pending.Propose: `makeProposeHandler` of mcp/server.go. Pending.Kept and Pending.Staged hold the
--   proofs about them.
-- - Audit.Entry: the record, and encoding/json and SHA-256 as the parameter `Coding`. Audit.Log:
--   `Verify`, `computeHash`, `lastHash`. Audit.Scrub: `scrubSecrets`. Audit.Logger: `Append`, `Open`.
--   All are of internal/audit/audit.go. Audit.{Lines, Tail, Intact} hold the proofs about a log that
--   `Append` made, Audit.Tamper those about a log that verifies.
-- - Runner.CiTrust: `CheckCITrust`. Runner.Environ: `buildEnv`. Runner.Values: the values that `Run`
--   registers. Runner.Cap: `capWriter`. Runner.Prepare: `Run` up to the start of the child, and
--   `applyNetworkIsolation`. Runner.Finish: the ending, the record and the result. Runner.Run: `Run`. All
--   are of internal/runner/runner.go. Runner.Shim: `armSealedExec` of internal/runner/seccomp_linux.go
--   and the shim of internal/sealedexec/sealedexec.go. Runner.{Forks, Child, Captured, Sealed, Contained,
--   Filtered, Delivered, Recorded, Audited, Unstopped, Stopped} hold the proofs about them.
-- - Vault.Document: the document, and AES-GCM, HMAC, base64 and JSON as the parameter `Primitives`.
--   Vault.Sealing: `sealScope`, `openScope`, `verifyMAC`, `parse`, `load`, `save`. Vault.Store: the
--   operations. All are of internal/vault/store.go. Vault.{Reopened, Changed, Kept} hold the proofs about
--   reading what was set, Vault.{Changes, Revision} those about the revision.
-- - Envset.Sets: the metadata, `validateEntry`, and `validateName` of internal/envset/store.go. Envset.Manager:
--   `update`, `Create`, `Use`, `putEntry`, `deleteKey`, `remove`, `Get` of internal/envset/manager.go, over the
--   store of values as an instance argument. Envset.Sequences: `Ensure`, `Clone`, `Prune`, in the same file.
--   Envset.{Entries, Apart, Histories} hold the proofs about them.
--   Envset.Dotenv: `ParseDotenv`, in the same file, about which Envset.Imported holds the proofs.
--
-- The model. Bytes are numbers; a Go string is its list of bytes. Time is a number of
-- nanoseconds, whose sums stay below 2^63. The byte counters of the writer are below 2^63 too.
-- A call of the manager gets an `Env`: the time, the random bytes, whether the lock was got, and
-- whether the save completed; any values of these are allowed. `seek` and `scan` recurse on a
-- number of positions, which callers start at the length of the buffer; the refinement theorem
-- shows that the buffer never ends before it. `FulfillSecretWith` takes the caller's commit as a
-- function that may fail. The underlying `io.Writer` is an instance argument: any function from
-- a piece to a new state, a count and an error flag.
-- The child of a run is a function from the command that is started to how it ends, what it writes and
-- what is measured; the host (its files, variables and programs) is a record. The log of a run is a function
-- that says whether `Append` of an entry succeeds.
-- The YAML decoder and `time.ParseDuration` are arguments. A Go map is a list of keys and values in
-- the order in which the loops run over it.
--
-- What is not modelled: file permissions, fsync and the lock directory behind an `Env`; of
-- environment sets the identity of a project and the
-- reading of its file; the other
-- packages under internal/ (providers, capsules, the migration of old setups and more), the
-- command line, the terminal dashboard and the packaging.
pub mod Prelude
pub mod Redact
pub mod Access
pub mod Policy
pub mod Pending
pub mod Audit
pub mod Runner
pub mod Vault
pub mod Envset
