-- ===== src/Access/Resolution.antt =====
-- internal/access/access.go: how requests are resolved: `resolveRequest`, `FulfillSecret`,
-- `ApproveLease`, `ApproveWorkspace` and `Deny`.
use ironrun.Prelude.{
  ℕ, ◌+◌, Bool, true, [], ◌∷◌, ◌++◌, Option, none, some, leb, if◌then◌else◌, Bytes, bytes_eq, codes,
}
use ironrun.Access.State.{
  default_lease_ttl, default_workspace_ttl, max_lease_ttl, RequestKind, for_secret, for_lease,
  for_workspace, RequestStatus, fulfilled, approved, denied, same_kind, is_pending, Request, Lease,
  WorkspaceGrant, State, Error, ttl_out_of_range, not_pending, wrong_kind, Result, ok, err, guard,
  ◌>>=◌, ◌>>◌,
}
use ironrun.Access.Store.{Env, File, mutate, random_id, update_first}
use ironrun.Access.Requests.{expire, or_default}

-- The body of `resolveRequest` for the request that has the id. `fn` is the step that the callers
-- pass: it may refuse, and it may set the resulting id.
unfoldable pub allowed : Option RequestKind → RequestKind → Bool
allowed none kind = true
allowed (some wanted) kind = same_kind kind wanted

unfoldable pub resolve_one :
    {B : Type 0}
    → ℕ
    → Option RequestKind
    → RequestStatus
    → (Request → Result (Request × B))
    → Request
    → Result (Request × B)
unfolding allowed
resolve_one now kind status fn r = do
  guard (is_pending r.status) (not_pending r.status)
  guard (allowed kind r.kind) (wrong_kind r.kind)
  (r', b) ← fn r
  ok (record r' { status = status; resolved_at = some now }, b)

-- `attach` adds what `fn` made to the state.
unfoldable pub resolve_in :
    {B : Type 0}
    → ℕ
    → Bytes
    → Option RequestKind
    → RequestStatus
    → (Request → Result (Request × B))
    → (State → B → State)
    → State
    → Result (State × B)
unfolding resolve_one
resolve_in now id kind status fn attach st = do
  (rs, b) ←
      update_first (λ (r : Request). bytes_eq r.id id) (resolve_one now kind status fn)
        (expire now st.requests)
  ok (attach (record st { requests = rs }) b, b)

unfoldable pub resolve_request :
    {B : Type 0}
    → Bytes
    → Option RequestKind
    → RequestStatus
    → (Request → Result (Request × B))
    → (State → B → State)
    → Env
    → File
    → File × Result B
unfolding resolve_in
resolve_request id kind status fn attach env file =
    mutate (resolve_in env.now id kind status fn attach) env file

-- `FulfillSecretWith`: `store` is the caller's commit, which runs under the lock and may fail.
abbrev pub run_commit : (Request → Bool) → Request → Result (Request × Request)
run_commit store r =
    if store r then ok (r, record r { status = fulfilled }) else err Error.commit_failed

unfoldable pub fulfill_secret_with : Bytes → (Request → Bool) → Env → File → File × Result Request
unfolding resolve_request
fulfill_secret_with id store =
    resolve_request id (some for_secret) fulfilled (run_commit store) (λ st _. st)

unfoldable pub fulfill_secret : Bytes → Env → File → File × Result Request
fulfill_secret id = fulfill_secret_with id (λ _. true)

-- The time a grant gets: what the human says, else what was asked, else the default.
unfoldable pub grant_ttl : ℕ → ℕ → ℕ → Result ℕ
unfolding or_default
grant_ttl ttl requested d = do
  let given = or_default (or_default ttl requested) d
  guard (leb given max_lease_ttl) ttl_out_of_range
  ok given

unfoldable pub make_lease : ℕ → Env → Request → Result (Request × Lease)
unfolding grant_ttl
make_lease ttl env r = do
  given ← grant_ttl ttl r.requested_ttl default_lease_ttl
  id ← random_id (codes "lease") env
  let lease : Lease = record {
    id = id;
    request_id = r.id;
    session_id = r.session_id;
    environment = r.environment;
    commands = r.commands;
    created_at = env.now;
    expires_at = env.now + given;
    revoked_at = none;
  }
  ok (record r { resulting_lease_id = id }, lease)

abbrev pub add_lease : State → Lease → State
add_lease st lease = record st { leases = st.leases ++ lease ∷ [] }

unfoldable pub approve_lease : Bytes → ℕ → Env → File → File × Result Lease
unfolding make_lease
approve_lease id ttl env =
    resolve_request id (some for_lease) approved (make_lease ttl env) add_lease env

unfoldable pub make_grant : Bytes → ℕ → Env → Request → Result (Request × WorkspaceGrant)
unfolding grant_ttl
make_grant root ttl env r = do
  given ← grant_ttl ttl r.requested_ttl default_workspace_ttl
  id ← random_id (codes "trust") env
  let grant : WorkspaceGrant = record {
    id = id;
    request_id = r.id;
    session_id = r.session_id;
    project_root = root;
    environment = r.environment;
    network = codes "normal";
    created_at = env.now;
    expires_at = env.now + given;
    paused_at = none;
    revoked_at = none;
  }
  ok (record r { resulting_lease_id = id }, grant)

abbrev pub add_grant : State → WorkspaceGrant → State
add_grant st grant = record st { workspace_grants = st.workspace_grants ++ grant ∷ [] }

unfoldable pub approve_workspace : Bytes → Bytes → ℕ → Env → File → File × Result WorkspaceGrant
unfolding make_grant
approve_workspace root id ttl env =
    resolve_request id (some for_workspace) approved (make_grant root ttl env) add_grant env

unfoldable pub deny : Bytes → Env → File → File × Result (Unit {0})
deny id = resolve_request id none denied (λ r. ok (r, tt)) (λ st _. st)
