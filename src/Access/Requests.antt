-- ===== src/Access/Requests.antt =====
-- internal/access/access.go: requests, their creation, their expiry and the ways to read them.
use ironrun.Prelude.{
  ℕ, suc, ◌+◌, Bool, true, not, ◌&&◌, ◌||◌, List, [], ◌∷◌, ◌++◌, Option, none, some, ltb, leb,
  if◌then◌else◌, Bytes, bytes_eq, codes, join, length,
}
use ironrun.Access.State.{
  default_request_ttl, default_lease_ttl, default_workspace_ttl, max_lease_ttl, max_pending_session,
  RequestKind, for_secret, for_lease, for_workspace, pending, expired, same_kind, is_pending,
  Request, State, not_found, missing_argv, missing_alias, no_commands, ttl_out_of_range,
  too_many_pending, Result, ok, err, guard, ◌>>=◌, ◌>>◌,
}
use ironrun.Access.Reason.{canonical_commands, clean_reason, is_blank, validate_identity}
use ironrun.Access.Store.{Env, File, load, mutate, random_id, newest_first}

unfoldable pub expire_one : ℕ → Request → Request
expire_one now r =
    if is_pending r.status && not (ltb now r.expires_at)
    then record r { status = expired; resolved_at = some now }
    else r

unfoldable pub expire : ℕ → List Request → List Request
unfolding expire_one is_pending
expire now [] = []
expire now (r ∷ rs) = expire_one now r ∷ expire now rs

-- `strings.Join(..., "\x00")`
abbrev joined_commands : Request → Bytes
joined_commands r = join (0 ∷ []) r.commands

unfoldable pub same_request : Request → Request → Bool
unfolding same_kind
same_request a b =
    same_kind a.kind b.kind
    && (bytes_eq a.environment b.environment
        && (bytes_eq a.secret_alias b.secret_alias
            && (bytes_eq a.secret_key b.secret_key
                && bytes_eq (joined_commands a) (joined_commands b))))

abbrev pub counts_for : Bytes → Request → Bool
counts_for session_id r = bytes_eq r.session_id session_id && is_pending r.status

-- The loop over the requests: the first that asks for the same, or else how many are pending.
unfoldable pub find_same : Request → ℕ → List Request → Option Request × ℕ
find_same candidate seen [] = (none, seen)
find_same candidate seen (r ∷ rs) =
    let next = if counts_for candidate.session_id r then suc seen else seen in
    let later = find_same candidate next rs in
    if counts_for candidate.session_id r && same_request r candidate then (some r, next) else later

-- The end of `createRequest`, by what the loop found.
unfoldable pub add_request : Env → Request → State → Option Request × ℕ → Result (State × Request)
add_request env candidate st (some existing, seen) = ok (st, existing)
add_request env candidate st (none, seen) = do
  guard (ltb seen max_pending_session) too_many_pending
  id ← random_id (codes "req") env
  let r : Request = record candidate {
    id = id;
    status = pending;
    created_at = env.now;
    expires_at = env.now + default_request_ttl;
  }
  ok (record st { requests = st.requests ++ r ∷ [] }, r)

unfoldable pub create_in : Env → Request → State → Result (State × Request)
unfolding add_request
create_in env candidate st =
    let rs = expire env.now st.requests in
    add_request env candidate (record st { requests = rs }) (find_same candidate 0 rs)

unfoldable pub create_request : Request → Env → File → File × Result Request
unfolding create_in
create_request candidate env file = mutate (create_in env candidate) env file

-- A request with the fields that every kind leaves empty.
abbrev pub blank_request : RequestKind → Bytes → Bytes → Bytes → Request
blank_request kind session_id environment reason = record {
  id = [];
  kind = kind;
  status = pending;
  session_id = session_id;
  environment = environment;
  secret_alias = [];
  secret_key = [];
  commands = [];
  first_argv = [];
  reason = clean_reason reason;
  requested_ttl = 0;
  created_at = 0;
  expires_at = 0;
  resolved_at = none;
  resulting_lease_id = [];
}

unfoldable pub or_default : ℕ → ℕ → ℕ
or_default ttl d = if leb ttl 0 then d else ttl

-- A check before `createRequest`: its error ends the call with the file as it was.
abbrev pub checked : Result Request → Env → File → File × Result Request
checked (ok candidate) env file = create_request candidate env file
checked (err e) env file = (file, err e)

first_blank : List Bytes → Bool
first_blank [] = true
first_blank (a ∷ rest) = is_blank a

unfoldable pub workspace_candidate : Bytes → Bytes → List Bytes → ℕ → Bytes → Result Request
unfolding or_default first_blank
workspace_candidate session_id environment first_argv ttl reason = do
  validate_identity session_id environment
  guard (not (first_blank first_argv)) missing_argv
  let asked = or_default ttl default_workspace_ttl
  guard (leb asked max_lease_ttl) ttl_out_of_range
  ok (record (blank_request for_workspace session_id environment reason) {
    first_argv = first_argv;
    requested_ttl = asked;
  })

unfoldable pub create_workspace_request :
    Bytes → Bytes → List Bytes → ℕ → Bytes → Env → File → File × Result Request
create_workspace_request session_id environment first_argv ttl reason =
    checked (workspace_candidate session_id environment first_argv ttl reason)

unfoldable pub secret_candidate :
    Bytes → Bytes → Bytes → Bytes → List Bytes → Bytes → Result Request
secret_candidate session_id environment alias key commands reason = do
  validate_identity session_id environment
  guard (not (is_blank alias || is_blank key)) missing_alias
  ok (record (blank_request for_secret session_id environment reason) {
    secret_alias = alias;
    secret_key = key;
    commands = canonical_commands commands;
  })

unfoldable pub create_secret_request_for_commands :
    Bytes → Bytes → Bytes → Bytes → List Bytes → Bytes → Env → File → File × Result Request
create_secret_request_for_commands session_id environment alias key commands reason =
    checked (secret_candidate session_id environment alias key commands reason)

unfoldable pub create_secret_request :
    Bytes → Bytes → Bytes → Bytes → Bytes → Env → File → File × Result Request
create_secret_request session_id environment alias key reason =
    create_secret_request_for_commands session_id environment alias key [] reason

unfoldable pub lease_candidate : Bytes → Bytes → List Bytes → ℕ → Bytes → Result Request
unfolding or_default
lease_candidate session_id environment commands ttl reason = do
  validate_identity session_id environment
  let wanted = canonical_commands commands
  guard (ltb 0 (length wanted)) no_commands
  let asked = or_default ttl default_lease_ttl
  ok (record (blank_request for_lease session_id environment reason) {
    commands = wanted;
    requested_ttl = if ltb max_lease_ttl asked then max_lease_ttl else asked;
  })

unfoldable pub create_lease_request :
    Bytes → Bytes → List Bytes → ℕ → Bytes → Env → File → File × Result Request
create_lease_request session_id environment commands ttl reason =
    checked (lease_candidate session_id environment commands ttl reason)

-- `Request(id)`: a pending request that is past its time is shown as expired.
find_request : ℕ → Bytes → List Request → Result Request
find_request now id [] = err not_found
find_request now id (r ∷ rs) =
    let later = find_request now id rs in
    if bytes_eq r.id id
    then ok (
        if is_pending r.status && not (ltb now r.expires_at)
        then record r { status = expired }
        else r)
    else later

unfoldable pub request : Bytes → Env → File → Result Request
unfolding find_request
request id env file = do st ← load file; find_request env.now id st.requests

-- `Requests()`
unfoldable pub requests : Env → File → File × Result (List Request)
requests env file =
    let (file', done) =
      mutate (λ st. ok (record st { requests = expire env.now st.requests }, tt)) env file in
    (file', do done; st ← load file'; ok (newest_first (λ (r : Request). r.created_at) st.requests))
