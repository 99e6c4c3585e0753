-- ===== src/Access/Calls.antt =====
-- internal/access/access.go: the methods of `Manager` that change the file, as calls in any order.
use ironrun.Prelude.{
  ℕ, ◌≡◌, inl, inr, Bool, List, [], ◌∷◌, arith, Bytes, Bool-cases, ◌||◌, leb, ltb,
}
use ironrun.Access.State.{max_lease_ttl, Request, State, Result, ok, err}
use ironrun.Access.Store.{Env, File, stored, load, mutate}
use ironrun.Access.Requests.{
  expire, create_in, checked, create_request, create_workspace_request,
  create_secret_request_for_commands, create_lease_request, workspace_candidate, secret_candidate,
  lease_candidate, requests,
}
use ironrun.Access.Resolution.{
  resolve_request, fulfill_secret_with, approve_lease, approve_workspace, deny,
}
use ironrun.Access.Leases.{revoke}
use ironrun.Access.Workspace.{
  change_grant, extend_one, pause_workspace, extend_workspace, revoke_workspace,
}
use ironrun.Access.Step.{
  Step, created, refreshed, fulfilled_secret, approved_lease, approved_workspace, denied_request,
  revoked_lease, paused_workspace, extended_workspace, revoked_workspace, Outcome, kept, made,
  mutate-Outcome,
}

pub data Call : Type 0 where
  create_workspace : Bytes → Bytes → List Bytes → ℕ → Bytes → Call
  create_secret : Bytes → Bytes → Bytes → Bytes → List Bytes → Bytes → Call
  create_lease : Bytes → Bytes → List Bytes → ℕ → Bytes → Call
  list_requests : Call
  fulfill : Bytes → (Request → Bool) → Call
  grant_lease : Bytes → ℕ → Call
  grant_workspace : Bytes → Bytes → ℕ → Call
  refuse : Bytes → Call
  revoke_lease : Bytes → Bytes → Call
  pause : Bytes → Bool → Call
  extend : Bytes → ℕ → Call
  revoke_trust : Bytes → Call

-- The file after a call.
unfoldable pub call : Call → Env → File → File
call (create_workspace session_id environment argv ttl reason) env file =
    (create_workspace_request session_id environment argv ttl reason env file).0
call (create_secret session_id environment alias key commands reason) env file =
    (create_secret_request_for_commands session_id environment alias key commands reason env file).0
call (create_lease session_id environment commands ttl reason) env file =
    (create_lease_request session_id environment commands ttl reason env file).0
call list_requests env file = (requests env file).0
call (fulfill id store) env file = (fulfill_secret_with id store env file).0
call (grant_lease id ttl) env file = (approve_lease id ttl env file).0
call (grant_workspace root id ttl) env file = (approve_workspace root id ttl env file).0
call (refuse id) env file = (deny id env file).0
call (revoke_lease id session_id) env file = (revoke id session_id env file).0
call (pause id paused) env file = (pause_workspace id paused env file).0
call (extend id ttl) env file = (extend_workspace id ttl env file).0
call (revoke_trust id) env file = (revoke_workspace id env file).0

unfoldable pub run : List (Call × Env) → File → File
unfolding call
run [] file = file
run ((c, env) ∷ rest) file = run rest (call c env file)

-- The file is as it was, or holds what one step made of the state in it.
pub data Stepped (file : File) : File → Type 0 where
  same : Stepped file file
  stepped : (st st' : State) → load file ≡ ok st → Step st st' → Stepped file (stored st')

Outcome-Stepped :
    {A : Type 0} (fn : State → Result (State × A)) (file : File) (e : File × Result A)
    → ((st st' : State) (a : A) → fn st ≡ ok (st', a) → Step st st')
    → Outcome fn file e
    → Stepped file e.0
Outcome-Stepped fn file e step (kept x) = same
Outcome-Stepped fn file e step (made st st' a r loaded done) =
    stepped st st' loaded (step st st' a done)

mutate-Stepped :
    {A : Type 0} (fn : State → Result (State × A)) (env : Env) (file : File)
    → ((st st' : State) (a : A) → fn st ≡ ok (st', a) → Step st st')
    → Stepped file (mutate fn env file).0
mutate-Stepped fn env file step =
    Outcome-Stepped fn file (mutate fn env file) step (mutate-Outcome fn env file)

checked-Stepped :
    (c : Result Request) (env : Env) (file : File) → Stepped file (checked c env file).0
unfolding create_request
checked-Stepped (ok c) env file =
    mutate-Stepped (create_in env c) env file (λ st st' r e. created env c r e)
checked-Stepped (err x) env file = same

extend-Stepped :
    (id : Bytes) (ttl : ℕ) (env : Env) (file : File)
    → Stepped file (extend_workspace id ttl env file).0
unfolding extend_workspace
extend-Stepped id ttl env file = elim (Bool-cases (leb ttl 0 || ltb max_lease_ttl ttl)) [
  | inl bad ↦ rw bad same
  | inr good ↦ rw good (
      mutate-Stepped (change_grant id (extend_one ttl env.now)) env file
        (λ st st' g e. extended_workspace id ttl env.now g (ground arith) (ground arith) e))
]

-- Each call, whether it succeeds or fails and however the lock, the random source and the save
-- end, leaves the file as it was or applies exactly one step to the state that it holds.
pub call-Stepped : (c : Call) (env : Env) (file : File) → Stepped file (call c env file)
unfolding call
call-Stepped (create_workspace session_id environment argv ttl reason) env file =
    unfold create_workspace_request in
    checked-Stepped (workspace_candidate session_id environment argv ttl reason) env file
call-Stepped (create_secret session_id environment alias key commands reason) env file =
    unfold create_secret_request_for_commands in
    checked-Stepped (secret_candidate session_id environment alias key commands reason) env file
call-Stepped (create_lease session_id environment commands ttl reason) env file =
    unfold create_lease_request in
    checked-Stepped (lease_candidate session_id environment commands ttl reason) env file
call-Stepped list_requests env file =
    unfold requests in
    mutate-Stepped (λ st. ok (record st { requests = expire env.now st.requests }, tt)) env file
      (λ st st' u e. refreshed env.now (cc))
call-Stepped (fulfill id store) env file =
    unfold fulfill_secret_with resolve_request in
    mutate-Stepped _ env file (λ st st' r e. fulfilled_secret env.now id store r e)
call-Stepped (grant_lease id ttl) env file =
    unfold approve_lease resolve_request in
    mutate-Stepped _ env file (λ st st' l e. approved_lease env id ttl l e)
call-Stepped (grant_workspace root id ttl) env file =
    unfold approve_workspace resolve_request in
    mutate-Stepped _ env file (λ st st' g e. approved_workspace root env id ttl g e)
call-Stepped (refuse id) env file =
    unfold deny resolve_request in
    mutate-Stepped _ env file (λ st st' u e. denied_request env.now id u e)
call-Stepped (revoke_lease id session_id) env file =
    unfold revoke in
    mutate-Stepped _ env file (λ st st' u e. revoked_lease id session_id env.now u e)
call-Stepped (pause id paused) env file =
    unfold pause_workspace in
    mutate-Stepped _ env file (λ st st' u e. paused_workspace id paused env.now u e)
call-Stepped (extend id ttl) env file = extend-Stepped id ttl env file
call-Stepped (revoke_trust id) env file =
    unfold revoke_workspace in
    mutate-Stepped _ env file (λ st st' u e. revoked_workspace id env.now u e)
