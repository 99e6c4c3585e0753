-- ===== src/Access/Tests.antt =====
-- internal/access/access.go: runs of the calls, and the theorems at concrete histories.
use ironrun.Prelude.{
  ℕ, ◌*◌, ◌≡◌, ◌≢◌, ◌↔◌, refl, true, List, [], ◌∷◌, none, some, arith, Bytes, codes, bytes_eq,
  bytes_le, trim_space, join, contains, In,
}
use ironrun.Access.State.{
  second, for_lease, for_workspace, for_secret, fulfilled, approved, denied, Request, Lease,
  WorkspaceGrant, State, not_pending, Result, ok, err, same_kind, is_pending,
}
use ironrun.Access.Reason.{
  canonical_commands, clean_reason, sort_strings, validate_identity, is_blank,
}
use ironrun.Access.Store.{
  Env, saved, File, absent, empty_state, load, mutate, random_id, update_first,
}
use ironrun.Access.Requests.{
  expire, same_request, find_same, create_in, create_request, create_lease_request, lease_candidate,
  create_workspace_request, workspace_candidate, create_secret_request_for_commands,
  secret_candidate,
}
use ironrun.Access.Resolution.{
  resolve_in, resolve_request, fulfill_secret_with, make_lease, make_grant, approve_lease,
  approve_workspace, deny,
}
use ironrun.Access.Leases.{lease_is_live, authorize, revoke}
use ironrun.Access.Workspace.{
  grant_is_live, authorize_workspace, revoke_workspace, pause_workspace, extend_workspace,
}
use ironrun.Access.Calls.{
  Call, create_lease, create_workspace, create_secret, grant_lease, grant_workspace, run,
}
use ironrun.Access.Authorize.{
  Covers, IsLive, authorize_iff, authorize_was_approved, authorize_workspace_was_approved,
}
use ironrun.Access.Final.{fulfill_once, deny_is_final}
use ironrun.Access.Pending.{IsWithin, history-IsWithin}
use ironrun.Access.Find.{find_by}
use ironrun.Access.Revoked.{lease_id, grant_id, revoke_lasts, revoke_workspace_lasts}

abbrev at : ℕ → Env
at now = record { now = now * second; locked = true; fresh = some (codes "0a"); save = saved }

abbrev session : Bytes
session = codes "s1"

abbrev dev : Bytes
dev = codes "dev"

abbrev test : Bytes
test = codes "test"

abbrev leased : List (Call × Env)
leased =
    (create_lease session dev (codes " test " ∷ test ∷ []) 0 (codes "run  tests"), at 1)
    ∷ (grant_lease (codes "req_0a") 0, at 2)
    ∷ []

-- What the runs below open.
opened : Unit {0}
unfolding authorize authorize_workspace lease_is_live grant_is_live run load mutate
    create_lease_request lease_candidate create_workspace_request workspace_candidate
    create_secret_request_for_commands secret_candidate fulfill_secret_with make_lease make_grant
    deny revoke revoke_workspace pause_workspace extend_workspace canonical_commands sort_strings
    trim_space validate_identity clean_reason is_blank join create_request create_in find_same
    same_request expire approve_lease approve_workspace resolve_request resolve_in update_first
    random_id contains bytes_eq bytes_le same_kind is_pending
opened = tt

lease_lets_through : authorize session dev test (at 3) (run leased absent) ≡ ok tt
unfolding opened
lease_lets_through = refl

-- At its last moment and later the lease is over.
lease_is_over : authorize session dev test (at 3602) (run leased absent) ≢ ok tt
unfolding opened
lease_is_over = λ e. ground arith

authorize_was_approved_example :
    (st : State) × (load (run leased absent) ≡ ok st)
    × (r : Request) × In r st.requests
    × (r.kind ≡ for_lease)
    × (r.status ≡ approved)
    × (r.session_id ≡ session)
    × (r.environment ≡ dev)
    × In test r.commands
authorize_was_approved_example =
    authorize_was_approved leased session dev test (at 3) lease_lets_through

authorize_iff_example : (authorize session dev test (at 3) (run leased absent) ≡ ok tt) ↔ (
    (st : State) × (load (run leased absent) ≡ ok st)
    × (l : Lease) × In l st.leases
    × Covers (3 * second) session dev test l)
authorize_iff_example = authorize_iff session dev test (at 3) (run leased absent)

abbrev root : Bytes
root = codes "/p"

abbrev trusted : List (Call × Env)
trusted =
    (create_workspace session dev (codes "go" ∷ []) 0 [], at 1)
    ∷ (grant_workspace root (codes "req_0a") 0, at 2)
    ∷ []

abbrev the_grant : WorkspaceGrant
the_grant = record {
  id = codes "trust_0a";
  request_id = codes "req_0a";
  session_id = session;
  project_root = root;
  environment = dev;
  network = codes "normal";
  created_at = 2 * second;
  expires_at = 7202 * second;
  paused_at = none;
  revoked_at = none;
}

grant_lets_through : authorize_workspace root session dev (at 3) (run trusted absent) ≡ ok the_grant
unfolding opened
grant_lets_through = refl

authorize_workspace_was_approved_example :
    (st : State) × (load (run trusted absent) ≡ ok st)
    × In the_grant st.workspace_grants
    × IsLive root (3 * second) session dev the_grant
    × (r : Request) × In r st.requests
    × (r.id ≡ codes "req_0a")
    × (r.kind ≡ for_workspace)
    × (r.status ≡ approved)
    × (r.session_id ≡ session)
    × (r.environment ≡ dev)
authorize_workspace_was_approved_example =
    authorize_workspace_was_approved trusted root session dev (at 3) the_grant grant_lets_through

abbrev asked : List (Call × Env)
asked = (create_secret session dev (codes "db") (codes "DB") [] [], at 1) ∷ []

abbrev with_asked : File
with_asked = run asked absent

abbrev fulfilled_file : File
fulfilled_file = (fulfill_secret_with (codes "req_0a") (λ _. true) (at 2) with_asked).0

abbrev fulfilled_request : Request
fulfilled_request = record {
  id = codes "req_0a";
  kind = for_secret;
  status = fulfilled;
  session_id = session;
  environment = dev;
  secret_alias = codes "db";
  secret_key = codes "DB";
  commands = [];
  first_argv = [];
  reason = [];
  requested_ttl = 0;
  created_at = 1 * second;
  expires_at = 901 * second;
  resolved_at = none;
  resulting_lease_id = [];
}

fulfils :
    fulfill_secret_with (codes "req_0a") (λ _. true) (at 2) with_asked
    ≡ (fulfilled_file, ok fulfilled_request)
unfolding opened
fulfils = refl

fulfill_once_example :
    fulfill_secret_with (codes "req_0a") (λ _. true) (at 5) (run leased fulfilled_file)
    ≡ (run leased fulfilled_file, err (not_pending fulfilled))
fulfill_once_example =
    fulfill_once (codes "req_0a") (λ _. true) (λ _. true) (at 2) (at 5) with_asked fulfilled_file
      fulfilled_request leased fulfils refl

abbrev denied_file : File
denied_file = (deny (codes "req_0a") (at 2) with_asked).0

denies : deny (codes "req_0a") (at 2) with_asked ≡ (denied_file, ok tt)
unfolding opened
denies = refl

deny_is_final_example :
    (approve_lease (codes "req_0a") 5 (at 9) (run leased denied_file)
      ≡ (run leased denied_file, err (not_pending denied)))
    × (approve_workspace root (codes "req_0a") 5 (at 9) (run leased denied_file)
        ≡ (run leased denied_file, err (not_pending denied)))
    × (fulfill_secret_with (codes "req_0a") (λ _. true) (at 9) (run leased denied_file)
        ≡ (run leased denied_file, err (not_pending denied)))
deny_is_final_example =
    deny_is_final (codes "req_0a") root 5 (λ _. true) (at 2) (at 9) with_asked denied_file leased
      denies refl

abbrev state_in : Result State → State
state_in (ok st) = st
state_in (err e) = empty_state

history-IsWithin_example : IsWithin (state_in (load (run leased absent))).requests
history-IsWithin_example =
    history-IsWithin leased (state_in (load (run leased absent))) (unfold opened in refl)

abbrev revoked_file : File
revoked_file = (revoke (codes "lease_0a") session (at 4) (run leased absent)).0

revokes : revoke (codes "lease_0a") session (at 4) (run leased absent) ≡ (revoked_file, ok tt)
unfolding opened
revokes = refl

revoke_lasts_example :
    (st : State) × (load (run trusted revoked_file) ≡ ok st)
    × (l : Lease) × (find_by lease_id (codes "lease_0a") st.leases ≡ some l)
    × ((now : ℕ) (s v c : Bytes) → ¬ Covers now s v c l)
revoke_lasts_example =
    revoke_lasts (codes "lease_0a") session (at 4) (run leased absent) revoked_file trusted revokes

abbrev distrusted_file : File
distrusted_file = (revoke_workspace (codes "trust_0a") (at 4) (run trusted absent)).0

distrusts :
    revoke_workspace (codes "trust_0a") (at 4) (run trusted absent) ≡ (distrusted_file, ok tt)
unfolding opened
distrusts = refl

revoke_workspace_lasts_example :
    (st : State) × (load (run trusted distrusted_file) ≡ ok st)
    × (g : WorkspaceGrant) × (find_by grant_id (codes "trust_0a") st.workspace_grants ≡ some g)
    × ((root : Bytes) (now : ℕ) (s v : Bytes) → ¬ IsLive root now s v g)
revoke_workspace_lasts_example =
    revoke_workspace_lasts (codes "trust_0a") (at 4) (run trusted absent) distrusted_file trusted
      distrusts
