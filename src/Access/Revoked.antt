-- ===== src/Access/Revoked.antt =====
-- internal/access/access.go: revocation lasts. Leases and grants are found by their id, the first
-- that has it, as the methods do.
use ironrun.Prelude.{
  ℕ, ◌≡◌, ◌≢◌, ap, sym, subst, ◌∙◌, Bool, true, List, none, some, arith, Bytes, bytes_eq,
  bytes_eq_iff,
}
use ironrun.Access.State.{Lease, WorkspaceGrant, State, ok}
use ironrun.Access.Store.{Env, File, load}
use ironrun.Access.Find.{find_by, Finds, Finds-append, Finds-Updated, Finds-first}
use ironrun.Access.Step.{
  Step, created, refreshed, fulfilled_secret, approved_lease, approved_workspace, denied_request,
  revoked_lease, paused_workspace, extended_workspace, revoked_workspace, Reach, here, next,
}
use ironrun.Access.Calls.{Call, run}
use ironrun.Access.Resolve.{
  resolve_in-Resolved, create_in-eq-ok, revoke_in-eq-ok, change_grant-eq-ok,
}
use ironrun.Access.History.{run-Reach, load-version, load_current, Step-version}
use ironrun.Access.Final.{mutate-eq-ok}
use ironrun.Access.Leases.{revoke_one, revoke_in, revoke}
use ironrun.Access.Workspace.{pause_one, extend_one, revoke_grant, change_grant, revoke_workspace}
use ironrun.Access.Authorize.{Covers, IsLive}

abbrev pub lease_id : Lease → Bytes
lease_id l = l.id

abbrev pub grant_id : WorkspaceGrant → Bytes
grant_id g = g.id

abbrev IsRevokedLease : Lease → Type 0
IsRevokedLease l = l.revoked_at ≢ none

abbrev IsRevokedGrant : WorkspaceGrant → Type 0
IsRevokedGrant g = g.revoked_at ≢ none

abbrev pub LeaseRevoked : Bytes → State → Type 0
LeaseRevoked id st = Finds lease_id IsRevokedLease id st.leases

abbrev pub GrantRevoked : Bytes → State → Type 0
GrantRevoked id st = Finds grant_id IsRevokedGrant id st.workspace_grants

revoke_one_keeps :
    (session_id : Bytes) (now : ℕ) (u : Unit {0}) (old new : Lease)
    → revoke_one session_id now old ≡ ok (new, u)
    → (new.id ≡ old.id) × (IsRevokedLease old → IsRevokedLease new)
unfolding revoke_one
revoke_one_keeps session_id now u old new e = (ground arith, λ h q. h (ground arith))

revoke_one_revokes :
    (session_id : Bytes) (now : ℕ) (u : Unit {0}) (old new : Lease)
    → revoke_one session_id now old ≡ ok (new, u)
    → IsRevokedLease new
unfolding revoke_one
revoke_one_revokes session_id now u old new e = λ q. ground arith

-- A change that a live grant only allows leaves no revoked one to change.
pause_one_keeps :
    (paused : Bool) (now : ℕ) (u : Unit {0}) (old new : WorkspaceGrant)
    → pause_one paused now old ≡ ok (new, u)
    → (new.id ≡ old.id) × (IsRevokedGrant old → IsRevokedGrant new)
unfolding pause_one
pause_one_keeps paused now u old new e = (ground arith, λ h q. h (ground arith))

extend_one_keeps :
    (ttl now : ℕ) (g old new : WorkspaceGrant)
    → extend_one ttl now old ≡ ok (new, g)
    → (new.id ≡ old.id) × (IsRevokedGrant old → IsRevokedGrant new)
unfolding extend_one
extend_one_keeps ttl now g old new e = (ground arith, λ h q. h (ground arith))

revoke_grant_keeps :
    (now : ℕ) (u : Unit {0}) (old new : WorkspaceGrant)
    → revoke_grant now old ≡ ok (new, u)
    → (new.id ≡ old.id) × (IsRevokedGrant old → IsRevokedGrant new)
unfolding revoke_grant
revoke_grant_keeps now u old new e = (ground arith, λ h q. h (ground arith))

revoke_grant_revokes :
    (now : ℕ) (u : Unit {0}) (old new : WorkspaceGrant)
    → revoke_grant now old ≡ ok (new, u)
    → IsRevokedGrant new
unfolding revoke_grant
revoke_grant_revokes now u old new e = λ q. ground arith

Step-LeaseRevoked :
    {st st' : State} (id : Bytes) → Step st st' → LeaseRevoked id st → LeaseRevoked id st'
Step-LeaseRevoked {st} {st'} id (created env candidate x e) h =
    rw (create_in-eq-ok env candidate x st st' e).1 h
Step-LeaseRevoked id (refreshed now is) h = rw is h
Step-LeaseRevoked {st} {st'} id (fulfilled_secret now key store x e) h =
    rw (resolve_in-Resolved now key _ _ _ _ st st' x e).after_is h
Step-LeaseRevoked {st} {st'} id (approved_lease env key ttl l e) h =
    rw (resolve_in-Resolved env.now key _ _ _ _ st st' l e).after_is
      (Finds-append lease_id IsRevokedLease id st.leases _ h)
Step-LeaseRevoked {st} {st'} id (approved_workspace root env key ttl g e) h =
    rw (resolve_in-Resolved env.now key _ _ _ _ st st' g e).after_is h
Step-LeaseRevoked {st} {st'} id (denied_request now key u e) h =
    rw (resolve_in-Resolved now key _ _ _ _ st st' u e).after_is h
Step-LeaseRevoked {st} {st'} id (revoked_lease key session_id now u e) h =
    let (ls, changed, is) = revoke_in-eq-ok key session_id now st st' u e in
    rw is (Finds-Updated lease_id IsRevokedLease id changed (revoke_one_keeps session_id now u) h)
Step-LeaseRevoked {st} {st'} id (paused_workspace key paused now u e) h =
    rw (change_grant-eq-ok key _ st st' u e).2 h
Step-LeaseRevoked {st} {st'} id (extended_workspace key ttl now g lo hi e) h =
    rw (change_grant-eq-ok key _ st st' g e).2 h
Step-LeaseRevoked {st} {st'} id (revoked_workspace key now u e) h =
    rw (change_grant-eq-ok key _ st st' u e).2 h

Step-GrantRevoked :
    {st st' : State} (id : Bytes) → Step st st' → GrantRevoked id st → GrantRevoked id st'
Step-GrantRevoked {st} {st'} id (created env candidate x e) h =
    rw (create_in-eq-ok env candidate x st st' e).1 h
Step-GrantRevoked id (refreshed now is) h = rw is h
Step-GrantRevoked {st} {st'} id (fulfilled_secret now key store x e) h =
    rw (resolve_in-Resolved now key _ _ _ _ st st' x e).after_is h
Step-GrantRevoked {st} {st'} id (approved_lease env key ttl l e) h =
    rw (resolve_in-Resolved env.now key _ _ _ _ st st' l e).after_is h
Step-GrantRevoked {st} {st'} id (approved_workspace root env key ttl g e) h =
    rw (resolve_in-Resolved env.now key _ _ _ _ st st' g e).after_is
      (Finds-append grant_id IsRevokedGrant id st.workspace_grants _ h)
Step-GrantRevoked {st} {st'} id (denied_request now key u e) h =
    rw (resolve_in-Resolved now key _ _ _ _ st st' u e).after_is h
Step-GrantRevoked {st} {st'} id (revoked_lease key session_id now u e) h =
    rw (revoke_in-eq-ok key session_id now st st' u e).2 h
Step-GrantRevoked {st} {st'} id (paused_workspace key paused now u e) h =
    let (gs, changed, is) = change_grant-eq-ok key _ st st' u e in
    rw is (Finds-Updated grant_id IsRevokedGrant id changed (pause_one_keeps paused now u) h)
Step-GrantRevoked {st} {st'} id (extended_workspace key ttl now g lo hi e) h =
    let (gs, changed, is) = change_grant-eq-ok key _ st st' g e in
    rw is (Finds-Updated grant_id IsRevokedGrant id changed (extend_one_keeps ttl now g) h)
Step-GrantRevoked {st} {st'} id (revoked_workspace key now u e) h =
    let (gs, changed, is) = change_grant-eq-ok key _ st st' u e in
    rw is (Finds-Updated grant_id IsRevokedGrant id changed (revoke_grant_keeps now u) h)

Reach-LeaseRevoked :
    {st st' : State} (id : Bytes) → Reach st st' → LeaseRevoked id st → LeaseRevoked id st'
Reach-LeaseRevoked id here h = h
Reach-LeaseRevoked id (next r s) h = Step-LeaseRevoked id s (Reach-LeaseRevoked id r h)

Reach-GrantRevoked :
    {st st' : State} (id : Bytes) → Reach st st' → GrantRevoked id st → GrantRevoked id st'
Reach-GrantRevoked id here h = h
Reach-GrantRevoked id (next r s) h = Step-GrantRevoked id s (Reach-GrantRevoked id r h)

-- After a `Revoke` that succeeded and any later calls, the lease of the id is in the file, revoked,
-- and covers no command of any session at any time.
pub revoke_lasts :
    (id session_id : Bytes) (env : Env) (file file' : File) (calls : List (Call × Env))
    → revoke id session_id env file ≡ (file', ok tt)
    → (st : State) × (load (run calls file') ≡ ok st)
      × (l : Lease) × (find_by lease_id id st.leases ≡ some l)
      × ((now : ℕ) (s v c : Bytes) → ¬ Covers now s v c l)
unfolding revoke
revoke_lasts id session_id env file file' calls e =
    let (st, st', loaded, done, is) =
      mutate-eq-ok (revoke_in id session_id env.now) env file file' tt e in
    let (ls, u, changed) = revoke_in-eq-ok id session_id env.now st st' tt done in
    let version =
      Step-version (revoked_lease id session_id env.now tt done) ∙ load-version file st loaded in
    let (kept_id, _) = revoke_one_keeps session_id env.now tt u.old u.new u.changed in
    let hit : bytes_eq u.new.id id ≡ true =
      (bytes_eq_iff _ _).1 (kept_id ∙ (bytes_eq_iff _ _).0 u.picked) in
    let first =
      Finds-first lease_id IsRevokedLease id u.new u.pre u.post u.not_before hit
        (revoke_one_revokes session_id env.now tt u.old u.new u.changed) in
    let now_revoked : LeaseRevoked id st' =
      rw changed (subst (Finds lease_id IsRevokedLease id) (sym u.after_is) first) in
    let (last, at, reach) = run-Reach calls file' st' (ap load is ∙ load_current st' version) in
    let (l, found, gone) = Reach-LeaseRevoked id reach now_revoked in
    (last, at, l, found, λ now s v c p. gone p.not_revoked)

-- After a `RevokeWorkspace` that succeeded and any later calls, pauses and extensions among them,
-- the grant of the id is in the file, revoked, and live for no session at any time.
pub revoke_workspace_lasts :
    (id : Bytes) (env : Env) (file file' : File) (calls : List (Call × Env))
    → revoke_workspace id env file ≡ (file', ok tt)
    → (st : State) × (load (run calls file') ≡ ok st)
      × (g : WorkspaceGrant) × (find_by grant_id id st.workspace_grants ≡ some g)
      × ((root : Bytes) (now : ℕ) (s v : Bytes) → ¬ IsLive root now s v g)
unfolding revoke_workspace
revoke_workspace_lasts id env file file' calls e =
    let (st, st', loaded, done, is) =
      mutate-eq-ok (change_grant id (revoke_grant env.now)) env file file' tt e in
    let (gs, u, changed) = change_grant-eq-ok id (revoke_grant env.now) st st' tt done in
    let version =
      Step-version (revoked_workspace id env.now tt done) ∙ load-version file st loaded in
    let (kept_id, _) = revoke_grant_keeps env.now tt u.old u.new u.changed in
    let hit : bytes_eq u.new.id id ≡ true =
      (bytes_eq_iff _ _).1 (kept_id ∙ (bytes_eq_iff _ _).0 u.picked) in
    let first =
      Finds-first grant_id IsRevokedGrant id u.new u.pre u.post u.not_before hit
        (revoke_grant_revokes env.now tt u.old u.new u.changed) in
    let now_revoked : GrantRevoked id st' =
      rw changed (subst (Finds grant_id IsRevokedGrant id) (sym u.after_is) first) in
    let (last, at, reach) = run-Reach calls file' st' (ap load is ∙ load_current st' version) in
    let (g, found, gone) = Reach-GrantRevoked id reach now_revoked in
    (last, at, g, found, λ root now s v p. gone p.not_revoked)
