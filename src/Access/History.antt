-- ===== src/Access/History.antt =====
-- internal/access/access.go: a file that calls have written, from none on, holds a state that steps
-- lead to.
use ironrun.Prelude.{ℕ, ◌≡◌, ap, subst, ◌∙◌, List, [], ◌∷◌, arith}
use ironrun.Access.State.{State, state_version, ok}
use ironrun.Access.Store.{Env, File, absent, broken, stored, load}
use ironrun.Access.Step.{
  Step, created, refreshed, fulfilled_secret, approved_lease, approved_workspace, denied_request,
  revoked_lease, paused_workspace, extended_workspace, revoked_workspace, Reach, here, next,
}
use ironrun.Access.Calls.{Call, call, run, Stepped, same, stepped, call-Stepped}
use ironrun.Access.Resolve.{
  resolve_in-Resolved, create_in-eq-ok, revoke_in-eq-ok, change_grant-eq-ok,
}

abbrev version_of : State → ℕ
version_of st = st.version

pub Step-version : {st st' : State} → Step st st' → st'.version ≡ st.version
Step-version {st} {st'} (created env candidate x e) =
    ap version_of (create_in-eq-ok env candidate x st st' e).1
Step-version (refreshed now is) = ap version_of is
Step-version {st} {st'} (fulfilled_secret now id store x e) =
    ap version_of (resolve_in-Resolved now id _ _ _ _ st st' x e).after_is
Step-version {st} {st'} (approved_lease env id ttl l e) =
    ap version_of (resolve_in-Resolved env.now id _ _ _ _ st st' l e).after_is
Step-version {st} {st'} (approved_workspace root env id ttl g e) =
    ap version_of (resolve_in-Resolved env.now id _ _ _ _ st st' g e).after_is
Step-version {st} {st'} (denied_request now id u e) =
    ap version_of (resolve_in-Resolved now id _ _ _ _ st st' u e).after_is
Step-version {st} {st'} (revoked_lease id session_id now u e) =
    ap version_of (revoke_in-eq-ok id session_id now st st' u e).2
Step-version {st} {st'} (paused_workspace id paused now u e) =
    ap version_of (change_grant-eq-ok id _ st st' u e).2
Step-version {st} {st'} (extended_workspace id ttl now g lo hi e) =
    ap version_of (change_grant-eq-ok id _ st st' g e).2
Step-version {st} {st'} (revoked_workspace id now u e) =
    ap version_of (change_grant-eq-ok id _ st st' u e).2

pub load-version : (file : File) (st : State) → load file ≡ ok st → st.version ≡ state_version
unfolding load
load-version absent st e = ground arith
load-version broken st e = cc
load-version (stored s) st e = ground arith

pub load_current : (st : State) → st.version ≡ state_version → load (stored st) ≡ ok st
unfolding load
load_current st h = ground arith

call-Reach :
    (file : File) (st : State) (file' : File)
    → load file ≡ ok st
    → Stepped file file'
    → (st' : State) × (load file' ≡ ok st') × Reach st st'
call-Reach file st file' loaded same = (st, loaded, here)
call-Reach file st file' loaded (stepped s s' at step) =
    let is : s ≡ st = cc in
    (
      s',
      load_current s' (Step-version step ∙ load-version file s at),
      next here (subst (λ t. Step t s') is step),
    )

Reach-trans : {r s t : State} → Reach r s → Reach s t → Reach r t
Reach-trans p here = p
Reach-trans p (next q s) = next (Reach-trans p q) s

-- A file that holds a state holds one after any calls, and steps lead from the one to the other.
pub run-Reach :
    (calls : List (Call × Env)) (file : File) (st : State)
    → load file ≡ ok st
    → (st' : State) × (load (run calls file) ≡ ok st') × Reach st st'
unfolding run
run-Reach [] file st loaded = (st, loaded, here)
run-Reach ((c, env) ∷ rest) file st loaded =
    let (s, loaded', r) = call-Reach file st (call c env file) loaded (call-Stepped c env file) in
    let (t, last, q) = run-Reach rest (call c env file) s loaded' in (t, last, Reach-trans r q)
