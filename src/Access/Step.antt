-- ===== src/Access/Step.antt =====
-- internal/access/access.go: the calls that change the access state, as a step relation. Which
-- session or human makes the next call, when, and with which random bytes is left open.
use ironrun.Prelude.{ℕ, ◌<◌, ◌≤◌, ◌≡◌, refl, inl, inr, Bool, none, some, Bytes, Bool-cases}
use ironrun.Access.State.{
  max_lease_ttl, for_secret, for_lease, for_workspace, fulfilled, approved, denied, Request, Lease,
  WorkspaceGrant, State, Error, Result, ok, err, ◌>>=◌, lock_timeout,
}
use ironrun.Access.Store.{
  Env, Save, saved, saved_with_error, not_saved, File, stored, load, mutate, commit, save_atomic,
}
use ironrun.Access.Update.{bind-eq-ok}
use ironrun.Access.Requests.{expire, create_in}
use ironrun.Access.Resolution.{resolve_in, run_commit, make_lease, make_grant, add_lease, add_grant}
use ironrun.Access.Leases.{revoke_in}
use ironrun.Access.Workspace.{change_grant, pause_one, extend_one, revoke_grant}

pub data Step (st st' : State) : Type 0 where
  created :
      (env : Env) (candidate r : Request) → create_in env candidate st ≡ ok (st', r) → Step st st'
  refreshed : (now : ℕ) → st' ≡ record st { requests = expire now st.requests } → Step st st'
  fulfilled_secret :
      (now : ℕ) (id : Bytes) (store : Request → Bool) (r : Request)
      → resolve_in now id (some for_secret) fulfilled (run_commit store) (λ s _. s) st ≡ ok (st', r)
      → Step st st'
  approved_lease :
      (env : Env) (id : Bytes) (ttl : ℕ) (l : Lease)
      → resolve_in env.now id (some for_lease) approved (make_lease ttl env) add_lease st
        ≡ ok (st', l)
      → Step st st'
  approved_workspace :
      (root : Bytes) (env : Env) (id : Bytes) (ttl : ℕ) (g : WorkspaceGrant)
      → resolve_in env.now id (some for_workspace) approved (make_grant root ttl env) add_grant st
        ≡ ok (st', g)
      → Step st st'
  denied_request :
      (now : ℕ) (id : Bytes) (u : Unit {0})
      → resolve_in now id none denied (λ r. ok (r, tt)) (λ s _. s) st ≡ ok (st', u)
      → Step st st'
  revoked_lease :
      (id session_id : Bytes) (now : ℕ) (u : Unit {0})
      → revoke_in id session_id now st ≡ ok (st', u)
      → Step st st'
  paused_workspace :
      (id : Bytes) (paused : Bool) (now : ℕ) (u : Unit {0})
      → change_grant id (pause_one paused now) st ≡ ok (st', u)
      → Step st st'
  extended_workspace :
      (id : Bytes) (ttl now : ℕ) (g : WorkspaceGrant)
      → 0 < ttl
      → ttl ≤ max_lease_ttl
      → change_grant id (extend_one ttl now) st ≡ ok (st', g)
      → Step st st'
  revoked_workspace :
      (id : Bytes) (now : ℕ) (u : Unit {0})
      → change_grant id (revoke_grant now) st ≡ ok (st', u)
      → Step st st'

-- The states that calls lead to.
pub data Reach (st : State) : State → Type 0 where
  here : Reach st st
  next : {s t : State} → Reach st s → Step s t → Reach st t

-- The state that a file holds, as `load` gives it.
abbrev pub Loads : File → State → Type 0
Loads file st = load file ≡ ok st

-- What one call does to the file: it is as it was, or it holds what the call made of the state
-- that was loaded. An error other than that of a completed save means the first.
pub data Outcome {A : Type 0} (fn : State → Result (State × A)) (file : File)
    : File × Result A → Type 0 where
  kept : (e : Error) → Outcome fn file (file, err e)
  made :
      (st st' : State) (a : A) (r : Result A)
      → load file ≡ ok st
      → fn st ≡ ok (st', a)
      → Outcome fn file (stored st', r)

commit-Outcome :
    {A : Type 0} (fn : State → Result (State × A)) (file : File) (how : Save)
    (r : Result (State × A))
    → (load file >>= fn) ≡ r
    → Outcome fn file (commit how file r)
unfolding commit save_atomic
commit-Outcome fn file how (err e) h = kept e
commit-Outcome fn file saved (ok (st', a)) h =
    let (st, loaded, done) = bind-eq-ok (load file) fn h in made st st' a (ok a) loaded done
commit-Outcome fn file saved_with_error (ok (st', a)) h =
    let (st, loaded, done) = bind-eq-ok (load file) fn h in
    made st st' a (err Error.save_failed) loaded done
commit-Outcome fn file not_saved (ok (st', a)) h = kept Error.save_failed

-- Every call is atomic.
pub mutate-Outcome :
    {A : Type 0} (fn : State → Result (State × A)) (env : Env) (file : File)
    → Outcome fn file (mutate fn env file)
unfolding mutate
mutate-Outcome {A} fn env file = elim (Bool-cases env.locked) [
  | inl free ↦ rw free (commit-Outcome fn file env.save (load file >>= fn) refl)
  | inr taken ↦ rw taken (kept lock_timeout)
]
