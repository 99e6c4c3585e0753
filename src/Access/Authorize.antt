-- ===== src/Access/Authorize.antt =====
-- internal/access/access.go: what `Authorize` and `AuthorizeWorkspace` let through.
use mathlib.Core.Bool.{false≢true}
use ironrun.Prelude.{
  contains_iff, ℕ, ◌<◌, ◌≡◌, ◌↔◌, refl, sym, subst, ◌∙◌, inl, inr, true, List, [], ◌∷◌, none, arith,
  Bytes, bytes_eq_iff, contains, if◌then◌else◌, Bool-cases, not, In, All-In,
}
use ironrun.Access.State.{
  for_lease, for_workspace, approved, Request, Lease, WorkspaceGrant, State, ok,
}
use ironrun.Access.Store.{Env, File, absent, empty_state, load}
use ironrun.Access.Update.{bind-eq-ok}
use ironrun.Access.Leases.{lease_is_live, find_lease, authorize}
use ironrun.Access.Workspace.{grant_is_live, find_grant, authorize_workspace}
use ironrun.Access.Calls.{Call, run}
use ironrun.Access.Backed.{LeaseBacked, GrantBacked, IsBacked, Reach-IsBacked}
use ironrun.Access.History.{run-Reach}

-- The lease covers the command of the session in the environment at the time.
pub record Covers (now : ℕ) (session_id environment command : Bytes) (l : Lease) : Type 0 where
  pub session_is : l.session_id ≡ session_id
  pub environment_is : l.environment ≡ environment
  pub not_revoked : l.revoked_at ≡ none
  pub not_over : now < l.expires_at
  pub command_in : In command l.commands

lease_is_live_iff :
    (now : ℕ) (s v : Bytes) (l : Lease)
    → (lease_is_live now s v l ≡ true)
      ↔ ((l.session_id ≡ s) × (l.environment ≡ v) × (l.revoked_at ≡ none) × (now < l.expires_at))
unfolding lease_is_live
lease_is_live_iff now s v l =
    ground (arith, bytes_eq_iff l.session_id s, bytes_eq_iff l.environment v)

find_lease_sound :
    (now : ℕ) (s v c : Bytes) (ls : List Lease)
    → find_lease now s v c ls ≡ ok tt
    → (l : Lease) × In l ls × Covers now s v c l
unfolding find_lease
find_lease_sound now s v c [] e = cc
find_lease_sound now s v c (l ∷ ls) e = elim (Bool-cases (lease_is_live now s v l)) [
  | inr over ↦ let (k, m, p) = find_lease_sound now s v c ls (rw over at e) in (k, inr m, p)
  | inl live ↦ elim (Bool-cases (contains l.commands c)) [
    | inl held ↦
        let (a, b, d, f) = (lease_is_live_iff now s v l).0 live in
        (
          l,
          inl refl,
          record {
            session_is = a;
            environment_is = b;
            not_revoked = d;
            not_over = f;
            command_in = (contains_iff l.commands c).0 held;
          },
        )
    | inr other ↦
        let (k, m, p) = find_lease_sound now s v c ls (rw (live, other) at e) in (k, inr m, p)
  ]
]

find_lease_complete :
    (now : ℕ) (s v c : Bytes) (ls : List Lease) (l : Lease)
    → In l ls
    → Covers now s v c l
    → find_lease now s v c ls ≡ ok tt
unfolding find_lease
find_lease_complete now s v c [] l m p = absurd m
find_lease_complete now s v c (k ∷ ls) l (inl e) p =
    let live =
      (lease_is_live_iff now s v l).1 (p.session_is, p.environment_is, p.not_revoked, p.not_over) in
    let held = (contains_iff l.commands c).1 p.command_in in
    subst
      (λ x.
        (if not (lease_is_live now s v x)
          then find_lease now s v c ls
          else if contains x.commands c
          then ok tt
          else find_lease now s v c ls)
        ≡ ok tt)
      e (rw (live, held) refl)
find_lease_complete now s v c (k ∷ ls) l (inr m) p =
    ground (arith, find_lease_complete now s v c ls l m p)

-- `Authorize` returns no error exactly when the file can be read and holds a lease of the session,
-- for the environment, with the command among its commands, neither revoked nor over at the time.
pub authorize_iff :
    (s v c : Bytes) (env : Env) (file : File)
    → (authorize s v c env file ≡ ok tt)
      ↔ ((st : State) × (load file ≡ ok st) × (l : Lease) × In l st.leases × Covers env.now s v c l)
unfolding authorize
authorize_iff s v c env file = (
  (λ e.
      let (st, loaded, found) = bind-eq-ok (load file) _ e in
      let (l, m, p) = find_lease_sound env.now s v c st.leases found in (st, loaded, l, m, p)),
  (λ (st, loaded, l, m, p). rw loaded (find_lease_complete env.now s v c st.leases l m p)),
)

-- A written file holds backed leases and grants.
history-IsBacked :
    (calls : List (Call × Env)) (st : State) → load (run calls absent) ≡ ok st → IsBacked st
history-IsBacked calls st loaded =
    let (st', loaded', reach) = run-Reach calls absent empty_state (unfold load in refl) in
    let same : st' ≡ st = cc in
    let start : IsBacked empty_state = record { leases_backed = tt; grants_backed = tt } in
    subst IsBacked same (Reach-IsBacked reach start)

-- After any calls on a project with no access file, whatever their order, times and failures: if
-- `Authorize` lets a command through, the file holds a lease request of that session for that
-- environment that names the command and was approved.
pub authorize_was_approved :
    (calls : List (Call × Env)) (s v c : Bytes) (env : Env)
    → authorize s v c env (run calls absent) ≡ ok tt
    → (st : State) × (load (run calls absent) ≡ ok st)
      × (r : Request) × In r st.requests
      × (r.kind ≡ for_lease)
      × (r.status ≡ approved)
      × (r.session_id ≡ s)
      × (r.environment ≡ v)
      × In c r.commands
authorize_was_approved calls s v c env e =
    let (st, loaded, l, m, p) = (authorize_iff s v c env (run calls absent)).0 e in
    let backed = history-IsBacked calls st loaded in
    let b = All-In (LeaseBacked st.requests) st.leases l backed.leases_backed m in
    (
      st,
      loaded,
      b.request,
      b.stands,
      b.kind_is,
      b.status_is,
      b.session_is ∙ p.session_is,
      b.environment_is ∙ p.environment_is,
      subst (In c) (sym b.commands_are) p.command_in,
    )

-- The grant is live for the session in the environment of this project at the time.
pub record IsLive (root : Bytes) (now : ℕ) (session_id environment : Bytes) (g : WorkspaceGrant)
    : Type 0 where
  pub session_is : g.session_id ≡ session_id
  pub root_is : g.project_root ≡ root
  pub environment_is : g.environment ≡ environment
  pub not_paused : g.paused_at ≡ none
  pub not_revoked : g.revoked_at ≡ none
  pub not_over : now < g.expires_at

grant_is_live_iff :
    (root : Bytes) (now : ℕ) (s v : Bytes) (g : WorkspaceGrant)
    → (grant_is_live root now s v g ≡ true) ↔ IsLive root now s v g
unfolding grant_is_live
grant_is_live_iff root now s v g = (
  (λ h. record {
    session_is = ground (arith, bytes_eq_iff g.session_id s);
    root_is = ground (arith, bytes_eq_iff g.project_root root);
    environment_is = ground (arith, bytes_eq_iff g.environment v);
    not_paused = ground arith;
    not_revoked = ground arith;
    not_over = ground arith;
  }),
  (λ p. ground (
    arith,
    bytes_eq_iff g.session_id s,
    bytes_eq_iff g.project_root root,
    bytes_eq_iff g.environment v,
    p.session_is,
    p.root_is,
    p.environment_is,
    p.not_paused,
    p.not_revoked,
    p.not_over,
  )),
)

find_grant_sound :
    (root : Bytes) (now : ℕ) (s v : Bytes) (gs : List WorkspaceGrant) (g : WorkspaceGrant)
    → find_grant root now s v gs ≡ ok g
    → In g gs × IsLive root now s v g
unfolding find_grant
find_grant_sound root now s v [] g e = cc
find_grant_sound root now s v (k ∷ gs) g e = elim (Bool-cases (grant_is_live root now s v k)) [
  | inl live ↦
      let same : k ≡ g = cc (rw live at e) in
      (inl (sym same), subst (IsLive root now s v) same ((grant_is_live_iff root now s v k).0 live))
  | inr dead ↦ let (m, p) = find_grant_sound root now s v gs g (rw dead at e) in (inr m, p)
]

find_grant_complete :
    (root : Bytes) (now : ℕ) (s v : Bytes) (gs : List WorkspaceGrant) (g : WorkspaceGrant)
    → In g gs
    → IsLive root now s v g
    → (k : WorkspaceGrant) × (find_grant root now s v gs ≡ ok k)
unfolding find_grant
find_grant_complete root now s v [] g m p = absurd m
find_grant_complete root now s v (k ∷ gs) g m p = elim (Bool-cases (grant_is_live root now s v k)) [
  | inl live ↦ (k, rw live)
  | inr dead ↦ elim m [
    | inl e ↦ absurd (
        false≢true
          (sym dead ∙ (grant_is_live_iff root now s v k).1 (subst (IsLive root now s v) e p)))
    | inr n ↦ let (j, found) = find_grant_complete root now s v gs g n p in (j, rw dead found)
  ]
]

-- After any calls on a project with no access file: `AuthorizeWorkspace` returns a grant only if
-- the file holds it, live for the session, the environment and this project root, and holds the
-- approved workspace request of the same session and environment that it came from.
pub authorize_workspace_was_approved :
    (calls : List (Call × Env)) (root s v : Bytes) (env : Env) (g : WorkspaceGrant)
    → authorize_workspace root s v env (run calls absent) ≡ ok g
    → (st : State) × (load (run calls absent) ≡ ok st)
      × In g st.workspace_grants
      × IsLive root env.now s v g
      × (r : Request) × In r st.requests
      × (r.id ≡ g.request_id)
      × (r.kind ≡ for_workspace)
      × (r.status ≡ approved)
      × (r.session_id ≡ s)
      × (r.environment ≡ v)
unfolding authorize_workspace
authorize_workspace_was_approved calls root s v env g e =
    let (st, loaded, found) = bind-eq-ok (load (run calls absent)) _ e in
    let (m, p) = find_grant_sound root env.now s v st.workspace_grants g found in
    let backed = history-IsBacked calls st loaded in
    let b = All-In (GrantBacked st.requests) st.workspace_grants g backed.grants_backed m in
    (
      st,
      loaded,
      m,
      p,
      b.request,
      b.stands,
      b.id_is,
      b.kind_is,
      b.status_is,
      b.session_is ∙ p.session_is,
      b.environment_is ∙ p.environment_is,
    )

-- A live grant in the file is enough: `AuthorizeWorkspace` then returns a live grant.
pub authorize_workspace_complete :
    (root s v : Bytes) (env : Env) (file : File) (st : State) (g : WorkspaceGrant)
    → load file ≡ ok st
    → In g st.workspace_grants
    → IsLive root env.now s v g
    → (k : WorkspaceGrant) × (authorize_workspace root s v env file ≡ ok k)
      × In k st.workspace_grants
      × IsLive root env.now s v k
unfolding authorize_workspace
authorize_workspace_complete root s v env file st g loaded m p =
    let (k, found) = find_grant_complete root env.now s v st.workspace_grants g m p in
    let (n, q) = find_grant_sound root env.now s v st.workspace_grants k found in
    (k, rw loaded found, n, q)
