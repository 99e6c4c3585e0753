-- ===== src/Access/Resolve.antt =====
-- internal/access/access.go: what `resolveRequest` did when it succeeded, and what every call leaves
-- of a request that is no longer pending.
use ironrun.Prelude.{
  ℕ, ◌≡◌, ◌≢◌, refl, ap, sym, subst, ◌∙◌, inl, inr, Bool, true, false, List, [], ◌∷◌, ◌++◌, Option,
  none, some, arith, Bytes, bytes_eq, bytes_eq_iff, codes, In, In-append, All, ltb, append-nil,
}
use ironrun.Access.State.{
  max_pending_session, too_many_pending, RequestKind, RequestStatus, pending, Request, Lease,
  WorkspaceGrant, State, Error, not_pending, wrong_kind, Result, ok, guard, is_pending,
}
use ironrun.Access.Store.{Env, random_id}
use ironrun.Access.Requests.{expire, expire_one, create_in, add_request, find_same}
use ironrun.Access.Resolution.{allowed, resolve_one, resolve_in}
use ironrun.Access.Leases.{revoke_in, revoke_one}
use ironrun.Access.Workspace.{change_grant}
use ironrun.Access.Update.{bind-eq-ok, Updated, update_first-Updated, In-changed}
use ironrun.Access.Step.{
  Step, created, refreshed, fulfilled_secret, approved_lease, approved_workspace, denied_request,
  revoked_lease, paused_workspace, extended_workspace, revoked_workspace,
}

pub guard-eq-ok : (b : Bool) (e : Error) (u : Unit {0}) → guard b e ≡ ok u → b ≡ true
guard-eq-ok true e u h = refl
guard-eq-ok false e u h = cc

pub is_pending_iff : (s : RequestStatus) → is_pending s ≡ true → s ≡ pending
unfolding is_pending
is_pending_iff pending h = refl
is_pending_iff _ h = cc

module _ {B : Type 0} where
  -- One pending request of the allowed kind with the id was resolved, once those past their time
  -- had expired; the others are as they were.
  pub record Resolved (now : ℕ) (id : Bytes) (kind : Option RequestKind) (status : RequestStatus)
      (fn : Request → Result (Request × B)) (attach : State → B → State) (st st' : State) (b : B)
      : Type 0 where
    pub pre : List Request
    pub old : Request
    pub new : Request
    pub post : List Request
    pub before_is : expire now st.requests ≡ pre ++ old ∷ post
    pub not_before : All (λ (r : Request). bytes_eq r.id id ≡ false) pre
    pub id_is : old.id ≡ id
    pub was_pending : old.status ≡ pending
    pub kind_allowed : allowed kind old.kind ≡ true
    pub made : fn old ≡ ok (new, b)
    pub after_is :
        st'
        ≡ attach
            (record st {
              requests = pre ++ (record new { status = status; resolved_at = some now }) ∷ post;
            })
            b

  resolve_one-eq-ok :
      (now : ℕ) (kind : Option RequestKind) (status : RequestStatus)
      (fn : Request → Result (Request × B)) (r r' : Request) (b : B)
      → resolve_one now kind status fn r ≡ ok (r', b)
      → (is_pending r.status ≡ true)
        × (allowed kind r.kind ≡ true)
        × (new : Request) × (fn r ≡ ok (new, b))
        × (r' ≡ record new { status = status; resolved_at = some now })
  unfolding resolve_one
  resolve_one-eq-ok now kind status fn r r' b e =
      let (u, is_pend, e1) = bind-eq-ok (guard (is_pending r.status) (not_pending r.status)) _ e in
      let (v, allows, e2) = bind-eq-ok (guard (allowed kind r.kind) (wrong_kind r.kind)) _ e1 in
      let ((new, c), made, e3) = bind-eq-ok (fn r) _ e2 in
      (guard-eq-ok _ _ u is_pend, guard-eq-ok _ _ v allows, new, made ∙ cc, cc)

  resolved_state :
      (attach : State → B → State) (st st' : State) (rs qs : List Request) (c b : B)
      → ◌≡◌ {A = Result (State × B)} (ok (attach (record st { requests = rs }) c, c)) (ok (st', b))
      → rs ≡ qs
      → st' ≡ attach (record st { requests = qs }) b
  resolved_state attach st st' rs qs c b e h =
      let c_is : c ≡ b = cc in
      let st_is : attach (record st { requests = rs }) c ≡ st' = cc in
      sym st_is
      ∙ ap (λ (x : List Request). attach (record st { requests = x }) c) h
      ∙ ap (λ x. attach (record st { requests = qs }) x) c_is

  pub resolve_in-Resolved :
      (now : ℕ) (id : Bytes) (kind : Option RequestKind) (status : RequestStatus)
      (fn : Request → Result (Request × B)) (attach : State → B → State) (st st' : State) (b : B)
      → resolve_in now id kind status fn attach st ≡ ok (st', b)
      → Resolved now id kind status fn attach st st' b
  unfolding resolve_in
  resolve_in-Resolved now id kind status fn attach st st' b e =
      let ((rs, c), found, same) =
        bind-eq-ok _ (λ (p : List Request × B). ok (attach (record st { requests = p.0 }) p.1, p.1))
          e in
      let u = update_first-Updated _ _ _ rs b (found ∙ cc) in
      let (waits, allows, made, fine, is) =
        resolve_one-eq-ok now kind status fn u.old u.new b u.changed in
      record {
        pre = u.pre;
        old = u.old;
        new = made;
        post = u.post;
        before_is = u.before_is;
        not_before = u.not_before;
        id_is = (bytes_eq_iff u.old.id id).0 u.picked;
        was_pending = is_pending_iff u.old.status waits;
        kind_allowed = allows;
        made = fine;
        after_is =
            resolved_state attach st st' rs _ c b same
              (u.after_is ∙ ap (λ x. u.pre ++ x ∷ u.post) is);
      }

expire-keeps :
    (now : ℕ) (r : Request) (rs : List Request)
    → r.status ≢ pending
    → In r rs
    → In r (expire now rs)
unfolding expire expire_one
expire-keeps now r [] h m = m
expire-keeps now r (x ∷ rs) h (inl e) =
    inl (e ∙ sym (ground (arith, ap (λ (y : Request). y.status) e)))
expire-keeps now r (x ∷ rs) h (inr m) = inr (expire-keeps now r rs h m)

-- A resolution leaves the requests that were not pending.
Resolved-keeps :
    {B : Type 0} {now : ℕ} {id : Bytes} {kind : Option RequestKind} {status : RequestStatus}
    {fn : Request → Result (Request × B)} {attach : State → B → State} {st st' : State} {b : B}
    (r : Request)
    → Resolved now id kind status fn attach st st' b
    → ((s : State) (c : B) → (attach s c).requests ≡ s.requests)
    → r.status ≢ pending
    → In r st.requests
    → In r st'.requests
Resolved-keeps {now = now} {b = b} r p same h m =
    let at = subst (In r) p.before_is (expire-keeps now r _ h m) in
    let requests_are = ap (λ (s : State). s.requests) p.after_is ∙ same _ b in
    elim (In-changed r p.old _ p.pre p.post at) [
      | inl e ↦ absurd (h (ap (λ (x : Request). x.status) e ∙ p.was_pending))
      | inr n ↦ subst (In r) (sym requests_are) n
    ]

-- `createRequest` returns a request that was there and leaves the state, or adds one at the end.
pub create_in-eq-ok :
    (env : Env) (candidate r : Request) (st st' : State)
    → create_in env candidate st ≡ ok (st', r)
    → (extra : List Request) × (st' ≡ record st { requests = expire env.now st.requests ++ extra })
unfolding create_in
create_in-eq-ok env candidate r st st' =
    let start = record st { requests = expire env.now st.requests } in
    go start (find_same candidate 0 start.requests)
  where
    go :
        (start : State) (found : Option Request × ℕ)
        → add_request env candidate start found ≡ ok (st', r)
        → (extra : List Request) × (st' ≡ record start { requests = start.requests ++ extra })
    go start (some x, n) e = ([], unfold add_request in cc (append-nil start.requests))
    go start (none, n) e =
        unfold add_request in
        let (u, room, e1) = bind-eq-ok (guard (ltb n max_pending_session) too_many_pending) _ e in
        let (id, fresh, e2) = bind-eq-ok (random_id (codes "req") env) _ e1 in (r ∷ [], cc)

-- `Revoke` changes one lease, and the grant methods one grant.
pub revoke_in-eq-ok :
    (id session_id : Bytes) (now : ℕ) (st st' : State) (u : Unit {0})
    → revoke_in id session_id now st ≡ ok (st', u)
    → (ls : List Lease) × Updated
        (λ (l : Lease). bytes_eq l.id id)
        (revoke_one session_id now)
        st.leases
        ls
        u
      × (st' ≡ record st { leases = ls })
unfolding revoke_in
revoke_in-eq-ok id session_id now st st' u e =
    let ((ls, v), found, same) =
      bind-eq-ok _ (λ (p : List Lease × Unit {0}). ok (record st { leases = p.0 }, p.1)) e in
    (ls, update_first-Updated _ _ _ ls u (found ∙ cc), cc)

pub change_grant-eq-ok :
    {B : Type 0} (id : Bytes) (change : WorkspaceGrant → Result (WorkspaceGrant × B))
    (st st' : State) (b : B)
    → change_grant id change st ≡ ok (st', b)
    → (gs : List WorkspaceGrant) × Updated
        (λ (g : WorkspaceGrant). bytes_eq g.id id)
        change
        st.workspace_grants
        gs
        b
      × (st' ≡ record st { workspace_grants = gs })
unfolding change_grant
change_grant-eq-ok id change st st' b e =
    let ((gs, c), found, same) =
      bind-eq-ok _ (λ (p : List WorkspaceGrant × _). ok (record st { workspace_grants = p.0 }, p.1))
        e in
    (gs, update_first-Updated _ _ _ gs b (found ∙ cc), cc)

-- A request that is no longer pending stays as it is, whatever call comes next.
pub Step-keeps_resolved :
    {st st' : State} (r : Request)
    → Step st st'
    → r.status ≢ pending
    → In r st.requests
    → In r st'.requests
Step-keeps_resolved {st} r (created env candidate x e) h m =
    let (extra, is) = create_in-eq-ok env candidate x st _ e in
    rw is (In-append r _ extra (inl (expire-keeps env.now r st.requests h m)))
Step-keeps_resolved {st} r (refreshed now is) h m = rw is (expire-keeps now r st.requests h m)
Step-keeps_resolved {st} r (fulfilled_secret now id store x e) h m =
    Resolved-keeps r (resolve_in-Resolved now id _ _ _ _ st _ x e) (λ s c. refl) h m
Step-keeps_resolved {st} r (approved_lease env id ttl l e) h m =
    Resolved-keeps r (resolve_in-Resolved env.now id _ _ _ _ st _ l e) (λ s c. refl) h m
Step-keeps_resolved {st} r (approved_workspace root env id ttl g e) h m =
    Resolved-keeps r (resolve_in-Resolved env.now id _ _ _ _ st _ g e) (λ s c. refl) h m
Step-keeps_resolved {st} r (denied_request now id u e) h m =
    Resolved-keeps r (resolve_in-Resolved now id _ _ _ _ st _ u e) (λ s c. refl) h m
Step-keeps_resolved {st} r (revoked_lease id session_id now u e) h m =
    let (ls, _, is) = revoke_in-eq-ok id session_id now st _ u e in rw is m
Step-keeps_resolved {st} r (paused_workspace id paused now u e) h m =
    let (gs, _, is) = change_grant-eq-ok id _ st _ u e in rw is m
Step-keeps_resolved {st} r (extended_workspace id ttl now g lo hi e) h m =
    let (gs, _, is) = change_grant-eq-ok id _ st _ g e in rw is m
Step-keeps_resolved {st} r (revoked_workspace id now u e) h m =
    let (gs, _, is) = change_grant-eq-ok id _ st _ u e in rw is m
