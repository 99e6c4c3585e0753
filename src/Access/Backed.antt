-- ===== src/Access/Backed.antt =====
-- internal/access/access.go: every lease and every workspace grant goes back to a request that a
-- human approved, for the same session and environment.
use ironrun.Prelude.{
  ℕ, ◌+◌, ◌≤◌, ◌≡◌, ◌≢◌, refl, ap, sym, subst, ◌∙◌, inl, inr, Bool, true, List, ◌∷◌, ◌++◌, some,
  arith, Bytes, codes, leb, In, In-append, All, All-append, All-of_append, All-map,
}
use ironrun.Access.State.{
  max_lease_ttl, default_lease_ttl, default_workspace_ttl, ttl_out_of_range, RequestKind, for_lease,
  for_workspace, RequestStatus, pending, approved, Request, Lease, WorkspaceGrant, State, Result,
  ok, guard, same_kind,
}
use ironrun.Access.Store.{Env, random_id}
use ironrun.Access.Requests.{or_default}
use ironrun.Access.Resolution.{allowed, make_lease, make_grant, grant_ttl}
use ironrun.Access.Leases.{revoke_one}
use ironrun.Access.Workspace.{pause_one, extend_one, revoke_grant}
use ironrun.Access.Update.{bind-eq-ok, Updated}
use ironrun.Access.Step.{
  Step, created, refreshed, fulfilled_secret, approved_lease, approved_workspace, denied_request,
  revoked_lease, paused_workspace, extended_workspace, revoked_workspace, Reach, here, next,
}
use ironrun.Access.Resolve.{
  guard-eq-ok, resolve_in-Resolved, create_in-eq-ok, revoke_in-eq-ok, change_grant-eq-ok,
  Step-keeps_resolved,
}

-- An approved request for leases, with the session, the environment and the commands of the lease.
-- The lease lasts at most a day.
pub record LeaseBacked (rs : List Request) (l : Lease) : Type 0 where
  pub request : Request
  pub stands : In request rs
  pub id_is : request.id ≡ l.request_id
  pub kind_is : request.kind ≡ for_lease
  pub status_is : request.status ≡ approved
  pub session_is : request.session_id ≡ l.session_id
  pub environment_is : request.environment ≡ l.environment
  pub commands_are : request.commands ≡ l.commands
  pub lasts : l.expires_at ≤ l.created_at + max_lease_ttl

-- An approved request for the workspace, with the session and the environment of the grant.
pub record GrantBacked (rs : List Request) (g : WorkspaceGrant) : Type 0 where
  pub request : Request
  pub stands : In request rs
  pub id_is : request.id ≡ g.request_id
  pub kind_is : request.kind ≡ for_workspace
  pub status_is : request.status ≡ approved
  pub session_is : request.session_id ≡ g.session_id
  pub environment_is : request.environment ≡ g.environment

pub record IsBacked (st : State) : Type 0 where
  pub leases_backed : All (LeaseBacked st.requests) st.leases
  pub grants_backed : All (GrantBacked st.requests) st.workspace_grants

-- The requests that are not pending are still there.
abbrev Keeps : List Request → List Request → Type 0
Keeps rs rs' = (r : Request) → r.status ≢ pending → In r rs → In r rs'

approved-ne-pending : (s : RequestStatus) → s ≡ approved → s ≢ pending
approved-ne-pending s h = λ e. cc

LeaseBacked-Keeps :
    (rs rs' : List Request) (l : Lease) → Keeps rs rs' → LeaseBacked rs l → LeaseBacked rs' l
LeaseBacked-Keeps rs rs' l keeps b = record {
  request = b.request;
  stands = keeps b.request (approved-ne-pending _ b.status_is) b.stands;
  id_is = b.id_is;
  kind_is = b.kind_is;
  status_is = b.status_is;
  session_is = b.session_is;
  environment_is = b.environment_is;
  commands_are = b.commands_are;
  lasts = b.lasts;
}

GrantBacked-Keeps :
    (rs rs' : List Request) (g : WorkspaceGrant)
    → Keeps rs rs'
    → GrantBacked rs g
    → GrantBacked rs' g
GrantBacked-Keeps rs rs' g keeps b = record {
  request = b.request;
  stands = keeps b.request (approved-ne-pending _ b.status_is) b.stands;
  id_is = b.id_is;
  kind_is = b.kind_is;
  status_is = b.status_is;
  session_is = b.session_is;
  environment_is = b.environment_is;
}

module _ (st st' : State) (keeps : Keeps st.requests st'.requests) (b : IsBacked st) where
  old_leases : All (LeaseBacked st'.requests) st.leases
  old_leases =
      All-map st.leases (λ l. LeaseBacked-Keeps st.requests st'.requests l keeps) b.leases_backed

  old_grants : All (GrantBacked st'.requests) st.workspace_grants
  old_grants =
      All-map st.workspace_grants (λ g. GrantBacked-Keeps st.requests st'.requests g keeps)
        b.grants_backed

  same-IsBacked : st'.leases ≡ st.leases → st'.workspace_grants ≡ st.workspace_grants → IsBacked st'
  same-IsBacked ls gs = record {
    leases_backed = rw ls old_leases;
    grants_backed = rw gs old_grants;
  }

grant_ttl-le :
    (ttl requested d given : ℕ) → grant_ttl ttl requested d ≡ ok given → given ≤ max_lease_ttl
unfolding grant_ttl
grant_ttl-le ttl requested d given e =
    let asked = or_default (or_default ttl requested) d in
    let (u, fits, same) =
      bind-eq-ok (guard (leb asked max_lease_ttl) ttl_out_of_range) (λ _. ok asked) e in
    let within = guard-eq-ok _ _ u fits in let is : asked ≡ given = cc in rw (← is) (ground arith)

same_kind_iff : (a b : RequestKind) → same_kind a b ≡ true → a ≡ b
unfolding same_kind
same_kind_iff RequestKind.for_secret b h = ground arith
same_kind_iff for_lease b h = ground arith
same_kind_iff for_workspace b h = ground arith

module _ (ttl now' : ℕ) (env : Env) (old new : Request) (pre post : List Request) where
  abbrev resolved : Request
  resolved = record new { status = approved; resolved_at = some now' }

  make_lease-LeaseBacked :
      (l : Lease)
      → make_lease ttl env old ≡ ok (new, l)
      → allowed (some for_lease) old.kind ≡ true
      → LeaseBacked (pre ++ resolved ∷ post) l
  unfolding make_lease allowed
  make_lease-LeaseBacked l e k =
      let (given, fits, e1) = bind-eq-ok (grant_ttl ttl old.requested_ttl default_lease_ttl) _ e in
      let (id, fresh, e2) = bind-eq-ok (random_id (codes "lease") env) _ e1 in
      let within = grant_ttl-le ttl old.requested_ttl default_lease_ttl given fits in
      let kind : old.kind ≡ for_lease = same_kind_iff old.kind for_lease k in
      record {
        request = resolved;
        stands = In-append _ pre _ (inr (inl refl));
        id_is = cc e2;
        kind_is = cc (e2, kind);
        status_is = refl;
        session_is = cc e2;
        environment_is = cc e2;
        commands_are = cc e2;
        lasts = ground (arith, e2);
      }

  make_grant-GrantBacked :
      (root : Bytes) (g : WorkspaceGrant)
      → make_grant root ttl env old ≡ ok (new, g)
      → allowed (some for_workspace) old.kind ≡ true
      → GrantBacked (pre ++ resolved ∷ post) g
  unfolding make_grant allowed
  make_grant-GrantBacked root g e k =
      let (given, fits, e1) =
        bind-eq-ok (grant_ttl ttl old.requested_ttl default_workspace_ttl) _ e in
      let (id, fresh, e2) = bind-eq-ok (random_id (codes "trust") env) _ e1 in
      let kind : old.kind ≡ for_workspace = same_kind_iff old.kind for_workspace k in
      record {
        request = resolved;
        stands = In-append _ pre _ (inr (inl refl));
        id_is = cc e2;
        kind_is = cc (e2, kind);
        status_is = refl;
        session_is = cc e2;
        environment_is = cc e2;
      }

-- A change of one record of a list, which keeps the property of that record.
All-changed :
    {A B : Type 0} (P : A → Type 0) {is_it : A → Bool} {change : A → Result (A × B)}
    {before after : List A} {b : B}
    → Updated is_it change before after b
    → ((old new : A) → change old ≡ ok (new, b) → P old → P new)
    → All P before
    → All P after
All-changed P {after = after} u kept h =
    let (first, rest) = All-of_append P u.pre _ (subst (All P) u.before_is h) in
    subst (All P) (sym u.after_is)
      (All-append P u.pre _ first (kept u.old u.new u.changed rest.0, rest.1))

revoke_one-LeaseBacked :
    (session_id : Bytes) (now : ℕ) (u : Unit {0}) (rs : List Request) (old new : Lease)
    → revoke_one session_id now old ≡ ok (new, u)
    → LeaseBacked rs old
    → LeaseBacked rs new
unfolding revoke_one
revoke_one-LeaseBacked session_id now u rs old new e b = record {
  request = b.request;
  stands = b.stands;
  id_is = ground (arith, b.id_is);
  kind_is = b.kind_is;
  status_is = b.status_is;
  session_is = ground (arith, b.session_is);
  environment_is = ground (arith, b.environment_is);
  commands_are = ground (arith, b.commands_are);
  lasts = ground (arith, b.lasts);
}

-- The grant methods leave whose the grant is.
module _ (rs : List Request) (old new : WorkspaceGrant) where
  same_owner :
      new.request_id ≡ old.request_id
      → new.session_id ≡ old.session_id
      → new.environment ≡ old.environment
      → GrantBacked rs old
      → GrantBacked rs new
  same_owner r s v b = record {
    request = b.request;
    stands = b.stands;
    id_is = b.id_is ∙ sym r;
    kind_is = b.kind_is;
    status_is = b.status_is;
    session_is = b.session_is ∙ sym s;
    environment_is = b.environment_is ∙ sym v;
  }

  pause_one-GrantBacked :
      (paused : Bool) (now : ℕ) (u : Unit {0})
      → pause_one paused now old ≡ ok (new, u)
      → GrantBacked rs old
      → GrantBacked rs new
  unfolding pause_one
  pause_one-GrantBacked paused now u e = same_owner (ground arith) (ground arith) (ground arith)

  extend_one-GrantBacked :
      (ttl now : ℕ) (g : WorkspaceGrant)
      → extend_one ttl now old ≡ ok (new, g)
      → GrantBacked rs old
      → GrantBacked rs new
  unfolding extend_one
  extend_one-GrantBacked ttl now g e = same_owner (ground arith) (ground arith) (ground arith)

  revoke_grant-GrantBacked :
      (now : ℕ) (u : Unit {0})
      → revoke_grant now old ≡ ok (new, u)
      → GrantBacked rs old
      → GrantBacked rs new
  unfolding revoke_grant
  revoke_grant-GrantBacked now u e = same_owner (ground arith) (ground arith) (ground arith)

-- Every call keeps every lease and every grant backed by an approved request.
pub Step-IsBacked : {st st' : State} → Step st st' → IsBacked st → IsBacked st'
Step-IsBacked {st} {st'} s b = go s
  where
    keeps : Keeps st.requests st'.requests
    keeps r = Step-keeps_resolved r s

    go : Step st st' → IsBacked st'
    go (created env candidate x e) =
        let (extra, is) = create_in-eq-ok env candidate x st st' e in
        same-IsBacked st st' keeps b (ap (λ (t : State). t.leases) is)
          (ap (λ (t : State). t.workspace_grants) is)
    go (refreshed now is) =
        same-IsBacked st st' keeps b (ap (λ (t : State). t.leases) is)
          (ap (λ (t : State). t.workspace_grants) is)
    go (fulfilled_secret now id store x e) =
        let p = resolve_in-Resolved now id _ _ _ _ st st' x e in
        same-IsBacked st st' keeps b (ap (λ (t : State). t.leases) p.after_is)
          (ap (λ (t : State). t.workspace_grants) p.after_is)
    go (approved_lease env id ttl l e) =
        let p = resolve_in-Resolved env.now id _ _ _ _ st st' l e in
        let backed =
          make_lease-LeaseBacked ttl env.now env p.old p.new p.pre p.post l p.made p.kind_allowed in
        record {
          leases_backed =
              subst (All (LeaseBacked st'.requests)) (sym (ap (λ (t : State). t.leases) p.after_is))
                (All-append _ st.leases _ (old_leases st st' keeps b) (
                  subst (λ rs. LeaseBacked rs l) (sym (ap (λ (t : State). t.requests) p.after_is))
                      backed,
                  tt,
                ));
          grants_backed =
              subst (All (GrantBacked st'.requests))
                (sym (ap (λ (t : State). t.workspace_grants) p.after_is))
                (old_grants st st' keeps b);
        }
    go (approved_workspace root env id ttl g e) =
        let p = resolve_in-Resolved env.now id _ _ _ _ st st' g e in
        let backed =
          make_grant-GrantBacked ttl env.now env p.old p.new p.pre p.post root g p.made
            p.kind_allowed in
        record {
          leases_backed =
              subst (All (LeaseBacked st'.requests)) (sym (ap (λ (t : State). t.leases) p.after_is))
                (old_leases st st' keeps b);
          grants_backed =
              subst (All (GrantBacked st'.requests))
                (sym (ap (λ (t : State). t.workspace_grants) p.after_is))
                (All-append _ st.workspace_grants _ (old_grants st st' keeps b) (
                  subst (λ rs. GrantBacked rs g) (sym (ap (λ (t : State). t.requests) p.after_is))
                      backed,
                  tt,
                ));
        }
    go (denied_request now id u e) =
        let p = resolve_in-Resolved now id _ _ _ _ st st' u e in
        same-IsBacked st st' keeps b (ap (λ (t : State). t.leases) p.after_is)
          (ap (λ (t : State). t.workspace_grants) p.after_is)
    go (revoked_lease id session_id now u e) =
        let (ls, changed, is) = revoke_in-eq-ok id session_id now st st' u e in
        rw is (record {
          leases_backed =
              All-changed (LeaseBacked st.requests) changed
                (revoke_one-LeaseBacked session_id now u st.requests) b.leases_backed;
          grants_backed = b.grants_backed;
        })
    go (paused_workspace id paused now u e) =
        let (gs, changed, is) = change_grant-eq-ok id _ st st' u e in
        rw is (record {
          leases_backed = b.leases_backed;
          grants_backed =
              All-changed (GrantBacked st.requests) changed
                (λ old new. pause_one-GrantBacked st.requests old new paused now u) b.grants_backed;
        })
    go (extended_workspace id ttl now g lo hi e) =
        let (gs, changed, is) = change_grant-eq-ok id _ st st' g e in
        rw is (record {
          leases_backed = b.leases_backed;
          grants_backed =
              All-changed (GrantBacked st.requests) changed
                (λ old new. extend_one-GrantBacked st.requests old new ttl now g) b.grants_backed;
        })
    go (revoked_workspace id now u e) =
        let (gs, changed, is) = change_grant-eq-ok id _ st st' u e in
        rw is (record {
          leases_backed = b.leases_backed;
          grants_backed =
              All-changed (GrantBacked st.requests) changed
                (λ old new. revoke_grant-GrantBacked st.requests old new now u) b.grants_backed;
        })

pub Reach-IsBacked : {st st' : State} → Reach st st' → IsBacked st → IsBacked st'
Reach-IsBacked here b = b
Reach-IsBacked (next r s) b = Step-IsBacked s (Reach-IsBacked r b)
