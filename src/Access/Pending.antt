-- ===== src/Access/Pending.antt =====
-- internal/access/access.go: the bound on the pending requests of a session.
use ironrun.Prelude.{
  ℕ, suc, ◌+◌, ◌≤◌, ◌<◌, ◌≡◌, refl, ap, sym, subst, ◌∙◌, inl, inr, true, false, List, [], ◌∷◌, ◌++◌,
  Option, none, some, arith, Bytes, bytes_eq, bytes_eq_iff, codes, if◌then◌else◌, Bool-cases, ltb,
}
use ironrun.Access.State.{
  max_pending_session, too_many_pending, RequestStatus, Request, State, Result, ok, guard,
  is_pending,
}
use ironrun.Access.Store.{Env, absent, load, empty_state, random_id}
use ironrun.Access.Requests.{
  expire, expire_one, counts_for, same_request, find_same, add_request, create_in,
}
use ironrun.Access.Update.{bind-eq-ok}
use ironrun.Access.Step.{
  Step, created, refreshed, fulfilled_secret, approved_lease, approved_workspace, denied_request,
  revoked_lease, paused_workspace, extended_workspace, revoked_workspace, Reach, here, next,
}
use ironrun.Access.Calls.{Call, run}
use ironrun.Access.Resolve.{
  guard-eq-ok, Resolved, resolve_in-Resolved, revoke_in-eq-ok, change_grant-eq-ok,
}
use ironrun.Access.History.{run-Reach}

abbrev pub pending_of : Bytes → List Request → ℕ
pending_of s [] = 0
pending_of s (r ∷ rs) = (if counts_for s r then 1 else 0) + pending_of s rs

abbrev pub IsWithin : List Request → Type 0
IsWithin rs = (s : Bytes) → pending_of s rs ≤ 32

find_same-counts :
    (candidate : Request) (seen n : ℕ) (rs : List Request)
    → find_same candidate seen rs ≡ (none, n)
    → n ≡ seen + pending_of candidate.session_id rs
unfolding find_same
find_same-counts candidate seen n [] e = ground arith
find_same-counts candidate seen n (r ∷ rs) e =
    elim (Bool-cases (counts_for candidate.session_id r)) [
      | inl mine ↦ elim (Bool-cases (same_request r candidate)) [
        | inl again ↦ absurd (ground arith)
        | inr other ↦
            let later : find_same candidate (suc seen) rs ≡ (none, n) = ground arith in
            omega (arith, find_same-counts candidate (suc seen) n rs later, counted mine)
      ]
      | inr theirs ↦
          let later : find_same candidate seen rs ≡ (none, n) = ground arith in
          omega (arith, find_same-counts candidate seen n rs later, uncounted theirs)
    ]
  where
    counted :
        counts_for candidate.session_id r ≡ true
        → pending_of candidate.session_id (r ∷ rs) ≡ 1 + pending_of candidate.session_id rs
    counted h = ground arith

    uncounted :
        counts_for candidate.session_id r ≡ false
        → pending_of candidate.session_id (r ∷ rs) ≡ pending_of candidate.session_id rs
    uncounted h = ground arith

pending_of-append :
    (s : Bytes) (rs qs : List Request) → pending_of s (rs ++ qs) ≡ pending_of s rs + pending_of s qs
pending_of-append s [] qs = omega arith
pending_of-append s (r ∷ rs) qs = omega (arith, pending_of-append s rs qs)

pending_of-expire :
    (s : Bytes) (now : ℕ) (rs : List Request) → pending_of s (expire now rs) ≤ pending_of s rs
unfolding expire expire_one is_pending
pending_of-expire s now [] = omega arith
pending_of-expire s now (r ∷ rs) = ground (arith, pending_of-expire s now rs)

-- A record that is pending no more counts for nobody.
pending_of-resolved :
    (s : Bytes) (old new : Request) (pre post : List Request)
    → is_pending new.status ≡ false
    → pending_of s (pre ++ new ∷ post) ≤ pending_of s (pre ++ old ∷ post)
pending_of-resolved s old new [] post h = ground arith
pending_of-resolved s old new (p ∷ pre) post h =
    omega (arith, pending_of-resolved s old new pre post h)

add_request-new :
    (env : Env) (candidate r : Request) (st st' : State) (n : ℕ)
    → add_request env candidate st (none, n) ≡ ok (st', r)
    → (n < 32) × (st'.requests ≡ st.requests ++ r ∷ []) × (r.session_id ≡ candidate.session_id)
unfolding add_request
add_request-new env candidate r st st' n e =
    let (u, room, e1) = bind-eq-ok (guard (ltb n max_pending_session) too_many_pending) _ e in
    let (id, fresh, e2) = bind-eq-ok (random_id (codes "req") env) _ e1 in
    let below : ltb n 32 ≡ true = guard-eq-ok _ _ u room in (ground arith, cc e2, cc e2)

one_more :
    (s : Bytes) (r : Request) (rs : List Request) (n : ℕ) (session_id : Bytes)
    → r.session_id ≡ session_id
    → n ≡ pending_of session_id rs
    → n < 32
    → pending_of s rs ≤ 32
    → pending_of s (rs ++ r ∷ []) ≤ 32
one_more s r rs n session_id same counted room h = elim (Bool-cases (bytes_eq r.session_id s)) [
  | inl mine ↦
      let is : session_id ≡ s = sym same ∙ (bytes_eq_iff r.session_id s).0 mine in
      let all : n ≡ pending_of s rs = subst (λ t. n ≡ pending_of t rs) is counted in
      ground (arith, pending_of-append s rs (r ∷ []))
  | inr theirs ↦ ground (arith, pending_of-append s rs (r ∷ []))
]

create_in-IsWithin :
    (env : Env) (candidate r : Request) (st st' : State)
    → create_in env candidate st ≡ ok (st', r)
    → IsWithin st.requests
    → IsWithin st'.requests
unfolding create_in
create_in-IsWithin env candidate r st st' e h s =
    let rs = expire env.now st.requests in go (find_same candidate 0 rs) refl e
  where
    go :
        (found : Option Request × ℕ)
        → find_same candidate 0 (expire env.now st.requests) ≡ found
        → add_request env candidate (record st { requests = expire env.now st.requests }) found
          ≡ ok (st', r)
        → pending_of s st'.requests ≤ 32
    go (some x, n) f a =
        let is : st'.requests ≡ expire env.now st.requests = unfold add_request in cc a in
        rw is (omega (arith, pending_of-expire s env.now st.requests, h s))
    go (none, n) f a =
        let rs = expire env.now st.requests in
        let (room, is, owner) =
          add_request-new env candidate r (record st { requests = rs }) st' n a in
        rw is (
          one_more s r rs n candidate.session_id owner
            (omega (arith, find_same-counts candidate 0 n rs f)) room
            (omega (arith, pending_of-expire s env.now st.requests, h s)))

Resolved-IsWithin :
    {B : Type 0} {now : ℕ} {id : Bytes} {kind : _} {status : RequestStatus}
    {fn : Request → Result (Request × B)} {attach : State → B → State} {st st' : State} {b : B}
    → Resolved now id kind status fn attach st st' b
    → ((s : State) (c : B) → (attach s c).requests ≡ s.requests)
    → is_pending status ≡ false
    → IsWithin st.requests
    → IsWithin st'.requests
Resolved-IsWithin {now = now} {st = st} {b = b} p same over h s =
    let requests_are = ap (λ (t : State). t.requests) p.after_is ∙ same _ b in
    rw requests_are (
      omega (
        arith,
        pending_of-resolved s p.old (record p.new { status = _; resolved_at = some now }) p.pre
            p.post over,
        ap (λ rs. pending_of s rs) p.before_is,
        pending_of-expire s now st.requests,
        h s,
      ))

Step-IsWithin : {st st' : State} → Step st st' → IsWithin st.requests → IsWithin st'.requests
unfolding is_pending
Step-IsWithin {st} {st'} (created env candidate x e) h =
    create_in-IsWithin env candidate x st st' e h
Step-IsWithin {st} (refreshed now is) h =
    λ s. rw is (omega (arith, pending_of-expire s now st.requests, h s))
Step-IsWithin {st} {st'} (fulfilled_secret now id store x e) h =
    Resolved-IsWithin (resolve_in-Resolved now id _ _ _ _ st st' x e) (λ s c. refl) refl h
Step-IsWithin {st} {st'} (approved_lease env id ttl l e) h =
    Resolved-IsWithin (resolve_in-Resolved env.now id _ _ _ _ st st' l e) (λ s c. refl) refl h
Step-IsWithin {st} {st'} (approved_workspace root env id ttl g e) h =
    Resolved-IsWithin (resolve_in-Resolved env.now id _ _ _ _ st st' g e) (λ s c. refl) refl h
Step-IsWithin {st} {st'} (denied_request now id u e) h =
    Resolved-IsWithin (resolve_in-Resolved now id _ _ _ _ st st' u e) (λ s c. refl) refl h
Step-IsWithin {st} {st'} (revoked_lease id session_id now u e) h =
    let (ls, _, is) = revoke_in-eq-ok id session_id now st st' u e in rw is h
Step-IsWithin {st} {st'} (paused_workspace id paused now u e) h =
    let (gs, _, is) = change_grant-eq-ok id _ st st' u e in rw is h
Step-IsWithin {st} {st'} (extended_workspace id ttl now g lo hi e) h =
    let (gs, _, is) = change_grant-eq-ok id _ st st' g e in rw is h
Step-IsWithin {st} {st'} (revoked_workspace id now u e) h =
    let (gs, _, is) = change_grant-eq-ok id _ st st' u e in rw is h

Reach-IsWithin : {st st' : State} → Reach st st' → IsWithin st.requests → IsWithin st'.requests
Reach-IsWithin here h = h
Reach-IsWithin (next r s) h = Step-IsWithin s (Reach-IsWithin r h)

-- After any calls on a project with no access file, no session has more than 32 pending requests,
-- whatever the other sessions do.
pub history-IsWithin :
    (calls : List (Call × Env)) (st : State)
    → load (run calls absent) ≡ ok st
    → IsWithin st.requests
history-IsWithin calls st loaded =
    let (st', loaded', reach) = run-Reach calls absent empty_state (unfold load in refl) in
    let same : st' ≡ st = cc in
    subst (λ (t : State). IsWithin t.requests) same (Reach-IsWithin reach (λ s. omega arith))
