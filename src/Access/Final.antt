-- ===== src/Access/Final.antt =====
-- internal/access/access.go: a resolution is final. Requests are found by their id, the first that
-- has it; a request that is not pending is found as it is after any calls.
use ironrun.Prelude.{
  ℕ, ◌≡◌, ◌≢◌, refl, ap, sym, subst, ◌∙◌, inl, inr, Bool, true, false, List, [], ◌∷◌, ◌++◌, Option,
  none, some, arith, Bytes, bytes_eq, bytes_eq_iff, codes, if◌then◌else◌, Bool-cases, All,
}
use ironrun.Access.State.{
  RequestKind, for_secret, for_lease, for_workspace, RequestStatus, pending, fulfilled, approved,
  denied, Request, State, Error, not_pending, Result, ok, err, ◌>>=◌, is_pending,
}
use ironrun.Access.Store.{
  Env, File, stored, load, mutate, commit, save_atomic, Save, saved, saved_with_error, not_saved,
  update_first, random_id,
}
use ironrun.Access.Requests.{expire, expire_one}
use ironrun.Access.Resolution.{
  resolve_one, resolve_in, resolve_request, run_commit, make_lease, make_grant, add_lease,
  add_grant, grant_ttl, fulfill_secret_with, approve_lease, approve_workspace, deny,
}
use ironrun.Access.Update.{bind-eq-ok}
use ironrun.Access.Step.{
  Step, created, refreshed, fulfilled_secret, approved_lease, approved_workspace, denied_request,
  revoked_lease, paused_workspace, extended_workspace, revoked_workspace, Reach, here, next,
}
use ironrun.Access.Calls.{Call, run}
use ironrun.Access.Resolve.{
  Resolved, resolve_in-Resolved, create_in-eq-ok, revoke_in-eq-ok, change_grant-eq-ok,
}
use ironrun.Access.History.{run-Reach, load-version, load_current}

abbrev pub find : Bytes → List Request → Option Request
find id [] = none
find id (r ∷ rs) = if bytes_eq r.id id then some r else find id rs

find_head :
    (id : Bytes) (x r : Request) (rs : List Request)
    → bytes_eq x.id id ≡ true
    → find id (x ∷ rs) ≡ some r
    → x ≡ r
find_head id x r rs hit e = let found : some x ≡ some r = rw hit at e in cc

find-expire :
    (now : ℕ) (id : Bytes) (r : Request) (rs : List Request)
    → find id rs ≡ some r
    → r.status ≢ pending
    → find id (expire now rs) ≡ some r
unfolding expire expire_one is_pending
find-expire now id r [] e h = cc
find-expire now id r (x ∷ rs) e h = ground (arith, find-expire now id r rs)

find-append :
    (id : Bytes) (r : Request) (rs qs : List Request)
    → find id rs ≡ some r
    → find id (rs ++ qs) ≡ some r
find-append id r [] qs e = cc
find-append id r (x ∷ rs) qs e = ground (arith, find-append id r rs qs)

-- Where one record changes and keeps its id, every other is found as before.
find-changed :
    (id : Bytes) (r old new : Request) (pre post : List Request)
    → new.id ≡ old.id
    → r.status ≢ old.status
    → find id (pre ++ old ∷ post) ≡ some r
    → find id (pre ++ new ∷ post) ≡ some r
find-changed id r old new [] post same ne e = elim (Bool-cases (bytes_eq old.id id)) [
  | inl hit ↦ absurd (ne (ap (λ (x : Request). x.status) (sym (find_head id old r post hit e))))
  | inr miss ↦ rw (same, miss) (rw miss at e)
]
find-changed id r old new (p ∷ pre) post same ne e =
    ground (arith, find-changed id r old new pre post same ne)

find-first :
    (id : Bytes) (new : Request) (pre post : List Request)
    → All (λ (x : Request). bytes_eq x.id id ≡ false) pre
    → bytes_eq new.id id ≡ true
    → find id (pre ++ new ∷ post) ≡ some new
find-first id new [] post h e = rw e
find-first id new (p ∷ pre) post h e = rw h.0 (find-first id new pre post h.1 e)

-- The steps of the callers keep the id.
KeepsId : {B : Type 0} → (Request → Result (Request × B)) → Type 0
KeepsId {B} fn = (old new : Request) (b : B) → fn old ≡ ok (new, b) → new.id ≡ old.id

run_commit-KeepsId : (store : Request → Bool) → KeepsId (run_commit store)
unfolding KeepsId
run_commit-KeepsId store old new b e = ground arith

make_lease-KeepsId : (ttl : ℕ) (env : Env) → KeepsId (make_lease ttl env)
unfolding KeepsId make_lease
make_lease-KeepsId ttl env old new b e =
    let (given, fits, e1) = bind-eq-ok (grant_ttl ttl old.requested_ttl _) _ e in
    let (id, fresh, e2) = bind-eq-ok (random_id (codes "lease") env) _ e1 in cc e2

make_grant-KeepsId : (root : Bytes) (ttl : ℕ) (env : Env) → KeepsId (make_grant root ttl env)
unfolding KeepsId make_grant
make_grant-KeepsId root ttl env old new b e =
    let (given, fits, e1) = bind-eq-ok (grant_ttl ttl old.requested_ttl _) _ e in
    let (id, fresh, e2) = bind-eq-ok (random_id (codes "trust") env) _ e1 in cc e2

Resolved-find :
    {B : Type 0} {now : ℕ} {id : Bytes} {kind : Option RequestKind} {status : RequestStatus}
    {fn : Request → Result (Request × B)} {attach : State → B → State} {st st' : State} {b : B}
    (key : Bytes) (r : Request)
    → Resolved now id kind status fn attach st st' b
    → KeepsId fn
    → ((s : State) (c : B) → (attach s c).requests ≡ s.requests)
    → r.status ≢ pending
    → find key st.requests ≡ some r
    → find key st'.requests ≡ some r
unfolding KeepsId
Resolved-find {now = now} {b = b} key r p keeps same h e =
    let at = subst (λ rs. find key rs ≡ some r) p.before_is (find-expire now key r _ e h) in
    let requests_are = ap (λ (s : State). s.requests) p.after_is ∙ same _ b in
    subst (λ rs. find key rs ≡ some r) (sym requests_are)
      (find-changed key r p.old _ p.pre p.post (keeps p.old p.new b p.made)
        (λ q. h (q ∙ p.was_pending)) at)

Step-find :
    {st st' : State} (key : Bytes) (r : Request)
    → Step st st'
    → r.status ≢ pending
    → find key st.requests ≡ some r
    → find key st'.requests ≡ some r
Step-find {st} {st'} key r (created env candidate x e) h m =
    let (extra, is) = create_in-eq-ok env candidate x st st' e in
    rw is (find-append key r _ extra (find-expire env.now key r st.requests m h))
Step-find {st} key r (refreshed now is) h m = rw is (find-expire now key r st.requests m h)
Step-find {st} {st'} key r (fulfilled_secret now id store x e) h m =
    Resolved-find key r (resolve_in-Resolved now id _ _ _ _ st st' x e) (run_commit-KeepsId store)
      (λ s c. refl) h m
Step-find {st} {st'} key r (approved_lease env id ttl l e) h m =
    Resolved-find key r (resolve_in-Resolved env.now id _ _ _ _ st st' l e)
      (make_lease-KeepsId ttl env) (λ s c. refl) h m
Step-find {st} {st'} key r (approved_workspace root env id ttl g e) h m =
    Resolved-find key r (resolve_in-Resolved env.now id _ _ _ _ st st' g e)
      (make_grant-KeepsId root ttl env) (λ s c. refl) h m
Step-find {st} {st'} key r (denied_request now id u e) h m =
    Resolved-find key r (resolve_in-Resolved now id _ _ _ _ st st' u e)
      (unfold KeepsId in λ old new b q. ground arith) (λ s c. refl) h m
Step-find {st} {st'} key r (revoked_lease id session_id now u e) h m =
    let (ls, _, is) = revoke_in-eq-ok id session_id now st st' u e in rw is m
Step-find {st} {st'} key r (paused_workspace id paused now u e) h m =
    let (gs, _, is) = change_grant-eq-ok id _ st st' u e in rw is m
Step-find {st} {st'} key r (extended_workspace id ttl now g lo hi e) h m =
    let (gs, _, is) = change_grant-eq-ok id _ st st' g e in rw is m
Step-find {st} {st'} key r (revoked_workspace id now u e) h m =
    let (gs, _, is) = change_grant-eq-ok id _ st st' u e in rw is m

Reach-find :
    {st st' : State} (key : Bytes) (r : Request)
    → Reach st st'
    → r.status ≢ pending
    → find key st.requests ≡ some r
    → find key st'.requests ≡ some r
Reach-find key r here h m = m
Reach-find key r (next p s) h m = Step-find key r s h (Reach-find key r p h m)

-- The request that is found is not pending: every resolution of the id is refused.
update_first-refused :
    {B : Type 0} (id : Bytes) (r : Request) (change : Request → Result (Request × B)) (e : Error)
    (rs : List Request)
    → find id rs ≡ some r
    → change r ≡ err e
    → update_first (λ (x : Request). bytes_eq x.id id) change rs ≡ err e
unfolding update_first
update_first-refused id r change e [] f c = cc
update_first-refused id r change e (x ∷ rs) f c = elim (Bool-cases (bytes_eq x.id id)) [
  | inl hit ↦ let same = find_head id x r rs hit f in rw (hit, same, c) refl
  | inr miss ↦ rw (miss, update_first-refused id r change e rs (rw miss at f) c) refl
]

refused :
    {B : Type 0} (id : Bytes) (kind : Option RequestKind) (status : RequestStatus)
    (fn : Request → Result (Request × B)) (attach : State → B → State) (env : Env) (file : File)
    (st : State) (r : Request)
    → env.locked ≡ true
    → load file ≡ ok st
    → find id st.requests ≡ some r
    → r.status ≢ pending
    → resolve_request id kind status fn attach env file ≡ (file, err (not_pending r.status))
unfolding resolve_request mutate commit resolve_in
refused id kind status fn attach env file st r free loaded f h =
    let at = find-expire env.now id r st.requests f h in
    let no : resolve_one env.now kind status fn r ≡ err (not_pending r.status) =
      unfold resolve_one is_pending in ground arith in
    rw
      (
        free,
        loaded,
        update_first-refused id r (resolve_one env.now kind status fn) (not_pending r.status)
            (expire env.now st.requests) at no,
      )
      refl

commit-eq-ok :
    {A : Type 0} (how : Save) (file file' : File) (r : Result (State × A)) (a : A)
    → commit how file r ≡ (file', ok a)
    → (st : State) × (r ≡ ok (st, a)) × (file' ≡ stored st)
unfolding commit save_atomic
commit-eq-ok saved file file' (ok (st, b)) a e = (st, ground arith, ground arith)
commit-eq-ok saved_with_error file file' (ok (st, b)) a e = absurd (ground arith)
commit-eq-ok not_saved file file' (ok (st, b)) a e = absurd (ground arith)
commit-eq-ok how file file' (err x) a e = absurd (ground arith)

pub mutate-eq-ok :
    {A : Type 0} (fn : State → Result (State × A)) (env : Env) (file file' : File) (a : A)
    → mutate fn env file ≡ (file', ok a)
    → (st : State) × (st' : State) × (load file ≡ ok st)
      × (fn st ≡ ok (st', a))
      × (file' ≡ stored st')
unfolding mutate
mutate-eq-ok {A} fn env file file' a e = elim (Bool-cases env.locked) [
  | inl free ↦
      let (st', done, is) = commit-eq-ok env.save file file' (load file >>= fn) a (rw free at e) in
      let (st, loaded, gave) = bind-eq-ok (load file) fn done in (st, st', loaded, gave, is)
  | inr taken ↦ absurd (locked_out file file' a (rw taken at e))
]
  where
    locked_out :
        (file file' : File) (a : A)
        → ◌≡◌ {A = File × Result A} (file, err Error.lock_timeout) (file', ok a)
        → ⊥
    locked_out file file' a e = ground arith

-- After a resolution the request of the id is found with its new status.
resolved_found :
    {B : Type 0} (id : Bytes) (kind : Option RequestKind) (status : RequestStatus)
    (fn : Request → Result (Request × B)) (attach : State → B → State) (env : Env)
    (file file' : File) (b : B)
    → KeepsId fn
    → ((s : State) (c : B) → (attach s c).requests ≡ s.requests)
    → ((s : State) (c : B) → (attach s c).version ≡ s.version)
    → resolve_request id kind status fn attach env file ≡ (file', ok b)
    → (st : State) × (load file' ≡ ok st)
      × (r : Request) × (find id st.requests ≡ some r)
      × (r.status ≡ status)
unfolding resolve_request KeepsId
resolved_found id kind status fn attach env file file' b keeps same version e =
    let (st, st', loaded, done, is) =
      mutate-eq-ok (resolve_in env.now id kind status fn attach) env file file' b e in
    let p = resolve_in-Resolved env.now id kind status fn attach st st' b done in
    let r = record p.new { status = status; resolved_at = some env.now } in
    let requests_are = ap (λ (s : State). s.requests) p.after_is ∙ same _ b in
    let new_version =
      ap (λ (s : State). s.version) p.after_is ∙ version _ b ∙ load-version file st loaded in
    let hit : bytes_eq p.new.id id ≡ true =
      (bytes_eq_iff _ _).1 (keeps p.old p.new b p.made ∙ p.id_is) in
    (
      st',
      ap load is ∙ load_current st' new_version,
      r,
      subst (λ rs. find id rs ≡ some r) (sym requests_are)
          (find-first id r p.pre p.post p.not_before hit),
      refl,
    )

-- So every later resolution of the id is refused, whatever calls come between.
later_refused :
    {C : Type 0} (id : Bytes) (status : RequestStatus) (file : File) (calls : List (Call × Env))
    (env : Env) (kind : Option RequestKind) (to : RequestStatus)
    (fn : Request → Result (Request × C)) (attach : State → C → State)
    → status ≢ pending
    → ((st : State) × (load file ≡ ok st)
        × (r : Request) × (find id st.requests ≡ some r)
        × (r.status ≡ status))
    → env.locked ≡ true
    → resolve_request id kind to fn attach env (run calls file)
      ≡ (run calls file, err (not_pending status))
later_refused id status file calls env kind to fn attach ne (st, loaded, r, found, is) free =
    let (st', later, reach) = run-Reach calls file st loaded in
    let live : r.status ≢ pending = λ q. ne (sym is ∙ q) in
    let no =
      refused id kind to fn attach env (run calls file) st' r free later
        (Reach-find id r reach live found) live in
    rw is at no

-- A secret request is fulfilled at most once: after a fulfilment that succeeded and any later
-- calls, a second one that gets the lock is refused, does not run its commit and leaves the file.
pub fulfill_once :
    (id : Bytes) (store again : Request → Bool) (env later : Env) (file file' : File) (r : Request)
    (calls : List (Call × Env))
    → fulfill_secret_with id store env file ≡ (file', ok r)
    → later.locked ≡ true
    → fulfill_secret_with id again later (run calls file')
      ≡ (run calls file', err (not_pending fulfilled))
unfolding fulfill_secret_with
fulfill_once id store again env later file file' r calls e free =
    later_refused id fulfilled file' calls later (some for_secret) fulfilled (run_commit again)
      (λ st _. st) (λ q. cc)
      (resolved_found id (some for_secret) fulfilled (run_commit store) (λ st _. st) env file file'
        r (run_commit-KeepsId store) (λ s c. refl) (λ s c. refl) e)
      free

-- A denial is final: after it and any later calls, no approval of the id that gets the lock
-- succeeds, for a lease, a workspace or a secret, and the file is left as it is.
pub deny_is_final :
    (id root : Bytes) (ttl : ℕ) (store : Request → Bool) (env later : Env) (file file' : File)
    (calls : List (Call × Env))
    → deny id env file ≡ (file', ok tt)
    → later.locked ≡ true
    → (approve_lease id ttl later (run calls file') ≡ (run calls file', err (not_pending denied)))
      × (approve_workspace root id ttl later (run calls file')
          ≡ (run calls file', err (not_pending denied)))
      × (fulfill_secret_with id store later (run calls file')
          ≡ (run calls file', err (not_pending denied)))
unfolding deny approve_lease approve_workspace fulfill_secret_with
deny_is_final id root ttl store env later file file' calls e free =
    let found =
      resolved_found id none denied (λ r. ok (r, tt)) (λ st _. st) env file file' tt
        (unfold KeepsId in λ old new b q. ground arith) (λ s c. refl) (λ s c. refl) e in
    let ne : denied ≢ pending = λ q. cc in
    (
      later_refused id denied file' calls later (some for_lease) approved (make_lease ttl later)
          add_lease ne found free,
      later_refused id denied file' calls later (some for_workspace) approved
          (make_grant root ttl later) add_grant ne found free,
      later_refused id denied file' calls later (some for_secret) fulfilled (run_commit store)
          (λ st _. st) ne found free,
    )
