-- ===== src/Access/Workspace.antt =====
-- internal/access/access.go: workspace grants (`AuthorizeWorkspace`, `WorkspaceGrants`,
-- `PauseWorkspace`, `ExtendWorkspace`, `RevokeWorkspace`). `root` is the manager's project root.
use ironrun.Prelude.{
  ℕ, ◌+◌, Bool, ◌&&◌, ◌||◌, List, [], ◌∷◌, none, some, ltb, if◌then◌else◌, length, leb, Bytes,
  bytes_eq,
}
use ironrun.Access.State.{
  max_lease_ttl, WorkspaceGrant, State, unauthorized, ttl_out_of_range, Result, ok, err, guard,
  ◌>>=◌, ◌>>◌,
}
use ironrun.Access.Store.{Env, File, load, mutate, newest_first, update_first}
use ironrun.Access.Leases.{is_none}

unfoldable pub grant_is_live : Bytes → ℕ → Bytes → Bytes → WorkspaceGrant → Bool
grant_is_live root now session_id environment g =
    bytes_eq g.session_id session_id
    && (bytes_eq g.project_root root
        && (bytes_eq g.environment environment
            && (is_none g.paused_at && (is_none g.revoked_at && ltb now g.expires_at))))

unfoldable pub find_grant : Bytes → ℕ → Bytes → Bytes → List WorkspaceGrant → Result WorkspaceGrant
find_grant root now session_id environment [] = err unauthorized
find_grant root now session_id environment (g ∷ gs) =
    let later = find_grant root now session_id environment gs in
    if grant_is_live root now session_id environment g then ok g else later

unfoldable pub authorize_workspace : Bytes → Bytes → Bytes → Env → File → Result WorkspaceGrant
unfolding find_grant
authorize_workspace root session_id environment env file = do
  st ← load file
  find_grant root env.now session_id environment st.workspace_grants

grants_of : Bytes → List WorkspaceGrant → List WorkspaceGrant
grants_of session_id [] = []
grants_of session_id (g ∷ gs) =
    let later = grants_of session_id gs in
    if leb (length session_id) 0 || bytes_eq g.session_id session_id then g ∷ later else later

unfoldable pub workspace_grants : Bytes → File → Result (List WorkspaceGrant)
unfolding grants_of
workspace_grants session_id file = do
  st ← load file
  ok (
      newest_first (λ (g : WorkspaceGrant). g.created_at)
        (grants_of session_id st.workspace_grants))

-- The loop that the three methods below share: the grant with the id is changed.
unfoldable pub change_grant :
    {B : Type 0}
    → Bytes
    → (WorkspaceGrant → Result (WorkspaceGrant × B))
    → State
    → Result (State × B)
change_grant id change st = do
  (gs, b) ← update_first (λ (g : WorkspaceGrant). bytes_eq g.id id) change st.workspace_grants
  ok (record st { workspace_grants = gs }, b)

unfoldable pub pause_one : Bool → ℕ → WorkspaceGrant → Result (WorkspaceGrant × Unit {0})
pause_one paused now g = do
  guard (is_none g.revoked_at) unauthorized
  ok (record g { paused_at = if paused then some now else none }, tt)

unfoldable pub pause_workspace : Bytes → Bool → Env → File → File × Result (Unit {0})
unfolding change_grant pause_one
pause_workspace id paused env = mutate (change_grant id (pause_one paused env.now)) env

unfoldable pub extend_one : ℕ → ℕ → WorkspaceGrant → Result (WorkspaceGrant × WorkspaceGrant)
extend_one ttl now g = do
  guard (is_none g.revoked_at) unauthorized
  ok (record g { expires_at = now + ttl }, record g { expires_at = now + ttl })

unfoldable pub extend_workspace : Bytes → ℕ → Env → File → File × Result WorkspaceGrant
unfolding change_grant extend_one
extend_workspace id ttl env file =
    if leb ttl 0 || ltb max_lease_ttl ttl
    then (file, err ttl_out_of_range)
    else mutate (change_grant id (extend_one ttl env.now)) env file

unfoldable pub revoke_grant : ℕ → WorkspaceGrant → Result (WorkspaceGrant × Unit {0})
revoke_grant now g = ok (if is_none g.revoked_at then record g { revoked_at = some now } else g, tt)

unfoldable pub revoke_workspace : Bytes → Env → File → File × Result (Unit {0})
unfolding change_grant revoke_grant
revoke_workspace id env = mutate (change_grant id (revoke_grant env.now)) env
