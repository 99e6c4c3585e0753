-- ===== src/Access/Leases.antt =====
-- internal/access/access.go: `Authorize`, `Leases` and `Revoke`.
use ironrun.Prelude.{
  ℕ, Bool, true, false, not, ◌&&◌, ◌||◌, List, [], ◌∷◌, Option, none, some, ltb, if◌then◌else◌,
  length, leb, Bytes, bytes_eq, contains,
}
use ironrun.Access.State.{Lease, State, unauthorized, Result, ok, err, ◌>>=◌}
use ironrun.Access.Store.{Env, File, load, mutate, newest_first, update_first}

abbrev pub is_none : Option ℕ → Bool
is_none none = true
is_none (some t) = false

-- The lease is the session's, for the environment, and neither revoked nor over.
unfoldable pub lease_is_live : ℕ → Bytes → Bytes → Lease → Bool
lease_is_live now session_id environment lease =
    bytes_eq lease.session_id session_id
    && (bytes_eq lease.environment environment
        && (is_none lease.revoked_at && ltb now lease.expires_at))

-- The loop of `Authorize`.
unfoldable pub find_lease : ℕ → Bytes → Bytes → Bytes → List Lease → Result (Unit {0})
find_lease now session_id environment command [] = err unauthorized
find_lease now session_id environment command (l ∷ ls) =
    let later = find_lease now session_id environment command ls in
    if not (lease_is_live now session_id environment l)
    then later
    else if contains l.commands command
    then ok tt
    else later

unfoldable pub authorize : Bytes → Bytes → Bytes → Env → File → Result (Unit {0})
unfolding find_lease
authorize session_id environment command env file = do
  st ← load file
  find_lease env.now session_id environment command st.leases

leases_of : Bytes → List Lease → List Lease
leases_of session_id [] = []
leases_of session_id (l ∷ ls) =
    let later = leases_of session_id ls in
    if leb (length session_id) 0 || bytes_eq l.session_id session_id then l ∷ later else later

unfoldable pub leases : Bytes → File → Result (List Lease)
unfolding leases_of
leases session_id file = do
  st ← load file
  ok (newest_first (λ (l : Lease). l.created_at) (leases_of session_id st.leases))

unfoldable pub revoke_one : Bytes → ℕ → Lease → Result (Lease × Unit {0})
revoke_one session_id now lease =
    if not (leb (length session_id) 0) && not (bytes_eq lease.session_id session_id)
    then err unauthorized
    else ok (if is_none lease.revoked_at then record lease { revoked_at = some now } else lease, tt)

unfoldable pub revoke_in : Bytes → Bytes → ℕ → State → Result (State × Unit {0})
unfolding revoke_one
revoke_in id session_id now st = do
  (ls, done) ← update_first (λ (l : Lease). bytes_eq l.id id) (revoke_one session_id now) st.leases
  ok (record st { leases = ls }, done)

unfoldable pub revoke : Bytes → Bytes → Env → File → File × Result (Unit {0})
unfolding revoke_in
revoke id session_id env = mutate (revoke_in id session_id env.now) env
