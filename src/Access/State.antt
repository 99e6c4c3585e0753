-- ===== src/Access/State.antt =====
-- internal/access/access.go: the records of the access state. Times and durations are
-- nanoseconds; a duration that is not positive, which the source treats as none, is 0. Strings
-- are their bytes.
use ironrun.Prelude.{ℕ, ◌*◌, Bool, true, false, List, Option, Bytes, Try}
pub use ironrun.Prelude.{ok, err, ◌>>=◌, ◌>>◌, guard}

abbrev pub second : ℕ
second = 1000000000

abbrev pub state_version : ℕ
state_version = 2

abbrev pub default_request_ttl : ℕ
default_request_ttl = 15 * 60 * second

abbrev pub default_lease_ttl : ℕ
default_lease_ttl = 3600 * second

abbrev pub default_workspace_ttl : ℕ
default_workspace_ttl = 2 * 3600 * second

abbrev pub max_lease_ttl : ℕ
max_lease_ttl = 24 * 3600 * second

abbrev pub max_pending_session : ℕ
max_pending_session = 32

pub data RequestKind : Type 0 where
  for_secret for_lease for_workspace : RequestKind

pub data RequestStatus : Type 0 where
  pending fulfilled approved denied expired : RequestStatus

unfoldable pub same_kind : RequestKind → RequestKind → Bool
same_kind for_secret for_secret = true
same_kind for_lease for_lease = true
same_kind for_workspace for_workspace = true
same_kind _ _ = false

unfoldable pub is_pending : RequestStatus → Bool
is_pending pending = true
is_pending _ = false

pub record Request : Type 0 where
  pub id : Bytes
  pub kind : RequestKind
  pub status : RequestStatus
  pub session_id : Bytes
  pub environment : Bytes
  pub secret_alias : Bytes
  pub secret_key : Bytes
  pub commands : List Bytes
  pub first_argv : List Bytes
  pub reason : Bytes
  pub requested_ttl : ℕ
  pub created_at : ℕ
  pub expires_at : ℕ
  pub resolved_at : Option ℕ
  pub resulting_lease_id : Bytes

pub record WorkspaceGrant : Type 0 where
  pub id : Bytes
  pub request_id : Bytes
  pub session_id : Bytes
  pub project_root : Bytes
  pub environment : Bytes
  pub network : Bytes
  pub created_at : ℕ
  pub expires_at : ℕ
  pub paused_at : Option ℕ
  pub revoked_at : Option ℕ

pub record Lease : Type 0 where
  pub id : Bytes
  pub request_id : Bytes
  pub session_id : Bytes
  pub environment : Bytes
  pub commands : List Bytes
  pub created_at : ℕ
  pub expires_at : ℕ
  pub revoked_at : Option ℕ

pub record State : Type 0 where
  pub version : ℕ
  pub requests : List Request
  pub leases : List Lease
  pub workspace_grants : List WorkspaceGrant

pub data Error : Type 0 where
  not_found unauthorized missing_session missing_environment missing_argv missing_alias : Error
  no_commands ttl_out_of_range too_many_pending no_randomness commit_failed : Error
  unreadable unsupported_version lock_timeout save_failed : Error
  not_pending : RequestStatus → Error
  wrong_kind : RequestKind → Error

abbrev pub Result {ℓ} : Type ℓ → Type ℓ
Result = Try Error
