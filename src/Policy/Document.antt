-- ===== src/Policy/Document.antt =====
-- internal/policy/policy.go: the policy document. A Go map is a list of keys and values in the order
-- in which the loops run over it, which may be any; the theorems hold for each order. The decoder
-- of `gopkg.in/yaml.v3` and `time.ParseDuration` are parameters of the functions that call them.
use ironrun.Prelude.{
  ℕ, Bool, true, false, ◌||◌, List, [], ◌∷◌, Option, none, some, ltb, if◌then◌else◌, length, take,
  drop, Bytes, codes, bytes_eq, ℤ, pos,
}

pub record Secret : Type 0 where
  pub env : Bytes
  pub store : Bytes
  pub allow : List Bytes
  pub kind : Bytes
  pub filename : Bytes

-- `Env` is a map from environment variable to secret reference; `TTL` is in nanoseconds.
pub record Command : Type 0 where
  pub id : Bytes
  pub argv : List Bytes
  pub env : List (Bytes × Bytes)
  pub secrets : List Bytes
  pub ttl : ℤ
  pub max_bytes : ℤ
  pub no_network : Bool
  pub allow_network : Bool
  pub work_dir : Bytes
  pub seccomp : Option Bool

-- `File`
pub record PolicyFile : Type 0 where
  pub version : Bytes
  pub provider : Bytes
  pub commands : List Command
  pub environment_set : Bytes
  pub secrets : List (Bytes × Secret)
  pub seccomp_default : Option Bool
  pub audit_log : Bytes
  pub allow_proposals : Bool
  pub require_agent_leases : Bool

abbrev pub version_1 : Bytes
version_1 = codes "1"

abbrev pub version_2 : Bytes
version_2 = codes "2"

-- A map read at a key.
unfoldable pub lookup_key : {A : Type 0} → Bytes → List (Bytes × A) → Option A
lookup_key key [] = none
lookup_key key ((k, a) ∷ m) =
    let later = lookup_key key m in if bytes_eq k key then some a else later

unfoldable pub effective_kind : Secret → Bytes
effective_kind s = if bytes_eq s.kind [] then codes "env" else s.kind

-- The command's own setting, else the policy's (there may be no policy), else on.
unfoldable pub or_else : Option Bool → Bool → Bool
or_else none d = d
or_else (some b) d = b

unfoldable pub policy_default : Option PolicyFile → Option Bool
policy_default none = none
policy_default (some f) = f.seccomp_default

unfoldable pub seccomp_enabled : Command → Option PolicyFile → Bool
unfolding or_else policy_default
seccomp_enabled c f = or_else c.seccomp (or_else (policy_default f) true)

unfoldable pub has_secrets : Command → Bool
has_secrets c = ltb 0 (length c.env) || ltb 0 (length c.secrets)

unfoldable pub effective_no_network : Command → Bool
unfolding has_secrets
effective_no_network c =
    if c.no_network then true else if c.allow_network then false else has_secrets c

-- `UnmarshalYAML` and `SetDuration`: `parse_duration` is `time.ParseDuration`.
unfoldable pub set_duration : (Bytes → Option ℤ) → Bytes → Option ℤ
set_duration parse_duration [] = some (pos 0)
set_duration parse_duration (c ∷ cs) = parse_duration (c ∷ cs)

-- `bytesReader.Read` with room for n bytes: `none` is `io.EOF`, else what is read and what is left.
unfoldable pub read : ℕ → Bytes → Option (Bytes × Bytes)
read n [] = none
read n (c ∷ cs) = some (take n (c ∷ cs), drop n (c ∷ cs))
