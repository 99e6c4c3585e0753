-- ===== src/Audit/Entry.antt =====
-- internal/audit/audit.go: the record, and what encoding/json and crypto/sha256 do with it. Integers
-- are those of the source, whose sign plays no part here.
use ironrun.Prelude.{
  ℕ, ◌≡◌, ◌≤◌, Bool, List, [], ◌∷◌, Option, some, All, Bytes, codes, trim_space, ℤ,
}

pub record SecretUse : Type 0 where
  pub name : Bytes
  pub kind : Bytes
  pub target : Bytes

pub record Entry : Type 0 where
  pub timestamp : ℕ
  pub schema : ℕ
  pub session_id : Bytes
  pub cwd : Bytes
  pub command_id : Bytes
  pub argv : List Bytes
  pub secret_names : List Bytes
  pub secret_uses : List SecretUse
  pub cleanup_result : Bytes
  pub redaction_count : ℕ
  pub entropy_warnings : ℕ
  pub exit_code : ℤ
  pub duration_ms : ℕ
  pub truncated : Bool
  pub kill_reason : Bytes
  pub seccomp_requested : Bool
  pub seccomp_installed : Bool
  pub seccomp_detail : Bytes
  pub no_network : Bool
  pub prev_hash : Bytes
  pub hash : Bytes
  pub scrub_values : List Bytes

abbrev pub schema_version : ℕ
schema_version = 1

abbrev pub genesis_hash : Bytes
genesis_hash = codes "0000000000000000000000000000000000000000000000000000000000000000"

-- `json.Marshal` and `json.Unmarshal` of a record, without its scrub values, and the SHA-256 of a
-- text in hex. `IsText` holds of a record whose strings are UTF-8: only these come back as they
-- were, since other bytes are replaced. A record is one line of printable bytes.
pub record Coding : Type 1 where
  pub marshal : Entry → Bytes
  pub unmarshal : Bytes → Option Entry
  pub sha256_hex : Bytes → Bytes
  pub IsText : Entry → Type 0
  pub back : (e : Entry) → IsText e → e.scrub_values ≡ [] → unmarshal (marshal e) ≡ some e
  pub is_printable : (e : Entry) → All (λ c. 0x20 ≤ c) (marshal e)
  pub is_trimmed : (e : Entry) → trim_space (marshal e) ≡ marshal e
  pub is_given : (e : Entry) → (c : ℕ) × (cs : Bytes) × (marshal e ≡ c ∷ cs)
  pub from_text :
      (t : Bytes) (e : Entry) → unmarshal t ≡ some e → (IsText e) × (e.scrub_values ≡ [])
  pub no_hash_text : (e : Entry) → IsText e → IsText (record e { hash = [] })
