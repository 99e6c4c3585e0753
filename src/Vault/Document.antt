-- ===== src/Vault/Document.antt =====
-- internal/vault/store.go: the document and its parts, and what crypto/cipher, crypto/hmac, encoding/json
-- and encoding/base64 do with them. A Go map is a list of keys and values, and one that is absent is
-- empty.
use ironrun.Prelude.{
  ℕ, ◌≡◌, false, List, [], ◌∷◌, ◌++◌, Option, some, if◌then◌else◌, Bytes, codes, bytes_eq,
}

abbrev pub Map : Type 0 → Type 0
Map A = List (Bytes × A)

pub record SealedScope : Type 0 where
  pub key_nonce : Bytes
  pub wrapped_key : Bytes
  pub data_nonce : Bytes
  pub ciphertext : Bytes

pub record Document : Type 0 where
  pub version : ℕ
  pub cipher : Bytes
  pub project_id : Bytes
  pub revision : ℕ
  pub updated_at : ℕ
  pub scopes : Map SealedScope
  pub mac : Bytes

pub record ScopePayload : Type 0 where
  pub values : Map Bytes
  pub blobs : Map Bytes

abbrev pub format_version : ℕ
format_version = 1

abbrev pub cipher_name : Bytes
cipher_name = codes "AES-256-GCM+wrapped-scope-keys"

-- The file of the vault.
pub data VaultFile : Type 0 where
  missing unreadable : VaultFile
  present : Bytes → VaultFile

-- `Seal` and `Open` of AES-GCM, HMAC-SHA-256, base64 and JSON. `IsText` and `IsTextPayload` hold of what
-- is UTF-8, which comes back from its JSON as it was. The values of a payload may be absent.
pub record Primitives : Type 1 where
  pub seal : Bytes → Bytes → Bytes → Bytes → Bytes
  pub unseal : Bytes → Bytes → Bytes → Bytes → Option Bytes
  pub hmac : Bytes → Bytes → Bytes
  pub encode : Bytes → Bytes
  pub decode : Bytes → Option Bytes
  pub marshal : Document → Bytes
  pub marshal_indent : Document → Bytes
  pub unmarshal : Bytes → Option Document
  pub marshal_payload : ScopePayload → Bytes
  pub unmarshal_payload : Bytes → Option (Option (Map Bytes) × Map Bytes)
  pub IsText : Document → Type 0
  pub IsTextPayload : ScopePayload → Type 0
  pub unseal_seal :
      (key nonce plain aad : Bytes) → unseal key nonce (seal key nonce plain aad) aad ≡ some plain
  pub decode_encode : (b : Bytes) → decode (encode b) ≡ some b
  pub hmac_given : (key text : Bytes) → bytes_eq (hmac key text) [] ≡ false
  pub back : (d : Document) → IsText d → unmarshal (marshal_indent d ++ codes "\n") ≡ some d
  pub back_payload :
      (p : ScopePayload)
      → IsTextPayload p
      → unmarshal_payload (marshal_payload p) ≡ some (some p.values, p.blobs)

module _ {A : Type 0} where
  -- `m[key] = a`
  unfoldable pub put_key : Bytes → A → Map A → Map A
  put_key key a [] = (key, a) ∷ []
  put_key key a ((k, b) ∷ m) =
      let later = put_key key a m in if bytes_eq k key then (key, a) ∷ m else (k, b) ∷ later

  -- `delete(m, key)`
  unfoldable pub remove_key : Bytes → Map A → Map A
  remove_key key [] = []
  remove_key key ((k, b) ∷ m) =
      let later = remove_key key m in if bytes_eq k key then m else (k, b) ∷ later
