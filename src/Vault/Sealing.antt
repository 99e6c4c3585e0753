-- ===== src/Vault/Sealing.antt =====
-- internal/vault/store.go: `sealScope`, `openScope`, the code that authenticates a document, and `parse`,
-- `load` and `save`. The random bytes, the time and how the commit ends are those of one `Env`.
use ironrun.Prelude.{
  ℕ, Bool, not, ◌&&◌, ◌||◌, [], ◌∷◌, ◌++◌, Option, none, some, ◌==◌, length, Bytes, codes, bytes_eq,
  Try, ok, err, guard, ◌>>=◌, ◌>>◌,
}
use ironrun.Vault.Document.{
  Map, SealedScope, Document, ScopePayload, format_version, cipher_name, VaultFile, missing,
  unreadable, present, Primitives,
}

pub data VaultError : Type 0 where
  empty_name nul_in_name not_locked value_missing integrity bad_key_size no_random unread
        uncommitted :
      VaultError
  older_revision conflicting_revision unauthentic : VaultError

-- `Store`
pub record Vault : Type 0 where
  pub project_id : Bytes
  pub root_key : Bytes

pub record Random : Type 0 where
  pub data_key : Bytes
  pub data_nonce : Bytes
  pub key_nonce : Bytes

-- How the transaction of `WriteFileAtomic` ends: before the rename, or after it with or without an error.
pub data Commit : Type 0 where
  lost kept kept_with_error : Commit

pub record VaultEnv : Type 0 where
  pub locked : Bool
  pub random : Option Random
  pub now : ℕ
  pub commit : Commit

-- The sizes of an AES key.
abbrev pub is_key_size : ℕ → Bool
is_key_size n = n == 16 || (n == 24 || n == 32)

abbrev pub nul : ℕ
nul = 0

module _ (k : Primitives) (s : Vault) where
  unfoldable pub scope_aad : Bytes → Bytes → Bytes
  scope_aad kind scope =
      codes "ironrun-vault-v1" ++ nul ∷ (kind ++ nul ∷ (s.project_id ++ nul ∷ scope))

  unfoldable pub seal_with : Bytes → ScopePayload → Random → SealedScope
  unfolding scope_aad
  seal_with scope payload r = record {
    key_nonce = k.encode r.key_nonce;
    wrapped_key =
        k.encode (k.seal s.root_key r.key_nonce r.data_key (scope_aad (codes "key") scope));
    data_nonce = k.encode r.data_nonce;
    ciphertext = k.encode (
        k.seal r.data_key r.data_nonce (k.marshal_payload payload)
          (scope_aad (codes "data") scope));
  }

  unfoldable pub seal_scope : Bytes → ScopePayload → Option Random → Try VaultError SealedScope
  unfolding seal_with
  seal_scope scope payload none = err no_random
  seal_scope scope payload (some r) = ok (seal_with scope payload r)

  unfoldable pub or_integrity : Option Bytes → Try VaultError Bytes
  or_integrity none = err integrity
  or_integrity (some b) = ok b

  unfoldable pub read_payload :
      Option (Option (Map Bytes) × Map Bytes) → Try VaultError ScopePayload
  read_payload none = err integrity
  read_payload (some (none, blobs)) = err integrity
  read_payload (some (some values, blobs)) = ok (record { values = values; blobs = blobs })

  unfoldable pub open_scope : Bytes → SealedScope → Try VaultError ScopePayload
  unfolding or_integrity read_payload scope_aad
  open_scope scope sealed = do
    key_nonce ← or_integrity (k.decode sealed.key_nonce)
    wrapped ← or_integrity (k.decode sealed.wrapped_key)
    data_key ← or_integrity (k.unseal s.root_key key_nonce wrapped (scope_aad (codes "key") scope))
    data_nonce ← or_integrity (k.decode sealed.data_nonce)
    ciphertext ← or_integrity (k.decode sealed.ciphertext)
    guard (is_key_size (length data_key)) bad_key_size
        >> (or_integrity (k.unseal data_key data_nonce ciphertext (scope_aad (codes "data") scope))
            >>= λ plain. read_payload (k.unmarshal_payload plain))

  unfoldable pub compute_mac : Document → Bytes
  compute_mac d =
      k.hmac s.root_key
        (codes "ironrun-vault-manifest-v1" ++ nul ∷ k.marshal (record d { mac = [] }))

  unfoldable pub verify_mac : Document → Try VaultError (Unit {0})
  unfolding or_integrity compute_mac
  verify_mac d = do
    provided ← or_integrity (k.decode d.mac)
    guard (not (bytes_eq provided []) && bytes_eq provided (compute_mac d)) integrity

  unfoldable pub parse_document : Option Document → Try VaultError Document
  unfolding verify_mac
  parse_document none = err integrity
  parse_document (some d) =
      guard
        (d.version == format_version
          && (bytes_eq d.cipher cipher_name && bytes_eq d.project_id s.project_id))
        integrity
      >> (verify_mac d >> ok d)

  unfoldable pub parse_vault : Bytes → Try VaultError Document
  unfolding parse_document
  parse_vault text = parse_document (k.unmarshal text)

  abbrev pub new_document : Document
  new_document = record {
    version = format_version;
    cipher = cipher_name;
    project_id = s.project_id;
    revision = 0;
    updated_at = 0;
    scopes = [];
    mac = [];
  }

  unfoldable pub load_vault : VaultFile → Try VaultError Document
  unfolding parse_vault
  load_vault missing = ok new_document
  load_vault unreadable = err unread
  load_vault (present text) = parse_vault text

  abbrev pub signed : Document → Document
  signed d = record d { mac = k.encode (compute_mac d) }

  unfoldable pub save_vault : Commit → VaultFile → Document → VaultFile × Try VaultError (Unit {0})
  unfolding compute_mac
  save_vault lost file d = (file, err uncommitted)
  save_vault kept file d = (present (k.marshal_indent (signed d) ++ codes "\n"), ok tt)
  save_vault kept_with_error file d =
      (present (k.marshal_indent (signed d) ++ codes "\n"), err uncommitted)
