-- ===== src/Vault/Store.antt =====
-- internal/vault/store.go: the operations of `Store`. `uint64` wraps around.
use ironrun.Prelude.{
  ℕ, ◌+◌, ◌%◌, Bool, true, false, not, ◌&&◌, ◌||◌, [], ◌∷◌, Option, none, some, ◌==◌, ltb, leb,
  if◌then◌else◌, length, Bytes, bytes_eq, trim_space, Try, ok, err, guard, ◌>>=◌, ◌>>◌,
}
use ironrun.Policy.Document.{lookup_key}
use ironrun.Vault.Document.{
  Map, SealedScope, Document, ScopePayload, VaultFile, Primitives, put_key, remove_key,
}
use ironrun.Vault.Sealing.{
  VaultError, empty_name, nul_in_name, not_locked, value_missing, older_revision,
  conflicting_revision, unauthentic, Vault, VaultEnv, nul, seal_scope, open_scope, or_integrity,
  parse_vault, load_vault, save_vault,
}

unfoldable pub has_nul : Bytes → Bool
has_nul [] = false
has_nul (c ∷ cs) = c == nul || has_nul cs

unfoldable pub validate_name : Bytes → Try VaultError (Unit {0})
unfolding has_nul
validate_name value =
    guard (not (bytes_eq (trim_space value) [])) empty_name
    >> guard (not (has_nul value)) nul_in_name

abbrev pub uint64 : ℕ
uint64 = 18446744073709551616

-- `doc.Revision++` and `doc.UpdatedAt`
unfoldable pub next_revision : ℕ → Document → Document
next_revision now d = record d { revision = (d.revision + 1) % uint64; updated_at = now }

unfoldable pub found_value : {A : Type 0} → Option A → Try VaultError A
found_value none = err value_missing
found_value (some a) = ok a

-- An early return leaves the file alone.
unfoldable pub refuse :
    VaultFile
    → VaultFile × Try VaultError (Unit {0})
    → Try VaultError (Unit {0})
    → VaultFile × Try VaultError (Unit {0})
refuse file done (err why) = (file, err why)
refuse file done (ok u) = done

abbrev pub is_some : {A : Type 0} → Option A → Bool
is_some none = false
is_some (some a) = true

-- What a change makes of the document: nothing, or a document to save.
unfoldable pub commit_change :
    Primitives
    → Vault
    → VaultEnv
    → VaultFile
    → Try VaultError (Option Document)
    → VaultFile × Try VaultError (Unit {0})
commit_change k s env file (err why) = (file, err why)
commit_change k s env file (ok none) = (file, ok tt)
commit_change k s env file (ok (some d)) = save_vault k s env.commit file d

module _ (k : Primitives) (s : Vault) (env : VaultEnv) where
  -- `withLock` around a change of the loaded document.
  unfoldable pub transact :
      (Document → Try VaultError (Option Document))
      → VaultFile
      → VaultFile × Try VaultError (Unit {0})
  unfolding commit_change
  transact change file =
      commit_change k s env file (guard env.locked not_locked >> (load_vault k s file >>= change))

  -- The payload of a scope, empty when the document has no such scope.
  unfoldable pub payload_of : Bytes → Option SealedScope → Try VaultError ScopePayload
  payload_of scope none = ok (record { values = []; blobs = [] })
  payload_of scope (some sealed) = open_scope k s scope sealed

  unfoldable pub with_payload : Bytes → Document → ScopePayload → Try VaultError (Option Document)
  unfolding next_revision
  with_payload scope d payload = do
    sealed ← seal_scope k s scope payload env.random
    ok (some (next_revision env.now (record d { scopes = put_key scope sealed d.scopes })))

  unfoldable pub change_scope :
      Bytes → (ScopePayload → ScopePayload) → Document → Try VaultError (Option Document)
  unfolding payload_of with_payload
  change_scope scope change d = do
    payload ← payload_of scope (lookup_key scope d.scopes)
    with_payload scope d (change payload)

  abbrev pub put_value : Bytes → Bytes → ScopePayload → ScopePayload
  put_value key value p = record {
    values = put_key key value p.values;
    blobs = remove_key key p.blobs;
  }

  abbrev pub put_blob : Bytes → Bytes → ScopePayload → ScopePayload
  put_blob key value p = record {
    values = remove_key key p.values;
    blobs = put_key key (k.encode value) p.blobs;
  }

  -- The checks that come before the lock.
  unfoldable pub when_valid :
      Bytes
      → Bytes
      → VaultFile
      → VaultFile × Try VaultError (Unit {0})
      → VaultFile × Try VaultError (Unit {0})
  unfolding validate_name refuse
  when_valid scope key file done = refuse file done (validate_name scope >> validate_name key)

  -- `Set`
  unfoldable pub set : Bytes → Bytes → Bytes → VaultFile → VaultFile × Try VaultError (Unit {0})
  unfolding when_valid transact change_scope
  set scope key value file =
      when_valid scope key file (transact (change_scope scope (put_value key value)) file)

  -- `SetBytes`
  unfoldable pub set_bytes :
      Bytes → Bytes → Bytes → VaultFile → VaultFile × Try VaultError (Unit {0})
  unfolding when_valid transact change_scope
  set_bytes scope key value file =
      when_valid scope key file (transact (change_scope scope (put_blob key value)) file)

  abbrev pub has_key : {A : Type 0} → Bytes → Map A → Bool
  has_key key m = is_some (lookup_key key m)

  unfoldable pub delete_from :
      Bytes → Bytes → Document → ScopePayload → Try VaultError (Option Document)
  unfolding with_payload next_revision
  delete_from scope key d p =
      let p' : ScopePayload = record {
        values = remove_key key p.values;
        blobs = remove_key key p.blobs;
      } in
      let resealed = with_payload scope d p' in
      if not (has_key key p.values) && not (has_key key p.blobs)
      then ok none
      else if leb (length p'.values) 0 && leb (length p'.blobs) 0
      then ok (some (next_revision env.now (record d { scopes = remove_key scope d.scopes })))
      else resealed

  unfoldable pub delete_change :
      Bytes → Bytes → Document → Option SealedScope → Try VaultError (Option Document)
  unfolding delete_from
  delete_change scope key d none = ok none
  delete_change scope key d (some sealed) = open_scope k s scope sealed >>= delete_from scope key d

  -- `Delete`
  unfoldable pub delete : Bytes → Bytes → VaultFile → VaultFile × Try VaultError (Unit {0})
  unfolding when_valid transact delete_change
  delete scope key file =
      when_valid scope key file
        (transact (λ d. delete_change scope key d (lookup_key scope d.scopes)) file)

  unfoldable pub drop_scope :
      Bytes → Document → Option SealedScope → Try VaultError (Option Document)
  unfolding next_revision
  drop_scope scope d none = ok none
  drop_scope scope d (some sealed) =
      ok (some (next_revision env.now (record d { scopes = remove_key scope d.scopes })))

  -- `DeleteScope`
  unfoldable pub delete_scope : Bytes → VaultFile → VaultFile × Try VaultError (Unit {0})
  unfolding transact drop_scope validate_name refuse
  delete_scope scope file =
      refuse file (transact (λ d. drop_scope scope d (lookup_key scope d.scopes)) file)
        (validate_name scope)

  unfoldable pub newer : Document → Document → Try VaultError (Option Document)
  newer incoming local =
      if ltb incoming.revision local.revision
      then err older_revision
      else if incoming.revision == local.revision
      then (if bytes_eq incoming.mac local.mac then ok none else err conflicting_revision)
      else ok (some incoming)

  unfoldable pub authentic : Try VaultError Document → Try VaultError Document
  authentic (err why) = err unauthentic
  authentic (ok d) = ok d

  -- `Replace`
  unfoldable pub replace_vault : Bytes → VaultFile → VaultFile × Try VaultError (Unit {0})
  unfolding commit_change newer authentic
  replace_vault text file = commit_change k s env file (
      guard env.locked not_locked
      >> (authentic (parse_vault k s text) >>= λ incoming. load_vault k s file >>= newer incoming))

module _ (k : Primitives) (s : Vault) where
  unfoldable pub scope_payload : Bytes → Document → Try VaultError ScopePayload
  unfolding found_value
  scope_payload scope d = do
    sealed ← found_value (lookup_key scope d.scopes)
    open_scope k s scope sealed

  -- `Get`
  unfoldable pub get : Bytes → Bytes → VaultFile → Try VaultError Bytes
  unfolding validate_name scope_payload found_value
  get scope key file =
      validate_name scope
      >> (validate_name key
          >> (load_vault k s file >>= λ d.
              scope_payload scope d >>= λ p. found_value (lookup_key key p.values)))

  unfoldable pub blob_or_value : Option Bytes → Option Bytes → Try VaultError Bytes
  unfolding or_integrity found_value
  blob_or_value (some blob) value = or_integrity k s (k.decode blob)
  blob_or_value none value = found_value value

  -- `GetBytes`
  unfoldable pub get_bytes : Bytes → Bytes → VaultFile → Try VaultError Bytes
  unfolding validate_name scope_payload blob_or_value
  get_bytes scope key file =
      validate_name scope
      >> (validate_name key
          >> (load_vault k s file >>= λ d. scope_payload scope d >>= λ p.
              blob_or_value (lookup_key key p.blobs) (lookup_key key p.values)))
