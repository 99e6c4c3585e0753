-- ===== src/Vault/Revision.antt =====
-- internal/vault/store.go: the revision of the stored document.
use ironrun.Prelude.{◌+◌, ◌≤◌, ◌<◌, ◌≡◌, ap, ◌∙◌, ◌⊎◌, inl, inr, ◌++◌, Bytes, codes, ok, ◌>>◌}
use ironrun.Policy.Document.{lookup_key}
use ironrun.Vault.Document.{Document, VaultFile, present, Primitives}
use ironrun.Vault.Sealing.{Vault, VaultEnv, load_vault, signed}
use ironrun.Vault.Reopened.{IsOwn, load_vault-signed}
use ironrun.Vault.Store.{
  uint64, change_scope, put_value, put_blob, when_valid, set, set_bytes, delete_change, delete,
  drop_scope, delete_scope, replace_vault, validate_name,
}
use ironrun.Vault.Changes.{
  Follows, Advanced, commit-Advanced, refuse-Advanced, transact-Advanced, change_scope-Safe,
  replace_vault-Safe, delete_change-Safe, drop_scope-Safe,
}

-- The calls that write.
pub data VaultCall : Type 0 where
  setting setting_bytes : Bytes → Bytes → Bytes → VaultCall
  deleting : Bytes → Bytes → VaultCall
  deleting_scope replacing : Bytes → VaultCall

pub after_call : Primitives → Vault → VaultEnv → VaultCall → VaultFile → VaultFile
after_call k s env (setting scope key value) file = (set k s env scope key value file).0
after_call k s env (setting_bytes scope key value) file = (set_bytes k s env scope key value file).0
after_call k s env (deleting scope key) file = (delete k s env scope key file).0
after_call k s env (deleting_scope scope) file = (delete_scope k s env scope file).0
after_call k s env (replacing text) file = (replace_vault k s env text file).0

module _ (k : Primitives) (s : Vault) (env : VaultEnv) where
  call-Advanced :
      (c : VaultCall) (file : VaultFile) (d : Document)
      → load_vault k s file ≡ ok d
      → d.revision + 1 < uint64
      → Advanced k s env file d (after_call k s env c file)
  unfolding after_call set set_bytes delete delete_scope replace_vault when_valid
  call-Advanced (setting scope key value) file d loads small =
      refuse-Advanced k s env file d _ (validate_name scope >> validate_name key) (
        transact-Advanced k s env file d (change_scope k s env scope (put_value k s env key value))
          loads (change_scope-Safe k s env file d scope (put_value k s env key value) loads small))
  call-Advanced (setting_bytes scope key value) file d loads small =
      refuse-Advanced k s env file d _ (validate_name scope >> validate_name key) (
        transact-Advanced k s env file d (change_scope k s env scope (put_blob k s env key value))
          loads (change_scope-Safe k s env file d scope (put_blob k s env key value) loads small))
  call-Advanced (deleting scope key) file d loads small =
      refuse-Advanced k s env file d _ (validate_name scope >> validate_name key) (
        transact-Advanced k s env file d
          (λ d. delete_change k s env scope key d (lookup_key scope d.scopes)) loads
          (delete_change-Safe k s env file d scope key (lookup_key scope d.scopes) loads small))
  call-Advanced (deleting_scope scope) file d loads small =
      refuse-Advanced k s env file d _ (validate_name scope) (
        transact-Advanced k s env file d
          (λ d. drop_scope k s env scope d (lookup_key scope d.scopes)) loads
          (drop_scope-Safe k s env file d scope (lookup_key scope d.scopes) loads small))
  call-Advanced (replacing text) file d loads small =
      commit-Advanced k s env file d _ (replace_vault-Safe k s env text file d loads)

  -- When the file loads and its revision is below 2^64 - 1: a call that writes, whatever it returns and
  -- however its commit ends, leaves the file as it was, or with a document of this project whose revision
  -- is not less than the one that the file held; and if all its text is UTF-8, the file loads again, as
  -- that document.
  pub revision_lasts :
      (c : VaultCall) (file : VaultFile) (d : Document)
      → load_vault k s file ≡ ok d
      → d.revision + 1 < uint64
      → (after_call k s env c file ≡ file)
        ⊎ ((e : Document) × (after_call k s env c file
              ≡ present (k.marshal_indent (signed k s e) ++ codes "\n"))
            × IsOwn k s e
            × (d.revision ≤ e.revision)
            × (k.IsText (signed k s e)
                → load_vault k s (after_call k s env c file) ≡ ok (signed k s e)))
  unfolding Advanced Follows
  revision_lasts c file d loads small = elim (call-Advanced c file d loads small) [
    | inl same ↦ inl same
    | inr (e, saved, (grows, own)) ↦ inr (
      e,
      saved,
      own,
      grows,
      (λ text. ap (load_vault k s) saved ∙ load_vault-signed k s e own text),
    )
  ]
