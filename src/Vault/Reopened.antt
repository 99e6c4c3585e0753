-- ===== src/Vault/Reopened.antt =====
-- internal/vault/store.go: what was sealed opens, and what was saved loads.
use ironrun.Prelude.{
  ◌≡◌, refl, ap, subst, ◌∙◌, true, ◌&&◌, [], ◌∷◌, ◌++◌, Option, none, some, ◌==◌, length, Bytes,
  codes, bytes_eq, bytes_eq_iff, ok, guard, guard_iff, seq_iff, ◌>>◌, arith,
}
use ironrun.Vault.Document.{
  Document, ScopePayload, format_version, cipher_name, VaultFile, missing, unreadable, present,
  Primitives,
}
use ironrun.Vault.Sealing.{
  Vault, Random, seal_with, scope_aad, or_integrity, read_payload, is_key_size, nul, open_scope,
  compute_mac, verify_mac, parse_document, parse_vault, load_vault, signed, new_document, integrity,
}

module _ (k : Primitives) (s : Vault) where
  -- A sealed payload opens under its scope's name.
  pub open-seal_with :
      (scope : Bytes) (p : ScopePayload) (r : Random)
      → k.IsTextPayload p
      → is_key_size (length r.data_key) ≡ true
      → open_scope k s scope (seal_with k s scope p r) ≡ ok p
  unfolding open_scope seal_with or_integrity read_payload
  open-seal_with scope p r text size =
      rw
        (
          k.decode_encode r.key_nonce,
          k.decode_encode
              (k.seal s.root_key r.key_nonce r.data_key (scope_aad k s (codes "key") scope)),
          k.unseal_seal s.root_key r.key_nonce r.data_key (scope_aad k s (codes "key") scope),
          k.decode_encode r.data_nonce,
          k.decode_encode (
              k.seal r.data_key r.data_nonce (k.marshal_payload p)
                (scope_aad k s (codes "data") scope)),
          size,
          k.unseal_seal r.data_key r.data_nonce (k.marshal_payload p)
              (scope_aad k s (codes "data") scope),
          k.back_payload p text,
        )
        refl

  bytes_eq_refl : (b : Bytes) → bytes_eq b b ≡ true
  bytes_eq_refl b = (bytes_eq_iff b b).1 refl

  pub verify_mac-signed : (d : Document) → verify_mac k s (signed k s d) ≡ ok tt
  unfolding verify_mac or_integrity compute_mac
  verify_mac-signed d =
      let text = codes "ironrun-vault-manifest-v1" ++ nul ∷ k.marshal (record d { mac = [] }) in
      rw
        (
          k.decode_encode (k.hmac s.root_key text),
          k.hmac_given s.root_key text,
          bytes_eq_refl (k.hmac s.root_key text),
        )
        refl

  -- The document is of this format and of the vault's project.
  abbrev pub IsOwn : Document → Type 0
  IsOwn d = (d.version ≡ format_version) × (d.cipher ≡ cipher_name) × (d.project_id ≡ s.project_id)

  own_test :
      (d : Document)
      → IsOwn d
      → (d.version == format_version
          && (bytes_eq d.cipher cipher_name && bytes_eq d.project_id s.project_id))
        ≡ true
  own_test d (version, cipher, project) = ground (
    arith,
    (bytes_eq_iff d.cipher cipher_name).1 cipher,
    (bytes_eq_iff d.project_id s.project_id).1 project,
  )

  parse_document_lem :
      (d : Document) → IsOwn d → verify_mac k s d ≡ ok tt → parse_document k s (some d) ≡ ok d
  unfolding parse_document
  parse_document_lem d own verified = rw (own_test d own, verified) refl

  -- A signed document of the vault's project loads.
  pub load_vault-signed :
      (d : Document)
      → IsOwn d
      → k.IsText (signed k s d)
      → load_vault k s (present (k.marshal_indent (signed k s d) ++ codes "\n")) ≡ ok (signed k s d)
  unfolding load_vault parse_vault
  load_vault-signed d own text =
      ap (parse_document k s) (k.back (signed k s d) text)
      ∙ parse_document_lem (signed k s d) own (verify_mac-signed d)

  -- And what loads is of the vault's project.
  parse_document-IsOwn :
      (o : Option Document) (d : Document) → parse_document k s o ≡ ok d → IsOwn d
  unfolding parse_document
  parse_document-IsOwn none d h = cc
  parse_document-IsOwn (some e) d h =
      let test =
        e.version == format_version
        && (bytes_eq e.cipher cipher_name && bytes_eq e.project_id s.project_id) in
      let (tests, rest) = (seq_iff (guard test integrity) (verify_mac k s e >> ok e)).0 h in
      let (verified, same) = (seq_iff (verify_mac k s e) (ok e)).0 rest in
      let back : e ≡ d = cc in
      let passed = (guard_iff test integrity).0 tests in
      subst IsOwn back
        (ground (arith, bytes_eq_iff e.cipher cipher_name, bytes_eq_iff e.project_id s.project_id))

  pub load_vault-IsOwn : (file : VaultFile) (d : Document) → load_vault k s file ≡ ok d → IsOwn d
  unfolding load_vault parse_vault
  load_vault-IsOwn missing d h =
      let same : new_document k s ≡ d = cc in subst IsOwn same (refl, refl, refl)
  load_vault-IsOwn unreadable d h = cc
  load_vault-IsOwn (present text) d h = parse_document-IsOwn (k.unmarshal text) d h
