-- ===== src/Vault/Changed.antt =====
-- internal/vault/store.go: what a change that returned no error has saved.
use ironrun.Prelude.{
  ◌≡◌, ◌≢◌, refl, sym, ap, subst, ◌⊎◌, inl, inr, false, [], ◌∷◌, ◌++◌, Option, none, some,
  if◌then◌else◌, Bool-cases, Option-cases, length, Bytes, codes, bytes_eq, bytes_eq_iff, Try, ok,
  err, guard, seq_iff, bind-eq-ok, ◌>>=◌, ◌>>◌,
}
use ironrun.Policy.Document.{lookup_key}
use ironrun.Vault.Document.{Map, Document, ScopePayload, VaultFile, present, Primitives, put_key}
use ironrun.Vault.Sealing.{
  Vault, VaultEnv, Random, VaultError, Commit, lost, kept, kept_with_error, not_locked, seal_with,
  seal_scope, load_vault, save_vault, signed,
}
use ironrun.Vault.Store.{
  validate_name, next_revision, refuse, commit_change, transact, payload_of, with_payload,
  change_scope, put_value, when_valid, set,
}

pub differs : (key other : Bytes) → other ≢ key → bytes_eq key other ≡ false
differs key other apart = elim (Bool-cases (bytes_eq key other)) [
  | inl e ↦ absurd (apart (sym ((bytes_eq_iff key other).0 e)))
  | inr e ↦ e
]

module _ {A : Type 0} where
  pub lookup-put_key : (key : Bytes) (a : A) (m : Map A) → lookup_key key (put_key key a m) ≡ some a
  unfolding lookup_key put_key
  lookup-put_key key a [] = rw ((bytes_eq_iff key key).1 refl) refl
  lookup-put_key key a ((l, b) ∷ m) = elim (Bool-cases (bytes_eq l key)) [
    | inl e ↦ rw (e, (bytes_eq_iff key key).1 refl) refl
    | inr e ↦ rw (e, e) (lookup-put_key key a m)
  ]

  pub lookup-put_key_other :
      (key other : Bytes) (a : A) (m : Map A)
      → other ≢ key
      → lookup_key other (put_key key a m) ≡ lookup_key other m
  unfolding lookup_key put_key
  lookup-put_key_other key other a [] apart = rw (differs key other apart) refl
  lookup-put_key_other key other a ((l, b) ∷ m) apart = elim (Bool-cases (bytes_eq l key)) [
    | inl e ↦
        let same = (bytes_eq_iff l key).0 e in
        let differ = differs key other apart in
        rw e (rw (differ, subst (λ x. bytes_eq x other ≡ false) (sym same) differ) refl)
    | inr e ↦ rw e (
        ap (λ r. if bytes_eq l other then some b else r) (lookup-put_key_other key other a m apart))
  ]

pub refuse_ok :
    (file after : VaultFile) (done : VaultFile × Try VaultError (Unit {0}))
    (t : Try VaultError (Unit {0}))
    → refuse file done t ≡ (after, ok tt)
    → (t ≡ ok tt) × (done ≡ (after, ok tt))
unfolding refuse
refuse_ok file after done (err why) h = cc
refuse_ok file after done (ok u) h = (refl, h)

save_vault_ok :
    (k : Primitives) (s : Vault) (c : Commit) (file after : VaultFile) (d : Document)
    → save_vault k s c file d ≡ (after, ok tt)
    → after ≡ present (k.marshal_indent (signed k s d) ++ codes "\n")
unfolding save_vault
save_vault_ok k s lost file after d h = cc
save_vault_ok k s kept file after d h =
    sym (ap (λ (x : VaultFile × Try VaultError (Unit {0})). x.0) h)
save_vault_ok k s kept_with_error file after d h = cc

pub commit_change_ok :
    (k : Primitives) (s : Vault) (env : VaultEnv) (file after : VaultFile)
    (t : Try VaultError (Option Document))
    → commit_change k s env file t ≡ (after, ok tt)
    → ((t ≡ ok none) × (after ≡ file))
      ⊎ ((d : Document) × (t ≡ ok (some d))
          × (after ≡ present (k.marshal_indent (signed k s d) ++ codes "\n")))
unfolding commit_change
commit_change_ok k s env file after (err why) h = cc
commit_change_ok k s env file after (ok none) h =
    inl (refl, sym (ap (λ (x : VaultFile × Try VaultError (Unit {0})). x.0) h))
commit_change_ok k s env file after (ok (some d)) h =
    inr (d, refl, save_vault_ok k s env.commit file after d h)

module _ (k : Primitives) (s : Vault) (env : VaultEnv) (scope key value : Bytes) where
  -- The document that `Set` saves.
  abbrev pub changed : Document → ScopePayload → Random → Document
  changed d p r = next_revision env.now (record d {
    scopes = put_key scope (seal_with k s scope (put_value k s env key value p) r) d.scopes;
  })

  -- What `Set` did when it returned no error.
  pub record Stored (file after : VaultFile) : Type 0 where
    pub d : Document
    pub p : ScopePayload
    pub r : Random
    pub scope_valid : validate_name scope ≡ ok tt
    pub key_valid : validate_name key ≡ ok tt
    pub loaded : load_vault k s file ≡ ok d
    pub opened : payload_of k s env scope (lookup_key scope d.scopes) ≡ ok p
    pub drawn : env.random ≡ some r
    pub saved : after ≡ present (k.marshal_indent (signed k s (changed d p r)) ++ codes "\n")

  sealed_ok :
      (d : Document) (q : ScopePayload) (o : Option Document)
      → with_payload k s env scope d q ≡ ok o
      → (r : Random) × (env.random ≡ some r)
        × (o
            ≡ some (
                next_revision env.now
                  (record d { scopes = put_key scope (seal_with k s scope q r) d.scopes })))
  unfolding with_payload seal_scope
  sealed_ok d q o h = elim (Option-cases env.random) [
    | inl nothing ↦ let h' = rw nothing at h in cc
    | inr (r, drawn) ↦ let h' = rw drawn at h in (r, drawn, cc)
  ]

  set_change : VaultFile → Try VaultError (Option Document)
  set_change file =
      guard env.locked not_locked
      >> (load_vault k s file >>= change_scope k s env scope (put_value k s env key value))

  set_steps :
      (file : VaultFile) (o : Option Document)
      → set_change file ≡ ok o
      → (d : Document) × (p : ScopePayload) × (r : Random) × (load_vault k s file ≡ ok d)
        × (payload_of k s env scope (lookup_key scope d.scopes) ≡ ok p)
        × (env.random ≡ some r)
        × (o ≡ some (changed d p r))
  unfolding set_change change_scope
  set_steps file o e =
      let change = change_scope k s env scope (put_value k s env key value) in
      let (locked, e0) =
        (seq_iff (guard env.locked not_locked) (load_vault k s file >>= change)).0 e in
      let (d, loaded, e1) = bind-eq-ok (load_vault k s file) change e0 in
      let (p, opened, e2) =
        bind-eq-ok (payload_of k s env scope (lookup_key scope d.scopes)) _ e1 in
      let (r, drawn, same) = sealed_ok d (put_value k s env key value p) o e2 in
      (d, p, r, loaded, opened, drawn, same)

  pub set-Stored :
      (file after : VaultFile)
      → set k s env scope key value file ≡ (after, ok tt)
      → Stored file after
  unfolding set when_valid transact set_change
  set-Stored file after h =
      let (valid, done) = refuse_ok file after _ (validate_name scope >> validate_name key) h in
      let (scope_valid, key_valid) = (seq_iff (validate_name scope) (validate_name key)).0 valid in
      elim (commit_change_ok k s env file after (set_change file) done) [
        | inl (nothing, _) ↦ let (d, p, r, a, b, c, same) = set_steps file none nothing in absurd cc
        | inr (e, changes, saved) ↦
            let (d, p, r, loaded, opened, drawn, same) = set_steps file (some e) changes in
            let same' : e ≡ changed d p r = cc in
            record {
              d = d;
              p = p;
              r = r;
              scope_valid = scope_valid;
              key_valid = key_valid;
              loaded = loaded;
              opened = opened;
              drawn = drawn;
              saved =
                  subst (λ x. after ≡ present (k.marshal_indent (signed k s x) ++ codes "\n")) same'
                    saved;
            }
      ]

  -- What is written is UTF-8, and the data key is 32 random bytes.
  unfoldable pub Writable : VaultFile → Type 0
  Writable file =
      (d : Document) (p : ScopePayload) (r : Random)
      → load_vault k s file ≡ ok d
      → payload_of k s env scope (lookup_key scope d.scopes) ≡ ok p
      → env.random ≡ some r
      → k.IsTextPayload (put_value k s env key value p)
        × k.IsText (signed k s (changed d p r))
        × (length r.data_key ≡ 32)
