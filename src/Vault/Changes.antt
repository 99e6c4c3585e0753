-- ===== src/Vault/Changes.antt =====
-- internal/vault/store.go: what each change makes of the revision.
use ironrun.Prelude.{
  ◌+◌, ◌≤◌, ◌<◌, ◌≡◌, refl, subst, ◌⊎◌, inl, inr, not, ◌&&◌, ◌++◌, Option, none, some, ◌==◌, ltb,
  leb, Bool-cases, Try-cases, length, Bytes, codes, bytes_eq, Try, ok, err, guard, seq_iff,
  bind-eq-ok, ◌>>=◌, ◌>>◌, arith,
}
use native.Mathlib.Nat.{mod-eq_of_lt}
use ironrun.Policy.Document.{lookup_key}
use ironrun.Vault.Document.{
  Map, SealedScope, Document, ScopePayload, VaultFile, present, Primitives, put_key, remove_key,
}
use ironrun.Vault.Sealing.{
  Vault, VaultEnv, VaultError, not_locked, open_scope, seal_scope, parse_vault, load_vault, signed,
  save_vault, lost, kept, kept_with_error, Commit,
}
use ironrun.Vault.Reopened.{IsOwn, load_vault-IsOwn}
use ironrun.Vault.Store.{
  uint64, next_revision, refuse, commit_change, transact, payload_of, with_payload, change_scope,
  delete_from, delete_change, drop_scope, newer, authentic, has_key,
}

module _ (k : Primitives) (s : Vault) (env : VaultEnv) where
  -- A document that may stand in for `d`.
  unfoldable pub Follows : Document → Document → Type 0
  Follows d e = (d.revision ≤ e.revision) × IsOwn k s e

  -- A change of `d` that follows it, if it is one.
  pub Safe : Document → Try VaultError (Option Document) → Type 0
  Safe d t = (e : Document) → t ≡ ok (some e) → Follows d e

  -- The file is as it was, or holds a document that follows.
  unfoldable pub Advanced : VaultFile → Document → VaultFile → Type 0
  Advanced file d after =
      (after ≡ file)
      ⊎ ((e : Document) × (after ≡ present (k.marshal_indent (signed k s e) ++ codes "\n"))
          × Follows d e)

  save_vault-Advanced :
      (c : Commit) (file : VaultFile) (d e : Document)
      → Follows d e
      → Advanced file d (save_vault k s c file e).0
  unfolding save_vault Advanced
  save_vault-Advanced lost file d e f = inl refl
  save_vault-Advanced kept file d e f = inr (e, refl, f)
  save_vault-Advanced kept_with_error file d e f = inr (e, refl, f)

  pub commit-Advanced :
      (file : VaultFile) (d : Document) (t : Try VaultError (Option Document))
      → Safe d t
      → Advanced file d (commit_change k s env file t).0
  unfolding commit_change Advanced Safe
  commit-Advanced file d (err why) f = inl refl
  commit-Advanced file d (ok none) f = inl refl
  commit-Advanced file d (ok (some e)) f =
      unfold Advanced in save_vault-Advanced env.commit file d e (f e refl)

  pub refuse-Advanced :
      (file : VaultFile) (d : Document) (done : VaultFile × Try VaultError (Unit {0}))
      (t : Try VaultError (Unit {0}))
      → Advanced file d done.0
      → Advanced file d (refuse file done t).0
  unfolding refuse Advanced
  refuse-Advanced file d done (err why) a = inl refl
  refuse-Advanced file d done (ok u) a = a

  pub transact-Advanced :
      (file : VaultFile) (d : Document) (change : Document → Try VaultError (Option Document))
      → load_vault k s file ≡ ok d
      → Safe d (change d)
      → Advanced file d (transact k s env change file).0
  unfolding transact Safe
  transact-Advanced file d change loads safe =
      commit-Advanced file d (guard env.locked not_locked >> (load_vault k s file >>= change))
        (λ e h.
          let both = seq_iff (guard env.locked not_locked) (load_vault k s file >>= change) in
          safe e (rw loads at (both.0 h).1))

  -- The next revision, with other scopes.
  next-Follows :
      (file : VaultFile) (d : Document) (scopes : Map SealedScope)
      → load_vault k s file ≡ ok d
      → d.revision + 1 < uint64
      → Follows d (next_revision env.now (record d { scopes = scopes }))
  unfolding next_revision Follows
  next-Follows file d scopes loads small =
      let same = mod-eq_of_lt small in (rw same (omega arith), load_vault-IsOwn k s file d loads)

  with_payload-Safe :
      (file : VaultFile) (d : Document) (scope : Bytes) (p : ScopePayload)
      → load_vault k s file ≡ ok d
      → d.revision + 1 < uint64
      → Safe d (with_payload k s env scope d p)
  unfolding with_payload Safe
  with_payload-Safe file d scope p loads small e h =
      let (sealed, drawn, same) = bind-eq-ok (seal_scope k s scope p env.random) _ h in
      let back : next_revision env.now (record d { scopes = put_key scope sealed d.scopes }) ≡ e =
        cc in
      subst (Follows d) back (next-Follows file d (put_key scope sealed d.scopes) loads small)

  pub change_scope-Safe :
      (file : VaultFile) (d : Document) (scope : Bytes) (change : ScopePayload → ScopePayload)
      → load_vault k s file ≡ ok d
      → d.revision + 1 < uint64
      → Safe d (change_scope k s env scope change d)
  unfolding change_scope Safe
  change_scope-Safe file d scope change loads small e h =
      let (p, opened, more) =
        bind-eq-ok (payload_of k s env scope (lookup_key scope d.scopes)) _ h in
      unfold Safe in (with_payload-Safe file d scope (change p) loads small) e more

  delete_from-Safe :
      (file : VaultFile) (d : Document) (scope key : Bytes) (p : ScopePayload)
      → load_vault k s file ≡ ok d
      → d.revision + 1 < uint64
      → Safe d (delete_from k s env scope key d p)
  unfolding delete_from Safe
  delete_from-Safe file d scope key p loads small e h =
      elim (Bool-cases (not (has_key k s env key p.values) && not (has_key k s env key p.blobs))) [
        | inl nothing ↦ let h' = rw nothing at h in cc
        | inr some_ ↦
            elim (Bool-cases (
              leb (length (remove_key key p.values)) 0
              && leb (length (remove_key key p.blobs)) 0)) [
                | inl emptied ↦
                    let h' = rw (some_, emptied) at h in
                    let back : next_revision env.now
                          (record d { scopes = remove_key scope d.scopes })
                        ≡ e =
                      cc in
                    subst (Follows d) back
                      (next-Follows file d (remove_key scope d.scopes) loads small)
                | inr more ↦
                    with_payload-Safe file d scope
                      (record { values = remove_key key p.values; blobs = remove_key key p.blobs })
                      loads small e (rw (some_, more) at h)
              ]
      ]

  newer-Safe :
      (text : Bytes) (d incoming : Document)
      → IsOwn k s incoming
      → Safe d (newer k s env incoming d)
  unfolding newer Safe Follows
  newer-Safe text d incoming own e h = elim (Bool-cases (ltb incoming.revision d.revision)) [
    | inl older ↦ let h' = rw older at h in cc
    | inr not_older ↦ elim (Bool-cases (incoming.revision == d.revision)) [
      | inl same ↦ elim (Bool-cases (bytes_eq incoming.mac d.mac)) [
        | inl equal ↦ let h' = rw (not_older, same, equal) at h in cc
        | inr differ ↦ let h' = rw (not_older, same, differ) at h in cc
      ]
      | inr newer_ ↦
          let h' = rw (not_older, newer_) at h in
          let back : incoming ≡ e = cc in
          subst (λ x. (d.revision ≤ x.revision) × IsOwn k s x) back (ground arith, own)
    ]
  ]

  parse_vault-IsOwn :
      (text : Bytes) (d : Document) → authentic k s env (parse_vault k s text) ≡ ok d → IsOwn k s d
  unfolding authentic
  parse_vault-IsOwn text d h = elim (Try-cases (parse_vault k s text)) [
    | inl (why, bad) ↦ let h' = rw bad at h in cc
    | inr (e, good) ↦
        let h' = rw good at h in
        let back : e ≡ d = cc in
        subst (IsOwn k s) back (load_vault-IsOwn k s (present text) e (unfold load_vault in good))
  ]

  pub replace_vault-Safe :
      (text : Bytes) (file : VaultFile) (d : Document)
      → load_vault k s file ≡ ok d
      → Safe d (
          guard env.locked not_locked
          >> (authentic k s env (parse_vault k s text) >>= λ incoming.
              load_vault k s file >>= newer k s env incoming))
  unfolding Safe
  replace_vault-Safe text file d loads e h =
      let both = seq_iff (guard env.locked not_locked) (
        authentic k s env (parse_vault k s text) >>= λ incoming.
        load_vault k s file >>= newer k s env incoming) in
      let (incoming, good, more) =
        bind-eq-ok (authentic k s env (parse_vault k s text)) _ (both.0 h).1 in
      newer-Safe text d incoming (parse_vault-IsOwn text incoming good) e (rw loads at more)

  pub delete_change-Safe :
      (file : VaultFile) (d : Document) (scope key : Bytes) (o : Option SealedScope)
      → load_vault k s file ≡ ok d
      → d.revision + 1 < uint64
      → Safe d (delete_change k s env scope key d o)
  unfolding delete_change Safe
  delete_change-Safe file d scope key none loads small e h = cc
  delete_change-Safe file d scope key (some sealed) loads small e h =
      let (p, opened, more) = bind-eq-ok (open_scope k s scope sealed) _ h in
      delete_from-Safe file d scope key p loads small e more

  pub drop_scope-Safe :
      (file : VaultFile) (d : Document) (scope : Bytes) (o : Option SealedScope)
      → load_vault k s file ≡ ok d
      → d.revision + 1 < uint64
      → Safe d (drop_scope k s env scope d o)
  unfolding drop_scope Safe
  drop_scope-Safe file d scope none loads small e h = cc
  drop_scope-Safe file d scope (some sealed) loads small e h =
      let back : next_revision env.now (record d { scopes = remove_key scope d.scopes }) ≡ e = cc in
      subst (Follows d) back (next-Follows file d (remove_key scope d.scopes) loads small)
