-- ===== src/Vault/Kept.antt =====
-- internal/vault/store.go: a value that was set is read back, and no other value changes.
use ironrun.Prelude.{
  ◌≡◌, ◌≢◌, refl, sym, ap, subst, ◌∙◌, ◌⊎◌, inl, inr, [], none, some, Bool-cases, Option-cases,
  Bytes, bytes_eq, bytes_eq_iff, Try, ok, err, ◌>>=◌, ◌>>◌, arith,
}
use ironrun.Policy.Document.{lookup_key}
use ironrun.Vault.Document.{SealedScope, Document, ScopePayload, VaultFile, Primitives, put_key}
use ironrun.Vault.Sealing.{
  Vault, VaultEnv, VaultError, value_missing, seal_with, open_scope, load_vault, signed,
}
use ironrun.Vault.Reopened.{open-seal_with, load_vault-signed, load_vault-IsOwn}
use ironrun.Vault.Store.{
  validate_name, next_revision, found_value, payload_of, put_value, set, scope_payload, get,
}
use ironrun.Vault.Changed.{
  lookup-put_key, lookup-put_key_other, Stored, set-Stored, changed, Writable,
}

module _ (k : Primitives) (s : Vault) where
  -- What `Get` reads from a document.
  value_in : Bytes → Bytes → Document → Try VaultError Bytes
  value_in scope key d = scope_payload k s scope d >>= λ p. found_value (lookup_key key p.values)

  get_loaded :
      (scope key : Bytes) (file : VaultFile) (d : Document)
      → load_vault k s file ≡ ok d
      → get k s scope key file
        ≡ (validate_name scope >> (validate_name key >> value_in scope key d))
  unfolding get value_in
  get_loaded scope key file d h = rw h refl

  value_in-opened :
      (scope key : Bytes) (d : Document) (sealed : SealedScope) (p : ScopePayload)
      → lookup_key scope d.scopes ≡ some sealed
      → open_scope k s scope sealed ≡ ok p
      → value_in scope key d ≡ found_value (lookup_key key p.values)
  unfolding value_in scope_payload found_value
  value_in-opened scope key d sealed p here opens = rw (here, opens) refl

  value_in-missing :
      (env : VaultEnv) (scope key : Bytes) (d : Document) (p : ScopePayload)
      → lookup_key scope d.scopes ≡ none
      → payload_of k s env scope none ≡ ok p
      → value_in scope key d ≡ found_value (lookup_key key p.values)
  unfolding value_in scope_payload found_value payload_of lookup_key
  value_in-missing env scope key d p nothing h =
      let empty : record { values = []; blobs = [] } ≡ p = cc in
      rw nothing (
        subst (λ (q : ScopePayload). err value_missing ≡ found_value (lookup_key key q.values))
          empty refl)

  value_in-payload :
      (env : VaultEnv) (scope key : Bytes) (d : Document) (p : ScopePayload)
      → payload_of k s env scope (lookup_key scope d.scopes) ≡ ok p
      → value_in scope key d ≡ found_value (lookup_key key p.values)
  value_in-payload env scope key d p h = elim (Option-cases (lookup_key scope d.scopes)) [
    | inl nothing ↦ value_in-missing env scope key d p nothing (rw nothing at h)
    | inr (sealed, here) ↦
        value_in-opened scope key d sealed p here (unfold payload_of in (rw here at h))
  ]

  value_in-other :
      (scope key : Bytes) (d e : Document)
      → lookup_key scope e.scopes ≡ lookup_key scope d.scopes
      → value_in scope key e ≡ value_in scope key d
  unfolding value_in scope_payload
  value_in-other scope key d e same = rw same refl

module _ (k : Primitives) (s : Vault) (env : VaultEnv) (scope key value : Bytes)
    (file after : VaultFile) where
  -- The saved document, as `load` finds it.
  after-loads :
      (st : Stored k s env scope key value file after)
      → Writable k s env scope key value file
      → load_vault k s after ≡ ok (signed k s (changed k s env scope key value st.d st.p st.r))
  unfolding Writable next_revision
  after-loads st w =
      let (_, text, _) = w st.d st.p st.r st.loaded st.opened st.drawn in
      subst
        (λ f. load_vault k s f ≡ ok (signed k s (changed k s env scope key value st.d st.p st.r)))
        (sym st.saved)
        (load_vault-signed k s (changed k s env scope key value st.d st.p st.r)
          (load_vault-IsOwn k s file st.d st.loaded) text)

  after-opens :
      (st : Stored k s env scope key value file after)
      → Writable k s env scope key value file
      → open_scope k s scope (seal_with k s scope (put_value k s env key value st.p) st.r)
        ≡ ok (put_value k s env key value st.p)
  unfolding Writable
  after-opens st w =
      let (text, _, size) = w st.d st.p st.r st.loaded st.opened st.drawn in
      open-seal_with k s scope (put_value k s env key value st.p) st.r text (rw size (ground arith))

  read_after :
      (at : Bytes) (st : Stored k s env scope key value file after)
      → Writable k s env scope key value file
      → value_in k s scope at (signed k s (changed k s env scope key value st.d st.p st.r))
        ≡ found_value (lookup_key at (put_key key value st.p.values))
  unfolding next_revision
  read_after at st w =
      value_in-opened k s scope at (signed k s (changed k s env scope key value st.d st.p st.r))
        (seal_with k s scope (put_value k s env key value st.p) st.r)
        (put_value k s env key value st.p)
        (lookup-put_key scope (seal_with k s scope (put_value k s env key value st.p) st.r)
          st.d.scopes)
        (after-opens st w)

  frame :
      (st : Stored k s env scope key value file after)
      → Writable k s env scope key value file
      → (other at : Bytes) → (other ≢ scope) ⊎ (at ≢ key)
      → value_in k s other at (signed k s (changed k s env scope key value st.d st.p st.r))
        ≡ value_in k s other at st.d
  unfolding next_revision
  frame st w other at apart = elim (Bool-cases (bytes_eq other scope)) [
    | inr differ ↦
        value_in-other k s other at st.d
          (signed k s (changed k s env scope key value st.d st.p st.r))
          (lookup-put_key_other scope other
            (seal_with k s scope (put_value k s env key value st.p) st.r) st.d.scopes
            (λ e. let same = (bytes_eq_iff other scope).1 e in cc))
    | inl e ↦
        let same = (bytes_eq_iff other scope).0 e in
        let other_key : at ≢ key = elim apart [ inl h ↦ absurd (h same) | inr h ↦ h ] in
        subst
          (λ x.
            value_in k s x at (signed k s (changed k s env scope key value st.d st.p st.r))
            ≡ value_in k s x at st.d)
          (sym same)
          (read_after at st w
            ∙ (ap found_value (lookup-put_key_other key at value st.p.values other_key)
                ∙ sym (value_in-payload k s env scope at st.d st.p st.opened)))
  ]

  -- After `Set` of a value that returned no error, `Get` of its scope and key gives the value, and of any
  -- other scope or key gives what it gave before. What is written is UTF-8, and the data key is drawn in
  -- full.
  pub set-get :
      Writable k s env scope key value file
      → set k s env scope key value file ≡ (after, ok tt)
      → (get k s scope key after ≡ ok value)
        × ((other at : Bytes)
            → (other ≢ scope) ⊎ (at ≢ key)
            → get k s other at after ≡ get k s other at file)
  set-get w h =
      let st = set-Stored k s env scope key value file after h in
      let loads = after-loads st w in
      (
        get_loaded k s scope key after _ loads
            ∙ rw
                (
                  st.scope_valid,
                  st.key_valid,
                  read_after key st w,
                  lookup-put_key key value st.p.values,
                )
                (unfold found_value in refl),
        λ other at apart.
            get_loaded k s other at after _ loads
            ∙ (ap (λ v. validate_name other >> (validate_name at >> v)) (frame st w other at apart)
                ∙ sym (get_loaded k s other at file st.d st.loaded)),
      )
