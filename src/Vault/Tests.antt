-- ===== src/Vault/Tests.antt =====
-- internal/vault/store.go: primitives that know one document and one payload, and the theorems there.
use ironrun.Prelude.{
  ◌≤◌, ◌≡◌, ◌≢◌, ◌⊎◌, refl, sym, ap, subst, true, [], ◌∷◌, ◌++◌, none, some, length, Bytes, codes,
  bytes_eq, trim_space, is_space, ok, err, arith,
}
use ironrun.Policy.Document.{lookup_key}
use ironrun.Vault.Document.{
  SealedScope, Document, ScopePayload, cipher_name, VaultFile, missing, present, Primitives,
  put_key, remove_key,
}
use ironrun.Vault.Sealing.{
  Vault, VaultEnv, Random, kept, seal_with, seal_scope, load_vault, save_vault, signed, compute_mac,
  nul_in_name, new_document,
}
use ironrun.Vault.Reopened.{IsOwn}
use ironrun.Vault.Store.{
  validate_name, has_nul, refuse, set, get, next_revision, payload_of, put_value, when_valid,
  transact, change_scope, with_payload, commit_change,
}
use ironrun.Vault.Changed.{changed, Writable}
use ironrun.Vault.Kept.{set-get}
use ironrun.Vault.Revision.{setting, after_call, revision_lasts}

abbrev key32 : Bytes
key32 = codes "0123456789abcdef0123456789abcdef"

abbrev sealed : SealedScope
sealed = record {
  key_nonce = codes "n";
  wrapped_key = key32;
  data_nonce = codes "m";
  ciphertext = codes "c";
}

abbrev payload : ScopePayload
payload = record { values = (codes "TOKEN", codes "abcd") ∷ []; blobs = [] }

abbrev first : Document
first = record {
  version = 1;
  cipher = cipher_name;
  project_id = codes "p";
  revision = 1;
  updated_at = 9;
  scopes = (codes "dev", sealed) ∷ [];
  mac = codes "h";
}

abbrev primitives : Primitives
primitives = record {
  seal = λ key nonce plain aad. plain;
  unseal = λ key nonce cipher aad. some cipher;
  hmac = λ key text. codes "h";
  encode = λ b. b;
  decode = some;
  marshal = λ d. [];
  marshal_indent = λ d. codes "{}";
  unmarshal = λ text. some first;
  marshal_payload = λ p. codes "c";
  unmarshal_payload = λ text. some (some payload.values, payload.blobs);
  IsText = λ d. d ≡ first;
  IsTextPayload = λ p. p ≡ payload;
  unseal_seal = λ key nonce plain aad. refl;
  decode_encode = λ b. refl;
  hmac_given = λ key text. unfold bytes_eq in refl;
  back = λ d h. ap some (sym h);
  back_payload = λ p h. ap (λ (q : ScopePayload). some (some q.values, q.blobs)) (sym h);
}

abbrev vault : Vault
vault = record { project_id = codes "p"; root_key = key32 }

abbrev env : VaultEnv
env = record {
  locked = true;
  random = some (record { data_key = key32; data_nonce = codes "m"; key_nonce = codes "n" });
  now = 9;
  commit = kept;
}

abbrev file : VaultFile
file = present (codes "{}\n")

was_set :
    set primitives vault env (codes "dev") (codes "TOKEN") (codes "abcd") missing ≡ (file, ok tt)
unfolding set when_valid refuse validate_name has_nul trim_space is_space bytes_eq transact
    change_scope with_payload payload_of seal_scope seal_with commit_change save_vault load_vault
    lookup_key put_key
was_set = refl

abbrev random : Random
random = record { data_key = key32; data_nonce = codes "m"; key_nonce = codes "n" }

abbrev nothing : ScopePayload
nothing = record { values = []; blobs = [] }

-- The document that is saved from the parts.
abbrev saved : Document → ScopePayload → Random → Document
saved d p r =
    signed primitives vault
      (changed primitives vault env (codes "dev") (codes "TOKEN") (codes "abcd") d p r)

loads_new :
    (d : Document) → load_vault primitives vault missing ≡ ok d → new_document primitives vault ≡ d
unfolding load_vault
loads_new d h = cc

opens_nothing :
    (p : ScopePayload) → payload_of primitives vault env (codes "dev") none ≡ ok p → nothing ≡ p
unfolding payload_of
opens_nothing p h = cc

saved_first : saved (new_document primitives vault) nothing random ≡ first
unfolding next_revision seal_with put_key compute_mac
saved_first = refl

put_payload : put_value primitives vault env (codes "TOKEN") (codes "abcd") nothing ≡ payload
unfolding put_key remove_key
put_payload = refl

writable : Writable primitives vault env (codes "dev") (codes "TOKEN") (codes "abcd") missing
unfolding Writable lookup_key
writable d p r loads opened drawn =
    let same_d = loads_new d loads in
    let same_r : random ≡ r = cc in
    let same_p = opens_nothing p (
      subst
        (λ (x : Document).
          payload_of primitives vault env (codes "dev") (lookup_key (codes "dev") x.scopes) ≡ ok p)
        (sym same_d) opened) in
    (
      subst (λ x. put_value primitives vault env (codes "TOKEN") (codes "abcd") x ≡ payload) same_p
          put_payload,
      subst (λ x. saved x p r ≡ first) same_d
          (subst (λ x. saved (new_document primitives vault) x r ≡ first) same_p
            (subst (λ x. saved (new_document primitives vault) nothing x ≡ first) same_r
              saved_first)),
      subst (λ (x : Random). length x.data_key ≡ 32) same_r refl,
    )

set-get_example :
    (get primitives vault (codes "dev") (codes "TOKEN") file ≡ ok (codes "abcd"))
    × ((other at : Bytes)
        → (other ≢ codes "dev") ⊎ (at ≢ codes "TOKEN")
        → get primitives vault other at file ≡ get primitives vault other at missing)
set-get_example =
    set-get primitives vault env (codes "dev") (codes "TOKEN") (codes "abcd") missing file writable
      was_set

revision_lasts_example :
    (after_call primitives vault env (setting (codes "dev") (codes "TOKEN") (codes "abcd")) missing
      ≡ missing)
    ⊎ ((e : Document) × (after_call primitives vault env
            (setting (codes "dev") (codes "TOKEN") (codes "abcd"))
            missing
          ≡ present (primitives.marshal_indent (signed primitives vault e) ++ codes "\n"))
        × IsOwn primitives vault e
        × (0 ≤ e.revision)
        × (primitives.IsText (signed primitives vault e)
            → load_vault primitives vault (
                after_call primitives vault env
                  (setting (codes "dev") (codes "TOKEN") (codes "abcd"))
                  missing)
              ≡ ok (signed primitives vault e)))
unfolding load_vault
revision_lasts_example =
    revision_lasts primitives vault env (setting (codes "dev") (codes "TOKEN") (codes "abcd"))
      missing (new_document primitives vault) refl (omega arith)

-- A name with a NUL byte is refused and changes nothing.
nul_refused : set primitives vault env (codes "dev") (0 ∷ []) [] file ≡ (file, err nul_in_name)
unfolding set when_valid refuse validate_name has_nul trim_space is_space bytes_eq
nul_refused = refl
