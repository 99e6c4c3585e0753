-- ===== src/Policy/WellFormed.antt =====
-- internal/policy/policy.go: what `Parse` asks of a document, said without its loops.
use ironrun.Prelude.{
  ◌≡◌, ◌≢◌, ◌⊎◌, true, List, [], ◌∷◌, some, map, if◌then◌else◌, In, All, Bytes, codes,
}
use ironrun.Policy.Document.{
  Secret, Command, PolicyFile, version_1, version_2, lookup_key, effective_kind,
}
use ironrun.Policy.Names.{valid_env_target, valid_entry_name, safe_basename}
use ironrun.Policy.Parse.{is_file}
use ironrun.Policy.Distinct.{Distinct}

-- The secrets that are files.
unfoldable pub file_secrets : List (Bytes × Secret) → List Secret
file_secrets [] = []
file_secrets ((alias, s) ∷ m) = let rest = file_secrets m in if is_file s then s ∷ rest else rest

pub record SecretOk (s : Secret) : Type 0 where
  pub kind_known : (effective_kind s ≡ codes "env") ⊎ (effective_kind s ≡ codes "file")
  pub target_ok : valid_env_target s.env ≡ true

-- A name of a command's secret: in version 2 that of an entry, in version 1 that of a declared
-- secret that allows the command.
pub record AliasOk (f : PolicyFile) (id alias : Bytes) : Type 0 where
  pub entry : f.version ≡ version_2 → valid_entry_name alias ≡ true
  pub declared :
      f.version ≢ version_2
      → (s : Secret) × (lookup_key alias f.secrets ≡ some s) × (s.env ≢ []) × In id s.allow

pub record CommandOk (f : PolicyFile) (c : Command) : Type 0 where
  pub id_given : c.id ≢ []
  pub argv_given : c.argv ≢ []
  pub variables_ok : All (λ (p : Bytes × Bytes). valid_env_target p.0 ≡ true) c.env
  pub aliases_distinct : Distinct c.secrets
  pub aliases_ok : All (AliasOk f c.id) c.secrets

pub record WellFormed (f : PolicyFile) : Type 0 where
  pub version_known : (f.version ≡ version_1) ⊎ (f.version ≡ version_2)
  pub commands_given : f.commands ≢ []
  pub secrets_ok : All (λ (p : Bytes × Secret). SecretOk p.1) f.secrets
  pub names_safe : All (λ (s : Secret). safe_basename s.filename ≡ true) (file_secrets f.secrets)
  pub targets_distinct : Distinct (map (λ (s : Secret). s.env) (file_secrets f.secrets))
  pub filenames_distinct : Distinct (map (λ (s : Secret). s.filename) (file_secrets f.secrets))
  pub ids_distinct : Distinct (map (λ (c : Command). c.id) f.commands)
  pub commands_ok : All (CommandOk f) f.commands
