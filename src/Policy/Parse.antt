-- ===== src/Policy/Parse.antt =====
-- internal/policy/policy.go: `Load` and `Parse`. The decoder with `KnownFields(true)` is the parameter
-- `decode`, which refuses with no value. An error keeps what its message names.
use ironrun.Prelude.{
  ℕ, suc, Bool, not, ◌||◌, List, [], ◌∷◌, Option, none, some, ltb, if◌then◌else◌, length, Bytes,
  codes, bytes_eq, contains, Try, ok, err, guard, ◌>>=◌, ◌>>◌,
}
use ironrun.Policy.Document.{
  Secret, Command, PolicyFile, version_1, version_2, lookup_key, effective_kind,
}
use ironrun.Policy.Names.{valid_env_target, valid_entry_name, safe_basename}

pub data PolicyError : Type 0 where
  not_found unreadable undecodable bad_version no_commands : PolicyError
  bad_kind bad_target unsafe_file_name : Bytes → PolicyError
  shared_target shared_filename : Bytes → Bytes → PolicyError
  missing_id : ℕ → PolicyError
  duplicate_id missing_argv : Bytes → PolicyError
  bad_variable repeated_secret bad_entry undeclared_secret not_allowed : Bytes → Bytes → PolicyError

abbrev pub Checked {ℓ} : Type ℓ → Type ℓ
Checked = Try PolicyError

unfoldable pub unclaimed : Option Bytes → (Bytes → PolicyError) → Checked (Unit {0})
unclaimed none why = ok tt
unclaimed (some previous) why = err (why previous)

unfoldable pub is_file : Secret → Bool
is_file s = bytes_eq (effective_kind s) (codes "file")

-- The targets and the file names of the file secrets so far, each with the alias that has it.
abbrev pub Claims : Type 0
Claims = List (Bytes × Bytes) × List (Bytes × Bytes)

unfoldable pub check_file : Claims → Bytes → Secret → Checked Claims
unfolding unclaimed
check_file (targets, names) alias s = do
  guard (safe_basename s.filename) (unsafe_file_name alias)
  unclaimed (lookup_key s.env targets) (λ previous. shared_target previous alias)
  unclaimed (lookup_key s.filename names) (λ previous. shared_filename previous alias)
  ok ((s.env, alias) ∷ targets, (s.filename, alias) ∷ names)

-- The body of the loop over `f.Secrets`.
unfoldable pub check_secret : Claims → Bytes → Secret → Checked Claims
unfolding check_file is_file
check_secret claims alias s = do
  guard (bytes_eq (effective_kind s) (codes "env") || is_file s) (bad_kind alias)
  guard (valid_env_target s.env) (bad_target alias)
  if is_file s then check_file claims alias s else ok claims

unfoldable pub check_secrets : Claims → List (Bytes × Secret) → Checked (Unit {0})
unfolding check_secret
check_secrets claims [] = ok tt
check_secrets claims ((alias, s) ∷ rest) = do
  claims' ← check_secret claims alias s
  check_secrets claims' rest

unfoldable pub check_variables : Bytes → List (Bytes × Bytes) → Checked (Unit {0})
check_variables id [] = ok tt
check_variables id ((name, ref) ∷ rest) = do
  guard (valid_env_target name) (bad_variable id name)
  check_variables id rest

-- Version 1: the secret is declared and lets the command have it.
unfoldable pub check_declared : Bytes → Bytes → Option Secret → Checked (Unit {0})
check_declared id alias none = err (undeclared_secret id alias)
check_declared id alias (some s) = do
  guard (not (bytes_eq s.env [])) (undeclared_secret id alias)
  guard (contains s.allow id) (not_allowed id alias)

unfoldable pub check_alias : PolicyFile → Bytes → Bytes → Checked (Unit {0})
unfolding check_declared
check_alias f id alias =
    if bytes_eq f.version version_2
    then guard (valid_entry_name alias) (bad_entry id alias)
    else check_declared id alias (lookup_key alias f.secrets)

-- The loop over `cmd.Secrets`, with those seen.
unfoldable pub check_aliases : PolicyFile → Bytes → List Bytes → List Bytes → Checked (Unit {0})
unfolding check_alias
check_aliases f id seen [] = ok tt
check_aliases f id seen (alias ∷ rest) = do
  guard (not (contains seen alias)) (repeated_secret id alias)
  check_alias f id alias
  check_aliases f id (alias ∷ seen) rest

-- The loop over `f.Commands`, with the index and the ids seen.
unfoldable pub check_commands : PolicyFile → ℕ → List Bytes → List Command → Checked (Unit {0})
unfolding check_variables check_aliases
check_commands f i seen [] = ok tt
check_commands f i seen (c ∷ rest) = do
  guard (not (bytes_eq c.id [])) (missing_id i)
  guard (not (contains seen c.id)) (duplicate_id c.id)
  guard (ltb 0 (length c.argv)) (missing_argv c.id)
  check_variables c.id c.env
  check_aliases f c.id [] c.secrets
  check_commands f (suc i) (c.id ∷ seen) rest

-- What `Parse` does with the decoded document.
unfoldable pub validate : PolicyFile → Checked PolicyFile
unfolding check_secrets check_commands
validate f = do
  guard (bytes_eq f.version version_1 || bytes_eq f.version version_2) bad_version
  guard (ltb 0 (length f.commands)) no_commands
  check_secrets ([], []) f.secrets
  check_commands f 0 [] f.commands
  ok f

unfoldable pub decoded : Option PolicyFile → Checked PolicyFile
unfolding validate
decoded none = err undecodable
decoded (some f) = validate f

unfoldable pub parse : (Bytes → Option PolicyFile) → Bytes → Checked PolicyFile
unfolding decoded
parse decode text = decoded (decode text)

-- What `os.ReadFile` gives.
pub data ReadFile : Type 0 where
  no_file read_failed : ReadFile
  contents : Bytes → ReadFile

unfoldable pub load_policy : (Bytes → Option PolicyFile) → ReadFile → Checked PolicyFile
unfolding parse
load_policy decode no_file = err not_found
load_policy decode read_failed = err unreadable
load_policy decode (contents text) = parse decode text
