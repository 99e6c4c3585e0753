-- ===== src/Policy/Commands.antt =====
-- internal/policy/policy.go: `Lookup`, `AuthorizeArgv`, `UsesEnvironmentEntries`, `SecretBinding`.
use ironrun.Prelude.{
  ℕ, suc, Bool, false, ◌||◌, List, [], ◌∷◌, Option, none, some, ◌==◌, if◌then◌else◌, length, Bytes,
  bytes_eq, contains, Try, ok, guard, ◌>>◌,
}
use ironrun.Policy.Document.{Secret, Command, PolicyFile, version_2, lookup_key}

unfoldable pub find_command : List Command → Bytes → Option Command
find_command [] id = none
find_command (c ∷ cs) id =
    let later = find_command cs id in if bytes_eq c.id id then some c else later

-- `none` is the error that the command is not in the policy.
unfoldable pub lookup : PolicyFile → Bytes → Option Command
unfolding find_command
lookup f id = find_command f.commands id

pub data Mismatch : Type 0 where
  argument_count : ℕ → ℕ → Mismatch
  argument : ℕ → Bytes → Bytes → Mismatch

-- The loop of `AuthorizeArgv` from index i; the lists are of one length.
unfoldable pub compare_args : ℕ → List Bytes → List Bytes → Try Mismatch (Unit {0})
compare_args i [] wanted = ok tt
compare_args i (a ∷ argv) [] = ok tt
compare_args i (a ∷ argv) (w ∷ wanted) = do
  guard (bytes_eq a w) (argument i a w)
  compare_args (suc i) argv wanted

unfoldable pub authorize_argv : Command → List Bytes → Try Mismatch (Unit {0})
unfolding compare_args
authorize_argv c argv = do
  guard (length argv == length c.argv) (argument_count (length argv) (length c.argv))
  compare_args 0 argv c.argv

unfoldable pub uses_environment_entries : PolicyFile → Bool
uses_environment_entries f = bytes_eq f.version version_2

unfoldable pub names_entry : List Command → Bytes → Bool
names_entry [] name = false
names_entry (c ∷ cs) name = contains c.secrets name || names_entry cs name

unfoldable pub declared_binding : Option Secret → Option (Bytes × Bytes)
declared_binding none = none
declared_binding (some s) = if bytes_eq s.env [] then none else some (s.env, s.store)

-- `SecretBinding`: the key and the store.
unfoldable pub secret_binding : PolicyFile → Bytes → Option (Bytes × Bytes)
unfolding uses_environment_entries names_entry declared_binding
secret_binding f name =
    if uses_environment_entries f
    then (if names_entry f.commands name then some (name, []) else none)
    else declared_binding (lookup_key name f.secrets)
