-- ===== src/Policy/Shells.antt =====
-- internal/policy/policy.go: `IsShellString` and what it is made of. `strings.ToLower` is that of
-- ASCII; other bytes stay.
use ironrun.Prelude.{
  ℕ, ◌+◌, Bool, true, false, ◌&&◌, ◌||◌, List, [], ◌∷◌, leb, ◌==◌, if◌then◌else◌, map, Bytes, codes,
  bytes_eq, contains,
}
use ironrun.Policy.Paths.{base, clean}

unfoldable pub lower : ℕ → ℕ
lower c = if leb b'A' c && leb c b'Z' then c + 32 else c

-- `shellBaseName`
unfoldable pub shell_base_name : Bytes → Bytes
shell_base_name arg = map lower (base (clean arg))

abbrev pub shells : List Bytes
shells =
    codes "sh"
    ∷ codes "bash"
    ∷ codes "zsh"
    ∷ codes "fish"
    ∷ codes "dash"
    ∷ codes "ash"
    ∷ codes "ksh"
    ∷ codes "csh"
    ∷ codes "tcsh"
    ∷ codes "rbash"
    ∷ codes "mksh"
    ∷ codes "busybox"
    ∷ codes "toybox"
    ∷ []

unfoldable pub is_shell_program : Bytes → Bool
unfolding shell_base_name
is_shell_program arg = contains shells (shell_base_name arg)

unfoldable pub has_byte : ℕ → Bytes → Bool
has_byte b [] = false
has_byte b (c ∷ cs) = c == b || has_byte b cs

-- A flag of `env`, or an assignment.
unfoldable pub is_env_word : Bytes → Bool
unfolding has_byte
is_env_word [] = true
is_env_word (c ∷ cs) = c == b'-' || has_byte b'=' (c ∷ cs)

-- The loop over what follows `env`.
unfoldable pub runs_shell : List Bytes → Bool
unfolding is_env_word is_shell_program
runs_shell [] = false
runs_shell (a ∷ rest) =
    let later = runs_shell rest in if is_env_word a then later else is_shell_program a

unfoldable pub is_shell_string : List Bytes → Bool
unfolding is_shell_program runs_shell shell_base_name
is_shell_string [] = false
is_shell_string (a ∷ rest) =
    if is_shell_program a
    then true
    else if bytes_eq (shell_base_name a) (codes "env")
    then runs_shell rest
    else false
