-- ===== src/Runner/Environ.antt =====
-- internal/runner/runner.go: `isDangerousEnv` and `buildEnv`. A Go map of secrets is a list of names
-- and values, in the order in which the loop runs over it.
use ironrun.Prelude.{
  ℕ, Bool, false, ◌||◌, List, [], ◌∷◌, ◌++◌, ◌==◌, if◌then◌else◌, Bytes, codes, bytes_eq,
}
use ironrun.Redact.Match.{has_prefix}

abbrev pub equals : ℕ
equals = b'='

abbrev pub dangerous_env_prefixes : List Bytes
dangerous_env_prefixes =
    codes "LD_PRELOAD"
    ∷ codes "LD_LIBRARY_PATH"
    ∷ codes "LD_AUDIT"
    ∷ codes "DYLD_"
    ∷ codes "BASH_ENV"
    ∷ codes "ZDOTDIR"
    ∷ codes "BASH_FUNC_"
    ∷ codes "SHELLOPTS"
    ∷ codes "BASHOPTS"
    ∷ codes "CDPATH"
    ∷ codes "GLOBIGNORE"
    ∷ codes "PROMPT_COMMAND"
    ∷ codes "PYTHON"
    ∷ codes "NODE_OPTIONS"
    ∷ codes "NODE_PATH"
    ∷ codes "RUBYOPT"
    ∷ codes "RUBYLIB"
    ∷ codes "PERL5OPT"
    ∷ codes "PERL5LIB"
    ∷ codes "JAVA_TOOL_OPTIONS"
    ∷ codes "JDK_JAVA_OPTIONS"
    ∷ codes "_JAVA_OPTIONS"
    ∷ codes "GOFLAGS"
    ∷ codes "GCONV_PATH"
    ∷ codes "RUSTC_WRAPPER"
    ∷ codes "GIT_SSH"
    ∷ codes "GIT_CONFIG_"
    ∷ []

unfoldable pub has_prefix_of : Bytes → List Bytes → Bool
has_prefix_of key [] = false
has_prefix_of key (p ∷ ps) = has_prefix key p || has_prefix_of key ps

unfoldable pub is_dangerous_env : Bytes → Bool
unfolding has_prefix_of
is_dangerous_env key = bytes_eq key (codes "ENV") || has_prefix_of key dangerous_env_prefixes

-- `strings.SplitN(e, "=", 2)[0]`
unfoldable pub env_key : Bytes → Bytes
env_key [] = []
env_key (c ∷ cs) = let more = env_key cs in if c == equals then [] else c ∷ more

-- The variables of the process that the child may inherit.
unfoldable pub inherited : List Bytes → List Bytes
unfolding env_key
inherited [] = []
inherited (e ∷ es) =
    let more = inherited es in if is_dangerous_env (env_key e) then more else e ∷ more

unfoldable pub assignments : List (Bytes × Bytes) → List Bytes
assignments [] = []
assignments ((k, v) ∷ secrets) = (k ++ equals ∷ v) ∷ assignments secrets

-- An empty list is nil.
unfoldable pub build_env : List Bytes → List Bytes → List (Bytes × Bytes) → List Bytes
unfolding inherited assignments
build_env environ extra secrets = inherited environ ++ (extra ++ assignments secrets)

-- What os/exec gives to a child: the environment of the process when `Env` is nil, which is what
-- `buildEnv` returns when it appends nothing.
unfoldable pub started_env : List Bytes → List Bytes → List Bytes
started_env environ [] = environ
started_env environ (e ∷ es) = e ∷ es
