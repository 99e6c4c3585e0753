-- ===== src/Policy/Lint.antt =====
-- internal/policy/lint.go: `Lint`, without the texts of its messages.
use ironrun.Prelude.{
  ℕ, Bool, true, false, not, ◌&&◌, ◌||◌, List, [], ◌∷◌, ◌++◌, ltb, ◌==◌, if◌then◌else◌, length, map,
  Bytes, codes, bytes_eq, bytes_le, contains, is_zero, is_above,
}
use ironrun.Policy.Document.{Command, PolicyFile, has_secrets, effective_no_network}
use ironrun.Policy.Paths.{base}
use ironrun.Policy.Shells.{is_shell_string}

pub data Severity : Type 0 where
  info warn severe : Severity

pub data Code : Type 0 where
  shell_argv interpreter_arbitrary interpreter_eval no_ttl long_ttl_with_secrets : Code
  egress_with_secrets network_default_deny no_max_bytes secret_in_argv secret_spread : Code

pub record Finding : Type 0 where
  pub severity : Severity
  pub code : Code
  pub cmd_id : Bytes

abbrev pub interpreters : List Bytes
interpreters =
    codes "python"
    ∷ codes "python3"
    ∷ codes "node"
    ∷ codes "nodejs"
    ∷ codes "ruby"
    ∷ codes "perl"
    ∷ codes "php"
    ∷ codes "deno"
    ∷ codes "bun"
    ∷ []

abbrev pub eval_flags : List Bytes
eval_flags = codes "-c" ∷ codes "-e" ∷ codes "--eval" ∷ codes "-E" ∷ []

abbrev pub long_ttl_threshold : ℕ
long_ttl_threshold = 3600000000000

abbrev pub secret_spread_max : ℕ
secret_spread_max = 3

abbrev pub secret_prefixes : List Bytes
secret_prefixes =
    codes "sk_live_"
    ∷ codes "sk_test_"
    ∷ codes "ghp_"
    ∷ codes "gho_"
    ∷ codes "ghs_"
    ∷ codes "github_pat_"
    ∷ codes "xoxb-"
    ∷ codes "xoxp-"
    ∷ codes "AKIA"
    ∷ codes "ASIA"
    ∷ codes "AIza"
    ∷ codes "-----BEGIN"
    ∷ []

unfoldable pub starts_with : Bytes → Bytes → Bool
starts_with s [] = true
starts_with [] (p ∷ ps) = false
starts_with (c ∷ cs) (p ∷ ps) = c == p && starts_with cs ps

unfoldable pub starts_with_any : List Bytes → Bytes → Bool
unfolding starts_with
starts_with_any [] s = false
starts_with_any (p ∷ ps) s = starts_with s p || starts_with_any ps s

unfoldable pub looks_like_secret : Bytes → Bool
unfolding starts_with_any
looks_like_secret s = starts_with_any secret_prefixes s

unfoldable pub when : Bool → Finding → List Finding
when test found = if test then found ∷ [] else []

unfoldable pub finding : Severity → Code → Command → Finding
finding severity code c = record { severity = severity; code = code; cmd_id = c.id }

-- Whether an argument after the first is a flag that passes a program's text.
unfoldable pub has_eval_flag : List Bytes → Bool
has_eval_flag [] = false
has_eval_flag (a ∷ argv) = contains eval_flags a || has_eval_flag argv

unfoldable pub lint_interpreter : Command → List Bytes → List Finding
unfolding when finding has_eval_flag
lint_interpreter c [] = []
lint_interpreter c (a ∷ argv) =
    if contains interpreters (base a)
    then finding warn interpreter_arbitrary c
      ∷ when (has_eval_flag argv)
          (finding (if has_secrets c then severe else warn) interpreter_eval c)
    else []

unfoldable pub lint_ttl : Command → List Finding
unfolding when finding
lint_ttl c =
    if is_zero c.ttl
    then finding warn no_ttl c ∷ []
    else when (is_above c.ttl long_ttl_threshold && has_secrets c)
        (finding info long_ttl_with_secrets c)

unfoldable pub lint_argv : Command → List Bytes → List Finding
unfolding when finding looks_like_secret
lint_argv c [] = []
lint_argv c (a ∷ argv) =
    when (looks_like_secret a) (finding warn secret_in_argv c) ++ lint_argv c argv

-- The body of the loop over the commands.
unfoldable pub lint_command : Command → List Finding
unfolding lint_interpreter lint_ttl lint_argv
lint_command c =
    when (is_shell_string c.argv) (finding severe shell_argv c)
    ++ (lint_interpreter c c.argv
        ++ (lint_ttl c
            ++ (when (has_secrets c && not (effective_no_network c))
                  (finding warn egress_with_secrets c)
                ++ (when (has_secrets c && (not c.no_network && not c.allow_network))
                      (finding warn network_default_deny c)
                    ++ (when (has_secrets c && is_zero c.max_bytes) (finding info no_max_bytes c)
                        ++ lint_argv c c.argv)))))

unfoldable pub lint_commands : List Command → List Finding
unfolding lint_command
lint_commands [] = []
lint_commands (c ∷ cs) = lint_command c ++ lint_commands cs

-- `refCmds`: for each reference, the ids of the commands that use it, each once.
abbrev pub Uses : Type 0
Uses = List (Bytes × List Bytes)

unfoldable pub add_use : Bytes → Bytes → Uses → Uses
add_use id ref [] = (ref, id ∷ []) ∷ []
add_use id ref ((r, ids) ∷ m) =
    let later = add_use id ref m in
    if bytes_eq r ref then (r, if contains ids id then ids else id ∷ ids) ∷ m else (r, ids) ∷ later

unfoldable pub add_uses : Bytes → List Bytes → Uses → Uses
unfolding add_use
add_uses id [] m = m
add_uses id (ref ∷ refs) m = add_uses id refs (add_use id ref m)

unfoldable pub ref_cmds : List Command → Uses → Uses
unfolding add_uses
ref_cmds [] m = m
ref_cmds (c ∷ cs) m =
    ref_cmds cs (add_uses c.id (map (λ (p : Bytes × Bytes). p.1) c.env ++ c.secrets) m)

-- The references that more than three commands use, sorted.
unfoldable pub insert_ref : Bytes → List Bytes → List Bytes
insert_ref s [] = s ∷ []
insert_ref s (t ∷ ts) =
    let later = insert_ref s ts in if bytes_le s t then s ∷ t ∷ ts else t ∷ later

unfoldable pub spread : Uses → List Bytes
unfolding insert_ref
spread [] = []
spread ((ref, ids) ∷ m) =
    let rest = spread m in if ltb secret_spread_max (length ids) then insert_ref ref rest else rest

unfoldable pub spread_finding : Bytes → Finding
spread_finding ref = record { severity = warn; code = secret_spread; cmd_id = [] }

unfoldable pub lint : PolicyFile → List Finding
unfolding lint_commands ref_cmds spread
lint f = lint_commands f.commands ++ map spread_finding (spread (ref_cmds f.commands []))
