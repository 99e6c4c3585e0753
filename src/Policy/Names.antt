-- ===== src/Policy/Names.antt =====
-- internal/policy/policy.go: which names the validation takes. A rune outside ASCII fails each test,
-- as each of its bytes does.
use ironrun.Prelude.{
  ℕ, Bool, true, false, not, ◌&&◌, ◌||◌, [], ◌∷◌, leb, ltb, ◌==◌, length, Bytes, codes, bytes_eq,
}
use ironrun.Policy.Paths.{base}

unfoldable pub is_between : ℕ → ℕ → ℕ → Bool
is_between low high c = leb low c && leb c high

unfoldable pub is_letter : ℕ → Bool
unfolding is_between
is_letter c = is_between b'a' b'z' c || is_between b'A' b'Z' c

unfoldable pub is_digit : ℕ → Bool
unfolding is_between
is_digit c = is_between b'0' b'9' c

unfoldable pub every : (ℕ → Bool) → Bytes → Bool
every test [] = true
every test (c ∷ cs) = test c && every test cs

unfoldable pub is_entry_byte : ℕ → Bool
unfolding is_letter is_digit
is_entry_byte c = is_letter c || is_digit c || c == b'-' || c == b'_' || c == b'.'

unfoldable pub valid_entry_name : Bytes → Bool
unfolding every is_entry_byte
valid_entry_name name = ltb 0 (length name) && every is_entry_byte name

unfoldable pub is_name_start : ℕ → Bool
unfolding is_letter
is_name_start c = c == b'_' || is_letter c

unfoldable pub is_name_byte : ℕ → Bool
unfolding is_name_start is_digit
is_name_byte c = is_name_start c || is_digit c

unfoldable pub valid_env_target : Bytes → Bool
unfolding every is_name_byte
valid_env_target [] = false
valid_env_target (c ∷ cs) = is_name_start c && every is_name_byte cs

-- `strings.ContainsAny(name, "/\\")`
unfoldable pub is_not_separator : ℕ → Bool
is_not_separator c = not (c == b'/' || c == b'\\')

-- The file name of a file secret: none of the tests that refuse it holds.
unfoldable pub safe_basename : Bytes → Bool
unfolding every is_not_separator
safe_basename name =
    not (bytes_eq name [])
    && (bytes_eq (base name) name
        && (not (bytes_eq name (codes "."))
            && (not (bytes_eq name (codes "..")) && every is_not_separator name)))
