-- ===== src/Envset/Dotenv.antt =====
-- internal/envset/manager.go: `ParseDotenv`. What the file system says of the file is a record; a line
-- that does not fit into the buffer of the scanner ends it.
use ironrun.Prelude.{
  ℕ, Bool, true, false, not, ◌&&◌, ◌||◌, List, [], ◌∷◌, ◌++◌, Option, none, some, leb, ◌==◌, length,
  if◌then◌else◌, Bytes, codes, bytes_eq, contains, trim_space, Try, ok, err, guard, only_if, ◌>>=◌,
  ◌>>◌,
}
use ironrun.Redact.Match.{has_prefix}
use ironrun.Audit.Log.{lines}
use ironrun.Envset.Sets.{valid_set_name}

pub record DotenvEntry : Type 0 where
  pub key : Bytes
  pub value : Bytes

pub data DotenvError : Type 0 where
  no_file not_regular not_owner_only inside_project : DotenvError
  malformed_line invalid_key duplicate_key unterminated line_too_long : DotenvError

pub record DotenvFile : Type 0 where
  pub is_regular : Bool
  pub is_owner_only : Bool
  pub is_inside : Bool
  pub text : Bytes

-- Where the loops stand before a line: in none, or in a quoted value that is not over.
pub data Mode : Type 0 where
  outside : Mode
  inside : Bytes → ℕ → Bytes → Mode

-- The keys seen, where the loops stand, and the entry that is complete.
abbrev pub Moved : Type 0
Moved = List Bytes × Mode × List DotenvEntry

unfoldable pub cut_at : ℕ → Bytes → Option (Bytes × Bytes)
cut_at b [] = none
cut_at b (c ∷ cs) =
    let later = cut_at b cs in
    if c == b
    then some ([], cs)
    else elim later [ none ↦ none | some pair ↦ some (c ∷ pair.0, pair.1) ]

unfoldable pub ends_with : ℕ → Bytes → Bool
ends_with b [] = false
ends_with b (c ∷ []) = c == b
ends_with b (c ∷ d ∷ cs) = ends_with b (d ∷ cs)

unfoldable pub drop_last : Bytes → Bytes
drop_last [] = []
drop_last (c ∷ []) = []
drop_last (c ∷ d ∷ cs) = c ∷ drop_last (d ∷ cs)

-- `strings.ReplaceAll(value, "\\n", "\n")`
unfoldable pub with_newlines : Bytes → Bytes
with_newlines [] = []
with_newlines (c ∷ []) = c ∷ []
with_newlines (c ∷ d ∷ cs) =
    let replaced = with_newlines cs in
    let kept = with_newlines (d ∷ cs) in if c == 92 && d == 110 then 10 ∷ replaced else c ∷ kept

-- The quote that begins a value and does not end it.
unfoldable pub open_quote : Bytes → Option ℕ
unfolding ends_with
open_quote [] = none
open_quote (c ∷ cs) = if (c == 34 || c == 39) && not (ends_with c (c ∷ cs)) then some c else none

-- A value of at least two bytes that begins and ends with the byte.
unfoldable pub between : ℕ → Bytes → Bool
unfolding ends_with
between q [] = false
between q (c ∷ []) = false
between q (c ∷ d ∷ cs) = c == q && ends_with q (d ∷ cs)

unfoldable pub inner : Bytes → Bytes
unfolding drop_last
inner [] = []
inner (c ∷ cs) = drop_last cs

unfoldable pub finished : Bytes → Bytes → DotenvEntry
unfolding between inner with_newlines
finished key value =
    let literal = between 39 value in
    let bare = if between 34 value || literal then inner value else value in
    record { key = key; value = if literal then bare else with_newlines bare }

unfoldable pub opened : List Bytes → Bytes → Bytes → Option ℕ → Moved
unfolding finished
opened seen key value none = (seen, outside, finished key value ∷ [])
opened seen key value (some quote) = (seen, inside key quote value, [])

unfoldable pub read_pair : List Bytes → Option (Bytes × Bytes) → Try DotenvError Moved
unfolding valid_set_name contains trim_space open_quote opened
read_pair seen none = err malformed_line
read_pair seen (some (k, v)) =
    let key = trim_space k in
    guard (valid_set_name key) invalid_key
    >> (guard (not (contains seen key)) duplicate_key
        >> ok (opened (key ∷ seen) key (trim_space v) (open_quote (trim_space v))))

unfoldable pub line_step : List Bytes → Mode → Bytes → Try DotenvError Moved
unfolding read_pair cut_at finished ends_with
line_step seen outside text =
    let line = trim_space text in
    if bytes_eq line [] || has_prefix line (codes "#")
    then ok (seen, outside, [])
    else read_pair seen (cut_at 61 line)
line_step seen (inside key quote value) text =
    let longer = value ++ 10 ∷ text in
    if ends_with quote longer
    then ok (seen, outside, finished key longer ∷ [])
    else ok (seen, inside key quote longer, [])

unfoldable pub at_end : Bool → Mode → Try DotenvError (List DotenvEntry)
at_end too_long (inside key quote value) = err unterminated
at_end too_long outside = if too_long then err line_too_long else ok []

-- The loops over the lines; the flag says that a line that is too long follows them.
unfoldable pub parse_lines :
    Bool → List Bytes → Mode → List Bytes → Try DotenvError (List DotenvEntry)
unfolding line_step at_end
parse_lines too_long seen mode [] = at_end too_long mode
parse_lines too_long seen mode (l ∷ ls) = line_step seen mode l >>= λ moved.
    (parse_lines too_long moved.0 moved.1 ls >>= λ rest. ok (moved.2 ++ rest))

-- `Scan`: the lines without a carriage return at the end, up to the first of 64 KiB or more.
unfoldable pub scanned : List Bytes → List Bytes × Bool
unfolding ends_with drop_last
scanned [] = ([], false)
scanned (l ∷ ls) =
    let later = scanned ls in
    if leb 65536 (length l)
    then ([], true)
    else ((if ends_with 13 l then drop_last l else l) ∷ later.0, later.1)

unfoldable pub parse_text : Bytes → Try DotenvError (List DotenvEntry)
unfolding scanned parse_lines
parse_text text =
    let (found, too_long) = scanned (lines text) in parse_lines too_long [] outside found

-- With the override for files of the project.
unfoldable pub parse_dotenv : Bool → Option DotenvFile → Try DotenvError (List DotenvEntry)
unfolding parse_text
parse_dotenv allows_inside none = err no_file
parse_dotenv allows_inside (some f) =
    guard f.is_regular not_regular
    >> (guard f.is_owner_only not_owner_only
        >> (only_if (not allows_inside) (guard (not f.is_inside) inside_project)
            >> parse_text f.text))
