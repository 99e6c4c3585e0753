-- ===== src/Audit/Log.antt =====
-- internal/audit/audit.go: `Verify`, `computeHash` and `lastHash`, on the bytes of the log.
use ironrun.Prelude.{
  ℕ, suc, ◌-◌, Bool, false, ◌&&◌, ◌||◌, List, [], ◌∷◌, ◌++◌, Option, none, some, leb, ◌==◌,
  if◌then◌else◌, length, drop, Bytes, bytes_eq, trim_space, Try, ok, err,
}
use ironrun.Audit.Entry.{Entry, Coding, genesis_hash}

pub data AuditError : Type 0 where
  line_too_long unreadable_last lock_failed write_failed unreadable_log : AuditError
  tampered : ℕ → AuditError

-- The buffer of the scanner, and the window of `lastHash`.
abbrev pub max_line : ℕ
max_line = 8388608

abbrev pub window : ℕ
window = 65536

abbrev pub newline : ℕ
newline = 10

-- `bufio.ScanLines`, less the carriage return that `TrimSpace` takes anyway; with the line that is
-- being read.
unfoldable pub lines_from : Bytes → Bytes → List Bytes
lines_from [] [] = []
lines_from (b ∷ bs) [] = (b ∷ bs) ∷ []
lines_from line (c ∷ cs) =
    let ended = lines_from [] cs in
    let more = lines_from (line ++ c ∷ []) cs in if c == newline then line ∷ ended else more

unfoldable pub lines : Bytes → List Bytes
unfolding lines_from
lines text = lines_from [] text

-- The name of the file's end: whether a newline is left, and what follows the last one.
unfoldable pub has_newline : Bytes → Bool
has_newline [] = false
has_newline (c ∷ cs) = c == newline || has_newline cs

unfoldable pub after_last : Bytes → Bytes
unfolding has_newline
after_last [] = []
after_last (c ∷ cs) =
    let rest = after_last cs in if has_newline cs then rest else if c == newline then cs else c ∷ cs

-- `bytes.TrimRight(buf, "\n")`
unfoldable pub trim_newlines : Bytes → Bytes
trim_newlines [] = []
trim_newlines (c ∷ cs) =
    let rest = trim_newlines cs in if leb (length rest) 0 && c == newline then [] else c ∷ rest

module _ (k : Coding) where
  unfoldable pub compute_hash : Entry → Bytes
  compute_hash e = k.sha256_hex (k.marshal (record e { hash = [] }))

  unfoldable pub is_linked : Bytes → Entry → Bool
  unfolding compute_hash
  is_linked prev e = bytes_eq e.prev_hash prev && bytes_eq (compute_hash e) e.hash

  -- One decoded record: the number of the broken line, or what the rest gives after its hash.
  unfoldable pub verify_record :
      Bytes → ℕ → (Bytes → Try AuditError (Option ℕ)) → Option Entry → Try AuditError (Option ℕ)
  unfolding is_linked
  verify_record prev n rest none = ok (some (suc n))
  verify_record prev n rest (some e) = if is_linked prev e then rest e.hash else ok (some (suc n))

  -- The loop of `Verify` over the lines, with the previous hash and the number of lines read: the
  -- number of the first broken line, if there is one.
  unfoldable pub verify_lines : Bytes → ℕ → List Bytes → Try AuditError (Option ℕ)
  unfolding verify_record
  verify_lines prev n [] = ok none
  verify_lines prev n (l ∷ ls) =
      let text = trim_space l in
      let skipped = verify_lines prev (suc n) ls in
      let decoded = verify_record prev n (λ h. verify_lines h (suc n) ls) (k.unmarshal text) in
      if leb max_line (length l)
      then err line_too_long
      else if leb (length text) 0
      then skipped
      else decoded

  unfoldable pub verify : Bytes → Try AuditError (Option ℕ)
  unfolding verify_lines lines
  verify file = verify_lines genesis_hash 0 (lines file)

  unfoldable pub hash_of : Option Entry → Try AuditError Bytes
  hash_of none = err unreadable_last
  hash_of (some e) = ok e.hash

  unfoldable pub last_hash : Bytes → Try AuditError Bytes
  unfolding hash_of after_last trim_newlines
  last_hash [] = ok genesis_hash
  last_hash (c ∷ cs) =
      let size = length (c ∷ cs) in
      let buf = drop (size - window) (c ∷ cs) in
      hash_of (k.unmarshal (after_last (trim_newlines buf)))
