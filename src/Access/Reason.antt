-- ===== src/Access/Reason.antt =====
-- internal/access/access.go: the texts of a request, cleaned (`canonicalCommands`, `cleanReason`,
-- `validateIdentity`). White space is that of ASCII; a text outside ASCII keeps its bytes.
use ironrun.Prelude.{
  Bool, not, ◌&&◌, ◌||◌, List, [], ◌∷◌, ◌++◌, leb, ltb, ◌==◌, if◌then◌else◌, length, take, Bytes,
  codes, bytes_le, is_space, trim_space, join, contains,
}
use ironrun.Access.State.{missing_session, missing_environment, Result, guard, ◌>>◌}

-- `sort.Strings`
insert_sorted : Bytes → List Bytes → List Bytes
insert_sorted s [] = s ∷ []
insert_sorted s (t ∷ ts) =
    let later = insert_sorted s ts in if bytes_le s t then s ∷ t ∷ ts else t ∷ later

unfoldable pub sort_strings : List Bytes → List Bytes
unfolding insert_sorted
sort_strings [] = []
sort_strings (s ∷ ss) = insert_sorted s (sort_strings ss)

-- The loop: each command is trimmed, and kept if it is neither empty nor seen.
distinct : List Bytes → List Bytes → List Bytes
distinct out [] = out
distinct out (c ∷ cs) =
    let command = trim_space c in
    distinct
      (if ltb 0 (length command) && not (contains out command) then out ++ command ∷ [] else out) cs

unfoldable pub canonical_commands : List Bytes → List Bytes
unfolding distinct
canonical_commands commands = sort_strings (distinct [] commands)

-- `strings.Map`: control bytes become spaces.
blank_controls : Bytes → Bytes
blank_controls [] = []
blank_controls (c ∷ cs) = (if ltb c 0x20 || c == 0x7f then b' ' else c) ∷ blank_controls cs

-- `strings.Fields`, with the field that is being read.
fields_from : Bytes → Bytes → List Bytes
fields_from [] [] = []
fields_from (f ∷ fs) [] = (f ∷ fs) ∷ []
fields_from field (c ∷ cs) =
    let ended = fields_from [] cs in
    let more = fields_from (field ++ c ∷ []) cs in
    if is_space c then (if ltb 0 (length field) then field ∷ ended else ended) else more

abbrev fields : Bytes → List Bytes
fields = fields_from []

unfoldable pub clean_reason : Bytes → Bytes
unfolding blank_controls fields_from
clean_reason reason =
    let words = fields (blank_controls (trim_space reason)) in
    let text = join (codes " ") words in if ltb 500 (length text) then take 500 text else text

unfoldable pub is_blank : Bytes → Bool
is_blank s = leb (length (trim_space s)) 0

unfoldable pub validate_identity : Bytes → Bytes → Result (Unit {0})
unfolding is_blank
validate_identity session_id environment = do
  guard (not (is_blank session_id)) missing_session
  guard (not (is_blank environment)) missing_environment
