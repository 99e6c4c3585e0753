-- ===== src/Audit/Scrub.antt =====
-- internal/audit/audit.go: `scrubSecrets`. The JSON forms of a value are an argument, as in
-- `EncodingsWithDepth`.
use ironrun.Prelude.{
  ℕ, zero, suc, List, [], ◌∷◌, ◌++◌, ltb, leb, if◌then◌else◌, map, length, drop, Bytes, codes,
  contains,
}
use ironrun.Redact.Match.{has_prefix}
use ironrun.Redact.Forms.{encodings}

abbrev pub scrub_placeholder : Bytes
scrub_placeholder = codes "[REDACTED]"

abbrev pub min_scrub_secret_len : ℕ
min_scrub_secret_len = 4

abbrev pub min_encodable_secret_len : ℕ
min_encodable_secret_len = 8

unfoldable pub needles : (Bytes → List Bytes) → List Bytes → List Bytes
needles json_escapes [] = []
needles json_escapes (v ∷ vs) =
    let rest = needles json_escapes vs in
    if ltb (length v) min_scrub_secret_len
    then rest
    else v
      ∷ ((if leb min_encodable_secret_len (length v)
            then encodings json_escapes v min_encodable_secret_len
            else [])
          ++ rest)

unfoldable pub unique : List Bytes → List Bytes → List Bytes
unique seen [] = []
unique seen (n ∷ ns) =
    let old = unique seen ns in
    let new = unique (n ∷ seen) ns in if contains seen n then old else n ∷ new

-- `sort.Slice`, longest first.
unfoldable pub insert_needle : Bytes → List Bytes → List Bytes
insert_needle n [] = n ∷ []
insert_needle n (m ∷ ms) =
    let later = insert_needle n ms in if leb (length m) (length n) then n ∷ m ∷ ms else m ∷ later

unfoldable pub sort_needles : List Bytes → List Bytes
unfolding insert_needle
sort_needles [] = []
sort_needles (n ∷ ns) = insert_needle n (sort_needles ns)

-- `strings.ReplaceAll` of a needle that is not empty: `skip` bytes of a match are left to pass over.
unfoldable pub replace_from : ℕ → Bytes → Bytes → Bytes
replace_from skip needle [] = []
replace_from (suc skip) needle (c ∷ cs) = replace_from skip needle cs
replace_from zero needle (c ∷ cs) =
    let matched = replace_from (length (drop 1 needle)) needle cs in
    let passed = replace_from zero needle cs in
    if has_prefix (c ∷ cs) needle then scrub_placeholder ++ matched else c ∷ passed

unfoldable pub scrub_arg : List Bytes → Bytes → Bytes
unfolding replace_from
scrub_arg [] arg = arg
scrub_arg (n ∷ ns) arg = scrub_arg ns (replace_from zero n arg)

unfoldable pub scrub_secrets : (Bytes → List Bytes) → List Bytes → List Bytes → List Bytes
unfolding needles unique sort_needles scrub_arg
scrub_secrets json_escapes argv values =
    map (scrub_arg (sort_needles (unique [] (needles json_escapes values)))) argv
