-- ===== src/Redact/Match.antt =====
-- internal/redact/redact.go: the matchers, as functions of the bytes that stand from the current
-- position on. A bound on an index in the source is a bound on the bytes counted here.
use ironrun.Prelude.{
  ℕ, zero, suc, ◌+◌, ◌*◌, Bool, true, false, ◌||◌, List, [], ◌∷◌, ◌++◌, Option, none, some, leb,
  ◌==◌, if◌then◌else◌, Bytes, codes,
}

abbrev pub placeholder : Bytes
placeholder = codes "[REDACTED]"

abbrev pub fragment_len : ℕ
fragment_len = 12

abbrev pub fragment_min_secret_len : ℕ
fragment_min_secret_len = 24

abbrev pub fragment_max_secret_len : ℕ
fragment_max_secret_len = 65536

unfoldable pub is_flex_gap : ℕ → Bool
is_flex_gap b = leb b 0x20 || b == 0x7f

unfoldable pub flex_span_cap : ℕ → ℕ
flex_span_cap secret_len = 2 * secret_len + 32

-- `hasPrefix`: does the first text start with the second?
unfoldable pub has_prefix : Bytes → Bytes → Bool
has_prefix b [] = true
has_prefix [] (c ∷ cs) = false
has_prefix (b ∷ bs) (c ∷ cs) = let rest = has_prefix bs cs in if b == c then rest else false

-- The loops of `matchFlex`: `i` counts the consumed bytes of the output, `end` is the value that
-- is returned. A gap of the secret is skipped, then one of the output while `i < max_span`, then
-- the two bytes are compared.
unfoldable pub match_flex_from : ℕ → ℕ → ℕ → Bytes → Bytes → Option ℕ
match_flex_from max_span i end buf [] = some end
match_flex_from max_span i end [] (s ∷ ss) =
    let skip_secret = match_flex_from max_span i end [] ss in
    if is_flex_gap s then skip_secret else none
match_flex_from max_span i end (b ∷ bs) (s ∷ ss) =
    let skip_secret = match_flex_from max_span i end (b ∷ bs) ss in
    let skip_output = match_flex_from max_span (suc i) end bs (s ∷ ss) in
    let next = match_flex_from max_span (suc i) (suc i) bs ss in
    if is_flex_gap s
    then skip_secret
    else if leb max_span i
    then none
    else if is_flex_gap b
    then skip_output
    else if b == s
    then next
    else none

unfoldable pub match_flex : Bytes → Bytes → ℕ → Option ℕ
unfolding match_flex_from
match_flex buf secret max_span = match_flex_from max_span 0 0 buf secret

-- The non-gap bytes of a text, which `reindexLocked` computes byte by byte.
unfoldable pub proj : Bytes → Bytes
proj [] = []
proj (c ∷ cs) = let rest = proj cs in if is_flex_gap c then rest else c ∷ rest

-- `fragHit`: a long secret's non-gap bytes, and where in them a window stands.
pub record FragHit : Type 0 where
  pub secret : Bytes
  pub off : ℕ

-- The first loop of `matchFragment` over the visible bytes: the key so far, the index, and the
-- bytes that are left, once `need` non-gap bytes are found; none if the visible bytes end first.
unfoldable pub gather : ℕ → Bytes → ℕ → Bytes → Option (Bytes × ℕ × Bytes)
gather zero key i bs = some (key, i, bs)
gather (suc need) key i [] = none
gather (suc need) key i (b ∷ bs) =
    let skip = gather (suc need) key (suc i) bs in
    let found = gather need (key ++ b ∷ []) (suc i) bs in if is_flex_gap b then skip else found

-- Its second loop: the hit's later bytes are followed as far as the output agrees with them.
unfoldable pub extend : ℕ → ℕ → Bytes → Bytes → ℕ
extend i end [] secret = end
extend i end (b ∷ bs) [] = end
extend i end (b ∷ bs) (s ∷ ss) =
    let skip = extend (suc i) end bs (s ∷ ss) in
    let next = extend (suc i) (suc i) bs ss in
    if is_flex_gap b then skip else if b == s then next else end

-- `map[[fragmentLen]byte]fragHit`; an entry that is written later stands further to the front.
abbrev pub Fragments : Type 0
Fragments = List (Bytes × FragHit)
