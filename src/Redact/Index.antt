-- ===== src/Redact/Index.antt =====
-- internal/redact/redact.go: the match indexes of a `Writer` (`reindexLocked`) and the three tiers
-- of `matchAt` over them. A Go map is a function with a default, or a list of its writes; an index
-- into `secrets` stays an index.
use ironrun.Prelude.{
  ℕ, zero, suc, ◌+◌, ◌-◌, Bool, not, ◌&&◌, List, [], ◌∷◌, ◌++◌, Option, none, some, min, max, ltb,
  leb, ◌==◌, if◌then◌else◌, length, get_or, take, drop, Bytes, bytes_eq,
}
use ironrun.Redact.Match.{
  fragment_len, fragment_min_secret_len, fragment_max_secret_len, flex_span_cap, is_flex_gap,
  has_prefix, match_flex, proj, FragHit, gather, extend, Fragments,
}

-- The fields of `Writer` that hold the secrets and what is computed from them.
pub record Index : Type 0 where
  pub secrets : List Bytes
  pub max_len : ℕ
  pub max_span : ℕ
  pub by_first : ℕ → List ℕ
  pub fragments : Fragments

-- `sort.Slice` with longer secrets first; secrets of one length keep their order.
unfoldable pub insert_longest : Bytes → List Bytes → List Bytes
insert_longest s [] = s ∷ []
insert_longest s (t ∷ ts) =
    let later = insert_longest s ts in if leb (length t) (length s) then s ∷ t ∷ ts else t ∷ later

unfoldable pub sort_longest : List Bytes → List Bytes
unfolding insert_longest
sort_longest [] = []
sort_longest (s ∷ ss) = insert_longest s (sort_longest ss)

-- `m[b] = append(m[b], i)`
unfoldable pub add_candidate : ℕ → ℕ → (ℕ → List ℕ) → ℕ → List ℕ
add_candidate b i m c = if c == b then m c ++ i ∷ [] else m c

-- `for off := 0; off+fragmentLen <= len(proj); off++`, by the rounds that are left
unfoldable pub index_windows : ℕ → ℕ → Bytes → Fragments → Fragments
index_windows zero off p m = m
index_windows (suc rounds) off p m =
    index_windows rounds (suc off) p
      ((take fragment_len (drop off p), record { secret = p; off = off }) ∷ m)

unfoldable pub is_long : Bytes → Bool
is_long p = leb fragment_min_secret_len (length p) && leb (length p) fragment_max_secret_len

-- The body of the loop over `w.secrets`. `New` and `AddSecret` keep empty secrets out, so `s[0]`
-- is there; the default is never read.
unfoldable pub index_secret : ℕ → Bytes → Index → Index
unfolding add_candidate index_windows is_long
index_secret i s ix =
    let p = proj s in
    let first = get_or s 0 0 in
    let one = add_candidate first i ix.by_first in
    record ix {
      max_len = max ix.max_len (length s);
      max_span = max ix.max_span (flex_span_cap (length s));
      by_first =
          if ltb 0 (length p) && not (get_or p 0 0 == first)
          then add_candidate (get_or p 0 0) i one
          else one;
      fragments =
          if is_long p
          then index_windows (length p + 1 - fragment_len) 0 p ix.fragments
          else ix.fragments;
    }

unfoldable pub index_from : ℕ → List Bytes → Index → Index
unfolding index_secret
index_from i [] ix = ix
index_from i (s ∷ ss) ix = index_from (suc i) ss (index_secret i s ix)

unfoldable pub reindex : Index → Index
unfolding sort_longest index_from
reindex ix =
    let sorted = sort_longest ix.secrets in
    index_from 0 sorted (record ix { secrets = sorted; by_first = λ _. []; fragments = [] })

-- Tier 1: the first candidate that stands at the start of `buf`; 0 if there is none.
unfoldable pub match_exact : List Bytes → List ℕ → Bytes → ℕ
match_exact secrets [] buf = 0
match_exact secrets (i ∷ is) buf =
    let s = get_or secrets i [] in
    let later = match_exact secrets is buf in
    if ltb (length buf) (length s) then later else if has_prefix buf s then length s else later

unfoldable pub positive : Option ℕ → ℕ
positive none = 0
positive (some n) = n

-- Tier 2: the first candidate that matches with gaps.
unfoldable pub match_gapped : ℕ → List Bytes → List ℕ → Bytes → ℕ
unfolding positive
match_gapped max_span secrets [] buf = 0
match_gapped max_span secrets (i ∷ is) buf =
    let n = positive (match_flex buf (get_or secrets i []) max_span) in
    let later = match_gapped max_span secrets is buf in if ltb 0 n then n else later

unfoldable pub find_fragment : Bytes → Fragments → Option FragHit
find_fragment key [] = none
find_fragment key ((k, hit) ∷ m) = if bytes_eq k key then some hit else find_fragment key m

unfoldable pub follow : Option FragHit → ℕ → Bytes → ℕ
follow none i rest = 0
follow (some hit) i rest = extend i i rest (drop (hit.off + fragment_len) hit.secret)

unfoldable pub on_key : Fragments → Option (Bytes × ℕ × Bytes) → ℕ
unfolding find_fragment follow
on_key m none = 0
on_key m (some (key, i, rest)) = follow (find_fragment key m) i rest

-- Tier 3, `matchFragment`: at most `max_span` bytes are visible.
unfoldable pub match_fragment : Index → Bytes → ℕ
unfolding on_key
match_fragment ix buf =
    let limit = min (length buf) ix.max_span in
    on_key ix.fragments (gather fragment_len [] 0 (take limit buf))

-- Tier 3 is tried where there are fragments and the first byte is no gap.
unfoldable pub tier_three : Index → ℕ → Bytes → ℕ
unfolding match_fragment
tier_three ix b buf =
    if ltb 0 (length ix.fragments) && not (is_flex_gap b) then match_fragment ix buf else 0

-- `matchAt`: the bytes to replace at the start of `buf`, or 0.
unfoldable pub match_at : Index → Bytes → ℕ
unfolding match_exact match_gapped tier_three
match_at ix [] = 0
match_at ix (b ∷ bs) =
    let cands = ix.by_first b in
    let buf = b ∷ bs in
    let exact = match_exact ix.secrets cands buf in
    let gapped = match_gapped ix.max_span ix.secrets cands buf in
    if ltb 0 exact then exact else if ltb 0 gapped then gapped else tier_three ix b buf
