-- ===== src/Redact/Window.antt =====
-- internal/redact/redact.go: what the matchers see. Each looks at no more than `max_span` bytes,
-- so bytes that have not arrived cannot change its result, and takes no more than it sees.
use native.Mathlib.Nat.{le_refl}
use ironrun.Prelude.{
  ℕ, zero, suc, ◌+◌, ◌≤◌, ◌≡◌, refl, List, [], ◌∷◌, ◌++◌, Option, none, some, min, arith, length,
  get_or, take, length-append, length-take, take-append_le, Bytes, All,
}
use ironrun.Redact.Match.{
  flex_span_cap, has_prefix, match_flex_from, match_flex, gather, extend, FragHit,
}
use ironrun.Redact.Index.{
  Index, match_exact, match_gapped, positive, follow, find_fragment, on_key, match_fragment,
  match_at,
}

-- The span covers every registered secret.
abbrev pub Covers : ℕ → List Bytes → Type 0
Covers span = All (λ s. flex_span_cap (length s) ≤ span)

Covers-get_or :
    (span : ℕ) (ss : List Bytes) (i : ℕ) → Covers span ss → length (get_or ss i []) ≤ span
unfolding flex_span_cap
Covers-get_or span [] i h = omega arith
Covers-get_or span (s ∷ ss) zero h = omega arith
Covers-get_or span (s ∷ ss) (suc i) h = Covers-get_or span ss i h.1

pub has_prefix-append :
    (buf r s : Bytes) → length s ≤ length buf → has_prefix (buf ++ r) s ≡ has_prefix buf s
unfolding has_prefix
has_prefix-append [] r [] h = ground arith
has_prefix-append [] r (c ∷ cs) h = elim h [ ]
has_prefix-append (b ∷ bs) r [] h = refl
has_prefix-append (b ∷ bs) r (c ∷ cs) h = ground (arith, has_prefix-append bs r cs)

match_flex_from-append :
    (span i end : ℕ) (buf r secret : Bytes)
    → span ≤ i + length buf
    → match_flex_from span i end (buf ++ r) secret ≡ match_flex_from span i end buf secret
unfolding match_flex_from
match_flex_from-append span i end buf r [] h = ground arith
match_flex_from-append span i end [] [] (s ∷ ss) h = refl
match_flex_from-append span i end [] (c ∷ r) (s ∷ ss) h =
    ground (arith, match_flex_from-append span i end [] (c ∷ r) ss)
match_flex_from-append span i end (b ∷ bs) r (s ∷ ss) h = ground (
  arith,
  match_flex_from-append span i end (b ∷ bs) r ss,
  match_flex_from-append span (suc i) end bs r (s ∷ ss),
  match_flex_from-append span (suc i) (suc i) bs r ss,
)

match_flex_from-le :
    (span i end : ℕ) (buf secret : Bytes) (n : ℕ)
    → end ≤ i
    → match_flex_from span i end buf secret ≡ some n
    → n ≤ i + length buf
unfolding match_flex_from
match_flex_from-le span i end buf [] n h e = ground arith
match_flex_from-le span i end [] (s ∷ ss) n h e =
    ground (arith, match_flex_from-le span i end [] ss n)
match_flex_from-le span i end (b ∷ bs) (s ∷ ss) n h e = ground (
  arith,
  match_flex_from-le span i end (b ∷ bs) ss n,
  match_flex_from-le span (suc i) end bs (s ∷ ss) n,
  match_flex_from-le span (suc i) (suc i) bs ss n,
)

match_exact-append :
    (secrets : List Bytes) (is : List ℕ) (buf r : Bytes)
    → Covers (length buf) secrets
    → match_exact secrets is (buf ++ r) ≡ match_exact secrets is buf
unfolding match_exact
match_exact-append secrets [] buf r h = refl
match_exact-append secrets (i ∷ is) buf r h = ground (
  arith,
  match_exact-append secrets is buf r h,
  has_prefix-append buf r (get_or secrets i []),
  length-append buf r,
  Covers-get_or (length buf) secrets i h,
)

match_exact-le :
    (secrets : List Bytes) (is : List ℕ) (buf : Bytes) → match_exact secrets is buf ≤ length buf
unfolding match_exact
match_exact-le secrets [] buf = omega arith
match_exact-le secrets (i ∷ is) buf = ground (arith, match_exact-le secrets is buf)

match_gapped-append :
    (span : ℕ) (secrets : List Bytes) (is : List ℕ) (buf r : Bytes)
    → span ≤ length buf
    → match_gapped span secrets is (buf ++ r) ≡ match_gapped span secrets is buf
unfolding match_gapped match_flex
match_gapped-append span secrets [] buf r h = refl
match_gapped-append span secrets (i ∷ is) buf r h =
    rw (match_flex_from-append span 0 0 buf r (get_or secrets i []) (omega arith))
      (rw (match_gapped-append span secrets is buf r h))

match_gapped-le :
    (span : ℕ) (secrets : List Bytes) (is : List ℕ) (buf : Bytes)
    → match_gapped span secrets is buf ≤ length buf
unfolding match_gapped match_flex
match_gapped-le span secrets [] buf = omega arith
match_gapped-le span secrets (i ∷ is) buf = ground (
  arith,
  match_gapped-le span secrets is buf,
  match_flex_from-le span 0 0 buf (get_or secrets i [])
      (positive (match_flex_from span 0 0 buf (get_or secrets i []))),
)

match_fragment-append :
    (ix : Index) (buf r : Bytes)
    → ix.max_span ≤ length buf
    → match_fragment ix (buf ++ r) ≡ match_fragment ix buf
unfolding match_fragment
match_fragment-append ix buf r h =
    let all : min (length (buf ++ r)) ix.max_span ≡ ix.max_span =
      omega (arith, length-append buf r) in
    let here : min (length buf) ix.max_span ≡ ix.max_span = omega arith in
    rw (all, here, take-append_le ix.max_span buf r h)

extend-le : (i end : ℕ) (buf secret : Bytes) → end ≤ i → extend i end buf secret ≤ i + length buf
unfolding extend
extend-le i end [] secret h = omega arith
extend-le i end (b ∷ bs) [] h = omega arith
extend-le i end (b ∷ bs) (s ∷ ss) h =
    ground (arith, extend-le (suc i) end bs (s ∷ ss), extend-le (suc i) (suc i) bs ss)

follow-le : (hit : Option FragHit) (i : ℕ) (rest : Bytes) → follow hit i rest ≤ i + length rest
unfolding follow
follow-le none i rest = omega arith
follow-le (some hit) i rest = extend-le i i rest _ (le_refl i)

on_key-le :
    (ix : Index) (need : ℕ) (key : Bytes) (i : ℕ) (buf : Bytes)
    → on_key ix.fragments (gather need key i buf) ≤ i + length buf
unfolding on_key gather
on_key-le ix zero key i buf = follow-le (find_fragment key ix.fragments) i buf
on_key-le ix (suc need) key i [] = omega arith
on_key-le ix (suc need) key i (b ∷ bs) =
    ground
      (arith, on_key-le ix (suc need) key (suc i) bs, on_key-le ix need (key ++ b ∷ []) (suc i) bs)

match_fragment-le : (ix : Index) (buf : Bytes) → match_fragment ix buf ≤ length buf
unfolding match_fragment
match_fragment-le ix buf = omega (
  arith,
  on_key-le ix 12 [] 0 (take (min (length buf) ix.max_span) buf),
  length-take (min (length buf) ix.max_span) buf,
)

-- A match lies in the bytes that are there.
pub match_at-le : (ix : Index) (buf : Bytes) → match_at ix buf ≤ length buf
unfolding match_at
match_at-le ix [] = omega arith
match_at-le ix (b ∷ bs) = ground (
  arith,
  match_exact-le ix.secrets (ix.by_first b) (b ∷ bs),
  match_gapped-le ix.max_span ix.secrets (ix.by_first b) (b ∷ bs),
  match_fragment-le ix (b ∷ bs),
)

Covers-mono : (m n : ℕ) (ss : List Bytes) → m ≤ n → Covers m ss → Covers n ss
Covers-mono m n [] h c = tt
Covers-mono m n (s ∷ ss) h c = (omega arith, Covers-mono m n ss h c.1)

-- With `max_span` bytes in sight, later bytes do not change what matches here.
pub match_at-append :
    (ix : Index) (b : ℕ) (bs r : Bytes)
    → Covers ix.max_span ix.secrets
    → ix.max_span ≤ length (b ∷ bs)
    → match_at ix (b ∷ (bs ++ r)) ≡ match_at ix (b ∷ bs)
unfolding match_at
match_at-append ix b bs r c h = ground (
  arith,
  match_exact-append ix.secrets (ix.by_first b) (b ∷ bs) r
      (Covers-mono ix.max_span (length (b ∷ bs)) ix.secrets h c),
  match_gapped-append ix.max_span ix.secrets (ix.by_first b) (b ∷ bs) r h,
  match_fragment-append ix (b ∷ bs) r h,
)
