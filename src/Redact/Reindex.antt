-- ===== src/Redact/Reindex.antt =====
-- internal/redact/redact.go: what `reindexLocked` establishes, whatever the index held before.
use ironrun.Prelude.{
  ℕ, zero, suc, ◌+◌, ◌-◌, ◌≤◌, ◌<◌, ◌≡◌, refl, ap, ◌⊎◌, inl, inr, true, not, ◌&&◌, List, [], ◌∷◌,
  some, arith, ltb, leb, ◌==◌, Bool-cases, length, take, drop, get_or, Bytes, In, In-append,
  In-of_append, All, bytes_eq, bytes_eq_iff,
}
use ironrun.Redact.Match.{fragment_len, proj, FragHit, Fragments}
use ironrun.Redact.Index.{
  Index, insert_longest, sort_longest, add_candidate, index_windows, is_long, index_secret,
  index_from, reindex, find_fragment,
}
use ironrun.Redact.Window.{Covers}

-- Every secret of the list, numbered from `i`, is a candidate at its first byte and at its first
-- byte that is no gap.
abbrev pub IsListed : (ℕ → List ℕ) → ℕ → List Bytes → Type 0
IsListed f i [] = Unit
IsListed f i (s ∷ ss) =
    In i (f (get_or s 0 0))
    × ((c : ℕ) (cs : Bytes) → proj s ≡ c ∷ cs → In i (f c))
    × IsListed f (suc i) ss

-- Every window of the text is a key.
abbrev pub HasWindows : Fragments → Bytes → Type 0
HasWindows m p =
    (off : ℕ)
    → off + fragment_len ≤ length p
    → (hit : FragHit) × (find_fragment (take fragment_len (drop off p)) m ≡ some hit)

abbrev pub HasFragments : Fragments → Bytes → Type 0
HasFragments m s = is_long (proj s) ≡ true → HasWindows m (proj s)

abbrev pub IsNonEmpty : Bytes → Type 0
IsNonEmpty s = 0 < length s

pub record IsIndexed (ix : Index) : Type 0 where
  pub covers : Covers ix.max_span ix.secrets
  pub non_empty : All IsNonEmpty ix.secrets
  pub listed : IsListed ix.by_first 0 ix.secrets
  pub in_range : (b i : ℕ) → In i (ix.by_first b) → i < length ix.secrets
  pub windows : All (HasFragments ix.fragments) ix.secrets

add_candidate_self : (b i : ℕ) (f : ℕ → List ℕ) → In i (add_candidate b i f b)
unfolding add_candidate
add_candidate_self b i f = elim (Bool-cases (b == b)) [
  | inl e ↦ rw e (In-append i (f b) (i ∷ []) (inr (inl refl)))
  | inr e ↦ absurd (ground arith)
]

add_candidate-keeps : (b i j c : ℕ) (f : ℕ → List ℕ) → In j (f c) → In j (add_candidate b i f c)
unfolding add_candidate
add_candidate-keeps b i j c f h = elim (Bool-cases (c == b)) [
  | inl e ↦ rw e (In-append j (f c) (i ∷ []) (inl h))
  | inr e ↦ rw e h
]

add_candidate-of :
    (b i j c : ℕ) (f : ℕ → List ℕ) → In j (add_candidate b i f c) → In j (f c) ⊎ (j ≡ i)
unfolding add_candidate
add_candidate-of b i j c f h = elim (Bool-cases (c == b)) [
  | inl e ↦ ground (arith, In-of_append j (f c) (i ∷ []))
  | inr e ↦ inl (rw e at h)
]

-- What one secret adds to the candidates.
index_secret_self :
    (i : ℕ) (s : Bytes) (ix : Index) → In i ((index_secret i s ix).by_first (get_or s 0 0))
unfolding index_secret
index_secret_self i s ix =
    let p = proj s in
    let first = get_or s 0 0 in
    elim (Bool-cases (ltb 0 (length p) && not (get_or p 0 0 == first))) [
      | inl e ↦ rw e (
          add_candidate-keeps (get_or p 0 0) i i first (add_candidate first i ix.by_first)
            (add_candidate_self first i ix.by_first))
      | inr e ↦ rw e (add_candidate_self first i ix.by_first)
    ]

index_secret-keeps :
    (i j c : ℕ) (s : Bytes) (ix : Index)
    → In j (ix.by_first c)
    → In j ((index_secret i s ix).by_first c)
unfolding index_secret
index_secret-keeps i j c s ix h =
    let p = proj s in
    let first = get_or s 0 0 in
    let one = add_candidate-keeps first i j c ix.by_first h in
    elim (Bool-cases (ltb 0 (length p) && not (get_or p 0 0 == first))) [
      | inl e ↦
          rw e (add_candidate-keeps (get_or p 0 0) i j c (add_candidate first i ix.by_first) one)
      | inr e ↦ rw e one
    ]

index_secret-proj :
    (i : ℕ) (s : Bytes) (ix : Index) (c : ℕ) (cs : Bytes)
    → proj s ≡ c ∷ cs
    → In i ((index_secret i s ix).by_first c)
unfolding index_secret
index_secret-proj i s ix c cs h =
    let p = proj s in
    let first = get_or s 0 0 in
    let one = add_candidate first i ix.by_first in
    let head : get_or p 0 0 ≡ c = ap (λ t. get_or t 0 0) h in
    elim (Bool-cases (ltb 0 (length p) && not (get_or p 0 0 == first))) [
      | inl e ↦ rw e (rw head (add_candidate_self c i one))
      | inr e ↦
          let same : c ≡ first = ground arith in
          rw e (rw same (add_candidate_self first i ix.by_first))
    ]

index_secret-of :
    (i j c : ℕ) (s : Bytes) (ix : Index)
    → In j ((index_secret i s ix).by_first c)
    → In j (ix.by_first c) ⊎ (j ≡ i)
unfolding index_secret
index_secret-of i j c s ix h =
    let p = proj s in
    let first = get_or s 0 0 in
    let one = add_candidate first i ix.by_first in
    elim (Bool-cases (ltb 0 (length p) && not (get_or p 0 0 == first))) [
      | inl e ↦ elim (add_candidate-of (get_or p 0 0) i j c one (rw e at h)) [
        | inl k ↦ add_candidate-of first i j c ix.by_first k
        | inr k ↦ inr k
      ]
      | inr e ↦ add_candidate-of first i j c ix.by_first (rw e at h)
    ]

-- The loop over the secrets: what it keeps, and what it establishes.
index_from-keeps :
    (i j c : ℕ) (ss : List Bytes) (ix : Index)
    → In j (ix.by_first c)
    → In j ((index_from i ss ix).by_first c)
unfolding index_from
index_from-keeps i j c [] ix h = h
index_from-keeps i j c (s ∷ ss) ix h =
    index_from-keeps (suc i) j c ss (index_secret i s ix) (index_secret-keeps i j c s ix h)

index_from-IsListed :
    (i : ℕ) (ss : List Bytes) (ix : Index) → IsListed (index_from i ss ix).by_first i ss
unfolding index_from
index_from-IsListed i [] ix = tt
index_from-IsListed i (s ∷ ss) ix =
    let ix' = index_secret i s ix in
    (
      index_from-keeps (suc i) i (get_or s 0 0) ss ix' (index_secret_self i s ix),
      (λ c cs h. index_from-keeps (suc i) i c ss ix' (index_secret-proj i s ix c cs h)),
      index_from-IsListed (suc i) ss ix',
    )

index_from_below :
    (i : ℕ) (ss : List Bytes) (ix : Index)
    → ((b j : ℕ) → In j (ix.by_first b) → j < i)
    → (b j : ℕ) → In j ((index_from i ss ix).by_first b)
    → j < i + length ss
unfolding index_from
index_from_below i [] ix h b j m = omega (arith, h b j m)
index_from_below i (s ∷ ss) ix h b j m = omega (
  arith,
  index_from_below (suc i) ss (index_secret i s ix)
      (λ c k n. elim (index_secret-of i k c s ix n) [
        | inl old ↦ omega (arith, h c k old)
        | inr e ↦ omega arith
      ])
      b j m,
)

secrets-index_from :
    (i : ℕ) (ss : List Bytes) (ix : Index) → (index_from i ss ix).secrets ≡ ix.secrets
unfolding index_from index_secret
secrets-index_from i [] ix = refl
secrets-index_from i (s ∷ ss) ix = secrets-index_from (suc i) ss (index_secret i s ix)

max_span-index_from :
    (i : ℕ) (ss : List Bytes) (ix : Index) → ix.max_span ≤ (index_from i ss ix).max_span
unfolding index_from index_secret
max_span-index_from i [] ix = omega arith
max_span-index_from i (s ∷ ss) ix =
    omega (arith, max_span-index_from (suc i) ss (index_secret i s ix))

index_from-Covers : (i : ℕ) (ss : List Bytes) (ix : Index) → Covers (index_from i ss ix).max_span ss
unfolding index_from index_secret
index_from-Covers i [] ix = tt
index_from-Covers i (s ∷ ss) ix = (
  omega (arith, max_span-index_from (suc i) ss (index_secret i s ix)),
  index_from-Covers (suc i) ss (index_secret i s ix),
)

-- A key once written is found, whatever is written later.
abbrev IsKey : Bytes → Fragments → Type 0
IsKey key m = (hit : FragHit) × (find_fragment key m ≡ some hit)

IsKey-cons :
    (key k : Bytes) (hit : FragHit) (m : Fragments)
    → (bytes_eq k key ≡ true) ⊎ IsKey key m
    → IsKey key ((k, hit) ∷ m)
unfolding find_fragment
IsKey-cons key k hit m h = elim (Bool-cases (bytes_eq k key)) [
  | inl e ↦ (hit, rw e)
  | inr e ↦ elim h [ inl e' ↦ cc | inr (hit', f) ↦ (hit', rw e f) ]
]

index_windows-keeps :
    (rounds off : ℕ) (p key : Bytes) (m : Fragments)
    → IsKey key m
    → IsKey key (index_windows rounds off p m)
unfolding index_windows
index_windows-keeps zero off p key m h = h
index_windows-keeps (suc rounds) off p key m h =
    index_windows-keeps rounds (suc off) p key _
      (IsKey-cons key (take fragment_len (drop off p)) _ m (inr h))

index_windows-IsKey :
    (rounds off at : ℕ) (p : Bytes) (m : Fragments)
    → off ≤ at
    → at < off + rounds
    → IsKey (take fragment_len (drop at p)) (index_windows rounds off p m)
unfolding index_windows
index_windows-IsKey zero off at p m h k = absurd (omega arith)
index_windows-IsKey (suc rounds) off at p m h k = elim (Bool-cases (off == at)) [
  | inl e ↦
      let key = take fragment_len (drop at p) in
      let same : off ≡ at = ground arith in
      index_windows-keeps rounds (suc off) p key _
        (IsKey-cons key _ _ m (inl ((bytes_eq_iff _ _).1 (rw same))))
  | inr e ↦ index_windows-IsKey rounds (suc off) at p _ (ground arith) (omega arith)
]

index_secret-IsKey :
    (i : ℕ) (s key : Bytes) (ix : Index)
    → IsKey key ix.fragments
    → IsKey key (index_secret i s ix).fragments
unfolding index_secret
index_secret-IsKey i s key ix h = elim (Bool-cases (is_long (proj s))) [
  | inl e ↦
      rw e (index_windows-keeps (length (proj s) + 1 - fragment_len) 0 (proj s) key ix.fragments h)
  | inr e ↦ rw e h
]

index_secret-HasFragments :
    (i : ℕ) (s : Bytes) (ix : Index) → HasFragments (index_secret i s ix).fragments s
unfolding index_secret
index_secret-HasFragments i s ix e off h = rw e (
    index_windows-IsKey (length (proj s) + 1 - fragment_len) 0 off (proj s) ix.fragments
      (omega arith) (omega arith))

index_from-IsKey :
    (i : ℕ) (ss : List Bytes) (key : Bytes) (ix : Index)
    → IsKey key ix.fragments
    → IsKey key (index_from i ss ix).fragments
unfolding index_from
index_from-IsKey i [] key ix h = h
index_from-IsKey i (s ∷ ss) key ix h =
    index_from-IsKey (suc i) ss key (index_secret i s ix) (index_secret-IsKey i s key ix h)

index_from-HasFragments :
    (i : ℕ) (ss : List Bytes) (ix : Index) → All (HasFragments (index_from i ss ix).fragments) ss
unfolding index_from
index_from-HasFragments i [] ix = tt
index_from-HasFragments i (s ∷ ss) ix = (
  (λ e off h.
      index_from-IsKey (suc i) ss _ (index_secret i s ix)
        (index_secret-HasFragments i s ix e off h)),
  index_from-HasFragments (suc i) ss (index_secret i s ix),
)

-- Sorting keeps the secrets.
insert_longest-All :
    (s : Bytes) (ss : List Bytes)
    → IsNonEmpty s
    → All IsNonEmpty ss
    → All IsNonEmpty (insert_longest s ss)
unfolding insert_longest
insert_longest-All s [] p h = (p, tt)
insert_longest-All s (t ∷ ts) p h = elim (Bool-cases (leb (length t) (length s))) [
  | inl e ↦ rw e (p, h)
  | inr e ↦ rw e (h.0, insert_longest-All s ts p h.1)
]

sort_longest-All : (ss : List Bytes) → All IsNonEmpty ss → All IsNonEmpty (sort_longest ss)
unfolding sort_longest
sort_longest-All [] h = tt
sort_longest-All (s ∷ ss) h = insert_longest-All s (sort_longest ss) h.0 (sort_longest-All ss h.1)

insert_longest-In : (a s : Bytes) (ss : List Bytes) → (a ≡ s) ⊎ In a ss → In a (insert_longest s ss)
unfolding insert_longest
insert_longest-In a s [] h = h
insert_longest-In a s (t ∷ ts) h = elim (Bool-cases (leb (length t) (length s))) [
  | inl e ↦ rw e h
  | inr e ↦ rw e (elim h [
    | inl same ↦ inr (insert_longest-In a s ts (inl same))
    | inr (inl same) ↦ inl same
    | inr (inr later) ↦ inr (insert_longest-In a s ts (inr later))
  ])
]

pub sort_longest-In : (a : Bytes) (ss : List Bytes) → In a ss → In a (sort_longest ss)
unfolding sort_longest
sort_longest-In a [] h = h
sort_longest-In a (s ∷ ss) (inl e) = insert_longest-In a s (sort_longest ss) (inl e)
sort_longest-In a (s ∷ ss) (inr h) =
    insert_longest-In a s (sort_longest ss) (inr (sort_longest-In a ss h))

pub secrets-reindex : (ix : Index) → (reindex ix).secrets ≡ sort_longest ix.secrets
unfolding reindex
secrets-reindex ix = secrets-index_from 0 (sort_longest ix.secrets) _

-- From any earlier index, rebuilding it over secrets that are not empty gives one in which every
-- secret is a candidate at its first byte and at its first byte that is no gap, every 12-byte
-- window of a long secret is a key, and no secret's span passes `max_span`.
pub reindex-IsIndexed : (ix : Index) → All IsNonEmpty ix.secrets → IsIndexed (reindex ix)
unfolding reindex
reindex-IsIndexed ix h =
    let sorted = sort_longest ix.secrets in
    let start : Index = record ix { secrets = sorted; by_first = λ _. []; fragments = [] } in
    let same = secrets-index_from 0 sorted start in
    record {
      covers = rw same (index_from-Covers 0 sorted start);
      non_empty = rw same (sort_longest-All ix.secrets h);
      listed = rw same (index_from-IsListed 0 sorted start);
      in_range = λ b i m.
          rw same (omega (arith, index_from_below 0 sorted start (λ c j n. absurd n) b i m));
      windows = rw same (index_from-HasFragments 0 sorted start);
    }
