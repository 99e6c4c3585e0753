-- ===== src/Redact/Tiers.antt =====
-- internal/redact/redact.go: each tier of `matchAt` finds what it is for, where the index lists it.
use native.Mathlib.Nat.{le_refl}
use ironrun.Prelude.{
  ℕ, zero, suc, ◌+◌, ◌-◌, ◌≤◌, ◌<◌, ◌≡◌, refl, sym, ap, subst, ◌∙◌, inl, inr, true, false, List, [],
  ◌∷◌, ◌++◌, some, arith, leb, Bool-cases, length, take, drop, get_or, min, Bytes, In, All, All-In,
  append_assoc, append-nil, length-append, length-take, length-drop, take-append, take_all,
  nil_of_length,
}
use ironrun.Redact.Match.{
  is_flex_gap, has_prefix, match_flex, match_flex_from, proj, fragment_len, FragHit, Fragments,
  gather, extend,
}
use ironrun.Redact.Index.{
  Index, match_at, match_exact, match_gapped, tier_three, match_fragment, on_key, follow,
  find_fragment, is_long,
}
use ironrun.Redact.Reindex.{IsIndexed, IsListed, IsNonEmpty}

-- Where a listed secret stands.
pub IsListed-In :
    (f : ℕ → List ℕ) (i : ℕ) (ss : List Bytes) (s : Bytes)
    → IsListed f i ss
    → In s ss
    → (k : ℕ) × (get_or ss k [] ≡ s)
      × In (i + k) (f (get_or s 0 0))
      × ((c : ℕ) (cs : Bytes) → proj s ≡ c ∷ cs → In (i + k) (f c))
IsListed-In f i [] s h m = absurd m
IsListed-In f i (t ∷ ss) s h (inl e) =
    let same : i + 0 ≡ i = omega arith in
    (0, sym e, rw (same, e) h.0, λ c cs p. rw same (h.1 c cs (ap (λ u. proj u) (sym e) ∙ p)))
IsListed-In f i (t ∷ ss) s h (inr m) =
    let (k, at, first, second) = IsListed-In f (suc i) ss s h.2 m in
    let same : i + suc k ≡ suc i + k = omega arith in
    (suc k, at, rw same first, λ c cs p. rw same (second c cs p))

All-get_or :
    (P : Bytes → Type 0) (ss : List Bytes) (i : ℕ) → All P ss → i < length ss → P (get_or ss i [])
All-get_or P [] i h k = elim k [ ]
All-get_or P (s ∷ ss) zero h k = h.0
All-get_or P (s ∷ ss) (suc i) h k = All-get_or P ss i h.1 (omega arith)

has_prefix_self : (s r : Bytes) → has_prefix (s ++ r) s ≡ true
unfolding has_prefix
has_prefix_self [] [] = refl
has_prefix_self [] (c ∷ r) = refl
has_prefix_self (c ∷ s) r = ground (arith, has_prefix_self s r)

match_exact-pos :
    (secrets : List Bytes) (is : List ℕ) (s r : Bytes) (k : ℕ)
    → ((i : ℕ) → In i is → IsNonEmpty (get_or secrets i []))
    → get_or secrets k [] ≡ s
    → In k is
    → 0 < match_exact secrets is (s ++ r)
unfolding match_exact
match_exact-pos secrets [] s r k h e m = absurd m
match_exact-pos secrets (i ∷ is) s r k h e (inl same) =
    let here : get_or secrets i [] ≡ s = ap (λ j. get_or secrets j []) (sym same) ∙ e in
    let pos = h i (inl refl) in
    rw here (ground (arith, has_prefix_self s r, length-append s r, rw here at pos))
match_exact-pos secrets (i ∷ is) s r k h e (inr m) =
    ground (arith, match_exact-pos secrets is s r k (λ j n. h j (inr n)) e m, h i (inl refl))

-- Tier 1 finds a secret that stands here, whatever follows.
pub match_at_secret :
    (ix : Index) (s r : Bytes)
    → IsIndexed ix
    → In s ix.secrets
    → IsNonEmpty s
    → 0 < match_at ix (s ++ r)
unfolding match_at
match_at_secret ix [] r v m h = elim h [ ]
match_at_secret ix (c ∷ s) r v m h =
    let (k, at, first, _) = IsListed-In ix.by_first 0 ix.secrets (c ∷ s) v.listed m in
    let candidate : In k (ix.by_first c) = subst (λ j. In j (ix.by_first c)) (omega arith) first in
    ground (
      arith,
      match_exact-pos ix.secrets (ix.by_first c) (c ∷ s) r k
          (λ i n. All-get_or IsNonEmpty ix.secrets i v.non_empty (v.in_range c i n)) at candidate,
    )

-- With the same non-gap bytes inside the span, the gap-tolerant matcher succeeds, and consumes
-- something unless the secret is all gaps.
match_flex_from-proj :
    (span i end : ℕ) (l r s : Bytes)
    → proj l ≡ proj s
    → i + length l ≤ span
    → end ≤ i
    → (n : ℕ) × (match_flex_from span i end (l ++ r) s ≡ some n)
      × (end ≤ n)
      × (0 < length (proj s) → i < n)
unfolding match_flex_from proj
match_flex_from-proj span i end l r [] e h k =
    (end, ground arith, omega arith, λ p. absurd (omega arith))
match_flex_from-proj span i end [] [] (c ∷ s) e h k = elim (Bool-cases (is_flex_gap c)) [
  | inl gap ↦
      let (n, found, lower, grows) = match_flex_from-proj span i end [] [] s (ground arith) h k in
      rw gap (n, found, lower, grows)
  | inr real ↦ absurd (ground arith)
]
match_flex_from-proj span i end [] (d ∷ r) (c ∷ s) e h k = elim (Bool-cases (is_flex_gap c)) [
  | inl gap ↦
      let (n, found, lower, grows) =
        match_flex_from-proj span i end [] (d ∷ r) s (ground arith) h k in
      rw gap (n, found, lower, grows)
  | inr real ↦ absurd (ground arith)
]
match_flex_from-proj span i end (b ∷ l) r (c ∷ s) e h k = elim (Bool-cases (is_flex_gap c)) [
  | inl gap ↦
      let (n, found, lower, grows) =
        match_flex_from-proj span i end (b ∷ l) r s (ground arith) h k in
      rw gap (n, found, lower, grows)
  | inr real ↦
      let room : leb span i ≡ false = ground arith in
      elim (Bool-cases (is_flex_gap b)) [
        | inl gap ↦
            let (n, found, lower, grows) =
              match_flex_from-proj span (suc i) end l r (c ∷ s) (ground arith) (omega arith)
                (omega arith) in
            (n, ground arith, lower, λ p. ground (arith, grows p))
        | inr seen ↦
            let (n, found, lower, grows) =
              match_flex_from-proj span (suc i) (suc i) l r s (ground arith) (omega arith)
                (omega arith) in
            (n, ground arith, omega arith, λ p. omega arith)
      ]
]

match_gapped-pos :
    (span : ℕ) (secrets : List Bytes) (is : List ℕ) (buf s : Bytes) (k n : ℕ)
    → get_or secrets k [] ≡ s
    → match_flex buf s span ≡ some n
    → 0 < n
    → In k is
    → 0 < match_gapped span secrets is buf
unfolding match_gapped
match_gapped-pos span secrets [] buf s k n e f h m = absurd m
match_gapped-pos span secrets (i ∷ is) buf s k n e f h (inl same) =
    let here : get_or secrets i [] ≡ s = ap (λ j. get_or secrets j []) (sym same) ∙ e in
    rw here (ground arith)
match_gapped-pos span secrets (i ∷ is) buf s k n e f h (inr m) =
    ground (arith, match_gapped-pos span secrets is buf s k n e f h m)

-- Tier 2 finds a secret that stands here with other gaps, from its first byte that is no gap.
pub match_at_gapped :
    (ix : Index) (s : Bytes) (b : ℕ) (l r : Bytes)
    → IsIndexed ix
    → In s ix.secrets
    → is_flex_gap b ≡ false
    → proj (b ∷ l) ≡ proj s
    → length (b ∷ l) ≤ ix.max_span
    → 0 < match_at ix (b ∷ (l ++ r))
unfolding match_at
match_at_gapped ix s b l r v m real same fits =
    let (k, at, _, second) = IsListed-In ix.by_first 0 ix.secrets s v.listed m in
    let head : proj (b ∷ l) ≡ b ∷ proj l = unfold proj in rw real in
    let candidate : In k (ix.by_first b) =
      subst (λ j. In j (ix.by_first b)) (omega arith) (second b (proj l) (sym same ∙ head)) in
    let longer : 0 < length (proj s) = subst (λ t. 0 < length t) (sym head ∙ same) (omega arith) in
    let (n, found, _, grows) =
      match_flex_from-proj ix.max_span 0 0 (b ∷ l) r s same (omega arith) (omega arith) in
    ground (
      arith,
      match_gapped-pos ix.max_span ix.secrets (ix.by_first b) (b ∷ (l ++ r)) s k n at
          (unfold match_flex in found) (grows longer) candidate,
    )

gather-proj :
    (need : ℕ) (key : Bytes) (i : ℕ) (l r : Bytes)
    → length (proj l) ≡ need
    → (j : ℕ) × (rest : Bytes) × (gather need key i (l ++ r) ≡ some (key ++ proj l, j, rest))
      × (i + need ≤ j)
unfolding gather proj
gather-proj zero key i l r h =
    let none_left : proj l ≡ [] = nil_of_length (proj l) h in
    (
      i,
      l ++ r,
      ap (λ t. some (t, i, l ++ r)) (sym (append-nil key))
          ∙ ap (λ t. some (key ++ t, i, l ++ r)) (sym none_left),
      omega arith,
    )
gather-proj (suc need) key i [] r h = absurd (omega arith)
gather-proj (suc need) key i (b ∷ l) r h = elim (Bool-cases (is_flex_gap b)) [
  | inl gap ↦
      let (j, rest, found, grows) = gather-proj (suc need) key (suc i) l r (ground arith) in
      (j, rest, rw gap found, omega arith)
  | inr real ↦
      let (j, rest, found, grows) = gather-proj need (key ++ b ∷ []) (suc i) l r (ground arith) in
      (
        j,
        rest,
        rw real (found ∙ ap (λ t. some (t, j, rest)) (append_assoc key (b ∷ []) (proj l))),
        omega arith,
      )
]

extend-ge : (i end : ℕ) (buf secret : Bytes) → end ≤ i → end ≤ extend i end buf secret
unfolding extend
extend-ge i end [] secret h = omega arith
extend-ge i end (b ∷ bs) [] h = omega arith
extend-ge i end (b ∷ bs) (s ∷ ss) h =
    ground (arith, extend-ge (suc i) end bs (s ∷ ss), extend-ge (suc i) (suc i) bs ss)

follow-pos : (hit : FragHit) (i : ℕ) (rest : Bytes) → i ≤ follow (some hit) i rest
unfolding follow
follow-pos hit i rest = extend-ge i i rest _ (le_refl i)

-- The visible part of the buffer holds the whole run.
match_fragment-pos :
    (ix : Index) (l r : Bytes) (hit : FragHit)
    → length l ≤ ix.max_span
    → length (proj l) ≡ fragment_len
    → find_fragment (proj l) ix.fragments ≡ some hit
    → 0 < match_fragment ix (l ++ r)
unfolding match_fragment on_key
match_fragment-pos ix l r hit fits twelve found =
    let limit = min (length (l ++ r)) ix.max_span in
    let enough : length l ≤ limit = omega (arith, length-append l r) in
    let split : take limit (l ++ r) ≡ l ++ take (limit - length l) r =
      take-append limit l r ∙ ap (λ t. t ++ take (limit - length l) r) (take_all limit l enough) in
    let (j, rest, gathered, grows) =
      gather-proj fragment_len [] 0 l (take (limit - length l) r) twelve in
    rw (split, gathered, found) (omega (arith, follow-pos hit j rest))

some_entry :
    (key : Bytes) (m : Fragments) (hit : FragHit) → find_fragment key m ≡ some hit → 0 < length m
unfolding find_fragment
some_entry key [] hit e = cc
some_entry key (x ∷ m) hit e = omega arith

-- Tier 3 finds twelve bytes in a row of a long secret, with any gaps behind the first of them.
pub match_at_fragment :
    (ix : Index) (s : Bytes) (off b : ℕ) (l r : Bytes)
    → IsIndexed ix
    → In s ix.secrets
    → is_long (proj s) ≡ true
    → off + fragment_len ≤ length (proj s)
    → is_flex_gap b ≡ false
    → proj (b ∷ l) ≡ take fragment_len (drop off (proj s))
    → length (b ∷ l) ≤ ix.max_span
    → 0 < match_at ix (b ∷ (l ++ r))
unfolding match_at tier_three
match_at_fragment ix s off b l r v m long inside real same fits =
    let (hit, found) = All-In _ ix.secrets s v.windows m long off inside in
    let twelve : length (proj (b ∷ l)) ≡ fragment_len = omega (
      arith,
      ap (λ (t : Bytes). length t) same,
      length-take fragment_len (drop off (proj s)),
      length-drop off (proj s),
    ) in
    let key_found : find_fragment (proj (b ∷ l)) ix.fragments ≡ some hit = rw same found in
    ground (
      arith,
      match_fragment-pos ix (b ∷ l) r hit fits twelve key_found,
      some_entry (proj (b ∷ l)) ix.fragments hit key_found,
    )
