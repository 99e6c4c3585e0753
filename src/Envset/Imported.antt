-- ===== src/Envset/Imported.antt =====
-- internal/envset/manager.go: the keys of the entries that `ParseDotenv` gives.
use ironrun.Prelude.{
  ℕ, ◌≡◌, refl, subst, inl, inr, Bool, true, false, not, ◌||◌, List, [], ◌∷◌, ◌++◌, Option, none,
  some, Bool-cases, Bytes, codes, bytes_eq, contains, trim_space, ok, guard, guard_iff, only_if,
  seq_iff, bind-eq-ok, ◌>>=◌, ◌>>◌, arith,
}
use ironrun.Redact.Match.{has_prefix}
use ironrun.Audit.Log.{lines}
use ironrun.Envset.Sets.{valid_set_name}
use ironrun.Envset.Dotenv.{
  DotenvEntry, DotenvFile, Mode, outside, inside, Moved, finished, opened, read_pair, open_quote,
  cut_at, line_step, ends_with, at_end, parse_lines, scanned, parse_text, parse_dotenv, invalid_key,
  duplicate_key, not_regular, not_owner_only, inside_project,
}

-- Each key is a valid name, and none of those before it.
unfoldable pub IsFresh : List Bytes → List DotenvEntry → Type 0
IsFresh seen [] = Unit
IsFresh seen (e ∷ es) =
    (contains seen e.key ≡ false) × (valid_set_name e.key ≡ true) × IsFresh (e.key ∷ seen) es

-- What is true of the entries that are read from there on.
Reads : List Bytes → Mode → List DotenvEntry → Type 0
Reads seen outside es = IsFresh seen es
Reads seen (inside key quote value) [] = ⊥
Reads seen (inside key quote value) (e ∷ es) = (e.key ≡ key) × IsFresh seen es

StepReads : List Bytes → Mode → Moved → Type 0
StepReads seen mode moved =
    (rest : List DotenvEntry) → Reads moved.0 moved.1 rest → Reads seen mode (moved.2 ++ rest)

opened-Reads :
    (seen : List Bytes) (key value : Bytes) (o : Option ℕ)
    → contains seen key ≡ false
    → valid_set_name key ≡ true
    → StepReads seen outside (opened (key ∷ seen) key value o)
unfolding StepReads Reads IsFresh opened finished
opened-Reads seen key value none fresh valid rest h = (fresh, valid, h)
opened-Reads seen key value (some q) fresh valid [] h = absurd h
opened-Reads seen key value (some q) fresh valid (e ∷ es) (same, h) =
    (rw same fresh, rw same valid, rw same h)

pair-Reads :
    (seen : List Bytes) (o : Option (Bytes × Bytes)) (moved : Moved)
    → read_pair seen o ≡ ok moved
    → StepReads seen outside moved
unfolding read_pair
pair-Reads seen none moved h = cc
pair-Reads seen (some (k, v)) moved h =
    let last =
      ok (opened (trim_space k ∷ seen) (trim_space k) (trim_space v) (open_quote (trim_space v))) in
    let fresh = guard (not (contains seen (trim_space k))) duplicate_key in
    let named = (seq_iff (guard (valid_set_name (trim_space k)) invalid_key) (fresh >> last)).0 h in
    let tested = (seq_iff fresh last).0 named.1 in
    let valid = (guard_iff (valid_set_name (trim_space k)) invalid_key).0 named.0 in
    let unseen = (guard_iff (not (contains seen (trim_space k))) duplicate_key).0 tested.0 in
    let back : opened (trim_space k ∷ seen) (trim_space k) (trim_space v)
          (open_quote (trim_space v))
        ≡ moved =
      cc in
    subst (StepReads seen outside) back (
      opened-Reads seen (trim_space k) (trim_space v) (open_quote (trim_space v)) (ground arith)
        valid)

inside-Reads :
    (seen : List Bytes) (key longer value : Bytes) (quote : ℕ)
    → StepReads seen (inside key quote value) (seen, inside key quote longer, [])
unfolding StepReads Reads
inside-Reads seen key longer value quote [] h = h
inside-Reads seen key longer value quote (e ∷ es) h = h

end-Reads :
    (too_long : Bool) (seen : List Bytes) (mode : Mode) (es : List DotenvEntry)
    → at_end too_long mode ≡ ok es
    → Reads seen mode es
unfolding at_end Reads IsFresh
end-Reads too_long seen (inside key quote value) es h = cc
end-Reads true seen outside es h = cc
end-Reads false seen outside es h = let back : [] ≡ es = cc in subst (IsFresh seen) back tt

step-Reads :
    (seen : List Bytes) (mode : Mode) (text : Bytes) (moved : Moved)
    → line_step seen mode text ≡ ok moved
    → StepReads seen mode moved
unfolding line_step
step-Reads seen outside text moved h =
    elim (Bool-cases (bytes_eq (trim_space text) [] || has_prefix (trim_space text) (codes "#"))) [
      | inl skipped ↦
          let h' = rw skipped at h in
          let back : (seen, outside, []) ≡ moved = cc in
          subst (StepReads seen outside) back (unfold StepReads in λ rest r. r)
      | inr read ↦ pair-Reads seen (cut_at 61 (trim_space text)) moved (rw read at h)
    ]
step-Reads seen (inside key quote value) text moved h =
    elim (Bool-cases (ends_with quote (value ++ 10 ∷ text))) [
      | inl over ↦
          let h' = rw over at h in
          let back : (seen, outside, finished key (value ++ 10 ∷ text) ∷ []) ≡ moved = cc in
          subst (StepReads seen (inside key quote value)) back
            (unfold StepReads Reads finished in λ rest r. (refl, r))
      | inr more ↦
          let h' = rw more at h in
          let back : (seen, inside key quote (value ++ 10 ∷ text), []) ≡ moved = cc in
          subst (StepReads seen (inside key quote value)) back
            (inside-Reads seen key (value ++ 10 ∷ text) value quote)
    ]

parse_lines-Reads :
    (too_long : Bool) (seen : List Bytes) (mode : Mode) (ls : List Bytes) (es : List DotenvEntry)
    → parse_lines too_long seen mode ls ≡ ok es
    → Reads seen mode es
unfolding parse_lines StepReads
parse_lines-Reads too_long seen mode [] es h = end-Reads too_long seen mode es h
parse_lines-Reads too_long seen mode (l ∷ ls) es h =
    let (moved, stepped, more) =
      bind-eq-ok (line_step seen mode l)
        (λ (m : Moved).
          parse_lines too_long m.0 m.1 ls >>= λ (rest : List DotenvEntry). ok (m.2 ++ rest))
        h in
    let (rest, parsed, joined) =
      bind-eq-ok (parse_lines too_long moved.0 moved.1 ls)
        (λ (r : List DotenvEntry). ok (moved.2 ++ r)) more in
    let back : moved.2 ++ rest ≡ es = cc in
    subst (Reads seen mode) back (
      step-Reads seen mode l moved stepped rest
        (parse_lines-Reads too_long moved.0 moved.1 ls rest parsed))

-- The keys of the entries that are imported from a file are valid names, and no two are the same.
pub parse_dotenv-IsFresh :
    (allows_inside : Bool) (f : Option DotenvFile) (es : List DotenvEntry)
    → parse_dotenv allows_inside f ≡ ok es
    → IsFresh [] es
unfolding parse_dotenv parse_text
parse_dotenv-IsFresh allows none es h = cc
parse_dotenv-IsFresh allows (some f) es h =
    let text = parse_text f.text in
    let inner = only_if (not allows) (guard (not f.is_inside) inside_project) >> text in
    let a =
      (seq_iff (guard f.is_regular not_regular) (guard f.is_owner_only not_owner_only >> inner)).0
        h in
    let b = (seq_iff (guard f.is_owner_only not_owner_only) inner).0 a.1 in
    let c = (seq_iff (only_if (not allows) (guard (not f.is_inside) inside_project)) text).0 b.1 in
    unfold Reads in
    parse_lines-Reads (scanned (lines f.text)).1 [] outside (scanned (lines f.text)).0 es c.1
