-- ===== src/Audit/Tests.antt =====
-- internal/audit/audit.go: a small coding that meets what the model asks of encoding/json and SHA-256,
-- and the theorems at a log of two records.
use ironrun.Prelude.{
  ℕ, ◌==◌, ◌≤◌, ◌≡◌, refl, sym, ap, subst, ◌⊎◌, inl, inr, true, false, List, [], ◌∷◌, Option, none,
  some, if◌then◌else◌, Bool-cases, Bytes, codes, bytes_eq, trim_space, is_space, pos, Try, ok,
  arith,
}
use ironrun.Audit.Entry.{Entry, Coding, genesis_hash}
use ironrun.Audit.Log.{
  AuditError, lines, lines_from, verify, verify_lines, verify_record, is_linked, compute_hash,
  last_hash, hash_of, after_last, has_newline, trim_newlines,
}
use ironrun.Audit.Logger.{whole, append, append_after, write_line, open_log, linked, scrubbed}
use ironrun.Audit.Tail.{tip, Storable}
use ironrun.Audit.Intact.{empty, appended, Written-verifies}
use ironrun.Audit.Tamper.{keep, records, records_from, Forgery, verified_records}

abbrev first : Entry
first = record {
  timestamp = 0;
  schema = 1;
  session_id = codes "s";
  cwd = codes "/";
  command_id = codes "deploy";
  argv = codes "deploy.sh" ∷ [];
  secret_names = [];
  secret_uses = [];
  cleanup_result = [];
  redaction_count = 0;
  entropy_warnings = 0;
  exit_code = pos 0;
  duration_ms = 5;
  truncated = false;
  kill_reason = [];
  seccomp_requested = false;
  seccomp_installed = false;
  seccomp_detail = [];
  no_network = true;
  prev_hash = genesis_hash;
  hash = codes "h";
  scrub_values = [];
}

abbrev second : Entry
second = record first { prev_hash = codes "h" }

-- The records that the coding knows, with and without their hash.
abbrev Known : Entry → Type 0
Known e =
    (e ≡ first)
    ⊎ ((e ≡ second) ⊎ ((e ≡ record first { hash = [] }) ⊎ (e ≡ record second { hash = [] })))

letter : Entry → ℕ
letter e =
    if bytes_eq e.hash []
    then (if bytes_eq e.prev_hash genesis_hash then b'c' else b'd')
    else (if bytes_eq e.prev_hash genesis_hash then b'a' else b'b')

abbrev marshal : Entry → Bytes
marshal e = letter e ∷ []

abbrev from_letter : ℕ → Option Entry
from_letter c =
    if c == b'a'
    then some first
    else if c == b'b'
    then some second
    else if c == b'c'
    then some (record first { hash = [] })
    else if c == b'd'
    then some (record second { hash = [] })
    else none

abbrev unmarshal : Bytes → Option Entry
unmarshal [] = none
unmarshal (c ∷ cs) = from_letter c

back : (e : Entry) → Known e → e.scrub_values ≡ [] → unmarshal (marshal e) ≡ some e
unfolding letter bytes_eq
back e (inl h) s = subst (λ x. unmarshal (marshal x) ≡ some x) (sym h) refl
back e (inr (inl h)) s = subst (λ x. unmarshal (marshal x) ≡ some x) (sym h) refl
back e (inr (inr (inl h))) s = subst (λ x. unmarshal (marshal x) ≡ some x) (sym h) refl
back e (inr (inr (inr h))) s = subst (λ x. unmarshal (marshal x) ≡ some x) (sym h) refl

letter_visible : (e : Entry) → (0x20 ≤ letter e) × (is_space (letter e) ≡ false)
unfolding letter is_space
letter_visible e = ground arith

is_trimmed : (e : Entry) → trim_space (marshal e) ≡ marshal e
unfolding trim_space
is_trimmed e = let shown = (letter_visible e).1 in ground (arith, shown)

from_letter-Known : (c : ℕ) (e : Entry) → from_letter c ≡ some e → (Known e) × (e.scrub_values ≡ [])
from_letter-Known c e h = elim (Bool-cases (c == b'a')) [
  | inl a ↦ let e' = rw a at h in (inl cc, cc)
  | inr not_a ↦ elim (Bool-cases (c == b'b')) [
    | inl b ↦ let e' = rw (not_a, b) at h in (inr (inl cc), cc)
    | inr not_b ↦ elim (Bool-cases (c == b'c')) [
      | inl b ↦ let e' = rw (not_a, not_b, b) at h in (inr (inr (inl cc)), cc)
      | inr not_c ↦ elim (Bool-cases (c == b'd')) [
        | inl b ↦ let e' = rw (not_a, not_b, not_c, b) at h in (inr (inr (inr cc)), cc)
        | inr not_d ↦ let e' = rw (not_a, not_b, not_c, not_d) at h in cc
      ]
    ]
  ]
]

from_text : (t : Bytes) (e : Entry) → unmarshal t ≡ some e → (Known e) × (e.scrub_values ≡ [])
from_text [] e h = cc
from_text (c ∷ cs) e h = from_letter-Known c e h

no_hash_text : (e : Entry) → Known e → Known (record e { hash = [] })
no_hash_text e (inl h) = inr (inr (inl (ap (λ (x : Entry). record x { hash = [] }) h)))
no_hash_text e (inr (inl h)) = inr (inr (inr (ap (λ (x : Entry). record x { hash = [] }) h)))
no_hash_text e (inr (inr (inl h))) = inr (inr (inl (ap (λ (x : Entry). record x { hash = [] }) h)))
no_hash_text e (inr (inr (inr h))) = inr (inr (inr (ap (λ (x : Entry). record x { hash = [] }) h)))

abbrev coding : Coding
coding = record {
  marshal = marshal;
  unmarshal = unmarshal;
  sha256_hex = λ x. codes "h";
  IsText = Known;
  back = back;
  is_printable = λ e. ((letter_visible e).0, tt);
  is_trimmed = is_trimmed;
  is_given = λ e. (letter e, [], refl);
  from_text = from_text;
  no_hash_text = no_hash_text;
}

abbrev escapes : Bytes → List Bytes
escapes v = v ∷ []

abbrev log1 : Bytes
log1 = (append coding escapes first whole []).0

abbrev log2 : Bytes
log2 = (append coding escapes second whole log1).0

fresh_hash : last_hash coding [] ≡ ok genesis_hash
unfolding last_hash
fresh_hash = refl

log1_text : log1 ≡ codes "a\n"
unfolding append append_after write_line last_hash linked scrubbed letter bytes_eq compute_hash
log1_text = refl

stored_first : Storable coding first
stored_first = record { textual = inl refl; scrubbed = refl; fits = omega arith }

stored_second : Storable coding second
stored_second = record { textual = inr (inl refl); scrubbed = refl; fits = omega arith }

ok_eq : {a b : Bytes} (t : Try AuditError Bytes) → t ≡ ok a → t ≡ ok b → a ≡ b
ok_eq t h g = cc

log1_last : last_hash coding log1 ≡ ok (codes "h")
unfolding last_hash after_last trim_newlines has_newline hash_of
log1_last = rw log1_text refl

log1_stored :
    (prev : Bytes)
    → last_hash coding [] ≡ ok prev
    → Storable coding (linked coding escapes prev (scrubbed coding escapes first))
unfolding last_hash linked scrubbed compute_hash
log1_stored prev h =
    subst (λ p. Storable coding (linked coding escapes p (scrubbed coding escapes first)))
      (ok_eq _ (unfold last_hash in refl) h) stored_first

log2_stored :
    (prev : Bytes)
    → last_hash coding log1 ≡ ok prev
    → Storable coding (linked coding escapes prev (scrubbed coding escapes second))
unfolding linked scrubbed compute_hash
log2_stored prev h =
    subst (λ p. Storable coding (linked coding escapes p (scrubbed coding escapes second)))
      (ok_eq _ log1_last h) stored_second

Written-verifies_example : (verify coding log2 ≡ ok none) × (open_log coding log2 ≡ ok tt)
Written-verifies_example =
    Written-verifies coding escapes log2
      (appended second log1 (appended first [] empty log1_stored) log2_stored)

-- The same records with a blank line between them.
abbrev spaced : Bytes
spaced = codes "a\n\nb\n"

spaced_verifies : verify coding spaced ≡ ok none
unfolding verify lines lines_from verify_lines verify_record is_linked bytes_eq trim_space
spaced_verifies = refl

same_tip : tip coding (records coding log2) ≡ tip coding (records coding spaced)
unfolding records records_from keep tip lines lines_from append append_after write_line last_hash
    linked scrubbed letter bytes_eq compute_hash trim_space
same_tip = refl

verified_records_example : (records coding log2 ≡ records coding spaced) ⊎ Forgery coding
verified_records_example =
    verified_records coding log2 spaced Written-verifies_example.0 spaced_verifies same_tip

-- A log that lacks its first record is refused at its first line.
cut_log : verify coding (codes "b\n") ≡ ok (some 1)
unfolding verify lines lines_from verify_lines verify_record is_linked bytes_eq trim_space
cut_log = refl
