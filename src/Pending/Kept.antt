-- ===== src/Pending/Kept.antt =====
-- internal/pending/pending.go: an id that is under review keeps its content.
use ironrun.Prelude.{
  ◌≡◌, refl, sym, ap, subst, ◌∙◌, ◌⊎◌, inl, inr, true, List, [], ◌∷◌, ◌++◌, none, some,
  if◌then◌else◌, Bool-cases, Option-cases, Bytes, bytes_eq, bytes_eq_iff, bytes_le, Try, ok, err,
  ◌>>=◌, bind-eq-ok, arith,
}
use ironrun.Pending.Store.{
  Proposal, Proposals, PendingFile, holds, PendingError, unsaved, locked, Transaction, load_store,
  find, insert_by_id, sort_by_id, replace_in, replaced_or, upsert, texts_eq, bindings_eq,
  same_content, save, update, create_found, create_proposal, create,
}

bytes_le_refl : (s : Bytes) → bytes_le s s ≡ true
unfolding bytes_le
bytes_le_refl [] = refl
bytes_le_refl (c ∷ s) = ground (arith, bytes_le_refl s)

find-insert_by_id :
    (id : Bytes) (p : Proposal) (ps : Proposals) → find id (insert_by_id p ps) ≡ find id (p ∷ ps)
unfolding find insert_by_id
find-insert_by_id id p [] = refl
find-insert_by_id id p (q ∷ ps) =
    let rest = find-insert_by_id id p ps in
    let own = bytes_eq_iff p.id id in
    let other = bytes_eq_iff q.id id in
    let self = bytes_le_refl id in
    elim (Bool-cases (bytes_le p.id q.id)) [
      | inl e ↦ rw e
      | inr e ↦ elim (Bool-cases (bytes_eq q.id id)) [
        | inl x ↦ elim (Bool-cases (bytes_eq p.id id)) [
          | inl y ↦ let le : bytes_le p.id q.id ≡ true = rw (own.0 y, other.0 x) self in cc
          | inr y ↦ rw (e, x, y) refl
        ]
        | inr x ↦ rw (e, x) rest
      ]
    ]

find-sort_by_id : (id : Bytes) (ps : Proposals) → find id (sort_by_id ps) ≡ find id ps
unfolding find sort_by_id
find-sort_by_id id [] = refl
find-sort_by_id id (p ∷ ps) =
    find-insert_by_id id p (sort_by_id ps)
    ∙ ap (λ later. if bytes_eq p.id id then some p else later) (find-sort_by_id id ps)

find-snoc_found :
    (id : Bytes) (ps : Proposals) (p q : Proposal)
    → find id ps ≡ some q
    → find id (ps ++ p ∷ []) ≡ some q
unfolding find
find-snoc_found id [] p q e = cc
find-snoc_found id (r ∷ ps) p q e = ground (arith, find-snoc_found id ps p q)

find-snoc_new :
    (ps : Proposals) (p : Proposal) → find p.id ps ≡ none → find p.id (ps ++ p ∷ []) ≡ some p
unfolding find
find-snoc_new [] p e = rw ((bytes_eq_iff p.id p.id).1 refl) refl
find-snoc_new (r ∷ ps) p e = ground (arith, find-snoc_new ps p)

replace_in_absent : (p : Proposal) (ps : Proposals) → find p.id ps ≡ none → replace_in p ps ≡ none
unfolding find replace_in
replace_in_absent p [] e = refl
replace_in_absent p (q ∷ ps) e = elim (Bool-cases (bytes_eq q.id p.id)) [
  | inl same ↦ let e' = rw same at e in cc
  | inr other ↦ rw (other, replace_in_absent p ps (rw other at e)) refl
]

texts_eq-≡ : (a b : List Bytes) → texts_eq a b ≡ true → a ≡ b
unfolding texts_eq
texts_eq-≡ [] [] h = refl
texts_eq-≡ [] (y ∷ b) h = cc
texts_eq-≡ (x ∷ a) [] h = cc
texts_eq-≡ (x ∷ a) (y ∷ b) h =
    let both : (bytes_eq x y ≡ true) × (texts_eq a b ≡ true) = ground arith in
    let head = (bytes_eq_iff x y).0 both.0 in let tail = texts_eq-≡ a b both.1 in cc

bindings_eq-≡ : (m n : List (Bytes × Bytes)) → bindings_eq m n ≡ true → m ≡ n
unfolding bindings_eq
bindings_eq-≡ [] [] h = refl
bindings_eq-≡ [] (y ∷ n) h = cc
bindings_eq-≡ (x ∷ m) [] h = cc
bindings_eq-≡ ((k, v) ∷ m) ((l, w) ∷ n) h =
    let all : (bytes_eq k l ≡ true) × (bytes_eq v w ≡ true) × (bindings_eq m n ≡ true) =
      ground arith in
    let (key, value, rest) = all in
    let same_key = (bytes_eq_iff k l).0 key in
    let same_value = (bytes_eq_iff v w).0 value in let tail = bindings_eq-≡ m n rest in cc

-- The same arguments, environment and reason.
abbrev pub SameContent : Proposal → Proposal → Type 0
SameContent r p = (r.argv ≡ p.argv) × (r.env ≡ p.env) × (r.reason ≡ p.reason)

same_content-SameContent : (r p : Proposal) → same_content r p ≡ true → SameContent r p
unfolding same_content
same_content-SameContent r p h =
    let all : (texts_eq r.argv p.argv ≡ true)
        × (bindings_eq r.env p.env ≡ true)
        × (bytes_eq r.reason p.reason ≡ true) =
      ground arith in
    let (argv, env, reason) = all in
    (
      texts_eq-≡ r.argv p.argv argv,
      bindings_eq-≡ r.env p.env env,
      (bytes_eq_iff r.reason p.reason).0 reason,
    )

upsert_new :
    (p : Proposal) (ps : Proposals) → find p.id ps ≡ none → upsert p ps ≡ sort_by_id (ps ++ p ∷ [])
unfolding upsert replaced_or
upsert_new p ps e = rw (replace_in_absent p ps e) refl

-- What `Create` did to the proposals, where it succeeds.
record Created (p : Proposal) (ps ps' : Proposals) (r : Proposal) : Type 0 where
  keeps : (id : Bytes) (q : Proposal) → find id ps ≡ some q → find id ps' ≡ some q
  stands : find p.id ps' ≡ some r
  same : SameContent r p

create_found-existing :
    (existing p : Proposal) (ps ps' : Proposals) (r : Proposal)
    → create_found (some existing) p ps ≡ ok (ps', r)
    → (same_content existing p ≡ true) × (ps ≡ ps') × (existing ≡ r)
unfolding create_found
create_found-existing existing p ps ps' r e = elim (Bool-cases (same_content existing p)) [
  | inl equal ↦
      let e' = rw equal at e in
      let state : ps ≡ ps' = cc in let own : existing ≡ r = cc in (equal, state, own)
  | inr differs ↦ let e' = rw differs at e in cc
]

create_proposal-Created :
    (p : Proposal) (ps ps' : Proposals) (r : Proposal)
    → create_proposal p ps ≡ ok (ps', r)
    → Created p ps ps' r
unfolding create_proposal create_found
create_proposal-Created p ps ps' r e = elim (Option-cases (find p.id ps)) [
  | inl new ↦
      let e' = rw new at e in
      let put : upsert p ps ≡ ps' = cc in
      let at_end : ps' ≡ sort_by_id (ps ++ p ∷ []) = sym put ∙ upsert_new p ps new in
      let own : p ≡ r = cc in
      record {
        keeps = λ id q found.
            rw at_end (find-sort_by_id id (ps ++ p ∷ []) ∙ find-snoc_found id ps p q found);
        stands =
            rw at_end
              (find-sort_by_id p.id (ps ++ p ∷ []) ∙ (find-snoc_new ps p new ∙ ap some own));
        same = subst (λ x. SameContent x p) own (refl, refl, refl);
      }
  | inr (existing, found) ↦
      let e' = rw found at e in
      let (test, state, own) = create_found-existing existing p ps ps' r e' in
      record {
        keeps = λ id q there. subst (λ x. find id x ≡ some q) state there;
        stands = subst (λ x. find p.id x ≡ some r) state (found ∙ ap some own);
        same = subst (λ x. SameContent x p) own (same_content-SameContent existing p test);
      }
]

-- A save leaves the file as it is and reports an error, or stores what was computed.
save-outcome :
    {A : Type 0} (t : Transaction) (file : PendingFile) (m : Try PendingError (Proposals × A))
    → ((save t file m).0 ≡ file) × ((why : PendingError) × ((save t file m).1 ≡ err why))
      ⊎ ((ps' : Proposals) × (a : A) × (m ≡ ok (ps', a)) × (save t file m ≡ (holds ps', ok a)))
unfolding save
save-outcome t file (err why) = inl (refl, (why, refl))
save-outcome t file (ok (ps', a)) = elim (Bool-cases t.saves) [
  | inl e ↦ inr (ps', a, refl, rw e refl)
  | inr e ↦ inl (rw e (refl, (unsaved, refl)))
]

-- A transaction leaves the file as it is, or `fn` succeeded on what the file held and the file
-- holds its result.
pub update-outcome :
    {A : Type 0} (fn : Proposals → Try PendingError (Proposals × A)) (t : Transaction)
    (file : PendingFile)
    → ((update fn t file).0 ≡ file) × ((why : PendingError) × ((update fn t file).1 ≡ err why))
      ⊎ ((ps ps' : Proposals) × (a : A) × (load_store file ≡ ok ps)
          × (fn ps ≡ ok (ps', a))
          × (update fn t file ≡ (holds ps', ok a)))
unfolding update
update-outcome fn t file = elim (Bool-cases t.lock_got) [
  | inr e ↦ rw e (inl (refl, (locked, refl)))
  | inl e ↦ elim (save-outcome t file (load_store file >>= fn)) [
    | inl none_saved ↦ inl (rw e none_saved)
    | inr (ps', a, ran, stored) ↦
        let (ps, loaded, done) = bind-eq-ok (load_store file) fn ran in
        inr (ps, ps', a, loaded, done, rw e stored)
  ]
]

-- A proposal that the file holds under an id is still the one under that id after any `Create`,
-- whatever is proposed and whether or not the lock is got and the save ends well.
pub create-keeps :
    (p : Proposal) (t : Transaction) (file : PendingFile) (ps : Proposals) (id : Bytes)
    (q : Proposal)
    → load_store file ≡ ok ps
    → find id ps ≡ some q
    → (ps' : Proposals) × (load_store (create p t file).0 ≡ ok ps') × (find id ps' ≡ some q)
unfolding create load_store
create-keeps p t file ps id q loaded found = elim (update-outcome (create_proposal p) t file) [
  | inl (same, failed) ↦ (ps, (ap load_store same ∙ loaded), found)
  | inr (ps1, ps', r, loaded1, ran, stored) ↦
      let start : ps ≡ ps1 = cc in
      let made = create_proposal-Created p ps1 ps' r ran in
      (
        ps',
        ap (λ (o : PendingFile × Try PendingError Proposal). load_store o.0) stored,
        made.keeps id q (subst (λ x. find id x ≡ some q) start found),
      )
]

-- If `Create` succeeds, the proposal that it returns stands in the file under the proposed id and
-- has the proposed arguments, environment and reason.
pub create-returns :
    (p : Proposal) (t : Transaction) (file : PendingFile) (r : Proposal)
    → (create p t file).1 ≡ ok r
    → (ps' : Proposals) × (load_store (create p t file).0 ≡ ok ps')
      × (find p.id ps' ≡ some r)
      × SameContent r p
unfolding create load_store
create-returns p t file r e = elim (update-outcome (create_proposal p) t file) [
  | inl (same, (why, failed)) ↦ cc
  | inr (ps, ps', r1, loaded, ran, stored) ↦
      let own : r1 ≡ r = cc in
      let made = create_proposal-Created p ps ps' r1 ran in
      (
        ps',
        ap (λ (o : PendingFile × Try PendingError Proposal). load_store o.0) stored,
        made.stands ∙ ap some own,
        subst (λ x. SameContent x p) own made.same,
      )
]
