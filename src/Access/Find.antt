-- ===== src/Access/Find.antt =====
-- internal/access/access.go: a record found by its id, the first that has it, and what keeps a
-- property of that record.
use ironrun.Prelude.{
  ◌≡◌, inl, inr, sym, subst, Bool, true, false, List, [], ◌∷◌, ◌++◌, Option, none, some, arith,
  Bytes, bytes_eq, if◌then◌else◌, Bool-cases, All,
}
use ironrun.Access.State.{Result, ok}
use ironrun.Access.Update.{Updated}

module _ {A : Type 0} (key : A → Bytes) where
  abbrev pub find_by : Bytes → List A → Option A
  find_by id [] = none
  find_by id (a ∷ rest) = if bytes_eq (key a) id then some a else find_by id rest

  -- The record of the id is there and has the property.
  abbrev pub Finds : (A → Type 0) → Bytes → List A → Type 0
  Finds P id xs = (a : A) × (find_by id xs ≡ some a) × P a

  pub Finds-append :
      (P : A → Type 0) (id : Bytes) (xs ys : List A) → Finds P id xs → Finds P id (xs ++ ys)
  Finds-append P id [] ys (a, f, p) = absurd (ground arith)
  Finds-append P id (x ∷ xs) ys (a, f, p) = elim (Bool-cases (bytes_eq (key x) id)) [
    | inl hit ↦ (x, rw hit, let same : x ≡ a = cc (rw hit at f) in subst P (sym same) p)
    | inr miss ↦ let (b, g, q) = Finds-append P id xs ys (a, rw miss at f, p) in (b, rw miss g, q)
  ]

  Finds-middle :
      (P : A → Type 0) (id : Bytes) (old new : A) (pre post : List A)
      → key new ≡ key old
      → (P old → P new)
      → Finds P id (pre ++ old ∷ post)
      → Finds P id (pre ++ new ∷ post)
  Finds-middle P id old new [] post same keeps (a, f, p) =
      elim (Bool-cases (bytes_eq (key old) id)) [
        | inl hit ↦
            (new, rw (same, hit), let is : old ≡ a = cc (rw hit at f) in keeps (subst P (sym is) p))
        | inr miss ↦ (a, rw (same, miss) (rw miss at f), p)
      ]
  Finds-middle P id old new (x ∷ pre) post same keeps (a, f, p) =
      elim (Bool-cases (bytes_eq (key x) id)) [
        | inl hit ↦ (x, rw hit, let is : x ≡ a = cc (rw hit at f) in subst P (sym is) p)
        | inr miss ↦
            let (b, g, q) = Finds-middle P id old new pre post same keeps (a, rw miss at f, p) in
            (b, rw miss g, q)
      ]

  pub Finds-Updated :
      {B : Type 0} (P : A → Type 0) (id : Bytes) {is_it : A → Bool} {change : A → Result (A × B)}
      {before after : List A} {b : B}
      → Updated is_it change before after b
      → ((old new : A) → change old ≡ ok (new, b) → (key new ≡ key old) × (P old → P new))
      → Finds P id before
      → Finds P id after
  Finds-Updated P id u kept h =
      let (same, keeps) = kept u.old u.new u.changed in
      subst (Finds P id) (sym u.after_is)
        (Finds-middle P id u.old u.new u.pre u.post same keeps (subst (Finds P id) u.before_is h))

  pub Finds-first :
      (P : A → Type 0) (id : Bytes) (new : A) (pre post : List A)
      → All (λ a. bytes_eq (key a) id ≡ false) pre
      → bytes_eq (key new) id ≡ true
      → P new
      → Finds P id (pre ++ new ∷ post)
  Finds-first P id new [] post h e p = (new, rw e, p)
  Finds-first P id new (x ∷ pre) post h e p =
      let (a, f, q) = Finds-first P id new pre post h.1 e p in (a, rw h.0 f, q)
