-- ===== src/Prelude/Errors.antt =====
-- Go's `(value, error)` pairs: a value, or the error that was returned in its place. `do` stands for
-- the chains of `if err != nil { return err }`.
use mathlib.Core.Bool.{Bool, true, false}
use mathlib.Core.Logic.{◌↔◌, ◌⊎◌, inl, inr}
use mathlib.Core.Path.{◌≡◌, refl}

pub data Try {ℓ} (E : Type 0) (A : Type ℓ) : Type ℓ where
  err : E → Try E A
  ok : A → Try E A

module _ {ℓ κ} {E : Type 0} {A : Type ℓ} {B : Type κ} where
  infixl 5 ◌>>=◌
  abbrev pub ◌>>=◌ : Try E A → (A → Try E B) → Try E B
  err why >>= next = err why
  ok value >>= next = next value

module _ {ℓ} {E : Type 0} {B : Type ℓ} where
  -- An early return leaves out what follows.
  infixl 5 ◌>>◌
  abbrev pub ◌>>◌ : Try E (Unit {0}) → Try E B → Try E B
  first >> next = first >>= λ _. next

-- `if !test { return why }`
abbrev pub guard : {E : Type 0} → Bool → E → Try E (Unit {0})
guard false why = err why
guard true why = ok tt

-- `if test { … }` around steps that may return early.
abbrev pub only_if : {E : Type 0} → Bool → Try E (Unit {0}) → Try E (Unit {0})
only_if false steps = ok tt
only_if true steps = steps

-- To split on an answer and keep the equation.
pub Try-cases {ℓ} :
    {E : Type 0} {A : Type ℓ} (m : Try E A) → ((why : E) × (m ≡ err why)) ⊎ ((a : A) × (m ≡ ok a))
Try-cases (err why) = inl (why, refl)
Try-cases (ok a) = inr (a, refl)

-- A chain that gives a value got one from its first step.
pub bind-eq-ok {ℓ κ} :
    {E : Type 0} {A : Type ℓ} {B : Type κ} (m : Try E A) (next : A → Try E B) {b : B}
    → m >>= next ≡ ok b
    → (a : A) × (m ≡ ok a) × (next a ≡ ok b)
bind-eq-ok (err why) next h = cc
bind-eq-ok (ok a) next h = (a, refl, h)

-- A chain after a check gives a value when the check passes and the rest gives it.
pub seq_iff {ℓ} :
    {E : Type 0} {B : Type ℓ} (first : Try E (Unit {0})) (next : Try E B) {b : B}
    → (first >> next ≡ ok b) ↔ ((first ≡ ok tt) × (next ≡ ok b))
seq_iff (err why) next = (λ h. cc, λ h. cc)
seq_iff (ok u) next = (λ h. (refl, h), λ h. h.1)

pub guard_iff : {E : Type 0} (b : Bool) (why : E) → (guard b why ≡ ok tt) ↔ (b ≡ true)
guard_iff false why = (λ h. cc, λ h. cc)
guard_iff true why = (λ h. refl, λ h. refl)

-- The same with what each part comes to.
pub checked_iff {ℓ κ} :
    {E : Type 0} {B : Type ℓ} {P Q : Type κ} (first : Try E (Unit {0})) (next : Try E B) {b : B}
    → (first ≡ ok tt) ↔ P
    → (next ≡ ok b) ↔ Q
    → (first >> next ≡ ok b) ↔ (P × Q)
checked_iff first next p q =
    let chain = seq_iff first next in
    ((λ h. let both = chain.0 h in (p.0 both.0, q.0 both.1)), λ h. chain.1 (p.1 h.0, q.1 h.1))

pub tested_iff {κ} :
    {E : Type 0} {P : Type κ} (b : Bool) (why : E) → (b ≡ true) ↔ P → (guard b why ≡ ok tt) ↔ P
tested_iff b why p = let test = guard_iff b why in ((λ h. p.0 (test.0 h)), λ h. test.1 (p.1 h))

pub only_if_iff {κ} :
    {E : Type 0} {P Q : Type κ} (b : Bool) (steps : Try E (Unit {0}))
    → (b ≡ true) ↔ P
    → (steps ≡ ok tt) ↔ Q
    → (only_if b steps ≡ ok tt) ↔ (P → Q)
only_if_iff false steps p q = ((λ h holds. let e = p.1 holds in cc), λ h. refl)
only_if_iff true steps p q = ((λ h holds. q.0 h), λ h. q.1 (h (p.0 refl)))
