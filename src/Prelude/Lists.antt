-- ===== src/Prelude/Lists.antt =====
-- Lists measured and indexed by native numbers, under the library's names, and membership by
-- recursion, which the tactics read as a sum.
use Prim.Native.Nat.{ℕ, zero, suc, ◌+◌, ◌-◌, ◌≤◌, min}
use mathlib.Core.Path.{◌≡◌, refl, ap, sym, subst}
use mathlib.Core.Logic.{◌⊎◌, inl, inr}
use mathlib.Core.List.{List, [], ◌∷◌, ◌++◌}
use mathlib.Core.Option.{Option, none, some}
use native.Mathlib.Nat.{sub-zero, zero-sub, suc-sub-suc}
use native.Mathlib.Omega.{arith}

module _ {ℓ} {A : Type ℓ} where
  abbrev pub length : List A → ℕ
  length [] = 0
  length (x ∷ xs) = suc (length xs)

  abbrev pub get_elem? : List A → ℕ → Option A
  get_elem? [] i = none
  get_elem? (x ∷ xs) zero = some x
  get_elem? (x ∷ xs) (suc i) = get_elem? xs i

  abbrev pub get_or : List A → ℕ → A → A
  get_or [] i d = d
  get_or (x ∷ xs) zero d = x
  get_or (x ∷ xs) (suc i) d = get_or xs i d

  abbrev pub take : ℕ → List A → List A
  take zero xs = []
  take (suc n) [] = []
  take (suc n) (x ∷ xs) = x ∷ take n xs

  abbrev pub drop : ℕ → List A → List A
  drop zero xs = xs
  drop (suc n) [] = []
  drop (suc n) (x ∷ xs) = drop n xs

  pub length-append : (xs ys : List A) → length (xs ++ ys) ≡ length xs + length ys
  length-append [] ys = omega arith
  length-append (x ∷ xs) ys = omega (arith, length-append xs ys)

  pub take-append-drop : (n : ℕ) (xs : List A) → take n xs ++ drop n xs ≡ xs
  take-append-drop zero xs = refl
  take-append-drop (suc n) [] = refl
  take-append-drop (suc n) (x ∷ xs) = ap (◌∷◌ x) (take-append-drop n xs)

  pub length-take : (n : ℕ) (xs : List A) → length (take n xs) ≡ min n (length xs)
  length-take zero xs = omega arith
  length-take (suc n) [] = omega arith
  length-take (suc n) (x ∷ xs) = omega (arith, length-take n xs)

  pub length-drop : (n : ℕ) (xs : List A) → length (drop n xs) ≡ length xs - n
  length-drop zero xs = omega arith
  length-drop (suc n) [] = omega arith
  length-drop (suc n) (x ∷ xs) = omega (arith, length-drop n xs)

  -- A prefix that lies in the first list does not see the second.
  pub take-append_le : (n : ℕ) (xs ys : List A) → n ≤ length xs → take n (xs ++ ys) ≡ take n xs
  take-append_le zero xs ys h = refl
  take-append_le (suc n) [] ys h = elim h [ ]
  take-append_le (suc n) (x ∷ xs) ys h = ap (◌∷◌ x) (take-append_le n xs ys (omega arith))

  pub drop-append_le :
      (n : ℕ) (xs ys : List A) → n ≤ length xs → drop n (xs ++ ys) ≡ drop n xs ++ ys
  drop-append_le zero xs ys h = refl
  drop-append_le (suc n) [] ys h = elim h [ ]
  drop-append_le (suc n) (x ∷ xs) ys h = drop-append_le n xs ys (omega arith)

  pub nil_of_length : (xs : List A) → length xs ≡ 0 → xs ≡ []
  nil_of_length [] h = refl
  nil_of_length (x ∷ xs) h = absurd (omega arith)

  pub take_all : (n : ℕ) (xs : List A) → length xs ≤ n → take n xs ≡ xs
  take_all zero [] h = refl
  take_all zero (x ∷ xs) h = elim h [ ]
  take_all (suc n) [] h = refl
  take_all (suc n) (x ∷ xs) h = ap (◌∷◌ x) (take_all n xs (omega arith))

  pub take-append :
      (n : ℕ) (xs ys : List A) → take n (xs ++ ys) ≡ take n xs ++ take (n - length xs) ys
  take-append zero [] ys = refl
  take-append (suc n) [] ys = rw sub-zero
  take-append zero (x ∷ xs) ys = rw zero-sub
  take-append (suc n) (x ∷ xs) ys = rw (take-append n xs ys, suc-sub-suc)

module _ {A : Type 0} where
  -- `a` stands in the list.
  abbrev pub In : A → List A → Type 0
  In a [] = ⊥
  In a (x ∷ xs) = (a ≡ x) ⊎ In a xs

module _ {ℓ κ} {A : Type ℓ} where
  -- `P` holds of every member.
  abbrev pub All : (A → Type κ) → List A → Type κ
  All P [] = Unit
  All P (x ∷ xs) = P x × All P xs

pub In-append : {A : Type 0} (a : A) (xs ys : List A) → In a xs ⊎ In a ys → In a (xs ++ ys)
In-append a [] ys (inl h) = absurd h
In-append a [] ys (inr h) = h
In-append a (x ∷ xs) ys (inl (inl e)) = inl e
In-append a (x ∷ xs) ys (inl (inr h)) = inr (In-append a xs ys (inl h))
In-append a (x ∷ xs) ys (inr h) = inr (In-append a xs ys (inr h))

pub In-of_append : {A : Type 0} (a : A) (xs ys : List A) → In a (xs ++ ys) → In a xs ⊎ In a ys
In-of_append a [] ys h = inr h
In-of_append a (x ∷ xs) ys (inl e) = inl (inl e)
In-of_append a (x ∷ xs) ys (inr h) = ground (arith, In-of_append a xs ys h)

pub All-append :
    {A : Type 0} (P : A → Type 0) (xs ys : List A) → All P xs → All P ys → All P (xs ++ ys)
All-append P [] ys h k = k
All-append P (x ∷ xs) ys h k = (h.0, All-append P xs ys h.1 k)

pub All-of_append :
    {A : Type 0} (P : A → Type 0) (xs ys : List A) → All P (xs ++ ys) → All P xs × All P ys
All-of_append P [] ys h = (tt, h)
All-of_append P (x ∷ xs) ys h = let (a, b) = All-of_append P xs ys h.1 in ((h.0, a), b)

pub All-map :
    {A : Type 0} {P Q : A → Type 0} (xs : List A) → ((x : A) → P x → Q x) → All P xs → All Q xs
All-map [] f h = tt
All-map (x ∷ xs) f h = (f x h.0, All-map xs f h.1)

pub All-In : {A : Type 0} (P : A → Type 0) (xs : List A) (a : A) → All P xs → In a xs → P a
All-In P [] a h m = absurd m
All-In P (x ∷ xs) a h (inl e) = subst P (sym e) h.0
All-In P (x ∷ xs) a h (inr m) = All-In P xs a h.1 m

pub All-of_In : {A : Type 0} {P : A → Type 0} (xs : List A) → ((x : A) → In x xs → P x) → All P xs
All-of_In [] f = tt
All-of_In (x ∷ xs) f = (f x (inl refl), All-of_In xs (λ y m. f y (inr m)))
