-- ===== src/Policy/Distinct.antt =====
-- internal/policy/policy.go: names that differ, as its loops check them.
use ironrun.Prelude.{
  ◌≡◌, refl, subst, ◌↔◌, inl, inr, true, not, List, [], ◌∷◌, Bool-cases, In, All, All-map, All-In,
  All-of_In, Bytes, contains, contains_iff,
}

-- No name stands twice.
abbrev pub Distinct : List Bytes → Type 0
Distinct [] = Unit
Distinct (x ∷ xs) = ¬ In x xs × Distinct xs

-- Each name is new where it stands: what a loop checks that keeps the names it has seen.
abbrev pub Clear : List Bytes → List Bytes → Type 0
Clear seen [] = Unit
Clear seen (x ∷ xs) = ¬ In x seen × Clear (x ∷ seen) xs

Clear-apart : (seen xs : List Bytes) → Clear seen xs ↔ (All (λ x. ¬ In x seen) xs × Distinct xs)
Clear-apart seen [] = (λ h. (tt, tt), λ h. tt)
Clear-apart seen (x ∷ xs) =
    let rest = Clear-apart (x ∷ seen) xs in
    (
      (λ h.
          let (apart, distinct) = rest.0 h.1 in
          (
            (h.0, All-map xs (λ y no m. no (inr m)) apart),
            ((λ m. All-In (λ y. ¬ In y (x ∷ seen)) xs x apart m (inl refl)), distinct),
          )),
      λ ((new, apart), (alone, distinct)). (
        new,
        rest.1 (
          All-of_In xs (λ y m. elim [
            | inl e ↦ alone (subst (λ z. In z xs) e m)
            | inr k ↦ All-In (λ z. ¬ In z seen) xs y apart m k
          ]),
          distinct,
        ),
      ),
    )

pub Clear-iff : (xs : List Bytes) → Clear [] xs ↔ Distinct xs
Clear-iff xs =
    let both = Clear-apart [] xs in
    ((λ h. (both.0 h).1), λ h. both.1 (All-of_In xs (λ x m. λ no. no), h))

pub not_seen_iff : (seen : List Bytes) (x : Bytes) → (not (contains seen x) ≡ true) ↔ ¬ In x seen
not_seen_iff seen x = elim (Bool-cases (contains seen x)) [
  | inl e ↦ (λ h. cc, λ h. absurd (h ((contains_iff seen x).0 e)))
  | inr e ↦ ((λ h m. let found = (contains_iff seen x).1 m in cc), λ h. rw e)
]
