-- ===== src/Runner/Child.antt =====
-- internal/runner/runner.go: what the child finds under a name. os/exec uses the last of the entries
-- for one name.
use ironrun.Prelude.{
  ◌≡◌, refl, sym, ap, ◌∙◌, false, List, [], ◌∷◌, ◌++◌, Option, none, some, ◌==◌, if◌then◌else◌, All,
  Bytes, bytes_eq,
}
use ironrun.Runner.Environ.{equals}

-- The value of an entry, when it is for this name.
abbrev pub entry_value : Bytes → Bytes → Option Bytes
entry_value [] [] = none
entry_value [] (c ∷ cs) = if c == equals then some cs else none
entry_value (k ∷ ks) [] = none
entry_value (k ∷ ks) (c ∷ cs) = let more = entry_value ks cs in if c == k then more else none

abbrev pub first_of : Option Bytes → Option Bytes → Option Bytes
first_of none b = b
first_of (some a) b = some a

unfoldable pub child_value : Bytes → List Bytes → Option Bytes
child_value key [] = none
child_value key (e ∷ es) = first_of (child_value key es) (entry_value key e)

-- A name has no `=`, and no two are the same.
abbrev pub IsName : Bytes → Type 0
IsName k = All (λ c. (c == equals) ≡ false) k

abbrev pub Unnamed : Bytes → List (Bytes × Bytes) → Type 0
Unnamed k [] = Unit
Unnamed k ((l, v) ∷ secrets) = (bytes_eq l k ≡ false) × Unnamed k secrets

abbrev pub IsNamed : List (Bytes × Bytes) → Type 0
IsNamed [] = Unit
IsNamed ((k, v) ∷ secrets) = IsName k × Unnamed k secrets × IsNamed secrets

first_of_assoc : (a b c : Option Bytes) → first_of (first_of a b) c ≡ first_of a (first_of b c)
first_of_assoc none b c = refl
first_of_assoc (some a) b c = refl

pub first_of-none : (a : Option Bytes) → first_of a none ≡ a
first_of-none none = refl
first_of-none (some a) = refl

pub child_value-append :
    (key : Bytes) (es fs : List Bytes)
    → child_value key (es ++ fs) ≡ first_of (child_value key fs) (child_value key es)
unfolding child_value
child_value-append key [] fs = sym (first_of-none (child_value key fs))
child_value-append key (e ∷ es) fs =
    ap (λ v. first_of v (entry_value key e)) (child_value-append key es fs)
    ∙ first_of_assoc (child_value key fs) (child_value key es) (entry_value key e)
