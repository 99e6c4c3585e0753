-- ===== src/Prelude/Text.antt =====
-- Texts as the source keeps them: Go strings are sequences of bytes.
use Prim.Native.Char.{code}
use Prim.Native.Nat.{ℕ}
use Prim.Native.String.{String}
use mathlib.Core.Path.{◌≡◌, refl, sym}
use mathlib.Core.Logic.{◌↔◌, inl, inr}
use mathlib.Core.Bool.{Bool, true, false, ◌&&◌, ◌||◌}
use mathlib.Core.List.{List, [], ◌∷◌, ◌++◌, reverse}
use native.Mathlib.Omega.{arith}
use ironrun.Prelude.Lists.{In}
use ironrun.Prelude.Tests.{Bool-cases, ◌==◌, leb, ltb, if◌then◌else◌}

abbrev pub Bytes : Type 0
Bytes = List ℕ

-- The bytes of an ASCII literal.
abbrev pub codes : String → Bytes
codes String.[] = []
codes (String.◌∷◌ c s) = code c ∷ codes s

-- Equality of strings.
unfoldable pub bytes_eq : Bytes → Bytes → Bool
bytes_eq [] [] = true
bytes_eq (x ∷ xs) (y ∷ ys) = x == y && bytes_eq xs ys
bytes_eq _ _ = false

pub bytes_eq_iff : (a b : Bytes) → (bytes_eq a b ≡ true) ↔ (a ≡ b)
unfolding bytes_eq
bytes_eq_iff (x ∷ a) (y ∷ b) = ground (arith, bytes_eq_iff a b)
bytes_eq_iff _ _ = ground arith

-- `<=` of Go strings, byte by byte.
unfoldable pub bytes_le : Bytes → Bytes → Bool
bytes_le [] b = true
bytes_le (x ∷ xs) [] = false
bytes_le (x ∷ xs) (y ∷ ys) = ltb x y || (x == y && bytes_le xs ys)

-- White space of ASCII: tab, newline, vertical tab, form feed, carriage return, space.
unfoldable pub is_space : ℕ → Bool
is_space c = c == b' ' || (leb 9 c && leb c 13)

unfoldable pub trim_left : Bytes → Bytes
unfolding is_space
trim_left [] = []
trim_left (c ∷ cs) = let rest = trim_left cs in if is_space c then rest else c ∷ cs

-- `strings.TrimSpace`
unfoldable pub trim_space : Bytes → Bytes
unfolding trim_left
trim_space s = reverse (trim_left (reverse (trim_left s)))

-- `strings.Join`
unfoldable pub join : Bytes → List Bytes → Bytes
join sep [] = []
join sep (s ∷ []) = s
join sep (s ∷ t ∷ ts) = s ++ (sep ++ join sep (t ∷ ts))

-- `slices.Contains`, and the loops of the source that do the same.
unfoldable pub contains : List Bytes → Bytes → Bool
contains [] target = false
contains (v ∷ vs) target = bytes_eq v target || contains vs target

pub contains_iff : (vs : List Bytes) (v : Bytes) → (contains vs v ≡ true) ↔ In v vs
unfolding contains
contains_iff [] v = ((λ h. cc), (λ h. absurd h))
contains_iff (w ∷ vs) v = (
  (λ h. elim (Bool-cases (bytes_eq w v)) [
    | inl e ↦ inl (sym ((bytes_eq_iff w v).0 e))
    | inr e ↦ inr ((contains_iff vs v).0 (rw e at h))
  ]),
  (λ m. elim m [
    | inl e ↦ rw ((bytes_eq_iff w v).1 (sym e)) refl
    | inr n ↦ elim (Bool-cases (bytes_eq w v)) [
      | inl e ↦ rw e
      | inr e ↦ rw e ((contains_iff vs v).1 n)
    ]
  ]),
)
