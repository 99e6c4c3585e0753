-- ===== src/Redact/Base64.antt =====
-- internal/redact/encodings.go: `Base64Cores`, with `EncodeToString` of the unpadded encodings of
-- encoding/base64, whose alphabet is an argument.
use ironrun.Prelude.{
  Option, none, some, leb, ◌&&◌, ℕ, zero, suc, ◌+◌, ◌-◌, ◌*◌, ◌/◌, ◌%◌, List, [], ◌∷◌, ◌++◌, ltb,
  ◌==◌, if◌then◌else◌, length, take, drop, Bytes,
}

-- `EncodeToString`: three bytes are four characters; the rest of one or two bytes is two or three.
unfoldable pub encode : (ℕ → ℕ) → Bytes → Bytes
encode alphabet [] = []
encode alphabet (x ∷ []) = alphabet (x / 4) ∷ alphabet ((x % 4) * 16) ∷ []
encode alphabet (x ∷ y ∷ []) =
    alphabet (x / 4) ∷ alphabet ((x % 4) * 16 + y / 16) ∷ alphabet ((y % 16) * 4) ∷ []
encode alphabet (x ∷ y ∷ z ∷ rest) =
    alphabet (x / 4)
    ∷ alphabet ((x % 4) * 16 + y / 16)
    ∷ alphabet ((y % 16) * 4 + z / 64)
    ∷ alphabet (z % 64)
    ∷ encode alphabet rest

-- Letters, digits, and the last two characters.
unfoldable pub character : ℕ → ℕ → ℕ → ℕ
character c62 c63 n =
    if ltb n 26
    then b'A' + n
    else if ltb n 52
    then b'a' + (n - 26)
    else if ltb n 62
    then b'0' + (n - 52)
    else if n == 62
    then c62
    else c63

unfoldable pub std_alphabet : ℕ → ℕ
std_alphabet = character b'+' b'/'

unfoldable pub url_alphabet : ℕ → ℕ
url_alphabet = character b'-' b'_'

unfoldable pub zeros : ℕ → Bytes
zeros zero = []
zeros (suc k) = 0 ∷ zeros k

-- `text[start:end]`; `none` is the panic of bounds that are out of range.
unfoldable pub slice : ℕ → ℕ → Bytes → Option Bytes
slice start end text =
    if leb start end && leb end (length text)
    then some (take (end - start) (drop start text))
    else none

-- `enc.EncodeToString(padded)[start:end]` for k bytes of padding.
unfoldable pub core : (ℕ → ℕ) → ℕ → Bytes → Option Bytes
unfolding encode zeros slice
core alphabet k secret =
    slice ((8 * k + 5) / 6) (8 * (k + length secret) / 6) (encode alphabet (zeros k ++ secret))

-- All of the parts, unless one of them panics.
unfoldable pub all_parts : List (Option Bytes) → Option (List Bytes)
all_parts [] = some []
all_parts (none ∷ more) = none
all_parts (some c ∷ more) = elim (all_parts more) [ none ↦ none | some cs ↦ some (c ∷ cs) ]

unfoldable pub base64_cores : Bytes → Option (List Bytes)
unfolding core std_alphabet url_alphabet all_parts
base64_cores secret = all_parts (
    core std_alphabet 0 secret
    ∷ core url_alphabet 0 secret
    ∷ core std_alphabet 1 secret
    ∷ core url_alphabet 1 secret
    ∷ core std_alphabet 2 secret
    ∷ core url_alphabet 2 secret
    ∷ [])
