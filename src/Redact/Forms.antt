-- ===== src/Redact/Forms.antt =====
-- internal/redact/encodings.go: `EncodingsWithDepth`. `JSONEscapes` is an argument: what encoding/json
-- writes for a text.
use ironrun.Prelude.{
  Option, none, some, ℕ, ◌+◌, ◌-◌, ◌/◌, ◌%◌, ◌&&◌, ◌||◌, List, [], ◌∷◌, ◌++◌, ltb, leb, ◌==◌,
  if◌then◌else◌, map, length, Bytes, codes, contains,
}
use ironrun.Redact.Encodings.{hex_up, is_kept, percent_encode, lower_pct_escapes, wrap_lines}
use ironrun.Redact.Base64.{encode, std_alphabet, url_alphabet, base64_cores}

-- `hex.EncodeToString`
unfoldable pub hex_low : ℕ → ℕ
hex_low n = if ltb n 10 then b'0' + n else b'a' + (n - 10)

unfoldable pub hex_encode : Bytes → Bytes
unfolding hex_low
hex_encode [] = []
hex_encode (c ∷ s) = hex_low (c / 16) ∷ hex_low (c % 16) ∷ hex_encode s

-- `strings.ToUpper`, of ASCII.
unfoldable pub upper : ℕ → ℕ
upper c = if leb b'a' c && leb c b'z' then c - 32 else c

-- `url.QueryEscape`: a space is a plus sign.
unfoldable pub query_escape : Bytes → Bytes
unfolding is_kept hex_up
query_escape [] = []
query_escape (c ∷ s) =
    let rest = query_escape s in
    if is_kept [] c
    then c ∷ rest
    else if c == b' '
    then b'+' ∷ rest
    else b'%' ∷ hex_up (c / 16) ∷ hex_up (c % 16) ∷ rest

-- `url.PathEscape`, for one segment of a path.
unfoldable pub path_escape : Bytes → Bytes
path_escape = percent_encode (codes "$&+=:@")

-- The padded encodings of encoding/base64.
unfoldable pub padding : Bytes → Bytes
padding [] = []
padding (x ∷ []) = codes "=="
padding (x ∷ y ∷ []) = codes "="
padding (x ∷ y ∷ z ∷ s) = padding s

unfoldable pub encode_padded : (ℕ → ℕ) → Bytes → Bytes
unfolding padding
encode_padded alphabet s = encode alphabet s ++ padding s

unfoldable pub base64_forms : Bytes → List Bytes
unfolding encode_padded
base64_forms s =
    encode_padded std_alphabet s
    ∷ encode std_alphabet s
    ∷ encode_padded url_alphabet s
    ∷ encode url_alphabet s
    ∷ []

unfoldable pub hex_forms : Bytes → List Bytes
unfolding hex_encode upper
hex_forms s = hex_encode s ∷ map upper (hex_encode s) ∷ []

-- Each form, and the same with lower-case escapes.
unfoldable pub with_lower : List Bytes → List Bytes
with_lower [] = []
with_lower (e ∷ es) = e ∷ lower_pct_escapes e ∷ with_lower es

unfoldable pub url_forms : Bytes → List Bytes
unfolding query_escape path_escape with_lower
url_forms s =
    let q = query_escape s in
    let p = path_escape s in
    let strict = percent_encode [] s in
    let script = percent_encode (codes "!*'()") s in
    let quoted = percent_encode (codes "/") s in with_lower (q ∷ p ∷ strict ∷ script ∷ quoted ∷ [])

unfoldable pub derive_nested : Bytes → List Bytes
unfolding encode_padded hex_encode query_escape
derive_nested encoded =
    let q = query_escape encoded in
    encode_padded std_alphabet encoded
    ∷ encode_padded url_alphabet encoded
    ∷ hex_encode encoded
    ∷ q
    ∷ lower_pct_escapes q
    ∷ []

unfoldable pub nested_all : List Bytes → List Bytes
unfolding derive_nested
nested_all [] = []
nested_all (l ∷ ls) = derive_nested l ++ nested_all ls

unfoldable pub wrapped_all : List Bytes → List Bytes
wrapped_all [] = []
wrapped_all (b ∷ bs) = wrap_lines b 64 ∷ wrap_lines b 76 ∷ wrapped_all bs

-- `Base64Cores` is called for a secret that is not empty, where it does not panic.
abbrev pub or_none : Option (List Bytes) → List Bytes
or_none none = []
or_none (some cores) = cores

unfoldable pub candidates : (Bytes → List Bytes) → Bytes → ℕ → List Bytes
unfolding base64_forms hex_forms url_forms nested_all wrapped_all
candidates json_escapes secret depth =
    let b64 = base64_forms secret in
    let hex = hex_forms secret in
    let level1 =
      b64
      ++ (or_none (base64_cores secret) ++ (hex ++ (url_forms secret ++ json_escapes secret))) in
    level1 ++ ((if leb 2 depth then nested_all (b64 ++ hex) else []) ++ wrapped_all b64)

-- The last loop, with what it has seen.
unfoldable pub new_forms : ℕ → List Bytes → List Bytes → List Bytes
new_forms min_len seen [] = []
new_forms min_len seen (c ∷ cs) =
    let skipped = new_forms min_len seen cs in
    let kept = new_forms min_len (c ∷ seen) cs in
    if ltb (length c) min_len || contains seen c then skipped else c ∷ kept

unfoldable pub encodings_with_depth : (Bytes → List Bytes) → Bytes → ℕ → ℕ → List Bytes
unfolding candidates new_forms
encodings_with_depth json_escapes [] min_len depth = []
encodings_with_depth json_escapes (c ∷ cs) min_len depth =
    new_forms min_len ((c ∷ cs) ∷ []) (candidates json_escapes (c ∷ cs) depth)

unfoldable pub encodings : (Bytes → List Bytes) → Bytes → ℕ → List Bytes
unfolding encodings_with_depth
encodings json_escapes secret min_len = encodings_with_depth json_escapes secret min_len 2
