-- ===== src/Redact/Shapes.antt =====
-- internal/redact/encodings.go: the forms of a secret, and which of its lists hold which.
use ironrun.Prelude.{
  ℕ, ◌≤◌, ◌≡◌, refl, ap, ◌∙◌, subst, ◌↔◌, ◌⊎◌, inl, inr, List, [], ◌∷◌, some, none, Option, leb,
  map, In, In-append, In-of_append, Bool-cases, Bytes, codes, if◌then◌else◌, arith,
}
use ironrun.Redact.Encodings.{percent_encode, lower_pct_escapes, wrap_lines}
use ironrun.Redact.Base64.{encode, std_alphabet, url_alphabet, base64_cores}
use ironrun.Redact.Forms.{
  hex_encode, upper, query_escape, path_escape, encode_padded, base64_forms, hex_forms, with_lower,
  url_forms, derive_nested, nested_all, wrapped_all, or_none,
}

-- The base64 of a text, padded or not, in both alphabets.
pub data IsBase64 (s x : Bytes) : Type 0 where
  std_padded : x ≡ encode_padded std_alphabet s → IsBase64 s x
  std_bare : x ≡ encode std_alphabet s → IsBase64 s x
  url_padded : x ≡ encode_padded url_alphabet s → IsBase64 s x
  url_bare : x ≡ encode url_alphabet s → IsBase64 s x

pub data IsHex (s x : Bytes) : Type 0 where
  hex_lower : x ≡ hex_encode s → IsHex s x
  hex_upper : x ≡ map upper (hex_encode s) → IsHex s x

-- The escapes of net/url, of RFC 3986, of JavaScript and of a path in Python.
pub data IsEscaped (s x : Bytes) : Type 0 where
  query : x ≡ query_escape s → IsEscaped s x
  path : x ≡ path_escape s → IsEscaped s x
  strict : x ≡ percent_encode [] s → IsEscaped s x
  script : x ≡ percent_encode (codes "!*'()") s → IsEscaped s x
  quoted : x ≡ percent_encode (codes "/") s → IsEscaped s x

-- What is encoded once more.
pub data IsNested (e x : Bytes) : Type 0 where
  in_std : x ≡ encode_padded std_alphabet e → IsNested e x
  in_url : x ≡ encode_padded url_alphabet e → IsNested e x
  in_hex : x ≡ hex_encode e → IsNested e x
  in_query : x ≡ query_escape e → IsNested e x
  in_lower : x ≡ lower_pct_escapes (query_escape e) → IsNested e x

-- The forms of a secret, for the rendering of JSON and the depth.
pub data IsForm (json_escapes : Bytes → List Bytes) (s : Bytes) (depth : ℕ) (x : Bytes)
    : Type 0 where
  base64 : IsBase64 s x → IsForm json_escapes s depth x
  core_of :
      (cores : List Bytes)
      → base64_cores s ≡ some cores
      → In x cores
      → IsForm json_escapes s depth x
  hex : IsHex s x → IsForm json_escapes s depth x
  escaped :
      (e : Bytes)
      → IsEscaped s e
      → (x ≡ e) ⊎ (x ≡ lower_pct_escapes e)
      → IsForm json_escapes s depth x
  json : In x (json_escapes s) → IsForm json_escapes s depth x
  nested :
      (e : Bytes)
      → 2 ≤ depth
      → IsBase64 s e ⊎ IsHex s e
      → IsNested e x
      → IsForm json_escapes s depth x
  wrapped :
      (e : Bytes)
      → IsBase64 s e
      → (x ≡ wrap_lines e 64) ⊎ (x ≡ wrap_lines e 76)
      → IsForm json_escapes s depth x

pub base64_forms-IsBase64 : (s x : Bytes) → In x (base64_forms s) ↔ IsBase64 s x
unfolding base64_forms
base64_forms-IsBase64 s x = (
  (λ m. elim m [
    | inl a ↦ std_padded a
    | inr (inl b) ↦ std_bare b
    | inr (inr (inl c)) ↦ url_padded c
    | inr (inr (inr (inl d))) ↦ url_bare d
    | inr (inr (inr (inr n))) ↦ absurd n
  ]),
  λ m. elim m [
    | std_padded a ↦ inl a
    | std_bare b ↦ inr (inl b)
    | url_padded c ↦ inr (inr (inl c))
    | url_bare d ↦ inr (inr (inr (inl d)))
  ],
)

pub hex_forms-IsHex : (s x : Bytes) → In x (hex_forms s) ↔ IsHex s x
unfolding hex_forms
hex_forms-IsHex s x = (
  (λ m. elim m [ inl a ↦ hex_lower a | inr (inl b) ↦ hex_upper b | inr (inr n) ↦ absurd n ]),
  λ m. elim m [ hex_lower a ↦ inl a | hex_upper b ↦ inr (inl b) ],
)

derive_nested-IsNested : (e x : Bytes) → In x (derive_nested e) ↔ IsNested e x
unfolding derive_nested
derive_nested-IsNested e x = (
  (λ m. elim m [
    | inl a ↦ in_std a
    | inr (inl b) ↦ in_url b
    | inr (inr (inl c)) ↦ in_hex c
    | inr (inr (inr (inl d))) ↦ in_query d
    | inr (inr (inr (inr (inl f)))) ↦ in_lower f
    | inr (inr (inr (inr (inr n)))) ↦ absurd n
  ]),
  λ m. elim m [
    | in_std a ↦ inl a
    | in_url b ↦ inr (inl b)
    | in_hex c ↦ inr (inr (inl c))
    | in_query d ↦ inr (inr (inr (inl d)))
    | in_lower f ↦ inr (inr (inr (inr (inl f))))
  ],
)

-- Membership in what is made of each member.
with_lower_iff :
    (es : List Bytes) (x : Bytes)
    → In x (with_lower es) ↔ ((e : Bytes) × In e es × ((x ≡ e) ⊎ (x ≡ lower_pct_escapes e)))
unfolding with_lower
with_lower_iff [] x = ((λ m. absurd m), λ (e, m, h). absurd m)
with_lower_iff (e ∷ es) x =
    let rest = with_lower_iff es x in
    (
      (λ m. elim m [
        | inl a ↦ (e, inl refl, inl a)
        | inr (inl b) ↦ (e, inl refl, inr b)
        | inr (inr n) ↦ let (f, stands, h) = rest.0 n in (f, inr stands, h)
      ]),
      λ (f, stands, h). elim stands [
        | inl same ↦ elim h [
          | inl a ↦ inl (a ∙ same)
          | inr b ↦ inr (inl (b ∙ ap lower_pct_escapes same))
        ]
        | inr later ↦ inr (inr (rest.1 (f, later, h)))
      ],
    )

pub nested_all_iff :
    (es : List Bytes) (x : Bytes) → In x (nested_all es) ↔ ((e : Bytes) × In e es × IsNested e x)
unfolding nested_all
nested_all_iff [] x = ((λ m. absurd m), λ (e, m, h). absurd m)
nested_all_iff (e ∷ es) x =
    let rest = nested_all_iff es x in
    (
      (λ m. elim (In-of_append x (derive_nested e) (nested_all es) m) [
        | inl a ↦ (e, inl refl, (derive_nested-IsNested e x).0 a)
        | inr n ↦ let (f, stands, h) = rest.0 n in (f, inr stands, h)
      ]),
      λ (f, stands, h). In-append x (derive_nested e) (nested_all es) (elim stands [
        | inl same ↦ inl ((derive_nested-IsNested e x).1 (subst (λ g. IsNested g x) same h))
        | inr later ↦ inr (rest.1 (f, later, h))
      ]),
    )

pub wrapped_all_iff :
    (es : List Bytes) (x : Bytes)
    → In x (wrapped_all es)
      ↔ ((e : Bytes) × In e es × ((x ≡ wrap_lines e 64) ⊎ (x ≡ wrap_lines e 76)))
unfolding wrapped_all
wrapped_all_iff [] x = ((λ m. absurd m), λ (e, m, h). absurd m)
wrapped_all_iff (e ∷ es) x =
    let rest = wrapped_all_iff es x in
    (
      (λ m. elim m [
        | inl a ↦ (e, inl refl, inl a)
        | inr (inl b) ↦ (e, inl refl, inr b)
        | inr (inr n) ↦ let (f, stands, h) = rest.0 n in (f, inr stands, h)
      ]),
      λ (f, stands, h). elim stands [
        | inl same ↦ elim h [
          | inl a ↦ inl (a ∙ ap (λ g. wrap_lines g 64) same)
          | inr b ↦ inr (inl (b ∙ ap (λ g. wrap_lines g 76) same))
        ]
        | inr later ↦ inr (inr (rest.1 (f, later, h)))
      ],
    )

-- The list that the loop of `EncodingsWithDepth` runs over.
abbrev escapes : Bytes → List Bytes
escapes s =
    query_escape s
    ∷ path_escape s
    ∷ percent_encode [] s
    ∷ percent_encode (codes "!*'()") s
    ∷ percent_encode (codes "/") s
    ∷ []

escapes-IsEscaped : (s e : Bytes) → In e (escapes s) → IsEscaped s e
escapes-IsEscaped s e (inl a) = query a
escapes-IsEscaped s e (inr (inl b)) = path b
escapes-IsEscaped s e (inr (inr (inl c))) = strict c
escapes-IsEscaped s e (inr (inr (inr (inl d)))) = script d
escapes-IsEscaped s e (inr (inr (inr (inr (inl f))))) = quoted f
escapes-IsEscaped s e (inr (inr (inr (inr (inr n))))) = absurd n

IsEscaped-escapes : (s e : Bytes) → IsEscaped s e → In e (escapes s)
IsEscaped-escapes s e (query a) = inl a
IsEscaped-escapes s e (path b) = inr (inl b)
IsEscaped-escapes s e (strict c) = inr (inr (inl c))
IsEscaped-escapes s e (script d) = inr (inr (inr (inl d)))
IsEscaped-escapes s e (quoted f) = inr (inr (inr (inr (inl f))))

pub url_forms-IsEscaped :
    (s x : Bytes)
    → In x (url_forms s) ↔ ((e : Bytes) × IsEscaped s e × ((x ≡ e) ⊎ (x ≡ lower_pct_escapes e)))
unfolding url_forms
url_forms-IsEscaped s x =
    let all = with_lower_iff (escapes s) x in
    (
      (λ m. let (e, stands, h) = all.0 m in (e, escapes-IsEscaped s e stands, h)),
      λ (e, k, h). all.1 (e, IsEscaped-escapes s e k, h),
    )

pub cores_iff :
    (o : Option (List Bytes)) (x : Bytes)
    → In x (or_none o) ↔ ((cores : List Bytes) × (o ≡ some cores) × In x cores)
cores_iff none x = ((λ m. absurd m), λ (cores, same, m). cc)
cores_iff (some cores) x = (
  (λ m. (cores, refl, m)),
  λ (other, same, m). let back : other ≡ cores = cc in subst (In x) back m,
)

pub deep_iff :
    (depth : ℕ) (es : List Bytes) (x : Bytes)
    → In x (if leb 2 depth then es else []) ↔ ((2 ≤ depth) × In x es)
deep_iff depth es x = elim (Bool-cases (leb 2 depth)) [
  | inl deep ↦ rw deep ((λ m. (ground arith, m)), λ h. h.1)
  | inr flat ↦ rw flat ((λ m. absurd m), λ h. absurd (ground arith))
]
