-- ===== src/Redact/Listed.antt =====
-- internal/redact/encodings.go: the list that `EncodingsWithDepth` looks at.
use ironrun.Prelude.{
  ℕ, ◌≤◌, ◌≡◌, ◌↔◌, ◌⊎◌, inl, inr, List, [], ◌++◌, leb, In, In-append, In-of_append, Bytes,
  if◌then◌else◌,
}
use ironrun.Redact.Encodings.{wrap_lines}
use ironrun.Redact.Base64.{base64_cores}
use ironrun.Redact.Forms.{
  base64_forms, hex_forms, url_forms, nested_all, wrapped_all, or_none, candidates,
}
use ironrun.Redact.Shapes.{
  IsBase64, IsHex, IsNested, IsForm, base64_forms-IsBase64, hex_forms-IsHex, nested_all_iff,
  wrapped_all_iff, url_forms-IsEscaped, cores_iff, deep_iff, base64, core_of, hex, escaped, json,
  nested, wrapped,
}

both_iff : (s e : Bytes) → In e (base64_forms s ++ hex_forms s) ↔ (IsBase64 s e ⊎ IsHex s e)
both_iff s e = (
  (λ m. elim (In-of_append e (base64_forms s) (hex_forms s) m) [
    | inl a ↦ inl ((base64_forms-IsBase64 s e).0 a)
    | inr b ↦ inr ((hex_forms-IsHex s e).0 b)
  ]),
  λ m. In-append e (base64_forms s) (hex_forms s) (elim m [
    | inl a ↦ inl ((base64_forms-IsBase64 s e).1 a)
    | inr b ↦ inr ((hex_forms-IsHex s e).1 b)
  ]),
)

deeper_iff :
    (s x : Bytes) (depth : ℕ)
    → In x (if leb 2 depth then nested_all (base64_forms s ++ hex_forms s) else [])
      ↔ ((2 ≤ depth) × ((e : Bytes) × (IsBase64 s e ⊎ IsHex s e) × IsNested e x))
deeper_iff s x depth =
    let deep = deep_iff depth (nested_all (base64_forms s ++ hex_forms s)) x in
    let all = nested_all_iff (base64_forms s ++ hex_forms s) x in
    (
      (λ m.
          let (enough, stands) = deep.0 m in
          let (e, of_both, more) = all.0 stands in (enough, (e, (both_iff s e).0 of_both, more))),
      λ (enough, (e, of_both, more)). deep.1 (enough, all.1 (e, (both_iff s e).1 of_both, more)),
    )

wrapping_iff :
    (s x : Bytes)
    → In x (wrapped_all (base64_forms s))
      ↔ ((e : Bytes) × IsBase64 s e × ((x ≡ wrap_lines e 64) ⊎ (x ≡ wrap_lines e 76)))
wrapping_iff s x =
    let all = wrapped_all_iff (base64_forms s) x in
    (
      (λ m. let (e, stands, h) = all.0 m in (e, (base64_forms-IsBase64 s e).0 stands, h)),
      λ (e, k, h). all.1 (e, (base64_forms-IsBase64 s e).1 k, h),
    )

-- The parts of the list of candidates.
abbrev texts : (Bytes → List Bytes) → Bytes → List Bytes
texts json_escapes s = url_forms s ++ json_escapes s

abbrev from_hex : (Bytes → List Bytes) → Bytes → List Bytes
from_hex json_escapes s = hex_forms s ++ texts json_escapes s

abbrev from_cores : (Bytes → List Bytes) → Bytes → List Bytes
from_cores json_escapes s = or_none (base64_cores s) ++ from_hex json_escapes s

abbrev first_level : (Bytes → List Bytes) → Bytes → List Bytes
first_level json_escapes s = base64_forms s ++ from_cores json_escapes s

abbrev second_level : Bytes → ℕ → List Bytes
second_level s depth = if leb 2 depth then nested_all (base64_forms s ++ hex_forms s) else []

module _ (json_escapes : Bytes → List Bytes) (s x : Bytes) (depth : ℕ) where
  listed : In x (candidates json_escapes s depth) → IsForm json_escapes s depth x
  unfolding candidates
  listed m =
      elim (In-of_append x (first_level json_escapes s)
        (second_level s depth ++ wrapped_all (base64_forms s)) m) [
          | inl level1 ↦ elim (In-of_append x (base64_forms s) (from_cores json_escapes s) level1) [
            | inl a ↦ base64 ((base64_forms-IsBase64 s x).0 a)
            | inr m1 ↦
                elim (In-of_append x (or_none (base64_cores s)) (from_hex json_escapes s) m1) [
                  | inl b ↦
                      let (cores, same, stands) = (cores_iff (base64_cores s) x).0 b in
                      core_of cores same stands
                  | inr m2 ↦ elim (In-of_append x (hex_forms s) (texts json_escapes s) m2) [
                    | inl c ↦ hex ((hex_forms-IsHex s x).0 c)
                    | inr m3 ↦ elim (In-of_append x (url_forms s) (json_escapes s) m3) [
                      | inl d ↦ let (e, k, h) = (url_forms-IsEscaped s x).0 d in escaped e k h
                      | inr f ↦ json f
                    ]
                  ]
                ]
          ]
          | inr more ↦
              elim (In-of_append x (second_level s depth) (wrapped_all (base64_forms s)) more) [
                | inl a ↦
                    let (enough, (e, of_both, h)) = (deeper_iff s x depth).0 a in
                    nested e enough of_both h
                | inr b ↦ let (e, k, h) = (wrapping_iff s x).0 b in wrapped e k h
              ]
        ]

  level1_In :
      In x (base64_forms s)
        ⊎ (In x (or_none (base64_cores s))
            ⊎ (In x (hex_forms s) ⊎ (In x (url_forms s) ⊎ In x (json_escapes s))))
      → In x (candidates json_escapes s depth)
  unfolding candidates
  level1_In m =
      In-append x (first_level json_escapes s)
        (second_level s depth ++ wrapped_all (base64_forms s))
        (inl (
          In-append x (base64_forms s) (from_cores json_escapes s) (elim m [
            | inl a ↦ inl a
            | inr m1 ↦ inr (
                In-append x (or_none (base64_cores s)) (from_hex json_escapes s) (elim m1 [
                  | inl b ↦ inl b
                  | inr m2 ↦ inr (
                      In-append x (hex_forms s) (texts json_escapes s) (elim m2 [
                        | inl c ↦ inl c
                        | inr m3 ↦ inr (In-append x (url_forms s) (json_escapes s) m3)
                      ]))
                ]))
          ])))

  more_In :
      In x (if leb 2 depth then nested_all (base64_forms s ++ hex_forms s) else [])
        ⊎ In x (wrapped_all (base64_forms s))
      → In x (candidates json_escapes s depth)
  unfolding candidates
  more_In m =
      In-append x (first_level json_escapes s)
        (second_level s depth ++ wrapped_all (base64_forms s))
        (inr (In-append x (second_level s depth) (wrapped_all (base64_forms s)) m))

  form_In : IsForm json_escapes s depth x → In x (candidates json_escapes s depth)
  form_In (base64 k) = level1_In (inl ((base64_forms-IsBase64 s x).1 k))
  form_In (core_of cores same m) =
      level1_In (inr (inl ((cores_iff (base64_cores s) x).1 (cores, same, m))))
  form_In (hex k) = level1_In (inr (inr (inl ((hex_forms-IsHex s x).1 k))))
  form_In (escaped e k h) =
      level1_In (inr (inr (inr (inl ((url_forms-IsEscaped s x).1 (e, k, h))))))
  form_In (json m) = level1_In (inr (inr (inr (inr m))))
  form_In (nested e enough k h) = more_In (inl ((deeper_iff s x depth).1 (enough, (e, k, h))))
  form_In (wrapped e k h) = more_In (inr ((wrapping_iff s x).1 (e, k, h)))

  pub candidates_iff : In x (candidates json_escapes s depth) ↔ IsForm json_escapes s depth x
  candidates_iff = (listed, form_In)
