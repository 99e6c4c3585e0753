-- ===== src/Runner/Values.antt =====
-- internal/runner/runner.go: the values that `Run` registers with the redactors. The JSON forms of a
-- value are an argument, as in `EncodingsWithDepth`.
use ironrun.Prelude.{ℕ, List, [], ◌∷◌, ◌++◌, ltb, leb, if◌then◌else◌, length, Bytes, bytes_eq}
use ironrun.Redact.Forms.{encodings}

abbrev pub min_redactable_secret_len : ℕ
min_redactable_secret_len = 4

abbrev pub min_encodable_len : ℕ
min_encodable_len = 8

-- One value that is long enough, with its encodings when it is long enough for these.
unfoldable pub with_encodings : (Bytes → List Bytes) → Bytes → List Bytes
with_encodings json_escapes v =
    v
    ∷ (if leb min_encodable_len (length v) then encodings json_escapes v min_encodable_len else [])

unfoldable pub injected_values : (Bytes → List Bytes) → List (Bytes × Bytes) → List Bytes
unfolding with_encodings
injected_values json_escapes [] = []
injected_values json_escapes ((name, v) ∷ secrets) =
    let more = injected_values json_escapes secrets in
    if bytes_eq v []
    then more
    else if ltb (length v) min_redactable_secret_len
    then more
    else with_encodings json_escapes v ++ more

unfoldable pub redact_values : (Bytes → List Bytes) → List Bytes → List Bytes
unfolding with_encodings
redact_values json_escapes [] = []
redact_values json_escapes (v ∷ values) =
    let more = redact_values json_escapes values in
    if leb min_redactable_secret_len (length v) then with_encodings json_escapes v ++ more else more

unfoldable pub secret_values : (Bytes → List Bytes) → List (Bytes × Bytes) → List Bytes → List Bytes
unfolding injected_values redact_values
secret_values json_escapes secrets values =
    injected_values json_escapes secrets ++ redact_values json_escapes values
