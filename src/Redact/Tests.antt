-- ===== src/Redact/Tests.antt =====
-- internal/redact/redact.go: runs of the writer, and its theorems at concrete texts.
use ironrun.Prelude.{
  ◌<◌, some, none, zero, ◌≡◌, ◌≢◌, refl, inl, inr, false, List, [], ◌∷◌, ◌++◌, arith, length, Bytes,
  codes, bytes_eq, join, In, ◌≤◌,
}
use ironrun.Redact.Base64.{core, slice, encode, character, base64_cores, std_alphabet, url_alphabet}
use ironrun.Redact.Cores.{Within, base64_cores_stand}
use ironrun.Redact.Encodings.{has_index, percent_encode, lower_pct_escapes, wrap_lines}
use ironrun.Redact.Escapes.{percent_decode, concat, Filled, escapes_decode, wrap_lines_keeps}
use ironrun.Redact.Match.{is_flex_gap, match_flex, has_prefix, gather, extend, proj, flex_span_cap}
use ironrun.Redact.Index.{match_at, reindex}
use ironrun.Redact.Writer.{Output, Writer, new, seek, hold_back, emit, round, scan, write, flush}
use ironrun.Redact.Pieces.{pieces, literals}
use ironrun.Redact.Stream.{IsReliable}
use ironrun.Redact.Refines.{joined, Delivers, stream, stream-eq-pieces}
use ironrun.Redact.Bounds.{IsCounting, IsCapped, write-IsCapped}
use ironrun.Redact.Safety.{no_secret_survives, no_gapped_secret_survives, no_fragment_survives}

-- `bytes.Buffer`.
instance abbrev buffer : Output Bytes
buffer = record { put = λ s d. (s ++ d, length d, false) }

abbrev buffer-IsReliable : IsReliable buffer
buffer-IsReliable = record {
  view = λ s. s;
  view_put = λ s d. refl;
  count_put = λ s d. refl;
  put_succeeds = λ s d. refl;
}

abbrev secrets : List Bytes
secrets = codes "hunter2" ∷ codes "sk-0123456789abcdefghijklmn" ∷ []

abbrev sent : List Bytes → Bytes
sent chunks = (stream chunks (new [] secrets 0)).0.out

split_secret : sent (codes "pw=hun" ∷ codes "ter2;" ∷ []) ≡ codes "pw=[REDACTED];"
unfolding new stream match_at seek hold_back emit round scan write flush match_flex has_prefix
    reindex proj gather extend is_flex_gap flex_span_cap bytes_eq
split_secret = refl

gapped_secret : sent (codes "a h u n t e r 2 b" ∷ []) ≡ codes "a [REDACTED] b"
unfolding new stream match_at seek hold_back emit round scan write flush match_flex has_prefix
    reindex proj gather extend is_flex_gap flex_span_cap bytes_eq
gapped_secret = refl

fragment : sent (codes "x 56789abcdefgh y" ∷ []) ≡ codes "x [REDACTED] y"
unfolding new stream match_at seek hold_back emit round scan write flush match_flex has_prefix
    reindex proj gather extend is_flex_gap flex_span_cap bytes_eq
fragment = refl

abbrev buffer-IsCounting : IsCounting buffer
buffer-IsCounting = record { count_le = λ s d. omega arith }

abbrev chunks : List Bytes
chunks = codes "pw=hun" ∷ codes "ter2;" ∷ []

stream-eq-pieces_example :
    Delivers buffer-IsReliable
      (new {Sink = Bytes} [] secrets 9).index
      9
      (joined chunks)
      (stream chunks (new {Sink = Bytes} [] secrets 9))
stream-eq-pieces_example = stream-eq-pieces buffer-IsReliable [] secrets chunks 9 refl

abbrev assignment : Bytes
assignment = codes "pw=hunter2"

no_secret_survives_example :
    pieces (new {Sink = Bytes} [] secrets 0).index zero assignment
    ≢ literals (codes "pw=") ++ (literals (codes "hunter2") ++ [])
no_secret_survives_example =
    no_secret_survives {Sink = Bytes} [] secrets 0 assignment (codes "hunter2")
      (literals (codes "pw=")) [] (inl refl) (omega arith)

abbrev spaced : Bytes
spaced = codes "a h u n t e r 2 b"

no_gapped_secret_survives_example :
    pieces (new {Sink = Bytes} [] secrets 0).index zero spaced
    ≢ literals (codes "a ") ++ (literals (codes "h u n t e r 2") ++ literals (codes " b"))
unfolding is_flex_gap proj
no_gapped_secret_survives_example =
    no_gapped_secret_survives {Sink = Bytes} [] secrets 0 spaced (codes "hunter2") b'h'
      (codes " u n t e r 2") (literals (codes "a ")) (literals (codes " b")) (inl refl) refl refl
      (omega arith)

abbrev partial : Bytes
partial = codes "x 56789abcdefg"

no_fragment_survives_example :
    pieces (new {Sink = Bytes} [] secrets 0).index zero partial
    ≢ literals (codes "x ") ++ (literals (codes "56789abcdefg") ++ [])
unfolding is_flex_gap proj
no_fragment_survives_example =
    no_fragment_survives {Sink = Bytes} [] secrets 0 partial (codes "sk-0123456789abcdefghijklmn") 8
      b'5' (codes "6789abcdefg") (literals (codes "x ")) [] (inr (inl refl)) (omega arith)
      (omega arith) (omega arith) refl refl (omega arith)

write-IsCapped_example : IsCapped buffer-IsCounting 9 (write assignment (new [] secrets 9)).0
unfolding new
write-IsCapped_example =
    write-IsCapped buffer-IsCounting 9 assignment (new [] secrets 9) (omega arith)
      (refl, omega arith)

abbrev waiting : Writer Bytes
waiting = (write assignment (new [] secrets 9)).0

slash_text : percent_encode [] (codes "a/b") ≡ codes "a%2Fb"
unfolding percent_encode
slash_text = refl

wrapped_text : wrap_lines (codes "abcde") 2 ≡ codes "ab\ncd\ne"
unfolding wrap_lines join
wrapped_text = refl

no_percent : has_index [] b'%' ≡ false
unfolding has_index
no_percent = refl

escapes_decode_example :
    (percent_decode (percent_encode [] (codes "a/b")) ≡ codes "a/b")
    × (percent_decode (lower_pct_escapes (percent_encode [] (codes "a/b"))) ≡ codes "a/b")
escapes_decode_example =
    escapes_decode [] (codes "a/b") no_percent (omega arith, (omega arith, (omega arith, tt)))

wrap_lines_keeps_example :
    (length (codes "abcde") ≤ 2 → wrap_lines (codes "abcde") 2 ≡ codes "abcde")
    × (2 < length (codes "abcde")
        → (lines : List Bytes) × (wrap_lines (codes "abcde") 2 ≡ join (codes "\n") lines)
          × (concat lines ≡ codes "abcde")
          × Filled 2 lines)
wrap_lines_keeps_example = wrap_lines_keeps (codes "abcde") 2 (omega arith)

basic_auth : encode std_alphabet (codes "user:token") ≡ codes "dXNlcjp0b2tlbg"
unfolding encode std_alphabet character
basic_auth = refl

base64_cores_stand_example :
    (cores : List Bytes) × (base64_cores (codes "token") ≡ some cores)
    × ((c : Bytes) × In c cores
        × Within c (encode std_alphabet (codes "user:" ++ (codes "token" ++ codes "\n"))))
    × ((c : Bytes) × In c cores
        × Within c (encode url_alphabet (codes "user:" ++ (codes "token" ++ codes "\n"))))
base64_cores_stand_example =
    base64_cores_stand (codes "user:") (codes "token") (codes "\n") (λ e. cc)

-- The slice of the empty secret is out of range.
empty_panics : base64_cores [] ≡ none
unfolding base64_cores core slice
empty_panics = refl
