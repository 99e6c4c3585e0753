-- ===== src/Redact/Writer.antt =====
-- internal/redact/redact.go: `Writer`, its constructor and its methods. The underlying
-- `io.Writer` is an instance argument. The mutex makes each method one step; the byte counters
-- are below 2^63, so `int64` does not wrap. Copying `buf` into a smaller array keeps its bytes.
use ironrun.Prelude.{
  ℕ, zero, suc, ◌+◌, ◌-◌, Bool, true, false, List, [], ◌∷◌, ◌++◌, ltb, leb, if◌then◌else◌, length,
  take, drop, Bytes,
}
use ironrun.Redact.Match.{placeholder}
use ironrun.Redact.Index.{Index, reindex, match_at}

-- `io.Writer`: the new state, the number of bytes taken, and whether an error is returned.
pub record Output (Sink : Type 0) : Type 0 where
  pub put : Sink → Bytes → Sink × ℕ × Bool

pub record Writer (Sink : Type 0) : Type 0 where
  pub out : Sink
  pub index : Index
  pub buf : Bytes
  pub written : ℕ
  pub max_out : ℕ
  pub redactions : ℕ

abbrev pub no_index : Index
no_index = record { secrets = []; max_len = 0; max_span = 0; by_first = λ _. []; fragments = [] }

unfoldable pub non_empty : List Bytes → List Bytes
non_empty [] = []
non_empty (s ∷ ss) = let rest = non_empty ss in if ltb 0 (length s) then s ∷ rest else rest

abbrev pub with_secrets : List Bytes → Index
with_secrets ss = record no_index { secrets = ss }

unfoldable pub new : {Sink : Type 0} → Sink → List Bytes → ℕ → Writer Sink
unfolding non_empty
new out secrets max_out = record {
  out = out;
  index = reindex (with_secrets (non_empty secrets));
  buf = [];
  written = 0;
  max_out = max_out;
  redactions = 0;
}

unfoldable pub add_secret : {Sink : Type 0} → Bytes → Writer Sink → Writer Sink
add_secret [] w = w
add_secret (c ∷ cs) w = record w {
  index = reindex (record w.index { secrets = w.index.secrets ++ (c ∷ cs) ∷ [] });
}

-- The inner loop of `scan`: from the current position, with `rounds` positions to try, how many
-- bytes are passed over, and how many the first match takes (0 if there is none).
unfoldable pub seek : Index → ℕ → Bytes → ℕ × ℕ
seek ix zero buf = (0, 0)
seek ix (suc rounds) [] = (0, 0)
seek ix (suc rounds) (b ∷ bs) =
    let n = match_at ix (b ∷ bs) in
    let later = seek ix rounds bs in if ltb 0 n then (0, n) else (suc later.0, later.1)

unfoldable pub hold_back : Bool → Index → ℕ
hold_back final ix = if final then 0 else if ltb 1 ix.max_span then ix.max_span - 1 else 0

module _ {Sink : Type 0} ⦃o : Output Sink⦄ where
  -- `w.out.Write(data)` behind the cap: the state, and whether an error is returned.
  unfoldable pub put_counted : Writer Sink → Bytes → Writer Sink × Bool
  put_counted w piece =
      let sent = o.put w.out piece in
      (record w { out = sent.0; written = w.written + sent.1 }, sent.2)

  unfoldable pub emit : Writer Sink → Bytes → Writer Sink × Bool
  unfolding put_counted
  emit w [] = (w, false)
  emit w (b ∷ bs) =
      let piece = b ∷ bs in
      let remaining = w.max_out - w.written in
      if ltb 0 w.max_out
      then if leb remaining 0
        then (w, false)
        else put_counted w (if ltb remaining (length piece) then take remaining piece else piece)
      else put_counted w piece

  -- One round of the outer loop, from what `seek` found: the bytes before the match, then the
  -- placeholder; the flag says whether the loop goes on, which it does after a match only.
  unfoldable pub after_literals : ℕ → ℕ → Writer Sink × Bool → Writer Sink × Bool × Bool
  after_literals safe n (w, true) = (w, true, false)
  after_literals safe n (w, false) = (record w { buf = drop safe w.buf }, false, true)

  unfoldable pub after_placeholder : ℕ → Writer Sink × Bool → Writer Sink × Bool × Bool
  after_placeholder n (w, true) = (w, true, false)
  after_placeholder n (w, false) =
      (record w { buf = drop n w.buf; redactions = w.redactions + 1 }, false, true)

  unfoldable pub replace : ℕ → Writer Sink × Bool × Bool → Writer Sink × Bool × Bool
  unfolding after_placeholder
  replace n (w, failed, false) = (w, failed, false)
  replace zero (w, failed, true) = (w, failed, false)
  replace (suc n) (w, failed, true) = after_placeholder (suc n) (emit w placeholder)

  unfoldable pub round : Writer Sink → ℕ × ℕ → Writer Sink × Bool × Bool
  unfolding after_literals replace
  round w (safe, n) = replace n (after_literals safe n (emit w (take safe w.buf)))

  -- The outer loop: the new state and whether an error is returned. Each round but the last
  -- takes a match off `buf`, so `length buf` rounds and one are enough.
  unfoldable pub scan : ℕ → Bool → Writer Sink → Writer Sink × Bool
  scan zero final w = (w, false)
  scan (suc fuel) final w =
      let hold = hold_back final w.index in
      let (w', failed, more) = round w (seek w.index (length w.buf - hold) w.buf) in
      let rest = scan fuel final w' in
      if leb (length w.buf) hold then (w, false) else if more then rest else (w', failed)

  -- The error is returned as `true`; the count of accepted bytes is then 0.
  unfoldable pub write : Bytes → Writer Sink → Writer Sink × Bool
  write [] w = (w, false)
  write (b ∷ bs) w =
      let w' = record w { buf = w.buf ++ (b ∷ bs) } in scan (suc (length w'.buf)) false w'

  unfoldable pub flush : Writer Sink → Writer Sink × Bool
  flush w = scan (suc (length w.buf)) true w
