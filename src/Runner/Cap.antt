-- ===== src/Runner/Cap.antt =====
-- internal/runner/runner.go: `capWriter`, over any `io.Writer`, and the `io.MultiWriter` below it. Its
-- counter is below 2^63.
use ironrun.Prelude.{
  ℕ, ◌+◌, ◌-◌, Bool, true, false, ◌++◌, ◌||◌, ltb, leb, if◌then◌else◌, length, take, Bytes, ℤ, pos,
  negsuc, is_above,
}
use ironrun.Redact.Writer.{Output}

pub record CapWriter (Sink : Type 0) : Type 0 where
  pub w : Sink
  pub max : ℤ
  pub written : ℕ
  pub dropped : Bool

-- A writer for one stream, as `Run` makes it.
abbrev pub cap_writer : {Sink : Type 0} → Sink → ℤ → CapWriter Sink
cap_writer w max = record { w = w; max = max; written = 0; dropped = false }

-- `c.max - c.written`, 0 when that is less.
unfoldable pub remaining : ℤ → ℕ → ℕ
remaining (pos m) written = m - written
remaining (negsuc m) written = 0

-- `c.written += int64(n)`, with the error and the count that is returned in its place.
unfoldable pub counted :
    {Sink : Type 0} → CapWriter Sink → ℕ → Sink × ℕ × Bool → CapWriter Sink × ℕ × Bool
counted c all (w, n, failed) =
    (record c { w = w; written = c.written + n }, (if failed then n else all), failed)

module _ {Sink : Type 0} ⦃o : Output Sink⦄ where
  unfoldable pub passed_on : CapWriter Sink → Sink × ℕ × Bool → CapWriter Sink × ℕ × Bool
  passed_on c (w, n, failed) = (record c { w = w }, n, failed)

  unfoldable pub write_some : CapWriter Sink → Sink × ℕ × Bool → CapWriter Sink × ℕ × Bool
  write_some c (w, n, failed) = (record c { w = w; written = c.written + n }, n, failed)

  -- `capWriter.Write`
  unfoldable pub cap_write : CapWriter Sink → Bytes → CapWriter Sink × ℕ × Bool
  unfolding remaining counted passed_on write_some
  cap_write c p =
      let left = remaining c.max c.written in
      if is_above c.max 0
      then if leb left 0
        then (record c { dropped = true }, length p, false)
        else if ltb left (length p)
        then counted (record c { dropped = true }) (length p) (o.put c.w (take left p))
        else write_some c (o.put c.w p)
      else passed_on c (o.put c.w p)

  instance abbrev pub cap_output : Output (CapWriter Sink)
  cap_output = record { put = cap_write }

  -- `io.MultiWriter` over the buffer of the result and the live output.
  unfoldable pub tee_put : Bytes × Sink → Bytes → (Bytes × Sink) × ℕ × Bool
  tee_put (buffer, sink) p =
      let sent = o.put sink p in
      let short = ltb sent.1 (length p) in
      (
        (buffer ++ p, sent.0),
        (if sent.2 then sent.1 else if short then sent.1 else length p),
        sent.2 || short,
      )

  instance abbrev pub tee_output : Output (Bytes × Sink)
  tee_output = record { put = tee_put }
