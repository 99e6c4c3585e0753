-- ===== src/Runner/Captured.antt =====
-- internal/runner/runner.go: what comes out of a redacting writer over a `capWriter`.
use ironrun.Prelude.{
  zero, suc, ◌-◌, ◌<◌, ◌≡◌, refl, sym, ap, ◌∙◌, inl, inr, true, false, List, [], ◌++◌, ltb, leb,
  Bool-cases, length, take, take-append, take-append_le, take_all, length-take, length-append,
  Bytes, ℤ, pos, negsuc, is_above, arith,
}
use ironrun.Redact.Writer.{Output, new}
use ironrun.Redact.Pieces.{pieces, render}
use ironrun.Redact.Stream.{IsReliable, IsFaithful}
use ironrun.Redact.Refines.{joined, stream, stream-Delivered}
use ironrun.Runner.Cap.{
  CapWriter, cap_writer, remaining, counted, passed_on, write_some, cap_write, cap_output,
}

-- `max`, where 0 and less are no bound.
abbrev pub cut : ℤ → Bytes → Bytes
cut (pos zero) t = t
cut (pos (suc n)) t = take (suc n) t
cut (negsuc n) t = t

cut-nil : (max : ℤ) → cut max [] ≡ []
cut-nil (pos zero) = refl
cut-nil (pos (suc n)) = refl
cut-nil (negsuc n) = refl

module _ {Sink : Type 0} ⦃o : Output Sink⦄ (ok : IsReliable o) where
  -- After the text `t`, the writer below has its first `max` bytes, and `dropped` says whether there
  -- were more.
  pub record Kept (max : ℤ) (c : CapWriter Sink) (t : Bytes) : Type 0 where
    pub max_same : c.max ≡ max
    pub shown : ok.view c.w ≡ cut max t
    pub counted_are : is_above max 0 ≡ true → c.written ≡ length (cut max t)
    pub dropped_is : c.dropped ≡ ltb (length (cut max t)) (length t)

  cap_write-Kept :
      (max : ℤ) (c : CapWriter Sink) (t d : Bytes)
      → 0 < length d
      → Kept max c t
      → Kept max (cap_write c d).0 (t ++ d)
  unfolding cap_write passed_on write_some counted remaining is_above
  cap_write-Kept (negsuc n) c t d given k = rw k.max_same (record {
    max_same = refl;
    shown = ok.view_put c.w d ∙ ap (λ u. u ++ d) k.shown;
    counted_are = λ h. cc;
    dropped_is = let same = k.dropped_is in ground arith;
  })
  cap_write-Kept (pos zero) c t d given k = rw k.max_same (record {
    max_same = refl;
    shown = ok.view_put c.w d ∙ ap (λ u. u ++ d) k.shown;
    counted_are = λ h. cc;
    dropped_is = let same = k.dropped_is in ground arith;
  })
  cap_write-Kept (pos (suc n)) c t d given k =
      let taken = length-take (suc n) t in
      let bounded : is_above (pos (suc n)) 0 ≡ true = ground arith in
      let count = k.counted_are bounded in
      let both = length-append t d in
      let all = length-take (suc n) (t ++ d) in
      elim (Bool-cases (leb (suc n - c.written) 0)) [
        | inl full ↦
            rw (k.max_same, bounded, full)
              (let same = take-append_le (suc n) t d (ground arith) in
                record {
                  max_same = refl;
                  shown = k.shown ∙ sym same;
                  counted_are = λ h. ground arith;
                  dropped_is = ground arith;
                })
        | inr room ↦ elim (Bool-cases (ltb (suc n - c.written) (length d))) [
          | inl over ↦
              rw (k.max_same, bounded, room, over)
                (record {
                  max_same = refl;
                  shown =
                      ok.view_put c.w (take (suc n - c.written) d)
                      ∙ (ap (λ u. u ++ take (suc n - c.written) d)
                            (k.shown ∙ take_all (suc n) t (ground arith))
                          ∙ (ap (λ l. t ++ take (suc n - l) d) (count ∙ ground arith)
                              ∙ sym (
                                  take-append (suc n) t d
                                  ∙ ap (λ u. u ++ take (suc n - length t) d)
                                      (take_all (suc n) t (ground arith)))));
                  counted_are = λ h. ground (
                    arith,
                    ok.count_put c.w (take (suc n - c.written) d),
                    length-take (suc n - c.written) d,
                  );
                  dropped_is = ground arith;
                })
          | inr fits ↦
              rw (k.max_same, bounded, room, fits)
                (record {
                  max_same = refl;
                  shown =
                      ok.view_put c.w d
                      ∙ (ap (λ u. u ++ d) (k.shown ∙ take_all (suc n) t (ground arith))
                          ∙ sym (take_all (suc n) (t ++ d) (ground arith)));
                  counted_are = λ h. ground (arith, ok.count_put c.w d);
                  dropped_is = let same = k.dropped_is in ground arith;
                })
        ]
      ]

  cap_write_succeeds :
      (c : CapWriter Sink) (d : Bytes)
      → ((cap_write c d).1 ≡ length d) × ((cap_write c d).2 ≡ false)
  unfolding cap_write passed_on write_some counted
  cap_write_succeeds c d =
      let left = remaining c.max c.written in
      ground (
        arith,
        ok.count_put c.w d,
        ok.put_succeeds c.w d,
        ok.count_put c.w (take left d),
        ok.put_succeeds c.w (take left d),
      )

  -- The capped writer takes all that it is given.
  abbrev cap_write-IsFaithful : (max : ℤ) → IsFaithful (cap_output {Sink = Sink})
  cap_write-IsFaithful max = record {
    Shows = Kept max;
    put_shows = λ c t d given k. cap_write-Kept max c t d given k;
    count_put = λ c d. (cap_write_succeeds c d).0;
    put_succeeds = λ c d. (cap_write_succeeds c d).1;
  }

  start-Kept : (out : Sink) (max : ℤ) → ok.view out ≡ [] → Kept max (cap_writer out max) []
  start-Kept out max e = record {
    max_same = refl;
    shown = e ∙ sym (cut-nil max);
    counted_are = λ h. ap (λ (u : Bytes). length u) (sym (cut-nil max));
    dropped_is = rw (cut-nil max) (ground arith);
  }

  -- Over a writer that appends, counts and does not fail: however the output of the child is cut into
  -- writes, the writer below gets the first `max` bytes of the redacted text, all of it when `max` is
  -- not positive, and `dropped` is set exactly when the redacted text is longer than that. No write
  -- fails.
  pub captured :
      (out : Sink) (max : ℤ) (secrets chunks : List Bytes)
      → ok.view out ≡ []
      → let start = cap_writer out max in
        let text = render (pieces (new start secrets 0).index zero (joined chunks)) in
        let end = stream chunks (new start secrets 0) in
        (end.1 ≡ false)
        × (ok.view end.0.out.w ≡ cut max text)
        × (end.0.out.dropped ≡ ltb (length (cut max text)) (length text))
  captured out max secrets chunks e =
      let d =
        stream-Delivered (cap_write-IsFaithful max) (cap_writer out max) secrets chunks 0
          (start-Kept out max e) in
      let kept = d.shown in (d.succeeds, kept.shown, kept.dropped_is)
