-- ===== src/Redact/Stream.antt =====
-- internal/redact/redact.go: `emit` and `scan` over a writer that takes all it is given. The
-- output is the cap applied to one text, and each scan adds to that text the pieces it decided.
use ironrun.Prelude.{
  ℕ, ◌-◌, ◌<◌, ◌≡◌, refl, sym, ap, subst, ◌∙◌, inl, inr, true, false, [], ◌∷◌, ◌++◌, arith, ltb,
  leb, if◌then◌else◌, Bool-cases, length, take, take-append, take_all, length-take, length-append,
  append-nil, Bytes,
}
use ironrun.Redact.Writer.{Output, Writer, put_counted, emit}

-- An `io.Writer` that appends what it is given, counts it, and never fails.
pub record IsReliable {Sink : Type 0} (o : Output Sink) : Type 0 where
  pub view : Sink → Bytes
  pub view_put : (s : Sink) (d : Bytes) → view (o.put s d).0 ≡ view s ++ d
  pub count_put : (s : Sink) (d : Bytes) → (o.put s d).1 ≡ length d
  pub put_succeeds : (s : Sink) (d : Bytes) → (o.put s d).2 ≡ false

-- What the proofs need of it: `Shows s t` relates a state to all that it was given, in pieces that are
-- not empty. A state may keep less than that.
pub record IsFaithful {Sink : Type 0} (o : Output Sink) : Type 1 where
  pub Shows : Sink → Bytes → Type 0
  pub put_shows : (s : Sink) (t d : Bytes) → 0 < length d → Shows s t → Shows (o.put s d).0 (t ++ d)
  pub count_put : (s : Sink) (d : Bytes) → (o.put s d).1 ≡ length d
  pub put_succeeds : (s : Sink) (d : Bytes) → (o.put s d).2 ≡ false

abbrev pub IsReliable-IsFaithful : {Sink : Type 0} {o : Output Sink} → IsReliable o → IsFaithful o
IsReliable-IsFaithful ok = record {
  Shows = λ s t. ok.view s ≡ t;
  put_shows = λ s t d given e. ok.view_put s d ∙ ap (λ u. u ++ d) e;
  count_put = ok.count_put;
  put_succeeds = ok.put_succeeds;
}

-- `maxOut`, where 0 is no bound.
abbrev pub capped : ℕ → Bytes → Bytes
capped cap xs = if ltb 0 cap then take cap xs else xs

module _ {Sink : Type 0} ⦃o : Output Sink⦄ (ok : IsFaithful o) where
  -- The output holds the text `sent` up to the cap, and `written` counts what it holds.
  pub record Sent (w : Writer Sink) (sent : Bytes) : Type 0 where
    pub shown : ok.Shows w.out (capped w.max_out sent)
    pub counted : w.written ≡ length (capped w.max_out sent)

  put_counted-Sent :
      (w : Writer Sink) (d sent next : Bytes)
      → 0 < length d
      → Sent w sent
      → capped w.max_out sent ++ d ≡ capped w.max_out next
      → Sent (put_counted w d).0 next
  unfolding put_counted
  put_counted-Sent w d sent next given s e = record {
    shown = subst (ok.Shows _) e (ok.put_shows w.out (capped w.max_out sent) d given s.shown);
    counted = omega (
      arith,
      s.counted,
      ok.count_put w.out d,
      length-append (capped w.max_out sent) d,
      ap (λ (t : Bytes). length t) e,
    );
  }

  capped-append :
      (cap : ℕ) (sent d : Bytes)
      → ltb 0 cap ≡ true
      → capped cap sent ++ take (cap - length (capped cap sent)) d ≡ capped cap (sent ++ d)
  capped-append cap sent d h =
      let same : cap - length (take cap sent) ≡ cap - length sent =
        omega (arith, length-take cap sent) in
      rw (h, same) (sym (take-append cap sent d))

  -- What is put, short of the cap or not, is the part that the cap leaves.
  cut_to_cap :
      (cap written : ℕ) (d sent : Bytes)
      → ltb 0 cap ≡ true
      → written ≡ length (capped cap sent)
      → capped cap sent ++ (if ltb (cap - written) (length d) then take (cap - written) d else d)
        ≡ capped cap (sent ++ d)
  cut_to_cap cap written d sent h e = elim (Bool-cases (ltb (cap - written) (length d))) [
    | inl over ↦ rw over (rw e (capped-append cap sent d h))
    | inr fits ↦ rw fits (
        ap (λ t. capped cap sent ++ t) (sym (take_all (cap - written) d (ground arith)))
        ∙ rw e (capped-append cap sent d h))
  ]

  full :
      (cap written : ℕ) (d sent : Bytes)
      → ltb 0 cap ≡ true
      → written ≡ length (capped cap sent)
      → leb (cap - written) 0 ≡ true
      → capped cap sent ≡ capped cap (sent ++ d)
  full cap written d sent h e z =
      let none_left : cap - length (capped cap sent) ≡ 0 = ground arith in
      sym (append-nil _) ∙ rw none_left at (capped-append cap sent d h)

  -- Whatever the cap, `emit` adds its bytes to the text.
  pub emit-Sent : (w : Writer Sink) (d sent : Bytes) → Sent w sent → Sent (emit w d).0 (sent ++ d)
  unfolding emit
  emit-Sent w [] sent s = rw append-nil s
  emit-Sent w (b ∷ bs) sent s = elim (Bool-cases (ltb 0 w.max_out)) [
    | inr free ↦ rw free (put_counted-Sent w (b ∷ bs) sent _ (omega arith) s (rw free))
    | inl bounded ↦ elim (Bool-cases (leb (w.max_out - w.written) 0)) [
      | inl none_left ↦
          let same = full w.max_out w.written (b ∷ bs) sent bounded s.counted none_left in
          rw (bounded, none_left)
            (record {
              shown = subst (ok.Shows w.out) same s.shown;
              counted = s.counted ∙ ap (λ (t : Bytes). length t) same;
            })
      | inr room ↦
          rw (bounded, room)
            (put_counted-Sent w _ sent _
              (ground (arith, length-take (w.max_out - w.written) (b ∷ bs))) s
              (cut_to_cap w.max_out w.written (b ∷ bs) sent bounded s.counted))
    ]
  ]

  -- `emit` does not fail, and changes the output and the count only.
  pub emit_lem :
      (w : Writer Sink) (d : Bytes)
      → ((emit w d).1 ≡ false)
        × ((emit w d).0.index ≡ w.index)
        × ((emit w d).0.buf ≡ w.buf)
        × ((emit w d).0.max_out ≡ w.max_out)
        × ((emit w d).0.redactions ≡ w.redactions)
  unfolding emit put_counted
  emit_lem w [] = (refl, refl, refl, refl, refl)
  emit_lem w (b ∷ bs) = ground (
    arith,
    ok.put_succeeds w.out (b ∷ bs),
    ok.put_succeeds w.out (take (w.max_out - w.written) (b ∷ bs)),
  )
