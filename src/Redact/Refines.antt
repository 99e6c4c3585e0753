-- ===== src/Redact/Refines.antt =====
-- internal/redact/redact.go: `Write` in any portions, then `Flush`, is one pass over the whole text.
use ironrun.Prelude.{
  ℕ, zero, suc, ◌+◌, ◌≡◌, refl, sym, ap, subst, ◌∙◌, Bool, true, false, List, [], ◌∷◌, ◌++◌, arith,
  if◌then◌else◌, length, append-nil, append_assoc, Bytes, All,
}
use ironrun.Redact.Index.{Index}
use ironrun.Redact.Writer.{Output, Writer, with_secrets, non_empty, new, write, flush}
use ironrun.Redact.Window.{Covers}
use ironrun.Redact.Pieces.{
  Piece, pieces, render, count_redacted, count_redacted-append, render-append,
}
use ironrun.Redact.Stream.{IsFaithful, IsReliable, IsReliable-IsFaithful, Sent, capped}
use ironrun.Redact.Scan.{Progress, scan_Progress}
use ironrun.Redact.Reindex.{IsIndexed, IsNonEmpty, reindex-IsIndexed}

-- All portions as one text.
abbrev pub joined : List Bytes → Bytes
joined [] = []
joined (c ∷ cs) = c ++ joined cs

pub non_empty-All : (ss : List Bytes) → All IsNonEmpty (non_empty ss)
unfolding non_empty
non_empty-All [] = tt
non_empty-All ([] ∷ ss) = ground (arith, non_empty-All ss)
non_empty-All ((c ∷ cs) ∷ ss) = ground (arith, non_empty-All ss)

pub new-IsIndexed :
    {Sink : Type 0} (out : Sink) (ss : List Bytes) (cap : ℕ) → IsIndexed (new out ss cap).index
unfolding new
new-IsIndexed out ss cap = reindex-IsIndexed (with_secrets (non_empty ss)) (non_empty-All ss)

module _ {Sink : Type 0} ⦃o : Output Sink⦄ where
  -- A producer's writes, which end at the first error, and the flush after the last.
  unfoldable pub stream : List Bytes → Writer Sink → Writer Sink × Bool
  stream [] w = flush w
  stream (c ∷ cs) w =
      let (w', failed) = write c w in let rest = stream cs w' in if failed then (w', true) else rest

module _ {Sink : Type 0} ⦃o : Output Sink⦄ (ok : IsFaithful o) where
  -- From `w` the whole of `text` was passed on.
  pub record Finished (w : Writer Sink) (text : Bytes) (e : Writer Sink × Bool) : Type 0 where
    pub succeeds : e.1 ≡ false
    pub buf_empty : e.0.buf ≡ []
    pub max_out_same : e.0.max_out ≡ w.max_out
    pub redactions_are : e.0.redactions ≡ w.redactions + count_redacted (pieces w.index zero text)
    pub sends :
        (sent : Bytes) → Sent ok w sent → Sent ok e.0 (sent ++ render (pieces w.index zero text))

  flush-Finished :
      (w : Writer Sink)
      → Covers w.index.max_span w.index.secrets
      → Finished w (w.buf ++ []) (flush w)
  unfolding flush
  flush-Finished w c =
      let (ps, p, succeeds, empty) = scan_Progress ok (suc (length w.buf)) true w c (omega arith) in
      let rest : pieces w.index zero (w.buf ++ []) ≡ ps =
        p.ahead [] refl
        ∙ ap (λ t. ps ++ pieces w.index zero (t ++ [])) (empty refl)
        ∙ unfold pieces in append-nil ps in
      record {
        succeeds = succeeds;
        buf_empty = empty refl;
        max_out_same = p.max_out_same;
        redactions_are = rw rest p.redactions_are;
        sends = rw rest p.sends;
      }

  write_lem :
      (c : Bytes) (w : Writer Sink)
      → Covers w.index.max_span w.index.secrets
      → (ps : List Piece) × Progress ok false (record w { buf = w.buf ++ c }) (write c w).0 ps
        × ((write c w).1 ≡ false)
  unfolding write
  write_lem [] w c = (
    [],
    record {
      index_same = refl;
      max_out_same = refl;
      redactions_are = omega arith;
      sends = λ sent s. rw append-nil (record { shown = s.shown; counted = s.counted });
      ahead = λ r a. ap (λ t. pieces w.index zero (t ++ r)) (append-nil w.buf);
    },
    refl,
  )
  write_lem (b ∷ bs) w c =
      let (ps, p, succeeds, _) =
        scan_Progress ok (suc (length (w.buf ++ (b ∷ bs)))) false
          (record w { buf = w.buf ++ (b ∷ bs) }) c (omega arith) in
      (ps, p, succeeds)

  stream-Finished :
      (chunks : List Bytes) (w : Writer Sink)
      → Covers w.index.max_span w.index.secrets
      → Finished w (w.buf ++ joined chunks) (stream chunks w)
  unfolding stream
  stream-Finished [] w c = flush-Finished w c
  stream-Finished (d ∷ ds) w c =
      let (ps, p, written) = write_lem d w c in
      let w' = (write d w).0 in
      let q =
        stream-Finished ds w'
          (subst (λ (ix : Index). Covers ix.max_span ix.secrets) (sym p.index_same) c) in
      let whole : pieces w.index zero (w.buf ++ (d ++ joined ds))
          ≡ ps ++ pieces w'.index zero (w'.buf ++ joined ds) =
        ap (λ t. pieces w.index zero t) (sym (append_assoc w.buf d (joined ds)))
        ∙ p.ahead (joined ds) tt
        ∙ ap (λ ix. ps ++ pieces ix zero (w'.buf ++ joined ds)) (sym p.index_same) in
      rw written (record {
        succeeds = q.succeeds;
        buf_empty = q.buf_empty;
        max_out_same = q.max_out_same ∙ p.max_out_same;
        redactions_are = rw whole (
            omega (
              arith,
              q.redactions_are,
              p.redactions_are,
              count_redacted-append ps (pieces w'.index zero (w'.buf ++ joined ds)),
            ));
        sends = λ sent s.
            rw (whole, render-append, ← append_assoc)
              (q.sends (sent ++ render ps)
                (p.sends sent (record { shown = s.shown; counted = s.counted })));
      })

  capped-nil : (cap : ℕ) → capped cap [] ≡ []
  capped-nil zero = refl
  capped-nil (suc n) = ground arith

  new-Sent :
      (out : Sink) (secrets : List Bytes) (cap : ℕ)
      → ok.Shows out []
      → Sent ok (new out secrets cap) []
  unfolding new
  new-Sent out secrets cap e = record {
    shown = subst (ok.Shows out) (sym (capped-nil cap)) e;
    counted = sym (ap (λ (t : Bytes). length t) (capped-nil cap));
  }

  -- What `stream` leaves, for any relation to what the output was given.
  pub record Delivered (ix : Index) (cap : ℕ) (text : Bytes) (e : Writer Sink × Bool) : Type 0 where
    pub succeeds : e.1 ≡ false
    pub buf_empty : e.0.buf ≡ []
    pub shown : ok.Shows e.0.out (capped cap (render (pieces ix zero text)))
    pub counted : e.0.written ≡ length (capped cap (render (pieces ix zero text)))
    pub redactions_are : e.0.redactions ≡ count_redacted (pieces ix zero text)

  pub stream-Delivered :
      (out : Sink) (secrets chunks : List Bytes) (cap : ℕ)
      → ok.Shows out []
      → Delivered
          (new out secrets cap).index
          cap
          (joined chunks)
          (stream chunks (new out secrets cap))
  stream-Delivered out secrets chunks cap e =
      let w = new out secrets cap in
      let f = stream-Finished chunks w (new-IsIndexed out secrets cap).covers in
      let s = f.sends [] (new-Sent out secrets cap e) in
      unfold new in
      record {
        succeeds = f.succeeds;
        buf_empty = f.buf_empty;
        shown =
            subst
              (λ n.
                ok.Shows (stream chunks w).0.out
                  (capped n (render (pieces w.index zero (joined chunks)))))
              f.max_out_same s.shown;
        counted =
            s.counted
            ∙ ap (λ n. length (capped n (render (pieces w.index zero (joined chunks)))))
                f.max_out_same;
        redactions_are = omega (arith, f.redactions_are);
      }

module _ {Sink : Type 0} ⦃o : Output Sink⦄ (ok : IsReliable o) where
  -- What a writer is for: it ends without an error, holds nothing back, has sent the rendered
  -- pieces of the text up to the cap and counted them, and has counted one redaction for each
  -- placeholder piece.
  pub record Delivers (ix : Index) (cap : ℕ) (text : Bytes) (e : Writer Sink × Bool) : Type 0 where
    pub succeeds : e.1 ≡ false
    pub buf_empty : e.0.buf ≡ []
    pub shown : ok.view e.0.out ≡ capped cap (render (pieces ix zero text))
    pub counted : e.0.written ≡ length (capped cap (render (pieces ix zero text)))
    pub redactions_are : e.0.redactions ≡ count_redacted (pieces ix zero text)

  -- Over an output that appends, counts and does not fail, and that is empty at first: however the
  -- text is cut into writes, a fresh writer that then flushes delivers the pieces of one pass over
  -- the whole text. So the cuts do not show, and the loop never runs out of fuel.
  pub stream-eq-pieces :
      (out : Sink) (secrets chunks : List Bytes) (cap : ℕ)
      → ok.view out ≡ []
      → Delivers
          (new out secrets cap).index
          cap
          (joined chunks)
          (stream chunks (new out secrets cap))
  stream-eq-pieces out secrets chunks cap e =
      let d = stream-Delivered (IsReliable-IsFaithful ok) out secrets chunks cap e in
      record {
        succeeds = d.succeeds;
        buf_empty = d.buf_empty;
        shown = d.shown;
        counted = d.counted;
        redactions_are = d.redactions_are;
      }
