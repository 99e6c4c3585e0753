-- ===== src/Audit/Tail.antt =====
-- internal/audit/audit.go: the text of a chain of records, what `lastHash` and `Verify` make of it.
use ironrun.Prelude.{
  ℕ, suc, ◌-◌, ◌≤◌, ◌≡◌, ◌≢◌, refl, sym, ap, subst, ◌∙◌, true, false, List, [], ◌∷◌, ◌++◌,
  append-nil, append_assoc, none, leb, length, drop, Bytes, bytes_eq_iff, ok, arith,
}
use ironrun.Audit.Entry.{Entry, Coding, genesis_hash}
use ironrun.Audit.Log.{
  window, max_line, newline, lines_from, lines, after_last, trim_newlines, compute_hash, is_linked,
  verify_record, verify_lines, verify, hash_of, last_hash,
}
use ironrun.Audit.Lines.{Ended, Ended-append, Printable, lines-Printable, last_line}

module _ (k : Coding) where
  -- The file of the records, of which the newest is the first.
  unfoldable pub render : List Entry → Bytes
  render [] = []
  render (e ∷ es) = render es ++ (k.marshal e ++ newline ∷ [])

  -- The hash that the next record refers to.
  unfoldable pub tip : List Entry → Bytes
  tip [] = genesis_hash
  tip (e ∷ es) = e.hash

  -- A record that comes back from its line, which the window holds.
  pub record Storable (e : Entry) : Type 0 where
    pub textual : k.IsText e
    pub scrubbed : e.scrub_values ≡ []
    pub fits : suc (length (k.marshal e)) ≤ window

  -- Each record refers to the hash of the one before it, and has its own.
  abbrev pub Chained : List Entry → Type 0
  Chained [] = Unit
  Chained (e ∷ es) = (e.prev_hash ≡ tip es) × (compute_hash k e ≡ e.hash) × Storable e × Chained es

  render-Ended : (es : List Entry) → Ended (render es)
  unfolding render
  render-Ended [] = tt
  render-Ended (e ∷ es) =
      subst Ended (append_assoc (render es) (k.marshal e) (newline ∷ []))
        (Ended-append (render es ++ k.marshal e))

  last_hash-nonempty :
      (file : Bytes)
      → file ≢ []
      → last_hash k file
        ≡ hash_of k (k.unmarshal (after_last (trim_newlines (drop (length file - window) file))))
  unfolding last_hash
  last_hash-nonempty [] given = absurd (given refl)
  last_hash-nonempty (c ∷ cs) given = refl

  snoc_given : (u v : Bytes) (c : ℕ) → u ++ (v ++ c ∷ []) ≢ []
  snoc_given [] [] c e = cc
  snoc_given [] (d ∷ v) c e = cc
  snoc_given (d ∷ u) v c e = cc

  pub last_hash-render : (es : List Entry) → Chained es → last_hash k (render es) ≡ ok (tip es)
  unfolding render tip hash_of
  last_hash-render [] h = unfold last_hash in refl
  last_hash-render (e ∷ es) (linked, own, st, before) =
      let (c, cs, shape) = k.is_given e in
      let file = render es ++ (k.marshal e ++ newline ∷ []) in
      let printable = subst Printable shape (k.is_printable e) in
      let found : after_last (trim_newlines (drop (length file - window) file)) ≡ k.marshal e =
        subst
          (λ m.
            after_last (
              trim_newlines (
                drop (length (render es ++ (m ++ newline ∷ [])) - window)
                  (render es ++ (m ++ newline ∷ []))))
            ≡ m)
          (sym shape)
          (last_line window (render es) c cs (render-Ended es) printable
            (subst (λ m. suc (length m) ≤ window) shape st.fits)) in
      last_hash-nonempty file (snoc_given (render es) (k.marshal e) newline)
      ∙ ap (hash_of k) (ap (k.unmarshal) found ∙ k.back e st.textual st.scrubbed)

  is_linked-Chained :
      (prev : Bytes) (e : Entry)
      → e.prev_hash ≡ prev
      → compute_hash k e ≡ e.hash
      → is_linked k prev e ≡ true
  unfolding is_linked
  is_linked-Chained prev e linked own =
      rw ((bytes_eq_iff e.prev_hash prev).1 linked, (bytes_eq_iff (compute_hash k e) e.hash).1 own)
        refl

  verify_lines-record :
      (prev : Bytes) (n : ℕ) (e : Entry) (ls : List Bytes)
      → Storable e
      → is_linked k prev e ≡ true
      → verify_lines k prev n (k.marshal e ∷ ls) ≡ verify_lines k e.hash (suc n) ls
  unfolding verify_lines verify_record
  verify_lines-record prev n e ls st linked =
      let (c, cs, shape) = k.is_given e in
      let short : leb max_line (length (k.marshal e)) ≡ false =
        let fits = st.fits in ground arith in
      let given : leb (length (k.marshal e)) 0 ≡ false = rw shape (ground arith) in
      rw (short, k.is_trimmed e, given, k.back e st.textual st.scrubbed, linked) refl

  -- After the lines of a chain, `Verify` goes on with the chain's last hash.
  verify-after :
      (es : List Entry) (rest : Bytes)
      → Chained es
      → verify_lines k genesis_hash 0 (lines (render es ++ rest))
        ≡ verify_lines k (tip es) (length es) (lines rest)
  unfolding render tip
  verify-after [] rest h = refl
  verify-after (e ∷ es) rest (linked, own, st, before) =
      let line = k.marshal e in
      ap (λ t. verify_lines k genesis_hash 0 (lines t))
        (append_assoc (render es) (line ++ newline ∷ []) rest
          ∙ ap (◌++◌ (render es)) (append_assoc line (newline ∷ []) rest))
      ∙ (verify-after es (line ++ newline ∷ rest) before
          ∙ (ap (verify_lines k (tip es) (length es)) (lines-Printable line rest (k.is_printable e))
              ∙ verify_lines-record (tip es) (length es) e (lines rest) st
                  (is_linked-Chained (tip es) e linked own)))

  pub verify-render : (es : List Entry) → Chained es → verify k (render es) ≡ ok none
  unfolding verify verify_lines
  verify-render es h =
      subst (λ t. verify_lines k genesis_hash 0 (lines t) ≡ ok none) (append-nil (render es))
        (verify-after es [] h ∙ unfold lines_from in refl)
