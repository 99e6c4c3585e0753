-- ===== src/Audit/Tamper.antt =====
-- internal/audit/audit.go: what `Verify` says of two logs that end in the same hash.
use ironrun.Prelude.{
  ℕ, suc, ◌≡◌, ◌≢◌, refl, sym, ap, ◌∙◌, ◌⊎◌, inl, inr, true, List, [], ◌∷◌, Option, none, some, leb,
  if◌then◌else◌, length, Bool-cases, Option-cases, Bytes, bytes_eq, bytes_eq_iff, trim_space, ok,
  arith,
}
use ironrun.Audit.Entry.{Entry, Coding, genesis_hash}
use ironrun.Audit.Log.{
  max_line, lines, compute_hash, is_linked, verify_record, verify_lines, verify,
}
use ironrun.Audit.Tail.{tip}

module _ (k : Coding) where
  unfoldable pub keep : Option Entry → List Entry → List Entry
  keep none es = es
  keep (some e) es = e ∷ es

  -- The records that the lines decode to, the newest first, before those in `es`; blank lines and
  -- lines that do not decode count for none.
  unfoldable pub records_from : List Bytes → List Entry → List Entry
  unfolding keep
  records_from [] es = es
  records_from (l ∷ ls) es =
      let text = trim_space l in
      let skipped = records_from ls es in
      let kept = records_from ls (keep (k.unmarshal text) es) in
      if leb (length text) 0 then skipped else kept

  unfoldable pub records : Bytes → List Entry
  unfolding records_from
  records file = records_from (lines file) []

  -- Two texts with one SHA-256, or a text with the hash that starts a chain.
  pub Forgery : Type 0
  Forgery =
      ((x y : Bytes) × (x ≢ y) × (k.sha256_hex x ≡ k.sha256_hex y))
      ⊎ ((x : Bytes) × (k.sha256_hex x ≡ genesis_hash))

  Linked : List Entry → Type 0
  Linked [] = Unit
  Linked (e ∷ es) =
      (e.prev_hash ≡ tip k es)
      × (compute_hash k e ≡ e.hash)
      × (k.IsText e)
      × (e.scrub_values ≡ [])
      × Linked es

  is_linked_iff :
      (prev : Bytes) (e : Entry)
      → is_linked k prev e ≡ true
      → (e.prev_hash ≡ prev) × (compute_hash k e ≡ e.hash)
  unfolding is_linked
  is_linked_iff prev e h =
      ground (arith, bytes_eq_iff e.prev_hash prev, bytes_eq_iff (compute_hash k e) e.hash)

  verified-Linked :
      (n : ℕ) (ls : List Bytes) (es : List Entry)
      → Linked es
      → verify_lines k (tip k es) n ls ≡ ok none
      → Linked (records_from ls es)
  unfolding verify_lines verify_record records_from keep tip Linked
  verified-Linked n [] es h e = h
  verified-Linked n (l ∷ ls) es h e = elim (Bool-cases (leb max_line (length l))) [
    | inl long ↦ let e' = rw long at e in cc
    | inr short ↦ elim (Bool-cases (leb (length (trim_space l)) 0)) [
      | inl blank ↦ rw blank (verified-Linked (suc n) ls es h (rw (short, blank) at e))
      | inr given ↦ elim (Option-cases (k.unmarshal (trim_space l))) [
        | inl bad ↦ let e' = rw (short, given, bad) at e in cc
        | inr (r, decoded) ↦ elim (Bool-cases (is_linked k (tip k es) r)) [
          | inr broken ↦ let e' = rw (short, given, decoded, broken) at e in cc
          | inl linked ↦
              let (refers, own) = is_linked_iff (tip k es) r linked in
              let (textual, scrubbed) = k.from_text (trim_space l) r decoded in
              rw (given, decoded)
                (verified-Linked (suc n) ls (r ∷ es) (refers, own, textual, scrubbed, h)
                  (rw (short, given, decoded, linked) at e))
        ]
      ]
    ]
  ]

  without_hash : Entry → Entry
  without_hash e = record e { hash = [] }

  same_record :
      (e f : Entry)
      → k.IsText e
      → k.IsText f
      → e.scrub_values ≡ []
      → f.scrub_values ≡ []
      → k.marshal (without_hash e) ≡ k.marshal (without_hash f)
      → without_hash e ≡ without_hash f
  unfolding without_hash
  same_record e f et ft es fs same =
      let x = k.back (record e { hash = [] }) (k.no_hash_text e et) es in
      let y = k.back (record f { hash = [] }) (k.no_hash_text f ft) fs in
      let z = sym x ∙ (ap (k.unmarshal) same ∙ y) in cc

  -- Two chains that end in the same hash are the same, or there is a forgery.
  one_past :
      (es fs : List Entry) → Linked es → Linked fs → tip k es ≡ tip k fs → (es ≡ fs) ⊎ Forgery
  unfolding Linked tip Forgery compute_hash
  one_past [] [] h g e = inl refl
  one_past [] (f ∷ fs) h (refers, own, textual, scrubbed, more) e = inr (inr (_, (own ∙ sym e)))
  one_past (x ∷ es) [] (refers, own, textual, scrubbed, more) g e = inr (inr (_, (own ∙ e)))
  one_past (x ∷ es) (f ∷ fs) (xr, xo, xt, xs, h) (fr, fo, ft, fs0, g) e =
      let a = k.marshal (without_hash x) in
      let b = k.marshal (without_hash f) in
      elim (Bool-cases (bytes_eq a b)) [
        | inr differ ↦ inr (
            inl (
              a,
              b,
              (λ same. let yes_same = (bytes_eq_iff a b).1 same in cc),
              unfold without_hash in (xo ∙ (e ∙ sym fo)),
            ))
        | inl same ↦
            let rest = same_record x f xt ft xs fs0 ((bytes_eq_iff a b).0 same) in
            elim (one_past es fs h g
              (sym xr ∙ (unfold without_hash in ap (λ (r : Entry). r.prev_hash) rest ∙ fr))) [
                | inr forged ↦ inr forged
                | inl past ↦
                    let head : x ≡ f = unfold without_hash in λ i. record (rest i) { hash = e i } in
                    inl cc
              ]
      ]

  -- Two logs that verify and whose last records have the same hash hold the same records, or two
  -- texts with one SHA-256 are at hand, or a text whose SHA-256 is the hash that starts a chain.
  pub verified_records :
      (file other : Bytes)
      → verify k file ≡ ok none
      → verify k other ≡ ok none
      → tip k (records file) ≡ tip k (records other)
      → (records file ≡ records other) ⊎ Forgery
  unfolding verify records
  verified_records file other h g e =
      one_past (records_from (lines file) []) (records_from (lines other) [])
        (verified-Linked 0 (lines file) [] (unfold Linked in tt) (unfold tip in h))
        (verified-Linked 0 (lines other) [] (unfold Linked in tt) (unfold tip in g)) e
