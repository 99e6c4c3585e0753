-- ===== src/Audit/Intact.antt =====
-- internal/audit/audit.go: the logs that `Append` makes.
use ironrun.Prelude.{◌≡◌, refl, ap, ◌∙◌, List, [], ◌∷◌, ◌++◌, none, Bytes, ok}
use ironrun.Audit.Entry.{Entry, Coding}
use ironrun.Audit.Log.{newline, compute_hash, verify, last_hash}
use ironrun.Audit.Logger.{
  no_lock, whole, scrubbed, linked, append, append_after, write_line, open_log, refuse_broken,
}
use ironrun.Audit.Tail.{render, tip, Storable, Chained, last_hash-render, verify-render}

-- The files that calls of `Append` lead to, from an empty one, when each line that is begun is
-- written whole and the records are storable.
pub data Written (k : Coding) (j : Bytes → List Bytes) : Bytes → Type 0 where
  empty : Written k j []
  refused :
      (e : Entry) (file : Bytes) → Written k j file → Written k j (append k j e no_lock file).0
  appended :
      (e : Entry) (file : Bytes)
      → Written k j file
      → ((prev : Bytes)
          → last_hash k file ≡ ok prev
          → Storable k (linked k j prev (scrubbed k j e)))
      → Written k j (append k j e whole file).0

IsLog : Coding → Bytes → Type 0
IsLog k file = (es : List Entry) × (file ≡ render k es) × Chained k es

append-IsLog :
    (k : Coding) (j : Bytes → List Bytes) (e : Entry) (file : Bytes)
    → IsLog k file
    → ((prev : Bytes) → last_hash k file ≡ ok prev → Storable k (linked k j prev (scrubbed k j e)))
    → IsLog k (append k j e whole file).0
unfolding IsLog append append_after write_line
append-IsLog k j e file (es, same, chain) storable =
    let last : last_hash k file ≡ ok (tip k es) =
      ap (last_hash k) same ∙ last_hash-render k es chain in
    let new = linked k j (tip k es) (scrubbed k j e) in
    rw last (
      new ∷ es,
      ap (λ f. f ++ (k.marshal new ++ newline ∷ [])) same ∙ unfold render in refl,
      (unfold linked in refl, unfold linked compute_hash in refl, storable (tip k es) last, chain),
    )

Written-IsLog :
    (k : Coding) (j : Bytes → List Bytes) (file : Bytes) → Written k j file → IsLog k file
unfolding IsLog append
Written-IsLog k j _ empty = ([], unfold render in refl, tt)
Written-IsLog k j _ (refused e file w) = Written-IsLog k j file w
Written-IsLog k j _ (appended e file w st) = append-IsLog k j e file (Written-IsLog k j file w) st

-- A log that calls of `Append` made from an empty file verifies, and `Open` takes it, when each line
-- that was begun was written whole and each record is UTF-8 and fits the window of `lastHash`.
pub Written-verifies :
    (k : Coding) (j : Bytes → List Bytes) (file : Bytes)
    → Written k j file
    → (verify k file ≡ ok none) × (open_log k file ≡ ok tt)
unfolding IsLog
Written-verifies k j file w =
    let (es, same, chain) = Written-IsLog k j file w in
    let intact = ap (verify k) same ∙ verify-render k es chain in
    (intact, unfold open_log refuse_broken in rw intact refl)
