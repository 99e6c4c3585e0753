-- ===== src/Envset/Histories.antt =====
-- internal/envset/manager.go: the sets after any history of calls of `Manager`.
use ironrun.Prelude.{
  ℕ, suc, inl, inr, Bool, false, ◌&&◌, List, [], ◌∷◌, Option, none, some, Bool-cases, Bytes, pos,
  Try, ok, err,
}
use ironrun.Policy.Document.{lookup_key}
use ironrun.Vault.Document.{Map}
use ironrun.Envset.Sets.{SetEntry, EnvSet, Metadata, EnvsetError, expired}
use ironrun.Envset.Manager.{ValueStore, EnvsetCall, creating, removing, putting}
use ironrun.Envset.Sequences.{
  ManagerCall, calling, ensuring, cloning, pruning, entries_to_copy, CallEnd, afterwards, call_at,
  ensure_found, copied_value, copy_value, copy_entries, clone_found, pruned, prune_sets, manage,
}
use ironrun.Envset.Entries.{AllApart}
use ironrun.Envset.Apart.{run_call-AllApart}

-- The targets are apart in the metadata that a call leaves.
Leaves : {State : Type 0} → CallEnd State → Type 0
Leaves r = AllApart r.0.0.sets

afterwards-Leaves :
    {State : Type 0} (r : CallEnd State) (next : Metadata × State → CallEnd State)
    → Leaves r
    → ((held : Metadata × State) → AllApart held.0.sets → Leaves (next held))
    → Leaves (afterwards r next)
unfolding Leaves afterwards
afterwards-Leaves (held, err why) next h later = h
afterwards-Leaves (held, ok u) next h later = later held h

pruned-Leaves :
    {State : Type 0} (count : ℕ) (r : CallEnd State) (next : Metadata × State → CallEnd State × ℕ)
    → Leaves r
    → ((held : Metadata × State) → AllApart held.0.sets → Leaves (next held).0)
    → Leaves (pruned count r next).0
unfolding Leaves pruned
pruned-Leaves count (held, err why) next h later = h
pruned-Leaves count (held, ok u) next h later = later held h

module _ {State : Type 0} ⦃vs : ValueStore State⦄ (scope : Bytes → Bytes) where
  call_at-Leaves :
      (moments : ℕ → Bool × ℕ) (n : ℕ) (c : EnvsetCall) (held : Metadata × State)
      → AllApart held.0.sets
      → Leaves (call_at scope moments n c held)
  unfolding Leaves
  call_at-Leaves moments n c held h =
      run_call-AllApart scope (moments n).0 (moments n).1 c held.0 held.1 h

  ensure-Leaves :
      (moments : ℕ → Bool × ℕ) (name : Bytes) (held : Metadata × State) (o : Option EnvSet)
      → AllApart held.0.sets
      → Leaves (ensure_found scope moments name held o)
  unfolding ensure_found
  ensure-Leaves moments name held (some s) h = unfold Leaves in h
  ensure-Leaves moments name held none h =
      call_at-Leaves moments 0 (creating name false (pos 0)) held h

  copy_value-Leaves :
      (moments : ℕ → Bool × ℕ) (n : ℕ) (to : Bytes) (e : SetEntry) (held : Metadata × State)
      (t : Try EnvsetError Bytes)
      → AllApart held.0.sets
      → Leaves (copy_value scope moments n to e held t)
  unfolding copy_value
  copy_value-Leaves moments n to e held (err why) h = unfold Leaves in h
  copy_value-Leaves moments n to e held (ok value) h =
      call_at-Leaves moments n (putting to (record e { created_at = 0; updated_at = 0 }) value) held
        h

  copy_entries-Leaves :
      (moments : ℕ → Bool × ℕ) (n : ℕ) (from to : Bytes) (es : List SetEntry)
      (held : Metadata × State)
      → AllApart held.0.sets
      → Leaves (copy_entries scope moments n from to es held)
  unfolding copy_entries
  copy_entries-Leaves moments n from to [] held h = unfold Leaves in h
  copy_entries-Leaves moments n from to (e ∷ es) held h =
      afterwards-Leaves
        (copy_value scope moments n to e held (copied_value scope moments n from e held))
        (λ later. copy_entries scope moments (suc n) from to es later)
        (copy_value-Leaves moments n to e held (copied_value scope moments n from e held) h)
        (λ later apart. copy_entries-Leaves moments (suc n) from to es later apart)

  clone-Leaves :
      (moments : ℕ → Bool × ℕ) (from to : Bytes) (held : Metadata × State) (o p : Option EnvSet)
      → AllApart held.0.sets
      → Leaves (clone_found scope moments from to held o p)
  unfolding clone_found
  clone-Leaves moments from to held none p h = unfold Leaves in h
  clone-Leaves moments from to held (some s) (some old) h = unfold Leaves in h
  clone-Leaves moments from to held (some s) none h =
      afterwards-Leaves (call_at scope moments 0 (creating to false (pos 0)) held)
        (λ later. copy_entries scope moments 1 from to (entries_to_copy s s.entries) later)
        (call_at-Leaves moments 0 (creating to false (pos 0)) held h)
        (λ later apart.
          copy_entries-Leaves moments 1 from to (entries_to_copy s s.entries) later apart)

  prune-Leaves :
      (moments : ℕ → Bool × ℕ) (n count : ℕ) (sets : Map EnvSet) (held : Metadata × State)
      → AllApart held.0.sets
      → Leaves (prune_sets scope moments n count sets held).0
  unfolding prune_sets
  prune-Leaves moments n count [] held h = unfold Leaves in h
  prune-Leaves moments n count ((name, s) ∷ sets) held h =
      elim (Bool-cases (s.temporary && expired (moments n).1 s)) [
        | inl over ↦ rw over (
            pruned-Leaves count (call_at scope moments n (removing name) held)
              (λ later. prune_sets scope moments (suc n) (suc count) sets later)
              (call_at-Leaves moments n (removing name) held h)
              (λ later apart. prune-Leaves moments (suc n) (suc count) sets later apart))
        | inr lasting ↦ rw lasting (prune-Leaves moments n count sets held h)
      ]

  manage-Leaves :
      (moments : ℕ → Bool × ℕ) (c : ManagerCall) (held : Metadata × State)
      → AllApart held.0.sets
      → Leaves (manage scope moments c held)
  unfolding manage
  manage-Leaves moments (calling c) held h = call_at-Leaves moments 0 c held h
  manage-Leaves moments (ensuring name) held h =
      ensure-Leaves moments name held (lookup_key name held.0.sets) h
  manage-Leaves moments (cloning from to) held h =
      clone-Leaves moments from to held (lookup_key from held.0.sets) (lookup_key to held.0.sets) h
  manage-Leaves moments pruning held h = prune-Leaves moments 0 0 held.0.sets held h

  -- What a history of calls leaves.
  unfoldable pub managed : List ((ℕ → Bool × ℕ) × ManagerCall) → Metadata × State → Metadata × State
  managed [] held = held
  managed ((moments, c) ∷ calls) held = managed calls (manage scope moments c held).0

  -- If in each set two entries with one target have one name, this is so after any history of calls of the
  -- manager, `Clone` and `Prune` among them, whatever the store of values does and whichever commits of the
  -- metadata fail.
  pub managed-AllApart :
      (calls : List ((ℕ → Bool × ℕ) × ManagerCall)) (held : Metadata × State)
      → AllApart held.0.sets
      → AllApart (managed calls held).0.sets
  unfolding managed
  managed-AllApart [] held h = h
  managed-AllApart ((moments, c) ∷ calls) held h =
      managed-AllApart calls (manage scope moments c held).0
        (unfold Leaves in manage-Leaves moments c held h)
