-- ===== src/Envset/Sequences.antt =====
-- internal/envset/manager.go: `Ensure`, `Clone` and `Prune`, which are sequences of the calls of `Manager`.
-- A function gives, for the call of a number, whether its commit succeeds and the time.
use ironrun.Prelude.{
  ℕ, suc, Bool, false, ◌&&◌, List, [], ◌∷◌, Option, none, some, if◌then◌else◌, map, Bytes, pos, Try,
  ok, err,
}
use ironrun.Policy.Document.{lookup_key}
use ironrun.Vault.Document.{Map}
use ironrun.Envset.Sets.{
  SetEntry, EnvSet, Metadata, environment_kind, EnvsetError, set_missing, set_exists, expired,
  is_file_kind,
}
use ironrun.Envset.Manager.{
  ValueStore, EnvsetCall, creating, removing, putting, run_call, get_value, get_bytes_value,
}

pub data ManagerCall : Type 0 where
  calling : EnvsetCall → ManagerCall
  ensuring : Bytes → ManagerCall
  cloning : Bytes → Bytes → ManagerCall
  pruning : ManagerCall

-- `migratedEntry`
abbrev pub migrated_entry : ℕ → Bytes → SetEntry
migrated_entry created key = record {
  name = key;
  kind = environment_kind;
  target = key;
  filename = [];
  created_at = created;
  updated_at = created;
}

-- The entries that `Clone` copies.
unfoldable pub entries_to_copy : EnvSet → List SetEntry → List SetEntry
entries_to_copy s [] = map (migrated_entry s.created_at) s.keys
entries_to_copy s (e ∷ es) = e ∷ es

abbrev pub CallEnd : Type 0 → Type 0
CallEnd State = (Metadata × State) × Try EnvsetError (Unit {0})

unfoldable pub afterwards :
    {State : Type 0} → CallEnd State → (Metadata × State → CallEnd State) → CallEnd State
afterwards (held, err why) next = (held, err why)
afterwards (held, ok u) next = next held

-- After `Remove` in the loop of `Prune`.
unfoldable pub pruned :
    {State : Type 0}
    → ℕ
    → CallEnd State
    → (Metadata × State → CallEnd State × ℕ)
    → CallEnd State × ℕ
pruned count (held, err why) next = ((held, err why), count)
pruned count (held, ok u) next = next held

module _ {State : Type 0} ⦃vs : ValueStore State⦄ (scope : Bytes → Bytes)
    (moments : ℕ → Bool × ℕ) where
  abbrev pub call_at : ℕ → EnvsetCall → Metadata × State → CallEnd State
  call_at n c held = run_call scope (moments n).0 (moments n).1 c held

  unfoldable pub ensure_found : Bytes → Metadata × State → Option EnvSet → CallEnd State
  ensure_found name held (some s) = (held, ok tt)
  ensure_found name held none = call_at 0 (creating name false (pos 0)) held

  unfoldable pub copied_value : ℕ → Bytes → SetEntry → Metadata × State → Try EnvsetError Bytes
  unfolding get_value get_bytes_value
  copied_value n from e held =
      if is_file_kind e.kind
      then get_bytes_value scope (moments n).1 from e.name held.0 held.1
      else get_value scope (moments n).1 from e.name held.0 held.1

  unfoldable pub copy_value :
      ℕ → Bytes → SetEntry → Metadata × State → Try EnvsetError Bytes → CallEnd State
  copy_value n to e held (err why) = (held, err why)
  copy_value n to e held (ok value) =
      call_at n (putting to (record e { created_at = 0; updated_at = 0 }) value) held

  -- The loop of `Clone`.
  unfoldable pub copy_entries : ℕ → Bytes → Bytes → List SetEntry → Metadata × State → CallEnd State
  unfolding afterwards copy_value copied_value
  copy_entries n from to [] held = (held, ok tt)
  copy_entries n from to (e ∷ es) held =
      afterwards (copy_value n to e held (copied_value n from e held))
        (λ later. copy_entries (suc n) from to es later)

  unfoldable pub clone_found :
      Bytes → Bytes → Metadata × State → Option EnvSet → Option EnvSet → CallEnd State
  unfolding copy_entries entries_to_copy
  clone_found from to held none target = (held, err set_missing)
  clone_found from to held (some source) (some old) = (held, err set_exists)
  clone_found from to held (some source) none =
      afterwards (call_at 0 (creating to false (pos 0)) held)
        (λ later. copy_entries 1 from to (entries_to_copy source source.entries) later)

  -- The loop of `Prune`, over the sets as they were before, with the number of sets that went.
  unfoldable pub prune_sets : ℕ → ℕ → Map EnvSet → Metadata × State → CallEnd State × ℕ
  unfolding pruned
  prune_sets n count [] held = ((held, ok tt), count)
  prune_sets n count ((name, s) ∷ sets) held =
      let passed = prune_sets n count sets held in
      let gone =
        pruned count (call_at n (removing name) held)
          (λ later. prune_sets (suc n) (suc count) sets later) in
      if s.temporary && expired (moments n).1 s then gone else passed

  unfoldable pub manage : ManagerCall → Metadata × State → CallEnd State
  unfolding ensure_found clone_found prune_sets
  manage (calling c) held = call_at 0 c held
  manage (ensuring name) held = ensure_found name held (lookup_key name held.0.sets)
  manage (cloning from to) held =
      clone_found from to held (lookup_key from held.0.sets) (lookup_key to held.0.sets)
  manage pruning held = (prune_sets 0 0 held.0.sets held).0
