-- ===== src/Envset/Apart.antt =====
-- internal/envset/manager.go: the targets of the entries of a set, before and after a call.
use ironrun.Prelude.{
  ℕ, ◌≡◌, refl, subst, inl, inr, Bool, true, false, not, Option, none, some, if◌then◌else◌,
  Bool-cases, Bytes, Try, ok, err, guard, guard_iff, seq_iff, ◌>>◌, arith,
}
use ironrun.Envset.Sets.{
  SetEntry, EnvSet, Metadata, EnvsetError, expired, validate_entry, shares_target, is_file_kind,
  set_expired, shared_target, set_missing, set_exists, store_failed, invalid_name, valid_set_name,
}
use ironrun.Envset.Manager.{
  ValueStore, Changed, EnvsetCall, creating, using, removing, putting, deleting, completed,
  create_set, use_in, put_in, put_checked, entry_stored, delete_in, delete_dropped, Dropped,
  dropped, was_missing, drop_failed, remove_in, removed, changed_by, drop_all, committed, run_call,
  new_set,
}
use ironrun.Envset.Entries.{
  Apart, AllApart, put-Apart, without-Apart, no_entries-Apart, put_key-AllApart,
  remove_key-AllApart, lookup-Apart,
}

-- A change that was made keeps the targets apart.
KeepsApart : {State : Type 0} → Changed State → Type 0
KeepsApart (store, t) = (meta : Metadata) → t ≡ ok meta → AllApart meta.sets

made : {State : Type 0} (store : State) (m : Metadata) → AllApart m.sets → KeepsApart (store, ok m)
unfolding KeepsApart
made store m h after same =
    let back : m ≡ after = cc in subst (λ (x : Metadata). AllApart x.sets) back h

not_made : {State : Type 0} (store : State) (why : EnvsetError) → KeepsApart (store, err why)
unfolding KeepsApart
not_made store why after same = cc

create-KeepsApart :
    {State : Type 0} (name : Bytes) (s : EnvSet) (meta : Metadata) (store : State)
    (o : Option EnvSet)
    → Apart s.entries
    → AllApart meta.sets
    → KeepsApart (create_set name s meta store o)
unfolding create_set
create-KeepsApart name s meta store (some old) a h = not_made store set_exists
create-KeepsApart name s meta store none a h = made store _ (put_key-AllApart name s meta.sets a h)

use-KeepsApart :
    {State : Type 0} (name : Bytes) (meta : Metadata) (store : State) (o : Option EnvSet)
    → AllApart meta.sets
    → KeepsApart (use_in name meta store o)
unfolding use_in
use-KeepsApart name meta store none h = not_made store set_missing
use-KeepsApart name meta store (some s) h = made store _ h

entry_stored-KeepsApart :
    {State : Type 0} (now : ℕ) (name : Bytes) (s : EnvSet) (e : SetEntry) (meta : Metadata)
    (r : State × Bool)
    → shares_target e s.entries ≡ false
    → Apart s.entries
    → AllApart meta.sets
    → KeepsApart (entry_stored now name s e meta r)
unfolding entry_stored
entry_stored-KeepsApart now name s e meta (store, true) free apart h = not_made store store_failed
entry_stored-KeepsApart now name s e meta (store, false) free apart h =
    made store _ (put_key-AllApart name _ meta.sets (put-Apart now e s.entries free apart) h)

delete_dropped-KeepsApart :
    {State : Type 0} (name key : Bytes) (s : EnvSet) (meta : Metadata) (r : State × Dropped)
    → Apart s.entries
    → AllApart meta.sets
    → KeepsApart (delete_dropped name key s meta r)
unfolding delete_dropped
delete_dropped-KeepsApart name key s meta (store, dropped) apart h =
    made store _ (put_key-AllApart name _ meta.sets (without-Apart key s.entries apart) h)
delete_dropped-KeepsApart name key s meta (store, was_missing) apart h = not_made store store_failed
delete_dropped-KeepsApart name key s meta (store, drop_failed) apart h = not_made store store_failed

removed-KeepsApart :
    {State : Type 0} (name : Bytes) (meta : Metadata) (r : State × Bool)
    → AllApart meta.sets
    → KeepsApart (removed name meta r)
unfolding removed
removed-KeepsApart name meta (store, true) h = not_made store store_failed
removed-KeepsApart name meta (store, false) h = made store _ (remove_key-AllApart name meta.sets h)

checks_free :
    (now : ℕ) (s : EnvSet) (e : SetEntry)
    → (guard (not (expired now s)) set_expired
        >> (validate_entry e >> guard (not (shares_target e s.entries)) shared_target))
      ≡ ok tt
    → shares_target e s.entries ≡ false
checks_free now s e h =
    let rest =
      (seq_iff (guard (not (expired now s)) set_expired)
          (validate_entry e >> guard (not (shares_target e s.entries)) shared_target)).0
        h in
    let last =
      (seq_iff (validate_entry e) (guard (not (shares_target e s.entries)) shared_target)).0
        rest.1 in
    let free = (guard_iff (not (shares_target e s.entries)) shared_target).0 last.1 in ground arith

committed-AllApart :
    {State : Type 0} (commits : Bool) (file : Metadata) (r : Changed State)
    → AllApart file.sets
    → KeepsApart r
    → AllApart (committed commits file r).0.0.sets
unfolding committed KeepsApart
committed-AllApart commits file (store, err why) h keeps = h
committed-AllApart true file (store, ok meta) h keeps = keeps meta refl
committed-AllApart false file (store, ok meta) h keeps = h

module _ {State : Type 0} ⦃vs : ValueStore State⦄ (scope : Bytes → Bytes) where
  put_checked-KeepsApart :
      (now : ℕ) (name : Bytes) (s : EnvSet) (e : SetEntry) (value : Bytes) (meta : Metadata)
      (store : State) (t : Try EnvsetError (Unit {0}))
      → (t ≡ ok tt → shares_target e s.entries ≡ false)
      → Apart s.entries
      → AllApart meta.sets
      → KeepsApart (put_checked scope now name s e value meta store t)
  unfolding put_checked
  put_checked-KeepsApart now name s e value meta store (err why) free apart h = not_made store why
  put_checked-KeepsApart now name s e value meta store (ok u) free apart h =
      entry_stored-KeepsApart now name s e meta
        (if is_file_kind e.kind
          then vs.put_bytes (scope name) e.name value store
          else vs.put (scope name) e.name value store)
        (free refl) apart h

  put-KeepsApart :
      (now : ℕ) (name : Bytes) (e : SetEntry) (value : Bytes) (meta : Metadata) (store : State)
      (o : Option EnvSet)
      → ((s : EnvSet) → o ≡ some s → Apart s.entries)
      → AllApart meta.sets
      → KeepsApart (put_in scope now name e value meta store o)
  unfolding put_in
  put-KeepsApart now name e value meta store none a h = not_made store set_missing
  put-KeepsApart now name e value meta store (some s) a h =
      put_checked-KeepsApart now name s (completed e) value meta store _
        (λ passed. checks_free now s (completed e) passed) (a s refl) h

  delete-KeepsApart :
      (name key : Bytes) (meta : Metadata) (store : State) (o : Option EnvSet)
      → ((s : EnvSet) → o ≡ some s → Apart s.entries)
      → AllApart meta.sets
      → KeepsApart (delete_in scope name key meta store o)
  unfolding delete_in
  delete-KeepsApart name key meta store none a h = not_made store set_missing
  delete-KeepsApart name key meta store (some s) a h =
      delete_dropped-KeepsApart name key s meta (vs.drop (scope name) key store) (a s refl) h

  remove-KeepsApart :
      (name : Bytes) (meta : Metadata) (store : State) (o : Option EnvSet)
      → AllApart meta.sets
      → KeepsApart (remove_in scope name meta store o)
  unfolding remove_in
  remove-KeepsApart name meta store none h = not_made store set_missing
  remove-KeepsApart name meta store (some s) h =
      removed-KeepsApart name meta (drop_all scope (scope name) s.keys store) h

  changed_by-KeepsApart :
      (now : ℕ) (c : EnvsetCall) (meta : Metadata) (store : State)
      → AllApart meta.sets
      → KeepsApart (changed_by scope now c meta store)
  unfolding changed_by
  changed_by-KeepsApart now (creating name temporary ttl) meta store h =
      elim (Bool-cases (valid_set_name name)) [
        | inl valid ↦ rw valid (
            create-KeepsApart name (new_set name temporary now ttl) meta store _
              (unfold new_set in no_entries-Apart) h)
        | inr bad ↦ rw bad (not_made store invalid_name)
      ]
  changed_by-KeepsApart now (using name) meta store h = use-KeepsApart name meta store _ h
  changed_by-KeepsApart now (putting name e value) meta store h =
      put-KeepsApart now name e value meta store _
        (λ s found. lookup-Apart name meta.sets s h found) h
  changed_by-KeepsApart now (deleting name key) meta store h =
      delete-KeepsApart name key meta store _ (λ s found. lookup-Apart name meta.sets s h found) h
  changed_by-KeepsApart now (removing name) meta store h = remove-KeepsApart name meta store _ h

  -- No call lets two entries of a set that differ in name write to one target, whatever the store of
  -- values does and whether or not the metadata is committed.
  pub run_call-AllApart :
      (commits : Bool) (now : ℕ) (c : EnvsetCall) (file : Metadata) (store : State)
      → AllApart file.sets
      → AllApart (run_call scope commits now c (file, store)).0.0.sets
  unfolding run_call
  run_call-AllApart commits now c file store h =
      committed-AllApart commits file (changed_by scope now c file store) h
        (changed_by-KeepsApart now c file store h)
