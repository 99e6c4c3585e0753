-- ===== src/Envset/Manager.antt =====
-- internal/envset/manager.go: the operations of `Manager`. The store of values is an interface. `update`
-- works on the committed metadata, which is the state here; whether its commit succeeds is an argument.
use ironrun.Prelude.{
  ℕ, zero, suc, ◌+◌, Bool, true, false, not, List, [], ◌∷◌, Option, none, some, if◌then◌else◌, map,
  Bytes, bytes_eq, ℤ, pos, negsuc, Try, ok, err, guard, ◌>>=◌, ◌>>◌,
}
use ironrun.Policy.Document.{lookup_key}
use ironrun.Vault.Document.{Map, put_key, remove_key}
use ironrun.Envset.Sets.{
  SetEntry, EnvSet, Metadata, EnvsetError, invalid_name, set_missing, set_exists, set_expired,
  no_active, shared_target, store_failed, not_committed, expired, kind_or_default, target_or_name,
  is_file_kind, validate_entry, valid_set_name, shares_target, put_in_place, sort_by_name, add_key,
  without_entry, without_key, find_entry, sort_keys,
}

-- `ValueStore` with `SetBytes` and `GetBytes`: the new state and whether the call fails. `drop` says whether the failure
-- is `ErrMissing`.
pub data Dropped : Type 0 where
  dropped was_missing drop_failed : Dropped

pub record ValueStore (State : Type 0) : Type 0 where
  pub put : Bytes → Bytes → Bytes → State → State × Bool
  pub put_bytes : Bytes → Bytes → Bytes → State → State × Bool
  pub fetch : Bytes → Bytes → State → Option Bytes
  pub fetch_bytes : Bytes → Bytes → State → Option Bytes
  pub drop : Bytes → Bytes → State → State × Dropped

-- What a function under `update` leaves: the store as it is then, and the metadata unless it failed.
abbrev pub Changed : Type 0 → Type 0
Changed State = State × Try EnvsetError Metadata

abbrev pub with_set : Bytes → EnvSet → Metadata → Metadata
with_set name s meta = record meta { sets = put_key name s meta.sets }

-- The life of a temporary set: `DefaultTTL` when none is given.
unfoldable pub set_ttl : ℤ → ℕ
set_ttl (pos zero) = 86400000000000
set_ttl (pos (suc n)) = suc n
set_ttl (negsuc n) = 86400000000000

unfoldable pub new_set : Bytes → Bool → ℕ → ℤ → EnvSet
unfolding set_ttl
new_set name temporary now ttl = record {
  name = name;
  temporary = temporary;
  created_at = now;
  expires_at = if temporary then some (now + set_ttl ttl) else none;
  keys = [];
  entries = [];
}

abbrev pub completed : SetEntry → SetEntry
completed e = record e { kind = kind_or_default e.kind; target = target_or_name e }

-- `Names`
unfoldable pub names : Map EnvSet → List Bytes
names sets = sort_keys (map (λ (s : Bytes × EnvSet). s.0) sets)

abbrev pub first_name : List Bytes → Bytes
first_name [] = []
first_name (n ∷ ns) = n

-- The calls that write.
pub data EnvsetCall : Type 0 where
  creating : Bytes → Bool → ℤ → EnvsetCall
  using removing : Bytes → EnvsetCall
  putting : Bytes → SetEntry → Bytes → EnvsetCall
  deleting : Bytes → Bytes → EnvsetCall

-- `Entry`
unfoldable pub entry_in : Bytes → Option EnvSet → Option SetEntry
entry_in key none = none
entry_in key (some s) = find_entry key s.entries

-- `Active`
unfoldable pub live_set : ℕ → Option EnvSet → Try EnvsetError EnvSet
live_set now none = err set_missing
live_set now (some s) = if expired now s then err set_expired else ok s

unfoldable pub active_set : ℕ → Metadata → Try EnvsetError EnvSet
unfolding live_set
active_set now meta =
    if bytes_eq meta.active []
    then err no_active
    else live_set now (lookup_key meta.active meta.sets)

unfoldable pub fetched : Option Bytes → Try EnvsetError Bytes
fetched none = err store_failed
fetched (some value) = ok value

module _ {State : Type 0} where
  -- `update`: `commits` says whether the file is replaced.
  unfoldable pub committed :
      Bool → Metadata → Changed State → (Metadata × State) × Try EnvsetError (Unit {0})
  committed commits file (store, err why) = ((file, store), err why)
  committed true file (store, ok meta) = ((meta, store), ok tt)
  committed false file (store, ok meta) = ((file, store), err not_committed)

  unfoldable pub create_set : Bytes → EnvSet → Metadata → State → Option EnvSet → Changed State
  create_set name s meta store (some old) = (store, err set_exists)
  create_set name s meta store none = (
    store,
    ok (record (with_set name s meta) {
      active = if bytes_eq meta.active [] then name else meta.active;
    }),
  )

  unfoldable pub use_in : Bytes → Metadata → State → Option EnvSet → Changed State
  use_in name meta store none = (store, err set_missing)
  use_in name meta store (some s) = (store, ok (record meta { active = name }))

  -- `putEntry` once the value is stored.
  unfoldable pub entry_stored :
      ℕ → Bytes → EnvSet → SetEntry → Metadata → State × Bool → Changed State
  entry_stored now name s e meta (store, true) = (store, err store_failed)
  entry_stored now name s e meta (store, false) = (
    store,
    ok (
        with_set name
          (record s {
            keys = add_key e.name s.keys;
            entries = sort_by_name (put_in_place now e s.entries);
          })
          meta),
  )

  unfoldable pub delete_dropped :
      Bytes → Bytes → EnvSet → Metadata → State × Dropped → Changed State
  delete_dropped name key s meta (store, dropped) = (
    store,
    ok (
        with_set name
          (record s { keys = without_key s.keys key; entries = without_entry key s.entries }) meta),
  )
  delete_dropped name key s meta (store, _) = (store, err store_failed)

  unfoldable pub removed : Bytes → Metadata → State × Bool → Changed State
  unfolding names
  removed name meta (store, true) = (store, err store_failed)
  removed name meta (store, false) =
      let sets = remove_key name meta.sets in
      (
        store,
        ok (record {
          sets = sets;
          active = if bytes_eq meta.active name then first_name (names sets) else meta.active;
        }),
      )

module _ {State : Type 0} ⦃vs : ValueStore State⦄ (scope : Bytes → Bytes) where
  unfoldable pub put_checked :
      ℕ
      → Bytes
      → EnvSet
      → SetEntry
      → Bytes
      → Metadata
      → State
      → Try EnvsetError (Unit {0})
      → Changed State
  unfolding entry_stored
  put_checked now name s e value meta store (err why) = (store, err why)
  put_checked now name s e value meta store (ok u) = entry_stored now name s e meta (
      if is_file_kind e.kind
      then vs.put_bytes (scope name) e.name value store
      else vs.put (scope name) e.name value store)

  unfoldable pub put_in :
      ℕ → Bytes → SetEntry → Bytes → Metadata → State → Option EnvSet → Changed State
  unfolding put_checked
  put_in now name e value meta store none = (store, err set_missing)
  put_in now name e value meta store (some s) =
      put_checked now name s (completed e) value meta store (
        guard (not (expired now s)) set_expired
        >> (validate_entry (completed e)
            >> guard (not (shares_target (completed e) s.entries)) shared_target))

  unfoldable pub delete_in : Bytes → Bytes → Metadata → State → Option EnvSet → Changed State
  unfolding delete_dropped
  delete_in name key meta store none = (store, err set_missing)
  delete_in name key meta store (some s) =
      delete_dropped name key s meta (vs.drop (scope name) key store)

  -- The values of the keys go, one after the other, until a failure that is not `ErrMissing`.
  unfoldable pub drop_all : Bytes → List Bytes → State → State × Bool
  drop_all scope [] store = (store, false)
  drop_all scope (key ∷ keys) store =
      let (store', end) = vs.drop scope key store in
      let more = drop_all scope keys store' in elim end [ drop_failed ↦ (store', true) | _ ↦ more ]

  unfoldable pub remove_in : Bytes → Metadata → State → Option EnvSet → Changed State
  unfolding removed drop_all
  remove_in name meta store none = (store, err set_missing)
  remove_in name meta store (some s) = removed name meta (drop_all (scope name) s.keys store)

  -- `Create`, `Use`, `PutEntry`, `DeleteKey` and `Remove`, inside `update`.
  unfoldable pub changed_by : ℕ → EnvsetCall → Metadata → State → Changed State
  unfolding create_set use_in put_in delete_in remove_in
  changed_by now (creating name temporary ttl) meta store =
      if valid_set_name name
      then create_set name (new_set name temporary now ttl) meta store (lookup_key name meta.sets)
      else (store, err invalid_name)
  changed_by now (using name) meta store = use_in name meta store (lookup_key name meta.sets)
  changed_by now (putting name e value) meta store =
      put_in now name e value meta store (lookup_key name meta.sets)
  changed_by now (deleting name key) meta store =
      delete_in name key meta store (lookup_key name meta.sets)
  changed_by now (removing name) meta store = remove_in name meta store (lookup_key name meta.sets)

  unfoldable pub run_call :
      Bool → ℕ → EnvsetCall → Metadata × State → (Metadata × State) × Try EnvsetError (Unit {0})
  unfolding committed changed_by
  run_call commits now c (file, store) = committed commits file (changed_by now c file store)

  -- `Get`
  unfoldable pub get_value : ℕ → Bytes → Bytes → Metadata → State → Try EnvsetError Bytes
  unfolding fetched
  get_value now name key meta store =
      live_set now (lookup_key name meta.sets) >>= λ s. fetched (vs.fetch (scope name) key store)

  -- `GetBytes`
  unfoldable pub get_bytes_value : ℕ → Bytes → Bytes → Metadata → State → Try EnvsetError Bytes
  unfolding fetched
  get_bytes_value now name key meta store = live_set now (lookup_key name meta.sets) >>= λ s.
      fetched (vs.fetch_bytes (scope name) key store)
