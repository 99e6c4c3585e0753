-- ===== src/Access/Store.antt =====
-- internal/access/access.go: the state file (`load`, `mutate`, `saveAtomic`, `withLock`). What the
-- clock, the random source, the lock directory and the disk do in one call is its `Env`; each
-- method runs under the lock, so it is one step from a file to a file.
use ironrun.Prelude.{
  ℕ, Bool, not, ◌&&◌, List, [], ◌∷◌, ◌++◌, Option, none, some, ◌==◌, if◌then◌else◌, Bytes, ltb,
}
use ironrun.Access.State.{
  State, state_version, Error, unreadable, unsupported_version, lock_timeout, save_failed,
  no_randomness, Result, ok, err, ◌>>=◌,
}

-- How `saveAtomic` ends: the renamed file is in place; it is in place and a last step failed; or
-- a step before the rename failed.
pub data Save : Type 0 where
  saved saved_with_error not_saved : Save

-- `fresh` is the hexadecimal text of twelve random bytes, or none if the source fails.
pub record Env : Type 0 where
  pub now : ℕ
  pub locked : Bool
  pub fresh : Option Bytes
  pub save : Save

-- The file: none, one that cannot be read or parsed, or a state.
pub data File : Type 0 where
  absent broken : File
  stored : State → File

abbrev pub empty_state : State
empty_state = record { version = state_version; requests = []; leases = []; workspace_grants = [] }

unfoldable pub load : File → Result State
load absent = ok empty_state
load broken = err unreadable
load (stored st) =
    if not (st.version == 1) && not (st.version == state_version)
    then err unsupported_version
    else ok (record st { version = state_version })

unfoldable pub save_atomic {ℓ} : {A : Type ℓ} → Save → File → State → A → File × Result A
save_atomic saved file st a = (stored st, ok a)
save_atomic saved_with_error file st a = (stored st, err save_failed)
save_atomic not_saved file st a = (file, err save_failed)

-- What `fn` returns beside a nil error is saved; after an error the file is as it was.
unfoldable pub commit {ℓ} : {A : Type ℓ} → Save → File → Result (State × A) → File × Result A
unfolding save_atomic
commit outcome file (ok (st, a)) = save_atomic outcome file st a
commit outcome file (err e) = (file, err e)

unfoldable pub mutate {ℓ} :
    {A : Type ℓ} → (State → Result (State × A)) → Env → File → File × Result A
unfolding load commit
mutate fn env file =
    if env.locked then commit env.save file (load file >>= fn) else (file, err lock_timeout)

-- `randomID`
unfoldable pub random_id : Bytes → Env → Result Bytes
random_id prefix env = elim env.fresh [
  | none ↦ err no_randomness
  | some hex ↦ ok (prefix ++ (b'_' ∷ hex))
]

-- `sort.Slice` by creation, the latest first.
module _ {A : Type 0} (created_at : A → ℕ) where
  insert_newest : A → List A → List A
  insert_newest a [] = a ∷ []
  insert_newest a (b ∷ bs) =
      let later = insert_newest a bs in
      if ltb (created_at a) (created_at b) then b ∷ later else a ∷ b ∷ bs

  unfoldable pub newest_first : List A → List A
  unfolding insert_newest
  newest_first [] = []
  newest_first (a ∷ rest) = insert_newest a (newest_first rest)

-- The first record that `is_it` picks is replaced by what `change` makes of it.
unfoldable pub update_first :
    {A B : Type 0} → (A → Bool) → (A → Result (A × B)) → List A → Result (List A × B)
update_first is_it change [] = err Error.not_found
update_first is_it change (a ∷ rest) =
    let here = (do (a', b) ← change a; ok (a' ∷ rest, b)) in
    let later = (do (rest', b) ← update_first is_it change rest; ok (a ∷ rest', b)) in
    if is_it a then here else later
