-- ===== src/Pending/Store.antt =====
-- internal/pending/pending.go: the store and its operations. `Env` is a map: here the list of its
-- bindings by key, so that equal maps are equal lists, and the empty list for `nil`, which is what
-- the callers pass and what the file gives back for an empty map.
use ironrun.Prelude.{
  Bool, true, false, ◌&&◌, List, [], ◌∷◌, ◌++◌, Option, none, some, if◌then◌else◌, Bytes, bytes_eq,
  bytes_le, Try, ok, err, guard, ◌>>=◌, ◌>>◌,
}

pub record Proposal : Type 0 where
  pub id : Bytes
  pub argv : List Bytes
  pub env : List (Bytes × Bytes)
  pub reason : Bytes
  pub proposed_at : Bytes
  pub status : Bytes

abbrev pub Proposals : Type 0
Proposals = List Proposal

-- The pending file.
pub data PendingFile : Type 0 where
  no_store broken : PendingFile
  holds : Proposals → PendingFile

pub data PendingError : Type 0 where
  conflict locked unreadable_store unsaved : PendingError

-- What happens around one transaction: whether the lock is got, and whether the save ends well.
pub record Transaction : Type 0 where
  pub lock_got : Bool
  pub saves : Bool

unfoldable pub load_store : PendingFile → Try PendingError Proposals
load_store no_store = ok []
load_store broken = err unreadable_store
load_store (holds ps) = ok ps

unfoldable pub find : Bytes → Proposals → Option Proposal
find id [] = none
find id (p ∷ ps) = let later = find id ps in if bytes_eq p.id id then some p else later

-- `sort.Slice` by id.
unfoldable pub insert_by_id : Proposal → Proposals → Proposals
insert_by_id p [] = p ∷ []
insert_by_id p (q ∷ qs) =
    let later = insert_by_id p qs in if bytes_le p.id q.id then p ∷ q ∷ qs else q ∷ later

unfoldable pub sort_by_id : Proposals → Proposals
unfolding insert_by_id
sort_by_id [] = []
sort_by_id (p ∷ ps) = insert_by_id p (sort_by_id ps)

-- The loop of `Upsert`, where it finds the id.
unfoldable pub replace_in : Proposal → Proposals → Option Proposals
replace_in p [] = none
replace_in p (q ∷ qs) =
    let later = replace_in p qs in
    if bytes_eq q.id p.id
    then some (p ∷ qs)
    else elim later [ none ↦ none | some rest ↦ some (q ∷ rest) ]

unfoldable pub replaced_or : Option Proposals → Proposals → Proposals
replaced_or none sorted = sorted
replaced_or (some ps) sorted = ps

unfoldable pub upsert : Proposal → Proposals → Proposals
unfolding replace_in replaced_or
upsert p ps = replaced_or (replace_in p ps) (sort_by_id (ps ++ p ∷ []))

unfoldable pub remove : Bytes → Proposals → Proposals × Option Proposal
remove id [] = ([], none)
remove id (p ∷ ps) =
    let rest = remove id ps in if bytes_eq p.id id then (ps, some p) else (p ∷ rest.0, rest.1)

unfoldable pub texts_eq : List Bytes → List Bytes → Bool
texts_eq [] [] = true
texts_eq (a ∷ more) (b ∷ bs) = bytes_eq a b && texts_eq more bs
texts_eq _ _ = false

unfoldable pub bindings_eq : List (Bytes × Bytes) → List (Bytes × Bytes) → Bool
bindings_eq [] [] = true
bindings_eq ((k, v) ∷ m) ((l, w) ∷ n) = bytes_eq k l && (bytes_eq v w && bindings_eq m n)
bindings_eq _ _ = false

unfoldable pub same_content : Proposal → Proposal → Bool
unfolding texts_eq bindings_eq
same_content p q = texts_eq p.argv q.argv && (bindings_eq p.env q.env && bytes_eq p.reason q.reason)

-- `Update`: `fn` runs under the lock on what the file holds; after an error nothing is saved.
unfoldable pub save :
    {A : Type 0}
    → Transaction
    → PendingFile
    → Try PendingError (Proposals × A)
    → PendingFile × Try PendingError A
save t file (err why) = (file, err why)
save t file (ok (ps, a)) = if t.saves then (holds ps, ok a) else (file, err unsaved)

unfoldable pub update :
    {A : Type 0}
    → (Proposals → Try PendingError (Proposals × A))
    → Transaction
    → PendingFile
    → PendingFile × Try PendingError A
unfolding save load_store
update fn t file =
    if t.lock_got then save t file (do ps ← load_store file; fn ps) else (file, err locked)

-- The body of `Create`.
unfoldable pub create_found :
    Option Proposal → Proposal → Proposals → Try PendingError (Proposals × Proposal)
unfolding upsert
create_found none p ps = ok (upsert p ps, p)
create_found (some existing) p ps = do guard (same_content existing p) conflict; ok (ps, existing)

unfoldable pub create_proposal : Proposal → Proposals → Try PendingError (Proposals × Proposal)
unfolding create_found find
create_proposal p ps = create_found (find p.id ps) p ps

unfoldable pub create :
    Proposal → Transaction → PendingFile → PendingFile × Try PendingError Proposal
unfolding update create_proposal
create p = update (create_proposal p)
