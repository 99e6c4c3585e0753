-- ===== src/Envset/Sets.antt =====
-- internal/envset/manager.go: the metadata, and the checks of names, targets and entries. Times are
-- numbers of nanoseconds; `Keys` mirrors the names of the entries.
use ironrun.Prelude.{
  ℕ, Bool, true, false, not, ◌&&◌, ◌||◌, List, [], ◌∷◌, ◌++◌, Option, none, some, ltb,
  if◌then◌else◌, Bytes, codes, bytes_eq, bytes_le, contains, trim_space, Try, guard, only_if, ◌>>◌,
}
use ironrun.Policy.Names.{valid_env_target, every, is_entry_byte}
use ironrun.Policy.Paths.{base}
use ironrun.Vault.Document.{Map}

pub data EntryKind : Type 0 where
  environment_kind file_kind no_kind : EntryKind
  other_kind : Bytes → EntryKind

pub record SetEntry : Type 0 where
  pub name : Bytes
  pub kind : EntryKind
  pub target : Bytes
  pub filename : Bytes
  pub created_at : ℕ
  pub updated_at : ℕ

pub record EnvSet : Type 0 where
  pub name : Bytes
  pub temporary : Bool
  pub created_at : ℕ
  pub expires_at : Option ℕ
  pub keys : List Bytes
  pub entries : List SetEntry

-- `Metadata`, of the project that the manager was opened for.
pub record Metadata : Type 0 where
  pub active : Bytes
  pub sets : Map EnvSet

pub data EnvsetError : Type 0 where
  invalid_name invalid_kind invalid_target unsafe_filename : EnvsetError
  set_missing set_exists set_expired no_active shared_target : EnvsetError
  store_failed not_committed : EnvsetError

unfoldable pub has_expired : ℕ → Option ℕ → Bool
has_expired now none = false
has_expired now (some at) = not (ltb now at)

-- `Expired`
unfoldable pub expired : ℕ → EnvSet → Bool
unfolding has_expired
expired now s = has_expired now s.expires_at

unfoldable pub kind_or_default : EntryKind → EntryKind
kind_or_default no_kind = environment_kind
kind_or_default kind = kind

unfoldable pub target_or_name : SetEntry → Bytes
target_or_name e = if bytes_eq e.target [] then e.name else e.target

unfoldable pub is_kind : EntryKind → Bool
is_kind environment_kind = true
is_kind file_kind = true
is_kind _ = false

unfoldable pub is_file_kind : EntryKind → Bool
is_file_kind file_kind = true
is_file_kind _ = false

unfoldable pub safe_filename : Bytes → Bool
safe_filename name =
    not (bytes_eq name [])
    && (bytes_eq (base name) name
        && (not (bytes_eq name (codes ".")) && not (bytes_eq name (codes ".."))))

-- `validateName` of internal/envset/store.go; the white space around a name is not looked at.
unfoldable pub valid_set_name : Bytes → Bool
valid_set_name name =
    let text = trim_space name in not (bytes_eq text []) && every is_entry_byte text

-- `validateEntry` of an entry whose kind is set.
unfoldable pub validate_entry : SetEntry → Try EnvsetError (Unit {0})
unfolding valid_set_name is_kind is_file_kind safe_filename
validate_entry e =
    guard (valid_set_name e.name) invalid_name
    >> (guard (is_kind e.kind) invalid_kind
        >> (guard (valid_env_target e.target) invalid_target
            >> only_if (is_file_kind e.kind) (guard (safe_filename e.filename) unsafe_filename)))

-- The loop of `putEntry` over the entries of the set.
unfoldable pub shares_target : SetEntry → List SetEntry → Bool
shares_target e [] = false
shares_target e (x ∷ xs) =
    (not (bytes_eq x.name e.name) && bytes_eq x.target e.target) || shares_target e xs

-- The entry in place of the first of its name, which keeps its time of creation, or at the end.
unfoldable pub put_in_place : ℕ → SetEntry → List SetEntry → List SetEntry
put_in_place now e [] = record e { created_at = now; updated_at = now } ∷ []
put_in_place now e (x ∷ xs) =
    let later = put_in_place now e xs in
    if bytes_eq x.name e.name
    then record e { created_at = x.created_at; updated_at = now } ∷ xs
    else x ∷ later

-- `sort.Slice` by name.
unfoldable pub insert_by_name : SetEntry → List SetEntry → List SetEntry
insert_by_name e [] = e ∷ []
insert_by_name e (x ∷ xs) =
    let later = insert_by_name e xs in if bytes_le e.name x.name then e ∷ x ∷ xs else x ∷ later

unfoldable pub sort_by_name : List SetEntry → List SetEntry
unfolding insert_by_name
sort_by_name [] = []
sort_by_name (e ∷ es) = insert_by_name e (sort_by_name es)

unfoldable pub insert_key : Bytes → List Bytes → List Bytes
insert_key n [] = n ∷ []
insert_key n (m ∷ ms) =
    let later = insert_key n ms in if bytes_le n m then n ∷ m ∷ ms else m ∷ later

-- `append` and `sort.Strings` for a key that is new.
unfoldable pub sort_keys : List Bytes → List Bytes
unfolding insert_key
sort_keys [] = []
sort_keys (n ∷ ns) = insert_key n (sort_keys ns)

unfoldable pub add_key : Bytes → List Bytes → List Bytes
unfolding sort_keys
add_key key keys = if contains keys key then keys else sort_keys (keys ++ key ∷ [])

-- The loop of `deleteKey`: the first entry of the name goes.
unfoldable pub without_entry : Bytes → List SetEntry → List SetEntry
without_entry key [] = []
without_entry key (x ∷ xs) =
    let later = without_entry key xs in if bytes_eq x.name key then xs else x ∷ later

-- `remove`
unfoldable pub without_key : List Bytes → Bytes → List Bytes
without_key [] want = []
without_key (v ∷ vs) want =
    let later = without_key vs want in if bytes_eq v want then later else v ∷ later

-- The loop of `Entry`.
unfoldable pub find_entry : Bytes → List SetEntry → Option SetEntry
find_entry key [] = none
find_entry key (x ∷ xs) =
    let later = find_entry key xs in if bytes_eq x.name key then some x else later
