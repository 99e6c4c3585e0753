-- ===== src/Envset/Tests.antt =====
-- internal/envset/manager.go: a store of values as an association list, a set that holds one entry, and
-- the theorem there.
use ironrun.Prelude.{
  ℕ, Bool, List, leb, ◌≡◌, ◌∙◌, inl, inr, refl, sym, ap, true, false, [], ◌∷◌, ◌++◌, none, some,
  Bytes, codes, ok, err, bytes_eq, trim_space, contains,
}
use ironrun.Policy.Document.{lookup_key}
use ironrun.Vault.Document.{Map, put_key, remove_key}
use ironrun.Envset.Sets.{
  valid_set_name, is_file_kind, SetEntry, EnvSet, Metadata, environment_kind, shared_target,
  add_key, expired, kind_or_default, shares_target, sort_by_name, target_or_name, validate_entry,
  put_in_place, sort_keys,
}
use ironrun.Envset.Manager.{
  new_set, ValueStore, dropped, putting, removing, run_call, get_value, live_set,
}
use ironrun.Envset.Entries.{Apart, AllApart}
use ironrun.Envset.Sequences.{ManagerCall, calling, cloning, pruning, manage}
use ironrun.Envset.Histories.{managed, managed-AllApart}
use ironrun.Envset.Dotenv.{DotenvFile, parse_dotenv, parse_text, duplicate_key}
use ironrun.Envset.Imported.{IsFresh, parse_dotenv-IsFresh}
use ironrun.Policy.Names.{every, is_entry_byte, valid_env_target}
use ironrun.Audit.Log.{lines}
use ironrun.Redact.Match.{has_prefix}

instance abbrev values : ValueStore (Map Bytes)
values = record {
  put = λ scope key value store. (put_key (scope ++ key) value store, false);
  put_bytes = λ scope key value store. (store, true);
  fetch = λ scope key store. lookup_key (scope ++ key) store;
  fetch_bytes = λ scope key store. none;
  drop = λ scope key store. (remove_key (scope ++ key) store, dropped);
}

abbrev scoped : Bytes → Bytes
scoped name = codes "p/" ++ name

abbrev token : SetEntry
token = record {
  name = codes "token";
  kind = environment_kind;
  target = codes "TOKEN";
  filename = [];
  created_at = 1;
  updated_at = 1;
}

abbrev dev : EnvSet
dev = record {
  name = codes "dev";
  temporary = false;
  created_at = 1;
  expires_at = none;
  keys = codes "token" ∷ [];
  entries = token ∷ [];
}

abbrev file : Metadata
file = record { active = codes "dev"; sets = (codes "dev", dev) ∷ [] }

abbrev store : Map Bytes
store = (codes "p/devtoken", codes "old") ∷ []

abbrev with_name : Bytes → SetEntry
with_name name = record token { name = name }

-- A second entry for the same variable is refused, and its value does not reach the store.
refuses_shared :
    run_call scoped true 5
      (putting (codes "dev") (with_name (codes "other")) (codes "x"))
      (file, store)
    ≡ ((file, store), err shared_target)
unfolding run_call lookup_key bytes_eq expired validate_entry trim_space every is_entry_byte
    kind_or_default valid_env_target target_or_name shares_target
refuses_shared = refl

-- An entry of the same name is replaced, keeps its time of creation, and its new value is read.
replaces : run_call scoped true 5 (putting (codes "dev") token (codes "x")) (file, store) ≡ (
  (
    record file {
      sets = (codes "dev", record dev { entries = record token { updated_at = 5 } ∷ [] }) ∷ [];
    },
    (codes "p/devtoken", codes "x") ∷ [],
  ),
  ok tt,
)
unfolding run_call lookup_key bytes_eq expired validate_entry trim_space every is_entry_byte
    kind_or_default valid_env_target target_or_name shares_target put_key add_key sort_by_name
    contains put_in_place
replaces = refl

reads : get_value scoped 5 (codes "dev") (codes "token") file store ≡ ok (codes "old")
unfolding get_value live_set lookup_key bytes_eq expired
reads = refl

-- The set goes with its values, and no set is active.
removes :
    run_call scoped true 5 (removing (codes "dev")) (file, store)
    ≡ ((record { active = []; sets = [] }, []), ok tt)
unfolding run_call lookup_key bytes_eq sort_keys remove_key
removes = refl

a_name : (e : SetEntry) → e ≡ token → e.name ≡ token.name
a_name e a = ap (λ (x : SetEntry). x.name) a

file_AllApart : AllApart file.sets
unfolding AllApart Apart
file_AllApart = (
  (λ e f me mf t. elim me [
    | inl a ↦ elim mf [ inl b ↦ a_name e a ∙ sym (a_name f b) | inr n ↦ absurd n ]
    | inr n ↦ absurd n
  ]),
  tt,
)

abbrev calls : List ((ℕ → Bool × ℕ) × ManagerCall)
calls =
    (
      (λ n. (true, 5)),
      calling (
          putting (codes "dev") (record token { name = codes "key"; target = codes "KEY" })
            (codes "x")),
    )
    ∷ ((λ n. (leb n 1, 6)), cloning (codes "dev") (codes "staging"))
    ∷ ((λ n. (true, 7)), pruning)
    ∷ []

managed-AllApart_example : AllApart (managed scoped calls (file, store)).0.sets
managed-AllApart_example = managed-AllApart scoped calls (file, store) file_AllApart

-- The copy of a set has its entry, with the time of the copy, and its value.
clones :
    (manage scoped (λ n. (true, 5)) (cloning (codes "dev") (codes "new")) (file, store)).0.1
    ≡ (codes "p/devtoken", codes "old") ∷ (codes "p/newtoken", codes "old") ∷ []
unfolding manage run_call lookup_key bytes_eq valid_set_name trim_space every is_entry_byte
    is_file_kind live_set put_key expired new_set validate_entry kind_or_default valid_env_target
    target_or_name shares_target add_key sort_by_name contains put_in_place
clones = refl

abbrev dotenv : DotenvFile
dotenv = record {
  is_regular = true;
  is_owner_only = true;
  is_inside = false;
  text = codes "# a\nA = 'x\ny'\nB=z\n";
}

-- A value in quotes may take more than one line.
parses :
    parse_dotenv false (some dotenv)
    ≡ ok (
        record { key = codes "A"; value = codes "x\ny" }
        ∷ record { key = codes "B"; value = codes "z" }
        ∷ [])
unfolding parse_dotenv lines bytes_eq has_prefix every is_entry_byte
parses = refl

-- A key that comes twice is refused.
refuses_twice : parse_text (codes "A=1\nA=2") ≡ err duplicate_key
unfolding parse_text lines bytes_eq has_prefix every is_entry_byte
refuses_twice = refl

-- A backslash and an n stand for a line break, but not in single quotes.
replaces_escapes :
    parse_text (codes "A=1\\n2\nB='1\\n2'")
    ≡ ok (
        record { key = codes "A"; value = codes "1\n2" }
        ∷ record { key = codes "B"; value = codes "1\\n2" }
        ∷ [])
unfolding parse_text lines bytes_eq has_prefix every is_entry_byte
replaces_escapes = refl

parse_dotenv-IsFresh_example : IsFresh [] (
    record { key = codes "A"; value = codes "x\ny" }
    ∷ record { key = codes "B"; value = codes "z" }
    ∷ [])
parse_dotenv-IsFresh_example =
    parse_dotenv-IsFresh false (some dotenv)
      (record { key = codes "A"; value = codes "x\ny" }
        ∷ record { key = codes "B"; value = codes "z" }
        ∷ [])
      parses
