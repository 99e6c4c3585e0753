-- ===== src/Audit/Logger.antt =====
-- internal/audit/audit.go: `Open` and `Append`. A disabled log (`nil`) is `none`. What the system does
-- around one call is an argument: whether the lock is got and how much of the line is written.
use ironrun.Prelude.{
  ℕ, List, [], ◌∷◌, ◌++◌, Option, none, some, ltb, if◌then◌else◌, length, take, Bytes, Try, ok, err,
  ◌>>=◌,
}
use ironrun.Audit.Entry.{Entry, Coding, schema_version}
use ironrun.Audit.Log.{
  AuditError, lock_failed, write_failed, tampered, newline, compute_hash, verify, last_hash,
}
use ironrun.Audit.Scrub.{scrub_secrets}

pub data Outcome : Type 0 where
  no_lock whole : Outcome
  partly : ℕ → Outcome

module _ (k : Coding) (json_escapes : Bytes → List Bytes) where
  unfoldable pub scrubbed : Entry → Entry
  scrubbed e =
      if ltb 0 (length e.scrub_values)
      then record e { argv = scrub_secrets json_escapes e.argv e.scrub_values; scrub_values = [] }
      else e

  -- The record that `Append` writes after one with the hash `prev`.
  unfoldable pub linked : Bytes → Entry → Entry
  linked prev e =
      let e' = record e { schema = schema_version; prev_hash = prev } in
      record e' { hash = compute_hash k e' }

  unfoldable pub write_line : Outcome → Bytes → Bytes → Bytes × Try AuditError (Unit {0})
  write_line no_lock file line = (file, err lock_failed)
  write_line (partly n) file line = (file ++ take n line, err write_failed)
  write_line whole file line = (file ++ line, ok tt)

  unfoldable pub append_after :
      Outcome → Bytes → Entry → Try AuditError Bytes → Bytes × Try AuditError (Unit {0})
  unfolding write_line linked
  append_after outcome file e (err why) = (file, err why)
  append_after outcome file e (ok prev) =
      write_line outcome file (k.marshal (linked prev e) ++ newline ∷ [])

  unfoldable pub append : Entry → Outcome → Bytes → Bytes × Try AuditError (Unit {0})
  unfolding append_after scrubbed
  append e no_lock file = (file, err lock_failed)
  append e whole file = append_after whole file (scrubbed e) (last_hash k file)
  append e (partly n) file = append_after (partly n) file (scrubbed e) (last_hash k file)

-- `Open` of a log that is not disabled: whether the chain of the file is intact.
unfoldable pub refuse_broken : Option ℕ → Try AuditError (Unit {0})
refuse_broken none = ok tt
refuse_broken (some n) = err (tampered n)

unfoldable pub open_log : Coding → Bytes → Try AuditError (Unit {0})
unfolding refuse_broken
open_log k file = do broken ← verify k file; refuse_broken broken
