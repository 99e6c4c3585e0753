-- ===== src/Policy/Validated.antt =====
-- internal/policy/policy.go: `Parse` as a whole.
use ironrun.Prelude.{
  ◌≡◌, sym, subst, ap, ◌↔◌, ◌⊎◌, true, ◌||◌, [], Option, none, some, ltb, length, Bytes, bytes_eq,
  bytes_eq_iff, ok, guard, checked_iff, tested_iff, arith,
}
use ironrun.Policy.Document.{PolicyFile, version_1, version_2}
use ironrun.Policy.Parse.{
  bad_version, no_commands, check_secrets, check_commands, validate, decoded, parse,
}
use ironrun.Policy.Distinct.{Clear-iff}
use ironrun.Policy.WellFormed.{WellFormed}
use ironrun.Policy.Aliases.{check_commands_iff, nonempty_iff}
use ironrun.Policy.Sound.{check_secrets_iff}

version_iff :
    (f : PolicyFile)
    → (bytes_eq f.version version_1 || bytes_eq f.version version_2 ≡ true)
      ↔ ((f.version ≡ version_1) ⊎ (f.version ≡ version_2))
version_iff f = ground (arith, bytes_eq_iff f.version version_1, bytes_eq_iff f.version version_2)

validate_iff : (f g : PolicyFile) → (validate f ≡ ok g) ↔ (WellFormed f × (f ≡ g))
unfolding validate
validate_iff f g =
    let all =
      checked_iff (guard (bytes_eq f.version version_1 || bytes_eq f.version version_2) bad_version)
        _ (tested_iff _ bad_version (version_iff f))
        (checked_iff (guard (ltb 0 (length f.commands)) no_commands) _
          (tested_iff _ no_commands (nonempty_iff f.commands))
          (checked_iff (check_secrets ([], []) f.secrets) _ (check_secrets_iff ([], []) f.secrets) (
            checked_iff (check_commands f 0 [] f.commands) (ok f)
              (check_commands_iff f 0 [] f.commands) ((λ h. cc), λ h. ap ok h)))) in
    (
      (λ h.
          let (version, (given, ((secrets, (safe, (targets, names))), ((ids, commands), same)))) =
            all.0 h in
          (
            record {
              version_known = version;
              commands_given = given;
              secrets_ok = secrets;
              names_safe = safe;
              targets_distinct = (Clear-iff _).0 targets;
              filenames_distinct = (Clear-iff _).0 names;
              ids_distinct = (Clear-iff _).0 ids;
              commands_ok = commands;
            },
            same,
          )),
      λ (w, same). all.1 (
        w.version_known,
        (
          w.commands_given,
          (
            (
              w.secrets_ok,
              (
                w.names_safe,
                ((Clear-iff _).1 w.targets_distinct, (Clear-iff _).1 w.filenames_distinct),
              ),
            ),
            (((Clear-iff _).1 w.ids_distinct, w.commands_ok), same),
          ),
        ),
      ),
    )

decoded_iff :
    (o : Option PolicyFile) (f : PolicyFile) → (decoded o ≡ ok f) ↔ ((o ≡ some f) × WellFormed f)
unfolding decoded
decoded_iff none f = ((λ h. cc), λ h. cc)
decoded_iff (some g) f =
    let valid = validate_iff g f in
    (
      (λ h. let (w, same) = valid.0 h in (ap some same, subst WellFormed same w)),
      λ (same, w). let back : f ≡ g = cc in valid.1 (subst WellFormed back w, sym back),
    )

-- For any decoder: `Parse` accepts a text exactly when the text decodes to a well-formed document,
-- and gives that document.
pub parse_iff :
    (decode : Bytes → Option PolicyFile) (text : Bytes) (f : PolicyFile)
    → (parse decode text ≡ ok f) ↔ ((decode text ≡ some f) × WellFormed f)
unfolding parse
parse_iff decode text f = decoded_iff (decode text) f
