-- ===== src/Policy/Aliases.antt =====
-- internal/policy/policy.go: the loops of `Parse` over the commands of a document.
use ironrun.Prelude.{
  ℕ, suc, ◌≡◌, ◌≢◌, refl, ◌↔◌, inl, inr, true, not, List, [], ◌∷◌, Option, none, some, map,
  Bool-cases, In, All, Bytes, bytes_eq, bytes_eq_iff, contains, contains_iff, ok, guard, guard_iff,
  checked_iff, tested_iff, subst, arith, ltb, length,
}
use ironrun.Policy.Document.{Secret, Command, PolicyFile, version_2, lookup_key}
use ironrun.Policy.Names.{valid_env_target, valid_entry_name}
use ironrun.Policy.Parse.{
  bad_variable, repeated_secret, missing_id, duplicate_id, missing_argv, bad_entry,
  undeclared_secret, not_allowed, check_variables, check_declared, check_alias, check_aliases,
  check_commands,
}
use ironrun.Policy.Distinct.{Clear, Clear-iff, not_seen_iff}
use ironrun.Policy.WellFormed.{AliasOk, CommandOk}

check_variables_iff :
    (id : Bytes) (m : List (Bytes × Bytes))
    → (check_variables id m ≡ ok tt) ↔ All (λ (p : Bytes × Bytes). valid_env_target p.0 ≡ true) m
unfolding check_variables
check_variables_iff id [] = (λ h. tt, λ h. refl)
check_variables_iff id ((name, ref) ∷ m) =
    checked_iff (guard (valid_env_target name) (bad_variable id name)) (check_variables id m)
      (guard_iff (valid_env_target name) (bad_variable id name)) (check_variables_iff id m)

given_iff : (s : Bytes) → (not (bytes_eq s []) ≡ true) ↔ (s ≢ [])
unfolding bytes_eq
given_iff [] = (λ h. cc, λ h. absurd (h refl))
given_iff (c ∷ cs) = (λ h e. cc, λ h. refl)

check_declared_iff :
    (id alias : Bytes) (o : Option Secret)
    → (check_declared id alias o ≡ ok tt)
      ↔ ((s : Secret) × (o ≡ some s) × (s.env ≢ []) × In id s.allow)
unfolding check_declared
check_declared_iff id alias none = (λ h. cc, λ h. cc)
check_declared_iff id alias (some s) =
    let both =
      checked_iff (guard (not (bytes_eq s.env [])) (undeclared_secret id alias))
        (guard (contains s.allow id) (not_allowed id alias))
        (tested_iff _ (undeclared_secret id alias) (given_iff s.env))
        (tested_iff _ (not_allowed id alias) (contains_iff s.allow id)) in
    (
      (λ h. let (given, allowed) = both.0 h in (s, refl, given, allowed)),
      λ (t, same, given, allowed).
          let back : t ≡ s = cc in
          both.1 (subst (λ (u : Secret). (u.env ≢ []) × In id u.allow) back (given, allowed)),
    )

check_alias_iff :
    (f : PolicyFile) (id alias : Bytes) → (check_alias f id alias ≡ ok tt) ↔ AliasOk f id alias
unfolding check_alias
check_alias_iff f id alias = elim (Bool-cases (bytes_eq f.version version_2)) [
  | inl e ↦
      let same = (bytes_eq_iff f.version version_2).0 e in
      let test = guard_iff (valid_entry_name alias) (bad_entry id alias) in
      (
        (λ h. record { entry = λ _. test.0 (rw e at h); declared = λ no. absurd (no same) }),
        λ a. rw e (test.1 (a.entry same)),
      )
  | inr e ↦
      let other : f.version ≢ version_2 =
        λ same. let yes = (bytes_eq_iff f.version version_2).1 same in cc in
      let test = check_declared_iff id alias (lookup_key alias f.secrets) in
      (
        (λ h. record { entry = λ same. absurd (other same); declared = λ _. test.0 (rw e at h) }),
        λ a. rw e (test.1 (a.declared other)),
      )
]

check_aliases_iff :
    (f : PolicyFile) (id : Bytes) (seen aliases : List Bytes)
    → (check_aliases f id seen aliases ≡ ok tt) ↔ (Clear seen aliases × All (AliasOk f id) aliases)
unfolding check_aliases
check_aliases_iff f id seen [] = (λ h. (tt, tt), λ h. refl)
check_aliases_iff f id seen (alias ∷ rest) =
    let loop =
      checked_iff (guard (not (contains seen alias)) (repeated_secret id alias)) _
        (tested_iff _ (repeated_secret id alias) (not_seen_iff seen alias))
        (checked_iff (check_alias f id alias) (check_aliases f id (alias ∷ seen) rest)
          (check_alias_iff f id alias) (check_aliases_iff f id (alias ∷ seen) rest)) in
    (
      (λ h. let (new, (good, (clear, all))) = loop.0 h in ((new, clear), (good, all))),
      λ ((new, clear), (good, all)). loop.1 (new, (good, (clear, all))),
    )

pub nonempty_iff : {A : Type 0} (xs : List A) → (ltb 0 (length xs) ≡ true) ↔ (xs ≢ [])
nonempty_iff [] = (λ h. cc, λ h. absurd (h refl))
nonempty_iff (x ∷ xs) = ((λ h e. cc), λ h. ground arith)

-- What the loop over the commands asks.
abbrev pub CommandsOk : PolicyFile → List Bytes → List Command → Type 0
CommandsOk f seen cs = Clear seen (map (λ (c : Command). c.id) cs) × All (CommandOk f) cs

pub check_commands_iff :
    (f : PolicyFile) (i : ℕ) (seen : List Bytes) (cs : List Command)
    → (check_commands f i seen cs ≡ ok tt) ↔ CommandsOk f seen cs
unfolding check_commands
check_commands_iff f i seen [] = (λ h. (tt, tt), λ h. refl)
check_commands_iff f i seen (c ∷ cs) =
    let loop =
      checked_iff (guard (not (bytes_eq c.id [])) (missing_id i)) _
        (tested_iff _ (missing_id i) (given_iff c.id))
        (checked_iff (guard (not (contains seen c.id)) (duplicate_id c.id)) _
          (tested_iff _ (duplicate_id c.id) (not_seen_iff seen c.id))
          (checked_iff (guard (ltb 0 (length c.argv)) (missing_argv c.id)) _
            (tested_iff _ (missing_argv c.id) (nonempty_iff c.argv))
            (checked_iff (check_variables c.id c.env) _ (check_variables_iff c.id c.env) (
              checked_iff (check_aliases f c.id [] c.secrets)
                (check_commands f (suc i) (c.id ∷ seen) cs) (check_aliases_iff f c.id [] c.secrets)
                (check_commands_iff f (suc i) (c.id ∷ seen) cs))))) in
    (
      (λ h.
          let (id, (new, (argv, (vars, ((apart, aliases), (clear, all)))))) = loop.0 h in
          (
            (new, clear),
            (
              record {
                id_given = id;
                argv_given = argv;
                variables_ok = vars;
                aliases_distinct = (Clear-iff c.secrets).0 apart;
                aliases_ok = aliases;
              },
              all,
            ),
          )),
      λ ((new, clear), (c_ok, all)). loop.1 (
        c_ok.id_given,
        (
          new,
          (
            c_ok.argv_given,
            (
              c_ok.variables_ok,
              (((Clear-iff c.secrets).1 c_ok.aliases_distinct, c_ok.aliases_ok), (clear, all)),
            ),
          ),
        ),
      ),
    )
