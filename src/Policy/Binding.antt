-- ===== src/Policy/Binding.antt =====
-- internal/policy/policy.go: what a policy that `Parse` accepted gives to the code that runs it.
use ironrun.Prelude.{
  ◌≡◌, ◌≢◌, refl, sym, subst, ap, ◌↔◌, ◌⊎◌, inl, inr, true, List, [], ◌∷◌, Option, some, map,
  Bool-cases, In, All-In, length, Bytes, bytes_eq, bytes_eq_iff, contains_iff, ok, guard, seq_iff,
  guard_iff, arith, ◌==◌, ℕ, suc, ==_iff,
}
use ironrun.Policy.Document.{Secret, Command, PolicyFile, version_2, lookup_key}
use ironrun.Policy.Parse.{parse}
use ironrun.Policy.Distinct.{Distinct}
use ironrun.Policy.WellFormed.{WellFormed, CommandOk, AliasOk}
use ironrun.Policy.Validated.{parse_iff}
use ironrun.Policy.Commands.{
  find_command, lookup, argument, argument_count, compare_args, authorize_argv,
  uses_environment_entries, names_entry, declared_binding, secret_binding,
}

accepted :
    (decode : Bytes → Option PolicyFile) (text : Bytes) (f : PolicyFile)
    → parse decode text ≡ ok f
    → WellFormed f
accepted decode text f e = ((parse_iff decode text f).0 e).1

In-map : {A B : Type 0} (f : A → B) (a : A) (xs : List A) → In a xs → In (f a) (map f xs)
In-map f a [] m = absurd m
In-map f a (x ∷ xs) (inl e) = inl (ap f e)
In-map f a (x ∷ xs) (inr m) = inr (In-map f a xs m)

find_command-Distinct :
    (cs : List Command) (c : Command)
    → Distinct (map (λ (d : Command). d.id) cs)
    → In c cs
    → find_command cs c.id ≡ some c
unfolding find_command
find_command-Distinct [] c apart m = absurd m
find_command-Distinct (d ∷ cs) c apart (inl e) =
    rw ((bytes_eq_iff d.id c.id).1 (ap (λ (x : Command). x.id) (sym e))) (ap some (sym e))
find_command-Distinct (d ∷ cs) c apart (inr m) = elim (Bool-cases (bytes_eq d.id c.id)) [
  | inl e ↦
      let twice = In-map (λ (x : Command). x.id) c cs m in
      absurd (
        apart.0 (
          subst (λ i. In i (map (λ (x : Command). x.id) cs)) (sym ((bytes_eq_iff d.id c.id).0 e))
            twice))
  | inr e ↦ rw e (find_command-Distinct cs c apart.1 m)
]

-- In a policy that `Parse` accepted, `Lookup` of a command's id gives that command.
lookup-parsed :
    (decode : Bytes → Option PolicyFile) (text : Bytes) (f : PolicyFile) (c : Command)
    → parse decode text ≡ ok f
    → In c f.commands
    → lookup f c.id ≡ some c
unfolding lookup
lookup-parsed decode text f c e m =
    find_command-Distinct f.commands c (accepted decode text f e).ids_distinct m

names_entry_complete :
    (cs : List Command) (c : Command) (name : Bytes)
    → In c cs
    → In name c.secrets
    → names_entry cs name ≡ true
unfolding names_entry
names_entry_complete [] c name m n = absurd m
names_entry_complete (d ∷ cs) c name (inl e) m =
    rw ((contains_iff d.secrets name).1 (subst (λ (x : Command). In name x.secrets) e m)) refl
names_entry_complete (d ∷ cs) c name (inr k) m =
    let later = names_entry_complete cs c name k m in ground arith

bound_secret : (s : Secret) → s.env ≢ [] → declared_binding (some s) ≡ some (s.env, s.store)
unfolding declared_binding
bound_secret s given = elim (Bool-cases (bytes_eq s.env [])) [
  | inl e ↦ absurd (given ((bytes_eq_iff s.env []).0 e))
  | inr e ↦ rw e refl
]

-- In a policy that `Parse` accepted, `SecretBinding` finds each name that a command uses: in version
-- 2 it is the entry itself; in version 1 it is the variable and the store of a declared secret that
-- allows the command.
pub secret_binding-parsed :
    (decode : Bytes → Option PolicyFile) (text : Bytes) (f : PolicyFile) (c : Command)
    (name : Bytes)
    → parse decode text ≡ ok f
    → In c f.commands
    → In name c.secrets
    → ((f.version ≡ version_2) × (secret_binding f name ≡ some (name, [])))
      ⊎ ((s : Secret) × (lookup_key name f.secrets ≡ some s)
          × In c.id s.allow
          × (secret_binding f name ≡ some (s.env, s.store)))
unfolding secret_binding uses_environment_entries declared_binding
secret_binding-parsed decode text f c name e m n =
    let well = accepted decode text f e in
    let good =
      All-In (AliasOk f c.id) c.secrets name
        (All-In (CommandOk f) f.commands c well.commands_ok m).aliases_ok n in
    elim (Bool-cases (bytes_eq f.version version_2)) [
      | inl v ↦ inl (
        (bytes_eq_iff f.version version_2).0 v,
        rw (v, names_entry_complete f.commands c name m n) refl,
      )
      | inr v ↦
          let other : f.version ≢ version_2 =
            λ same. let yes = (bytes_eq_iff f.version version_2).1 same in cc in
          let (s, declared, given, allowed) = good.declared other in
          inr (s, declared, allowed, rw (v, declared) (bound_secret s given))
    ]

compare_args_iff :
    (i : ℕ) (argv wanted : List Bytes)
    → length argv ≡ length wanted
    → (compare_args i argv wanted ≡ ok tt) ↔ (argv ≡ wanted)
unfolding compare_args
compare_args_iff i [] [] e = ((λ h. refl), λ h. refl)
compare_args_iff i [] (w ∷ ws) e = absurd (omega arith)
compare_args_iff i (a ∷ rest) [] e = absurd (omega arith)
compare_args_iff i (a ∷ args) (w ∷ ws) e =
    let rest = compare_args_iff (suc i) args ws (omega arith) in
    let test = guard_iff (bytes_eq a w) (argument i a w) in
    let chain = seq_iff (guard (bytes_eq a w) (argument i a w)) (compare_args (suc i) args ws) in
    let same = bytes_eq_iff a w in
    (
      (λ h. let (x, y) = chain.0 h in let p = same.0 (test.0 x) in let q = rest.0 y in cc),
      λ h. let p : a ≡ w = cc in let q : args ≡ ws = cc in chain.1 (test.1 (same.1 p), rest.1 q),
    )

-- `AuthorizeArgv` accepts an argument list exactly when it is the command's, argument by argument.
pub authorize_argv_iff :
    (c : Command) (argv : List Bytes) → (authorize_argv c argv ≡ ok tt) ↔ (argv ≡ c.argv)
unfolding authorize_argv
authorize_argv_iff c argv =
    let test =
      guard_iff (length argv == length c.argv) (argument_count (length argv) (length c.argv)) in
    let chain =
      seq_iff (guard (length argv == length c.argv) (argument_count (length argv) (length c.argv)))
        (compare_args 0 argv c.argv) in
    let count = ==_iff (length argv) (length c.argv) in
    (
      (λ h. let (x, y) = chain.0 h in (compare_args_iff 0 argv c.argv (count.0 (test.0 x))).0 y),
      λ h.
          let n : length argv ≡ length c.argv = ap length h in
          chain.1 (test.1 (count.1 n), (compare_args_iff 0 argv c.argv n).1 h),
    )
