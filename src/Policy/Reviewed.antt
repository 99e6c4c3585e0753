-- ===== src/Policy/Reviewed.antt =====
-- internal/policy/lint.go: which findings `Lint` reports for which commands.
use ironrun.Prelude.{
  ltb, length, ◌≡◌, ◌≢◌, refl, sym, ap, subst, ◌∙◌, ◌↔◌, ◌⊎◌, inl, inr, Bool, true, false, not,
  ◌&&◌, List, [], ◌∷◌, map, Bool-cases, In, In-append, In-of_append, Bytes, contains, arith,
  is_zero,
}
use ironrun.Policy.Document.{Command, PolicyFile, has_secrets, effective_no_network}
use ironrun.Policy.Paths.{base}
use ironrun.Policy.Shells.{is_shell_string}
use ironrun.Policy.Lint.{
  info, warn, severe, Code, shell_argv, interpreter_arbitrary, interpreter_eval, no_ttl,
  long_ttl_with_secrets, egress_with_secrets, network_default_deny, no_max_bytes, secret_in_argv,
  secret_spread, Finding, interpreters, when, finding, lint_interpreter, lint_ttl, lint_argv,
  looks_like_secret, lint_command, lint_commands, spread, spread_finding, ref_cmds, lint,
}

In-when : (x found : Finding) (test : Bool) → In x (when test found) → (test ≡ true) × (x ≡ found)
unfolding when
In-when x found true (inl e) = (refl, e)
In-when x found true (inr none_left) = absurd none_left
In-when x found false m = absurd m

In-of_when : (found : Finding) (test : Bool) → test ≡ true → In found (when test found)
unfolding when
In-of_when found true e = inl refl
In-of_when found false e = cc

-- The codes that the parts with several findings report.
argv-code :
    (x : Finding) (c : Command) (argv : List Bytes)
    → In x (lint_argv c argv)
    → x.code ≡ secret_in_argv
unfolding lint_argv finding
argv-code x c [] m = absurd m
argv-code x c (a ∷ argv) m =
    elim (In-of_append x (when (looks_like_secret a) (finding warn secret_in_argv c))
      (lint_argv c argv) m) [
        | inl here ↦ ap (λ (y : Finding). y.code) (In-when x _ _ here).1
        | inr later ↦ argv-code x c argv later
      ]

ttl-code :
    (x : Finding) (c : Command)
    → In x (lint_ttl c)
    → (x.code ≡ no_ttl) ⊎ (x.code ≡ long_ttl_with_secrets)
unfolding lint_ttl finding
ttl-code x c m = elim (Bool-cases (is_zero c.ttl)) [
  | inl e ↦ elim (rw e at m) [
    | inl same ↦ inl (ap (λ (y : Finding). y.code) same)
    | inr none_left ↦ absurd none_left
  ]
  | inr e ↦ inr (ap (λ (y : Finding). y.code) (In-when x _ _ (rw e at m)).1)
]

interpreter-code :
    (x : Finding) (c : Command) (argv : List Bytes)
    → In x (lint_interpreter c argv)
    → (x.code ≡ interpreter_arbitrary) ⊎ (x.code ≡ interpreter_eval)
unfolding lint_interpreter finding
interpreter-code x c [] m = absurd m
interpreter-code x c (a ∷ argv) m = elim (Bool-cases (contains interpreters (base a))) [
  | inl e ↦ elim (rw e at m) [
    | inl same ↦ inl (ap (λ (y : Finding). y.code) same)
    | inr more ↦ inr (ap (λ (y : Finding). y.code) (In-when x _ _ more).1)
  ]
  | inr e ↦ absurd (rw e at m)
]

-- A finding of a part whose code is another.
elsewhere :
    {A : Type 0} (k : Code) (x : Finding) (test : Bool) (found : Finding)
    → x.code ≡ k
    → found.code ≢ k
    → In x (when test found)
    → A
elsewhere k x test found same other m =
    absurd (other (sym (ap (λ (y : Finding). y.code) (In-when x found test m).1) ∙ same))

egress_test : Command → Bool
egress_test c = has_secrets c && not (effective_no_network c)

egress_from_command :
    (x : Finding) (c : Command)
    → x.code ≡ egress_with_secrets
    → In x (lint_command c)
    → (egress_test c ≡ true) × (x ≡ finding warn egress_with_secrets c)
unfolding lint_command egress_test finding
egress_from_command x c k m = elim (In-of_append x _ _ m) [
  | inl here ↦
      elsewhere egress_with_secrets x (is_shell_string c.argv) (finding severe shell_argv c) k
        (λ e. cc) here
  | inr m ↦ elim (In-of_append x (lint_interpreter c c.argv) _ m) [
    | inl here ↦ let codes = interpreter-code x c c.argv here in absurd (ground arith)
    | inr m ↦ elim (In-of_append x (lint_ttl c) _ m) [
      | inl here ↦ let codes = ttl-code x c here in absurd (ground arith)
      | inr m ↦ elim (In-of_append x _ _ m) [
        | inl here ↦ In-when x _ _ here
        | inr m ↦ elim (In-of_append x _ _ m) [
          | inl here ↦
              elsewhere egress_with_secrets x
                (has_secrets c && (not c.no_network && not c.allow_network))
                (finding warn network_default_deny c) k (λ e. cc) here
          | inr m ↦ elim (In-of_append x _ _ m) [
            | inl here ↦
                elsewhere egress_with_secrets x (has_secrets c && is_zero c.max_bytes)
                  (finding info no_max_bytes c) k (λ e. cc) here
            | inr m ↦ let code = argv-code x c c.argv m in cc
          ]
        ]
      ]
    ]
  ]
]

egress_found :
    (c : Command) → egress_test c ≡ true → In (finding warn egress_with_secrets c) (lint_command c)
unfolding lint_command egress_test
egress_found c e = In-append _ (when (is_shell_string c.argv) (finding severe shell_argv c)) _ (
    inr (
      In-append _ (lint_interpreter c c.argv) _ (
        inr (
          In-append _ (lint_ttl c) _ (
            inr (
              In-append _
                (when (has_secrets c && not (effective_no_network c))
                  (finding warn egress_with_secrets c))
                _ (inl (In-of_when (finding warn egress_with_secrets c) _ e))))))))

egress_from_commands :
    (x : Finding) (cs : List Command)
    → x.code ≡ egress_with_secrets
    → In x (lint_commands cs)
    → (c : Command) × In c cs × (egress_test c ≡ true) × (x ≡ finding warn egress_with_secrets c)
unfolding lint_commands
egress_from_commands x [] k m = absurd m
egress_from_commands x (c ∷ cs) k m = elim (In-of_append x (lint_command c) (lint_commands cs) m) [
  | inl here ↦ let (test, same) = egress_from_command x c k here in (c, inl refl, test, same)
  | inr later ↦
      let (d, stands, test, same) = egress_from_commands x cs k later in (d, inr stands, test, same)
]

egress_reported :
    (c : Command) (cs : List Command)
    → egress_test c ≡ true
    → In c cs
    → In (finding warn egress_with_secrets c) (lint_commands cs)
unfolding lint_commands
egress_reported c [] e m = absurd m
egress_reported c (d ∷ cs) e (inl same) = In-append _ (lint_command d) (lint_commands cs) (
    inl (
      subst (λ (u : Command). In (finding warn egress_with_secrets c) (lint_command u)) same
        (egress_found c e)))
egress_reported c (d ∷ cs) e (inr m) =
    In-append _ (lint_command d) (lint_commands cs) (inr (egress_reported c cs e m))

spread-code :
    (x : Finding) (refs : List Bytes) → In x (map spread_finding refs) → x.code ≡ secret_spread
unfolding spread_finding
spread-code x [] m = absurd m
spread-code x (r ∷ refs) (inl e) = ap (λ (y : Finding). y.code) e
spread-code x (r ∷ refs) (inr m) = spread-code x refs m

given_iff {ℓ} : {A : Type ℓ} (xs : List A) → (ltb 0 (length xs) ≡ true) ↔ (xs ≢ [])
given_iff [] = ((λ h. cc), λ h. absurd (h refl))
given_iff (x ∷ xs) = ((λ h e. cc), λ h. ground arith)

has_secrets_iff : (c : Command) → (has_secrets c ≡ true) ↔ ((c.env ≢ []) ⊎ (c.secrets ≢ []))
unfolding has_secrets
has_secrets_iff c = ground (arith, given_iff c.env, given_iff c.secrets)

-- A command with secrets has the network only when it is allowed and not blocked.
reachable_iff :
    (c : Command)
    → has_secrets c ≡ true
    → (effective_no_network c ≡ false) ↔ ((c.no_network ≡ false) × (c.allow_network ≡ true))
unfolding effective_no_network
reachable_iff c h = rw h (ground arith)

-- `Lint` warns of egress for an id exactly when the policy has a command of that id that names a secret
-- or binds one in its environment, that allows the network and does not block it.
pub egress_iff :
    (f : PolicyFile) (id : Bytes)
    → In (record { severity = warn; code = egress_with_secrets; cmd_id = id }) (lint f) ↔ (
        (c : Command) × In c f.commands
        × (c.id ≡ id)
        × ((c.env ≢ []) ⊎ (c.secrets ≢ []))
        × (c.no_network ≡ false)
        × (c.allow_network ≡ true))
unfolding lint finding egress_test
egress_iff f id =
    let x : Finding = record { severity = warn; code = egress_with_secrets; cmd_id = id } in
    let refs = spread (ref_cmds f.commands []) in
    (
      (λ m. elim (In-of_append x (lint_commands f.commands) (map spread_finding refs) m) [
        | inl stands ↦
            let (c, stands, test, same) = egress_from_commands x f.commands refl stands in
            let named : id ≡ c.id = ap (λ (y : Finding). y.cmd_id) same in
            let both : (has_secrets c ≡ true) × (effective_no_network c ≡ false) = ground arith in
            let (open_, allowed) = (reachable_iff c both.0).0 both.1 in
            (c, stands, sym named, (has_secrets_iff c).0 both.0, open_, allowed)
        | inr other ↦ let code = spread-code x refs other in cc
      ]),
      λ (c, stands, named, given, open_, allowed).
          let secrets = (has_secrets_iff c).1 given in
          let reachable = (reachable_iff c secrets).1 (open_, allowed) in
          let test : egress_test c ≡ true = ground arith in
          In-append x (lint_commands f.commands) (map spread_finding refs) (
            inl (
              subst
                (λ i.
                  In (record { severity = warn; code = egress_with_secrets; cmd_id = i })
                    (lint_commands f.commands))
                named (egress_reported c f.commands test stands))),
    )
