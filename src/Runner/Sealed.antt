-- ===== src/Runner/Sealed.antt =====
-- internal/runner/seccomp_linux.go, internal/sealedexec/sealedexec.go: the shim that the runner arms.
use ironrun.Prelude.{
  ◌≡◌, refl, sym, ap, ◌∙◌, inl, inr, Bool, true, false, not, ◌&&◌, List, [], ◌∷◌, ◌++◌, none, some,
  if◌then◌else◌, Bool-cases, Option-cases, In, Bytes, codes, bytes_eq, arith, append-nil,
}
use ironrun.Redact.Match.{has_prefix}
use ironrun.Runner.Environ.{equals}
use ironrun.Runner.Child.{child_value, entry_value, first_of, child_value-append}
use ironrun.Runner.Shim.{
  Command, env_sentinel, env_no_seal, env_skip_seccomp, parent_names, shim_names, is_for, without,
  switch, armed, broken, filter_refused, seal_refused, became, is_one, is_shim, stripped_env,
  run_shim,
}

prefix_of_entry :
    (key e v : Bytes) → entry_value key e ≡ some v → has_prefix e (key ++ equals ∷ []) ≡ true
unfolding has_prefix
prefix_of_entry [] [] v h = cc
prefix_of_entry [] (c ∷ cs) v h = ground arith
prefix_of_entry (k ∷ ks) [] v h = cc
prefix_of_entry (k ∷ ks) (c ∷ cs) v h = ground (arith, prefix_of_entry ks cs v)

is_for-In :
    (names : List Bytes) (key e v : Bytes)
    → In key names
    → entry_value key e ≡ some v
    → is_for names e ≡ true
unfolding is_for
is_for-In [] key e v m h = absurd m
is_for-In (n ∷ names) key e v (inl same) h = rw (sym same, prefix_of_entry key e v h) refl
is_for-In (n ∷ names) key e v (inr m) h = rw (is_for-In names key e v m h) (ground arith)

without-none :
    (names : List Bytes) (key : Bytes) (es : List Bytes)
    → In key names
    → child_value key (without names es) ≡ none
unfolding without child_value
without-none names key [] m = refl
without-none names key (e ∷ es) m = elim (Bool-cases (is_for names e)) [
  | inl gone ↦ rw gone (without-none names key es m)
  | inr kept ↦ elim (Option-cases (entry_value key e)) [
    | inl other ↦ rw (kept, without-none names key es m, other) refl
    | inr (v, found) ↦ let e' = is_for-In names key e v m found in cc
  ]
]

without-append :
    (names es fs : List Bytes) → without names (es ++ fs) ≡ without names es ++ without names fs
unfolding without
without-append names [] fs = refl
without-append names (e ∷ es) fs = elim (Bool-cases (is_for names e)) [
  | inl gone ↦ rw gone (without-append names es fs)
  | inr kept ↦ rw kept (ap (◌∷◌ e) (without-append names es fs))
]

-- Fewer names left out first change nothing.
without-more :
    (n : Bytes) (names es : List Bytes)
    → without (n ∷ names) (without names es) ≡ without (n ∷ names) es
unfolding without is_for
without-more n names [] = refl
without-more n names (e ∷ es) = elim (Bool-cases (is_for names e)) [
  | inl gone ↦ rw gone (ground (arith, without-more n names es))
  | inr kept ↦ rw (kept, without-more n names es) (ground (arith, without-more n names es))
]

-- The variables that an armed child gets besides those that are left.
abbrev switches : Bool → Bool → List Bytes
switches no_seal seccomp =
    switch true env_sentinel
    ++ (switch no_seal env_no_seal ++ switch (not seccomp) env_skip_seccomp)

switches_lem :
    (no_seal seccomp : Bool)
    → (without shim_names (switches no_seal seccomp) ≡ [])
      × (is_one (first_of (child_value env_no_seal (switches no_seal seccomp)) none) ≡ no_seal)
      × (is_one (first_of (child_value env_skip_seccomp (switches no_seal seccomp)) none)
          ≡ not seccomp)
      × (is_one (child_value env_sentinel (switches no_seal seccomp)) ≡ true)
      × (child_value env_sentinel (switches no_seal seccomp) ≡ some (codes "1"))
unfolding without is_for has_prefix child_value bytes_eq
switches_lem true true = (refl, refl, refl, refl, refl)
switches_lem true false = (refl, refl, refl, refl, refl)
switches_lem false true = (refl, refl, refl, refl, refl)
switches_lem false false = (refl, refl, refl, refl, refl)

not-not : (b : Bool) → not (not b) ≡ b
not-not true = refl
not-not false = refl

-- What the shim of an armed command does. It knows itself; a filter or seal that is asked for and
-- cannot be installed refuses the command; else it becomes the command, with the filter exactly when it
-- was asked for and the seal unless the operator turned it off, with its arguments and without the shim's
-- three variables, whatever values of these the environment had; and it ends as broken when the command
-- cannot be executed.
pub armed_shim :
    (self : Bytes) (no_seal seccomp filter_installs seals execs : Bool) (c : Command) (a : Bytes)
    (argv : List Bytes)
    → c.args ≡ a ∷ argv
    → let c' = armed self no_seal seccomp c in
      (is_shim c'.args c'.env ≡ true)
      × (run_shim filter_installs seals execs c'.args c'.env ≡ (
          if seccomp && not filter_installs
          then filter_refused
          else if not no_seal && not seals
          then seal_refused
          else if execs
          then became c.path (a ∷ argv) (without shim_names c.env) seccomp (not no_seal)
          else broken))
unfolding armed is_shim run_shim stripped_env
armed_shim self no_seal seccomp filter_installs seals execs c a argv given =
    let kept = without parent_names c.env in
    let (stripped, no_seal_is, skip_is, one, sentinel_is) = switches_lem no_seal seccomp in
    let at_no_seal : is_one (child_value env_no_seal (kept ++ switches no_seal seccomp)) ≡ no_seal =
      ap is_one (child_value-append env_no_seal kept (switches no_seal seccomp))
      ∙ (ap (λ v. is_one (first_of (child_value env_no_seal (switches no_seal seccomp)) v))
            (without-none parent_names env_no_seal c.env (inl refl))
          ∙ no_seal_is) in
    let at_skip : is_one (child_value env_skip_seccomp (kept ++ switches no_seal seccomp))
        ≡ not seccomp =
      ap is_one (child_value-append env_skip_seccomp kept (switches no_seal seccomp))
      ∙ (ap (λ v. is_one (first_of (child_value env_skip_seccomp (switches no_seal seccomp)) v))
            (without-none parent_names env_skip_seccomp c.env (inr (inl refl)))
          ∙ skip_is) in
    let rest : without shim_names (kept ++ switches no_seal seccomp) ≡ without shim_names c.env =
      without-append shim_names kept (switches no_seal seccomp)
      ∙ (ap (λ es. without shim_names kept ++ es) stripped
          ∙ (append-nil _ ∙ without-more env_sentinel parent_names c.env)) in
    (
      rw (child_value-append env_sentinel kept (switches no_seal seccomp), sentinel_is)
          (unfold bytes_eq in refl),
      rw (given, at_skip, at_no_seal, not-not seccomp, rest) refl,
    )
