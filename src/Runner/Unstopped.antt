-- ===== src/Runner/Unstopped.antt =====
-- internal/runner/runner.go: what `Run` does before the child starts is not ended by a context.
use ironrun.Prelude.{
  ◌≡◌, refl, sym, ap, ◌∙◌, inl, inr, Bool, true, false, not, ◌&&◌, List, [], ◌∷◌, Option, none,
  some, Bool-cases, Bytes, bytes_eq, Try, ok, err, guard, ◌>>=◌,
}
use ironrun.Policy.Document.{effective_no_network}
use ironrun.Policy.Paths.{is_rooted}
use ironrun.Runner.Cap.{cap_output, tee_output}
use ironrun.Runner.CiTrust.{CiError, check_ci_trust}
use ironrun.Runner.Shim.{Command, arm_sealed_exec}
use ironrun.Runner.Prepare.{
  Policy, RunError, timed_out, cancelled, Platform, linux, darwin, other_os, Host, Options,
  requested_of, absolute, binary_name, found, apply_network_isolation, isolate, armed_with,
  seal_on_linux, seal_child, trusted, launch, prepare, join_paths, has_slash,
}

-- The errors of a run that was ended from outside.
unfoldable pub is_stop : RunError → Bool
is_stop timed_out = true
is_stop cancelled = true
is_stop _ = false

-- An attempt that does not fail with one of these.
Unstopped : {A : Type 0} → Try RunError A → Type 0
Unstopped t = (why : RunError) → t ≡ err why → is_stop why ≡ false

refused :
    {A : Type 0} (t : Try RunError A) (why : RunError)
    → t ≡ err why
    → is_stop why ≡ false
    → Unstopped t
unfolding Unstopped
refused t why is h other same = let back : why ≡ other = cc in ap is_stop (sym back) ∙ h

passed : {A : Type 0} (a : A) → Unstopped (ok a)
unfolding Unstopped
passed a why same = cc

bind-Unstopped :
    {A B : Type 0} (m : Try RunError A) (next : A → Try RunError B)
    → Unstopped m
    → ((a : A) → Unstopped (next a))
    → Unstopped (m >>= next)
unfolding Unstopped
bind-Unstopped (err why) next h later other same =
    let back : why ≡ other = cc in h other (ap err back)
bind-Unstopped (ok a) next h later other same = later a other same

guard-Unstopped : (b : Bool) (why : RunError) → is_stop why ≡ false → Unstopped (guard b why)
guard-Unstopped true why h = passed tt
guard-Unstopped false why h = refused _ why refl h

trusted-Unstopped : (t : Try CiError (Unit {0})) → Unstopped (trusted t)
unfolding trusted is_stop
trusted-Unstopped (err why) = refused _ _ refl refl
trusted-Unstopped (ok u) = passed u

absolute-Unstopped : (cwd : Option Bytes) (path : Bytes) → Unstopped (absolute cwd path)
unfolding absolute is_stop
absolute-Unstopped none path = elim (Bool-cases (is_rooted path)) [
  | inl e ↦ rw e (passed _)
  | inr e ↦ rw e (refused _ _ refl refl)
]
absolute-Unstopped (some cwd) path = elim (Bool-cases (is_rooted path)) [
  | inl e ↦ rw e (passed _)
  | inr e ↦ rw e (passed _)
]

binary_name-Unstopped : (host : Host) (dir name : Bytes) → Unstopped (binary_name host dir name)
unfolding binary_name
binary_name-Unstopped host dir name =
    elim (Bool-cases (not (bytes_eq dir []) && (not (is_rooted name) && has_slash name))) [
      | inl e ↦ rw e (absolute-Unstopped host.getwd (join_paths dir name))
      | inr e ↦ rw e (passed name)
    ]

found-Unstopped : (o : Option Bytes) → Unstopped (found o)
unfolding found is_stop
found-Unstopped none = refused _ _ refl refl
found-Unstopped (some bin) = passed bin

network-Unstopped :
    (p : Platform) (has_sandbox : Bool) (c : Command)
    → Unstopped (apply_network_isolation p has_sandbox c)
unfolding apply_network_isolation is_stop
network-Unstopped linux has_sandbox c = passed _
network-Unstopped darwin true c = passed _
network-Unstopped darwin false c = refused _ _ refl refl
network-Unstopped (other_os name) has_sandbox c = refused _ _ refl refl

isolate-Unstopped : (host : Host) (cmd : Policy) (c : Command) → Unstopped (isolate host cmd c)
unfolding isolate
isolate-Unstopped host cmd c = elim (Bool-cases (effective_no_network cmd)) [
  | inl e ↦ rw e (network-Unstopped host.platform host.has_sandbox c)
  | inr e ↦ rw e (passed c)
]

armed-Unstopped : (requested : Bool) (o : Option Command) → Unstopped (armed_with requested o)
unfolding armed_with is_stop
armed-Unstopped requested none = refused _ _ refl refl
armed-Unstopped requested (some c) = passed _

seal-Unstopped :
    (host : Host) (opts : Options) (p : Platform) (c : Command)
    → Unstopped (seal_child host opts p c)
unfolding seal_child seal_on_linux
seal-Unstopped host opts linux c =
    elim (Bool-cases (opts.no_seal && not (requested_of opts.seccomp))) [
      | inl e ↦ rw e (passed _)
      | inr e ↦ rw e (
          armed-Unstopped (requested_of opts.seccomp)
            (arm_sealed_exec host.executable opts.no_seal (requested_of opts.seccomp) c))
    ]
seal-Unstopped host opts darwin c = passed _
seal-Unstopped host opts (other_os name) c = passed _

prepare-Unstopped :
    (host : Host) (opts : Options) (cmd : Policy) (argv : List Bytes)
    → Unstopped (prepare host opts cmd argv)
unfolding prepare launch is_stop
prepare-Unstopped host opts cmd [] = refused _ _ refl refl
prepare-Unstopped host opts cmd (name ∷ rest) = bind-Unstopped _ _ (guard-Unstopped _ _ refl) (λ u.
    bind-Unstopped _ _ (trusted-Unstopped (check_ci_trust host.ci opts.allow_pull_request_target))
      (λ v. bind-Unstopped _ _ (binary_name-Unstopped host _ name) (λ bin_name.
        bind-Unstopped _ _ (found-Unstopped (host.look_path bin_name)) (λ bin.
          bind-Unstopped _ _ (isolate-Unstopped host cmd _)
            (λ c. seal-Unstopped host opts host.platform c)))))

pub prepare-not_stopped :
    (host : Host) (opts : Options) (cmd : Policy) (argv : List Bytes) (why : RunError)
    → prepare host opts cmd argv ≡ err why
    → is_stop why ≡ false
unfolding Unstopped
prepare-not_stopped host opts cmd argv why h = prepare-Unstopped host opts cmd argv why h
