-- ===== src/Runner/Filtered.antt =====
-- internal/runner/runner.go: when the filter is said to be armed before the child starts.
use ironrun.Prelude.{
  ◌≡◌, refl, sym, ap, ◌∙◌, inl, inr, true, false, not, ◌&&◌, List, [], ◌∷◌, some, Bool-cases,
  Option-cases, Bytes, ok, seq_iff, bind-eq-ok,
}
use ironrun.Runner.Shim.{Command, armed, arm_sealed_exec}
use ironrun.Runner.Prepare.{
  Policy, Platform, linux, darwin, other_os, Host, Options, requested_of, Sealing, isolate,
  armed_with, seal_on_linux, seal_child, command_for, launch, prepare, child_dir, binary_name,
  found,
}

-- `c` is the shim around another command, and told to install the filter that was asked for.
pub record Filtered (host : Host) (opts : Options) (c : Command) (s : Sealing) : Type 0 where
  pub shim_is_armed : s.shim_armed ≡ true
  pub on_linux : host.platform ≡ linux
  pub asked : requested_of opts.seccomp ≡ true
  pub wraps :
      (self : Bytes) × (d : Command) × (host.executable ≡ some self)
      × (c ≡ armed self opts.no_seal true d)

linux_installed :
    (host : Host) (opts : Options) (d c : Command) (s : Sealing)
    → host.platform ≡ linux
    → seal_on_linux host opts d ≡ ok (c, s)
    → s.installed ≡ true
    → Filtered host opts c s
unfolding seal_on_linux armed_with arm_sealed_exec
linux_installed host opts d c s on_linux h i =
    elim (Bool-cases (opts.no_seal && not (requested_of opts.seccomp))) [
      | inl off ↦ let h' = rw off at h in let none_installed : s.installed ≡ false = cc in cc
      | inr on ↦ elim (Option-cases host.executable) [
        | inl unknown ↦ let h' = rw (on, unknown) at h in cc
        | inr (self, known) ↦
            let h' = rw (on, known) at h in
            let wrapped : armed self opts.no_seal (requested_of opts.seccomp) d ≡ c = cc in
            let installed_is : requested_of opts.seccomp ≡ s.installed = cc in
            let asked = installed_is ∙ i in
            record {
              shim_is_armed = cc;
              on_linux = on_linux;
              asked = asked;
              wraps = (self, d, known, sym wrapped ∙ ap (λ b. armed self opts.no_seal b d) asked);
            }
      ]
    ]

seal_installed :
    (host : Host) (opts : Options) (p : Platform) (d c : Command) (s : Sealing)
    → host.platform ≡ p
    → seal_child host opts p d ≡ ok (c, s)
    → s.installed ≡ true
    → Filtered host opts c s
unfolding seal_child
seal_installed host opts linux d c s same h i = linux_installed host opts d c s same h i
seal_installed host opts darwin d c s same h i = let none_installed : s.installed ≡ false = cc in cc
seal_installed host opts (other_os name) d c s same h i =
    let none_installed : s.installed ≡ false = cc in cc

launch_sealed :
    (host : Host) (opts : Options) (cmd : Policy) (name : Bytes) (more : List Bytes) (c : Command)
    (s : Sealing)
    → launch host opts cmd name more ≡ ok (c, s)
    → (d : Command) × (seal_child host opts host.platform d ≡ ok (c, s))
unfolding launch
launch_sealed host opts cmd name more c s h =
    let (bin_name, _, h1) =
      bind-eq-ok (binary_name host (child_dir cmd.work_dir opts.work_dir) name) _ h in
    let (bin, _, h2) = bind-eq-ok (found (host.look_path bin_name)) _ h1 in
    let (d, _, h3) =
      bind-eq-ok
        (isolate host cmd (command_for host opts (child_dir cmd.work_dir opts.work_dir) bin more)) _
        h2 in
    (d, h3)

-- When `Run` takes the filter for installed before it starts the child, it armed the shim for it.
pub prepared-Filtered :
    (host : Host) (opts : Options) (cmd : Policy) (argv : List Bytes) (c : Command) (s : Sealing)
    → prepare host opts cmd argv ≡ ok (c, s)
    → s.installed ≡ true
    → Filtered host opts c s
unfolding prepare
prepared-Filtered host opts cmd [] c s h i = cc
prepared-Filtered host opts cmd (name ∷ more) c s h i =
    let (checked, h1) = (seq_iff _ _).0 h in
    let (passed, h2) = (seq_iff _ _).0 h1 in
    let (d, sealed) = launch_sealed host opts cmd name more c s h2 in
    seal_installed host opts host.platform d c s refl sealed i
