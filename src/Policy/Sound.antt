-- ===== src/Policy/Sound.antt =====
-- internal/policy/policy.go: the loops of `Parse` take exactly the well-formed documents.
use ironrun.Prelude.{
  ◌≡◌, refl, sym, ap, ◌↔◌, ◌⊎◌, inl, inr, true, false, ◌||◌, List, [], ◌∷◌, Option, none, some, map,
  Bool-cases, In, All, Bytes, codes, bytes_eq, bytes_eq_iff, ok, guard, if◌then◌else◌, bind-eq-ok,
  ◌>>=◌, guard_iff, checked_iff, tested_iff, subst, ◌>>◌, arith,
}
use ironrun.Policy.Document.{Secret, lookup_key, effective_kind}
use ironrun.Policy.Names.{valid_env_target, safe_basename}
use ironrun.Policy.Parse.{
  PolicyError, bad_kind, bad_target, unsafe_file_name, shared_target, shared_filename, Checked,
  Claims, unclaimed, is_file, check_file, check_secret, check_secrets,
}
use ironrun.Policy.Distinct.{Clear}
use ironrun.Policy.WellFormed.{file_secrets, SecretOk}

-- The names that have a claim.
abbrev pub keys : List (Bytes × Bytes) → List Bytes
keys m = map (λ (p : Bytes × Bytes). p.0) m

lookup_key-none_iff :
    (k : Bytes) (m : List (Bytes × Bytes)) → (lookup_key k m ≡ none) ↔ ¬ In k (keys m)
unfolding lookup_key
lookup_key-none_iff k [] = (λ h no. no, λ h. refl)
lookup_key-none_iff k ((key, a) ∷ m) =
    let rest = lookup_key-none_iff k m in
    let same = bytes_eq_iff key k in
    elim (Bool-cases (bytes_eq key k)) [
      | inl e ↦ (λ h. let h' = rw e at h in cc, λ h. absurd (h (inl (sym (same.0 e)))))
      | inr e ↦ (
        (λ h m'. elim m' [
          | inl eq ↦ let yes = same.1 (sym eq) in cc
          | inr k' ↦ rest.0 (rw e at h) k'
        ]),
        λ h. rw e (rest.1 (λ k'. h (inr k'))),
      )
    ]

unclaimed_iff :
    (o : Option Bytes) (why : Bytes → PolicyError) → (unclaimed o why ≡ ok tt) ↔ (o ≡ none)
unfolding unclaimed
unclaimed_iff none why = (λ h. refl, λ h. refl)
unclaimed_iff (some previous) why = (λ h. cc, λ h. cc)

free_iff :
    (k : Bytes) (m : List (Bytes × Bytes)) (why : Bytes → PolicyError)
    → (unclaimed (lookup_key k m) why ≡ ok tt) ↔ ¬ In k (keys m)
free_iff k m why =
    let none_yet = unclaimed_iff (lookup_key k m) why in
    let free = lookup_key-none_iff k m in ((λ h. free.0 (none_yet.0 h)), λ h. none_yet.1 (free.1 h))

kind_iff :
    (s : Secret)
    → (bytes_eq (effective_kind s) (codes "env") || is_file s ≡ true)
      ↔ ((effective_kind s ≡ codes "env") ⊎ (effective_kind s ≡ codes "file"))
unfolding is_file
kind_iff s = ground (
  arith,
  bytes_eq_iff (effective_kind s) (codes "env"),
  bytes_eq_iff (effective_kind s) (codes "file"),
)

ok_iff : {A : Type 0} (a b : A) → (◌≡◌ {A = Checked A} (ok a) (ok b)) ↔ (a ≡ b)
ok_iff a b = ((λ h. cc), λ h. ap ok h)

-- The claims after a file secret.
abbrev claim : Claims → Bytes → Secret → Claims
claim (targets, names) alias s = ((s.env, alias) ∷ targets, (s.filename, alias) ∷ names)

abbrev FileOk : Claims → Secret → Type 0
FileOk (targets, names) s =
    (safe_basename s.filename ≡ true) × (¬ In s.env (keys targets) × ¬ In s.filename (keys names))

check_file_iff :
    (claims after : Claims) (alias : Bytes) (s : Secret)
    → (check_file claims alias s ≡ ok after) ↔ (FileOk claims s × (claim claims alias s ≡ after))
unfolding check_file
check_file_iff (targets, names) after alias s =
    let all =
      checked_iff (guard (safe_basename s.filename) (unsafe_file_name alias)) _
        (guard_iff (safe_basename s.filename) (unsafe_file_name alias))
        (checked_iff
          (unclaimed (lookup_key s.env targets) (λ previous. shared_target previous alias)) _
          (free_iff s.env targets (λ previous. shared_target previous alias))
          (checked_iff
            (unclaimed (lookup_key s.filename names) (λ previous. shared_filename previous alias))
            (ok ((s.env, alias) ∷ targets, (s.filename, alias) ∷ names))
            (free_iff s.filename names (λ previous. shared_filename previous alias))
            (ok_iff ((s.env, alias) ∷ targets, (s.filename, alias) ∷ names) after))) in
    (
      (λ h. let (a, (b, (c, d))) = all.0 h in ((a, (b, c)), d)),
      λ ((a, (b, c)), d). all.1 (a, (b, (c, d))),
    )

-- The two checks of every secret, and what follows them.
secret_iff :
    {P : Type 0} (s : Secret) (alias : Bytes) (next : Checked Claims) {after : Claims}
    → (next ≡ ok after) ↔ P
    → ((do
      guard (bytes_eq (effective_kind s) (codes "env") || is_file s) (bad_kind alias)
      guard (valid_env_target s.env) (bad_target alias)
      next)
        ≡ ok after)
      ↔ (SecretOk s × P)
secret_iff s alias next p =
    let all =
      checked_iff (guard (bytes_eq (effective_kind s) (codes "env") || is_file s) (bad_kind alias))
        _ (tested_iff _ (bad_kind alias) (kind_iff s))
        (checked_iff (guard (valid_env_target s.env) (bad_target alias)) next
          (guard_iff (valid_env_target s.env) (bad_target alias)) p) in
    (
      (λ h. let (a, (b, c)) = all.0 h in (record { kind_known = a; target_ok = b }, c)),
      λ (good, c). all.1 (good.kind_known, (good.target_ok, c)),
    )

abbrev pub FilesOk : Claims → List Secret → Type 0
FilesOk (targets, names) fs =
    All (λ (s : Secret). safe_basename s.filename ≡ true) fs
    × (Clear (keys targets) (map (λ (s : Secret). s.env) fs)
        × Clear (keys names) (map (λ (s : Secret). s.filename) fs))

file_secrets-file :
    (alias : Bytes) (s : Secret) (m : List (Bytes × Secret))
    → is_file s ≡ true
    → file_secrets ((alias, s) ∷ m) ≡ s ∷ file_secrets m
unfolding file_secrets
file_secrets-file alias s m e = rw e

file_secrets-plain :
    (alias : Bytes) (s : Secret) (m : List (Bytes × Secret))
    → is_file s ≡ false
    → file_secrets ((alias, s) ∷ m) ≡ file_secrets m
unfolding file_secrets
file_secrets-plain alias s m e = rw e

check_secret-file :
    (claims after : Claims) (alias : Bytes) (s : Secret)
    → is_file s ≡ true
    → (check_secret claims alias s ≡ ok after)
      ↔ (SecretOk s × (FileOk claims s × (claim claims alias s ≡ after)))
unfolding check_secret
check_secret-file claims after alias s e =
    secret_iff s alias (if is_file s then check_file claims alias s else ok claims)
      (rw e (check_file_iff claims after alias s))

check_secret-plain :
    (claims after : Claims) (alias : Bytes) (s : Secret)
    → is_file s ≡ false
    → (check_secret claims alias s ≡ ok after) ↔ (SecretOk s × (claims ≡ after))
unfolding check_secret
check_secret-plain claims after alias s e =
    secret_iff s alias (if is_file s then check_file claims alias s else ok claims)
      (rw e (ok_iff claims after))

-- One turn of the loop: a state comes out of the body, and the rest runs on it.
turn_iff :
    {P : Type 0} (c : Claims) (body : Checked Claims) (rest : Claims → Checked (Unit {0}))
    → ((after : Claims) → (body ≡ ok after) ↔ (P × (c ≡ after)))
    → (body >>= rest ≡ ok tt) ↔ (P × (rest c ≡ ok tt))
turn_iff c body rest one = (
  (λ h.
      let (after, done, more) = bind-eq-ok body rest h in
      let (p, same) = (one after).0 done in (p, subst (λ d. rest d ≡ ok tt) (sym same) more)),
  λ (p, more). rw ((one c).1 (p, refl)) more,
)

pub check_secrets_iff :
    (claims : Claims) (m : List (Bytes × Secret))
    → (check_secrets claims m ≡ ok tt)
      ↔ (All (λ (p : Bytes × Secret). SecretOk p.1) m × FilesOk claims (file_secrets m))
unfolding check_secrets file_secrets
check_secrets_iff (targets, names) [] = (λ h. (tt, (tt, (tt, tt))), λ h. refl)
check_secrets_iff claims ((alias, s) ∷ m) = elim (Bool-cases (is_file s)) [
  | inl e ↦
      let next = claim claims alias s in
      let turn =
        turn_iff {P = SecretOk s × FileOk claims s} next (check_secret claims alias s)
          (λ after. check_secrets after m)
          (λ after.
            let one = check_secret-file claims after alias s e in
            ((λ h. let (a, (b, c)) = one.0 h in ((a, b), c)), λ ((a, b), c). one.1 (a, (b, c)))) in
      let rest = check_secrets_iff next m in
      rw (file_secrets-file alias s m e) (
        (λ h.
            let ((good, (safe, (target, name))), more) = turn.0 h in
            let (all, (safes, (targets, names))) = rest.0 more in
            ((good, all), ((safe, safes), ((target, targets), (name, names))))),
        λ ((good, all), ((safe, safes), ((target, targets), (name, names)))).
            turn.1 ((good, (safe, (target, name))), rest.1 (all, (safes, (targets, names)))),
      )
  | inr e ↦
      let turn =
        turn_iff {P = SecretOk s} claims (check_secret claims alias s)
          (λ after. check_secrets after m) (λ after. check_secret-plain claims after alias s e) in
      let rest = check_secrets_iff claims m in
      rw (file_secrets-plain alias s m e) (
        (λ h.
            let (good, more) = turn.0 h in let (all, files) = rest.0 more in ((good, all), files)),
        λ ((good, all), files). turn.1 (good, rest.1 (all, files)),
      )
]
