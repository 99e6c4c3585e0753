-- ===== src/Envset/Entries.antt =====
-- internal/envset/manager.go: which entries of a set share a target, before and after an entry is put.
use ironrun.Prelude.{
  ℕ, ◌≡◌, sym, ap, subst, ◌∙◌, ◌⊎◌, inl, inr, false, List, [], ◌∷◌, some, Bool-cases, Bytes,
  bytes_eq, bytes_eq_iff, bytes_le, In, arith,
}
use ironrun.Policy.Document.{lookup_key}
use ironrun.Vault.Document.{Map, put_key, remove_key}
use ironrun.Envset.Sets.{
  SetEntry, EnvSet, shares_target, put_in_place, insert_by_name, sort_by_name, without_entry,
}

-- Entries with one target have one name.
unfoldable pub Apart : List SetEntry → Type 0
Apart es = (e f : SetEntry) → In e es → In f es → e.target ≡ f.target → e.name ≡ f.name

-- Each set of the metadata.
unfoldable pub AllApart : Map EnvSet → Type 0
unfolding Apart
AllApart [] = Unit
AllApart ((k, s) ∷ m) = Apart s.entries × AllApart m

insert_In : (x e : SetEntry) (es : List SetEntry) → In x (insert_by_name e es) → (x ≡ e) ⊎ In x es
unfolding insert_by_name
insert_In x e [] h = ground arith
insert_In x e (y ∷ es) h = elim (Bool-cases (bytes_le e.name y.name)) [
  | inl before ↦ let h' = rw before at h in ground arith
  | inr after ↦
      let h' = rw after at h in
      elim h' [
        | inl a ↦ inr (inl a)
        | inr b ↦ elim (insert_In x e es b) [ inl c ↦ inl c | inr d ↦ inr (inr d) ]
      ]
]

sort_In : (x : SetEntry) (es : List SetEntry) → In x (sort_by_name es) → In x es
unfolding sort_by_name
sort_In x [] h = h
sort_In x (e ∷ es) h = elim (insert_In x e (sort_by_name es) h) [
  | inl a ↦ inl a
  | inr b ↦ inr (sort_In x es b)
]

-- After the entry is put, each entry is one of before or has the new one's name and target.
put_In :
    (now : ℕ) (x e : SetEntry) (es : List SetEntry)
    → In x (put_in_place now e es)
    → ((x.name ≡ e.name) × (x.target ≡ e.target)) ⊎ In x es
unfolding put_in_place
put_In now x e [] (inl h) = inl (ap (λ (y : SetEntry). y.name) h, ap (λ (y : SetEntry). y.target) h)
put_In now x e [] (inr h) = absurd h
put_In now x e (y ∷ es) h = elim (Bool-cases (bytes_eq y.name e.name)) [
  | inl same ↦ elim (rw same at h) [
    | inl a ↦ inl (ap (λ (z : SetEntry). z.name) a, ap (λ (z : SetEntry). z.target) a)
    | inr b ↦ inr (inr b)
  ]
  | inr differ ↦ elim (rw differ at h) [
    | inl a ↦ inr (inl a)
    | inr b ↦ elim (put_In now x e es b) [ inl c ↦ inl c | inr d ↦ inr (inr d) ]
  ]
]

shares_none :
    (e x : SetEntry) (es : List SetEntry)
    → shares_target e es ≡ false
    → In x es
    → x.target ≡ e.target
    → x.name ≡ e.name
unfolding shares_target
shares_none e x [] h m t = absurd m
shares_none e x (y ∷ es) h (inl same) t = elim (Bool-cases (bytes_eq y.name e.name)) [
  | inl named ↦ ap (λ (z : SetEntry). z.name) same ∙ (bytes_eq_iff y.name e.name).0 named
  | inr other ↦
      let aims =
        (bytes_eq_iff y.target e.target).1 (sym (ap (λ (z : SetEntry). z.target) same) ∙ t) in
      let h' = rw (other, aims) at h in cc
]
shares_none e x (y ∷ es) h (inr m) t = shares_none e x es (ground arith) m t

pub put-Apart :
    (now : ℕ) (e : SetEntry) (es : List SetEntry)
    → shares_target e es ≡ false
    → Apart es
    → Apart (sort_by_name (put_in_place now e es))
unfolding Apart
put-Apart now e es free apart x y mx my t =
    elim (put_In now x e es (sort_In x (put_in_place now e es) mx)) [
      | inl (xn, xt) ↦ elim (put_In now y e es (sort_In y (put_in_place now e es) my)) [
        | inl (yn, yt) ↦ xn ∙ sym yn
        | inr old ↦ xn ∙ sym (shares_none e y es free old (sym t ∙ xt))
      ]
      | inr old ↦ elim (put_In now y e es (sort_In y (put_in_place now e es) my)) [
        | inl (yn, yt) ↦ shares_none e x es free old (t ∙ yt) ∙ sym yn
        | inr older ↦ apart x y old older t
      ]
    ]

without_In :
    (key : Bytes) (x : SetEntry) (es : List SetEntry) → In x (without_entry key es) → In x es
unfolding without_entry
without_In key x [] h = h
without_In key x (y ∷ es) h = elim (Bool-cases (bytes_eq y.name key)) [
  | inl same ↦ inr (rw same at h)
  | inr differ ↦ elim (rw differ at h) [ inl a ↦ inl a | inr b ↦ inr (without_In key x es b) ]
]

pub without-Apart : (key : Bytes) (es : List SetEntry) → Apart es → Apart (without_entry key es)
unfolding Apart
without-Apart key es apart x y mx my t =
    apart x y (without_In key x es mx) (without_In key y es my) t

pub no_entries-Apart : Apart []
unfolding Apart
no_entries-Apart x y m n t = absurd m

pub put_key-AllApart :
    (name : Bytes) (s : EnvSet) (m : Map EnvSet)
    → Apart s.entries
    → AllApart m
    → AllApart (put_key name s m)
unfolding put_key AllApart
put_key-AllApart name s [] a h = (a, tt)
put_key-AllApart name s ((k, r) ∷ m) a (b, h) = elim (Bool-cases (bytes_eq k name)) [
  | inl same ↦ rw same (a, h)
  | inr differ ↦ rw differ (b, put_key-AllApart name s m a h)
]

pub remove_key-AllApart :
    (name : Bytes) (m : Map EnvSet) → AllApart m → AllApart (remove_key name m)
unfolding remove_key AllApart
remove_key-AllApart name [] h = tt
remove_key-AllApart name ((k, r) ∷ m) (b, h) = elim (Bool-cases (bytes_eq k name)) [
  | inl same ↦ rw same h
  | inr differ ↦ rw differ (b, remove_key-AllApart name m h)
]

pub lookup-Apart :
    (name : Bytes) (m : Map EnvSet) (s : EnvSet)
    → AllApart m
    → lookup_key name m ≡ some s
    → Apart s.entries
unfolding lookup_key AllApart
lookup-Apart name [] s h e = cc
lookup-Apart name ((k, r) ∷ m) s (b, h) e = elim (Bool-cases (bytes_eq k name)) [
  | inl same ↦
      let e' = rw same at e in
      let back : r ≡ s = cc in subst (λ (x : EnvSet). Apart x.entries) back b
  | inr differ ↦ lookup-Apart name m s h (rw differ at e)
]
