-- ===== src/Access/Update.antt =====
-- internal/access/access.go: what a search and update of one record leaves.
use ironrun.Prelude.{
  ◌≡◌, refl, ap, ◌∙◌, ◌⊎◌, inl, inr, Bool, true, false, List, [], ◌∷◌, ◌++◌, Bool-cases, In, All,
  bind-eq-ok,
}
use ironrun.Access.State.{Result, ok}
use ironrun.Access.Store.{update_first}
pub use ironrun.Prelude.{bind-eq-ok}

-- A record other than the one that changed stays.
pub In-changed :
    {A : Type 0} (x a a' : A) (pre post : List A)
    → In x (pre ++ a ∷ post)
    → (x ≡ a) ⊎ In x (pre ++ a' ∷ post)
In-changed x a a' [] post (inl e) = inl e
In-changed x a a' [] post (inr m) = inr (inr m)
In-changed x a a' (p ∷ pre) post (inl e) = inr (inl e)
In-changed x a a' (p ∷ pre) post (inr m) = elim (In-changed x a a' pre post m) [
  | inl e ↦ inl e
  | inr k ↦ inr (inr k)
]

module _ {A B : Type 0} where
  -- `after` is `before` with the first record that `is_it` picks changed to what `change` gave.
  pub record Updated (is_it : A → Bool) (change : A → Result (A × B)) (before after : List A)
      (b : B) : Type 0 where
    pub pre : List A
    pub old : A
    pub new : A
    pub post : List A
    pub before_is : before ≡ pre ++ old ∷ post
    pub after_is : after ≡ pre ++ new ∷ post
    pub picked : is_it old ≡ true
    pub not_before : All (λ a. is_it a ≡ false) pre
    pub changed : change old ≡ ok (new, b)

  pub update_first-Updated :
      (is_it : A → Bool) (change : A → Result (A × B)) (before after : List A) (b : B)
      → update_first is_it change before ≡ ok (after, b)
      → Updated is_it change before after b
  unfolding update_first
  update_first-Updated is_it change [] after b e = cc
  update_first-Updated is_it change (a ∷ rest) after b e = elim (Bool-cases (is_it a)) [
    | inl here ↦
        let ((a', c), made, same) =
          bind-eq-ok (change a) (λ p. ok (p.0 ∷ rest, p.1)) (rw here at e) in
        record {
          pre = [];
          old = a;
          new = a';
          post = rest;
          before_is = refl;
          after_is = cc;
          picked = here;
          not_before = tt;
          changed = made ∙ cc;
        }
    | inr later ↦
        let ((rest', c), found, same) =
          bind-eq-ok (update_first is_it change rest) (λ p. ok (a ∷ p.0, p.1)) (rw later at e) in
        let u = update_first-Updated is_it change rest rest' b (found ∙ cc) in
        record {
          pre = a ∷ u.pre;
          old = u.old;
          new = u.new;
          post = u.post;
          before_is = ap (◌∷◌ a) u.before_is;
          after_is = cc (u.after_is);
          picked = u.picked;
          not_before = (later, u.not_before);
          changed = u.changed;
        }
  ]
