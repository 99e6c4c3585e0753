-- ===== src/Redact/Cores.antt =====
-- internal/redact/encodings.go: a core of a secret stands in the encoding of every text around it.
use ironrun.Prelude.{
  List, some, ◌≢◌, ◌≤◌, ◌<◌, true, ◌&&◌, leb, ℕ, zero, suc, ◌+◌, ◌-◌, ◌*◌, ◌/◌, ◌%◌, ◌≡◌, refl, sym,
  ap, subst, ◌⊎◌, inl, inr, In, ◌∙◌, [], ◌∷◌, ◌++◌, append_assoc, length, length-append, take, drop,
  take-append-drop, Bytes, arith,
}
use native.Mathlib.Nat.{sub-zero, zero-sub, suc-sub-suc}
use ironrun.Redact.Base64.{
  encode, zeros, slice, core, all_parts, base64_cores, std_alphabet, url_alphabet,
}

take-nil : (n : ℕ) → take {A = ℕ} n [] ≡ []
take-nil zero = refl
take-nil (suc n) = refl

drop-take : (n m : ℕ) (xs : Bytes) → take (m - n) (drop n xs) ≡ drop n (take m xs)
drop-take zero m xs = rw sub-zero refl
drop-take (suc n) zero xs = rw zero-sub refl
drop-take (suc n) (suc m) [] = take-nil (suc m - suc n)
drop-take (suc n) (suc m) (x ∷ xs) = rw suc-sub-suc (drop-take n m xs)

-- The characters whose six bits lie in the text do not depend on what follows.
take-encode :
    (al : ℕ → ℕ) (u b : Bytes)
    → take (8 * length u / 6) (encode al (u ++ b)) ≡ take (8 * length u / 6) (encode al u)
unfolding encode
take-encode al [] b = refl
take-encode al (x ∷ []) [] = refl
take-encode al (x ∷ []) (y ∷ []) = refl
take-encode al (x ∷ []) (y ∷ z ∷ b) = refl
take-encode al (x ∷ y ∷ []) [] = refl
take-encode al (x ∷ y ∷ []) (z ∷ b) = refl
take-encode al (x ∷ y ∷ z ∷ u) b =
    let rest = take-encode al u b in
    let more : 8 * suc (suc (suc (length u))) / 6 ≡ suc (suc (suc (suc (8 * length u / 6)))) =
      omega arith in
    rw (more, rest) refl

-- Nor on the one or two bytes before it.
drop-encode_one :
    (al : ℕ → ℕ) (x : ℕ) (t : Bytes) → drop 2 (encode al (x ∷ t)) ≡ drop 2 (encode al (0 ∷ t))
unfolding encode
drop-encode_one al x [] = refl
drop-encode_one al x (y ∷ []) = refl
drop-encode_one al x (y ∷ z ∷ t) = refl

drop-encode_two :
    (al : ℕ → ℕ) (x y : ℕ) (t : Bytes)
    → drop 3 (encode al (x ∷ y ∷ t)) ≡ drop 3 (encode al (0 ∷ 0 ∷ t))
unfolding encode
drop-encode_two al x y [] = refl
drop-encode_two al x y (z ∷ t) = refl

zeros-length : (k : ℕ) → length (zeros k) ≡ k
unfolding zeros
zeros-length zero = refl
zeros-length (suc k) = ap suc (zeros-length k)

-- The text stands in the other.
abbrev pub Within : Bytes → Bytes → Type 0
Within part whole = (pre post : Bytes) × (whole ≡ pre ++ (part ++ post))

-- What is cut out of the encoding, in range or not.
core_text : (ℕ → ℕ) → ℕ → Bytes → Bytes
core_text alphabet k secret =
    let start = (8 * k + 5) / 6 in
    let end = 8 * (k + length secret) / 6 in
    take (end - start) (drop start (encode alphabet (zeros k ++ secret)))

-- After k bytes that have no part in what is left of the encoding from `start` on.
core_after :
    (al : ℕ → ℕ) (k : ℕ) (before s b : Bytes)
    → drop ((8 * k + 5) / 6) (encode al (before ++ (s ++ b)))
      ≡ drop ((8 * k + 5) / 6) (encode al (zeros k ++ (s ++ b)))
    → Within (core_text al k s) (encode al (before ++ (s ++ b)))
unfolding core_text
core_after al k before s b free =
    let start = (8 * k + 5) / 6 in
    let end = 8 * (k + length s) / 6 in
    let whole = encode al (before ++ (s ++ b)) in
    let padded = zeros k ++ s in
    let size : length padded ≡ k + length s =
      length-append (zeros k) s ∙ ap (λ n. n + length s) (zeros-length k) in
    let tail = take-encode al padded b in
    let tail' : take end (encode al (padded ++ b)) ≡ take end (encode al padded) =
      subst (λ n. take (8 * n / 6) (encode al (padded ++ b)) ≡ take (8 * n / 6) (encode al padded))
        size tail in
    let middle : take (end - start) (drop start whole) ≡ core_text al k s =
      ap (take (end - start)) free
      ∙ (ap (λ u. take (end - start) (drop start (encode al u))) (sym (append_assoc (zeros k) s b))
          ∙ (drop-take start end (encode al (padded ++ b))
              ∙ (ap (drop start) tail' ∙ sym (drop-take start end (encode al padded))))) in
    (
      take start whole,
      drop (end - start) (drop start whole),
      sym (take-append-drop start whole)
          ∙ ap (◌++◌ (take start whole)) (
              sym (take-append-drop (end - start) (drop start whole))
              ∙ ap (λ m. m ++ drop (end - start) (drop start whole)) middle),
    )

encode_step :
    (al : ℕ → ℕ) (x y z : ℕ) (t : Bytes)
    → encode al (x ∷ y ∷ z ∷ t)
      ≡ al (x / 4)
        ∷ al ((x % 4) * 16 + y / 16)
        ∷ al ((y % 16) * 4 + z / 64)
        ∷ al (z % 64)
        ∷ encode al t
unfolding encode
encode_step al x y z t = refl

-- In the unpadded base64 of any text, with any alphabet, the core of a part stands that belongs to
-- the number of bytes before the part, modulo 3.
core_stands :
    (al : ℕ → ℕ) (a s b : Bytes)
    → Within (core_text al (length a % 3) s) (encode al (a ++ (s ++ b)))
unfolding zeros
core_stands al [] s b = core_after al 0 [] s b refl
core_stands al (x ∷ []) s b = core_after al 1 (x ∷ []) s b (drop-encode_one al x (s ++ b))
core_stands al (x ∷ y ∷ []) s b = core_after al 2 (x ∷ y ∷ []) s b (drop-encode_two al x y (s ++ b))
core_stands al (x ∷ y ∷ z ∷ a) s b =
    let (pre, post, same) = core_stands al a s b in
    let turn : suc (suc (suc (length a))) % 3 ≡ length a % 3 = omega arith in
    (
      al (x / 4) ∷ al ((x % 4) * 16 + y / 16) ∷ al ((y % 16) * 4 + z / 64) ∷ al (z % 64) ∷ pre,
      post,
      encode_step al x y z (a ++ (s ++ b))
          ∙ ap
              (λ rest.
                al (x / 4)
                ∷ al ((x % 4) * 16 + y / 16)
                ∷ al ((y % 16) * 4 + z / 64)
                ∷ al (z % 64)
                ∷ rest)
              (same ∙ ap (λ k. pre ++ (core_text al k s ++ post)) (sym turn)),
    )

mod3-cases : (n : ℕ) → (n % 3 ≡ 0) ⊎ ((n % 3 ≡ 1) ⊎ (n % 3 ≡ 2))
mod3-cases n = ground arith

encode-length : (al : ℕ → ℕ) (u : Bytes) → 8 * length u / 6 ≤ length (encode al u)
unfolding encode
encode-length al [] = omega arith
encode-length al (x ∷ []) = omega arith
encode-length al (x ∷ y ∷ []) = omega arith
encode-length al (x ∷ y ∷ z ∷ u) = omega (arith, encode-length al u)

core-some :
    (al : ℕ → ℕ) (k : ℕ) (s : Bytes) → k ≤ 2 → 0 < length s → core al k s ≡ some (core_text al k s)
unfolding core slice core_text
core-some al k s small given =
    let padded = length-append (zeros k) s ∙ ap (λ n. n + length s) (zeros-length k) in
    let fits : 8 * (k + length s) / 6 ≤ length (encode al (zeros k ++ s)) =
      subst (λ n. 8 * n / 6 ≤ length (encode al (zeros k ++ s))) padded
        (encode-length al (zeros k ++ s)) in
    let test : leb ((8 * k + 5) / 6) (8 * (k + length s) / 6)
          && leb (8 * (k + length s) / 6) (length (encode al (zeros k ++ s)))
        ≡ true =
      ground arith in
    rw test refl

core_texts : Bytes → List Bytes
core_texts s =
    core_text std_alphabet 0 s
    ∷ core_text url_alphabet 0 s
    ∷ core_text std_alphabet 1 s
    ∷ core_text url_alphabet 1 s
    ∷ core_text std_alphabet 2 s
    ∷ core_text url_alphabet 2 s
    ∷ []

base64_cores-some : (s : Bytes) → 0 < length s → base64_cores s ≡ some (core_texts s)
unfolding base64_cores all_parts core_texts
base64_cores-some s given =
    rw
      (
        core-some std_alphabet 0 s (omega arith) given,
        core-some url_alphabet 0 s (omega arith) given,
        core-some std_alphabet 1 s (omega arith) given,
        core-some url_alphabet 1 s (omega arith) given,
        core-some std_alphabet 2 s (omega arith) given,
        core-some url_alphabet 2 s (omega arith) given,
      )
      refl

cores_of :
    (s : Bytes) (k : ℕ)
    → (k ≡ 0) ⊎ ((k ≡ 1) ⊎ (k ≡ 2))
    → In (core_text std_alphabet k s) (core_texts s)
      × In (core_text url_alphabet k s) (core_texts s)
unfolding core_texts
cores_of s k (inl e) = rw e (inl refl, inr (inl refl))
cores_of s k (inr (inl e)) = rw e (inr (inr (inl refl)), inr (inr (inr (inl refl))))
cores_of s k (inr (inr e)) =
    rw e (inr (inr (inr (inr (inl refl)))), inr (inr (inr (inr (inr (inl refl))))))

given_length : (s : Bytes) → s ≢ [] → 0 < length s
given_length [] given = absurd (given refl)
given_length (c ∷ s) given = omega arith

-- For a secret that is not empty `Base64Cores` returns, without a panic, and whatever text stands before
-- and after the secret, the unpadded base64 of the whole, in the standard and in the URL alphabet, holds
-- one of what it returns.
pub base64_cores_stand :
    (a s b : Bytes)
    → s ≢ []
    → (cores : List Bytes) × (base64_cores s ≡ some cores)
      × ((c : Bytes) × In c cores × Within c (encode std_alphabet (a ++ (s ++ b))))
      × ((c : Bytes) × In c cores × Within c (encode url_alphabet (a ++ (s ++ b))))
base64_cores_stand a s b given =
    let k = length a % 3 in
    let found = cores_of s k (mod3-cases (length a)) in
    (
      core_texts s,
      base64_cores-some s (given_length s given),
      (core_text std_alphabet k s, found.0, core_stands std_alphabet a s b),
      (core_text url_alphabet k s, found.1, core_stands url_alphabet a s b),
    )
