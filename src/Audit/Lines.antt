-- ===== src/Audit/Lines.antt =====
-- internal/audit/audit.go: the lines of a log and the bytes after its last newline.
use ironrun.Prelude.{
  ℕ, zero, suc, ◌-◌, ◌≤◌, ◌≡◌, refl, true, false, [], ◌∷◌, ◌++◌, append-nil, append_assoc, length,
  drop, length-append, drop-append_le, All, Bytes, arith,
}
use ironrun.Audit.Log.{newline, lines_from, lines, has_newline, after_last, trim_newlines}

-- No byte is a control byte.
abbrev pub Printable : Bytes → Type 0
Printable v = All (λ c. 0x20 ≤ c) v

lines_from-Printable :
    (line v rest : Bytes)
    → Printable v
    → lines_from line (v ++ newline ∷ rest) ≡ (line ++ v) ∷ lines_from [] rest
unfolding lines_from
lines_from-Printable [] [] rest h = refl
lines_from-Printable (b ∷ bs) [] rest h = rw append-nil refl
lines_from-Printable [] (c ∷ v) rest h =
    let later = lines_from-Printable (c ∷ []) v rest h.1 in ground (arith, h.0, later)
lines_from-Printable (b ∷ bs) (c ∷ v) rest h =
    let later = lines_from-Printable (b ∷ (bs ++ c ∷ [])) v rest h.1 in
    ground (arith, h.0, later, append_assoc bs (c ∷ []) v)

pub lines-Printable : (v rest : Bytes) → Printable v → lines (v ++ newline ∷ rest) ≡ v ∷ lines rest
unfolding lines
lines-Printable v rest h = lines_from-Printable [] v rest h

-- The text is empty or ends with a newline.
abbrev pub Ended : Bytes → Type 0
Ended [] = Unit
Ended (c ∷ []) = c ≡ newline
Ended (c ∷ d ∷ cs) = Ended (d ∷ cs)

pub Ended-append : (u : Bytes) → Ended (u ++ newline ∷ [])
Ended-append [] = refl
Ended-append (c ∷ []) = refl
Ended-append (c ∷ d ∷ u) = Ended-append (d ∷ u)

pub Ended-drop : (n : ℕ) (u : Bytes) → Ended u → Ended (drop n u)
Ended-drop zero u h = h
Ended-drop (suc n) [] h = tt
Ended-drop (suc n) (c ∷ []) h = Ended-drop n [] tt
Ended-drop (suc n) (c ∷ d ∷ u) h = Ended-drop n (d ∷ u) h

no_newline : (v : Bytes) → Printable v → has_newline v ≡ false
unfolding has_newline
no_newline [] h = refl
no_newline (c ∷ v) h = ground (arith, no_newline v h.1)

Ended-newline : (c : ℕ) (u v : Bytes) → Ended (c ∷ u) → has_newline (c ∷ (u ++ v)) ≡ true
unfolding has_newline
Ended-newline c [] v h = ground arith
Ended-newline c (d ∷ u) v h = let later = Ended-newline d u v h in ground (arith, later)

after_last-Printable : (v : Bytes) → Printable v → after_last v ≡ v
unfolding after_last
after_last-Printable [] h = refl
after_last-Printable (c ∷ v) h = rw (no_newline v h.1) (ground arith)

pub after_last-Ended : (u v : Bytes) → Ended u → Printable v → after_last (u ++ v) ≡ v
unfolding after_last
after_last-Ended [] v h p = after_last-Printable v p
after_last-Ended (c ∷ []) v h p = rw (no_newline v p) (ground arith)
after_last-Ended (c ∷ d ∷ u) v h p = rw (Ended-newline d u v h) (after_last-Ended (d ∷ u) v h p)

trim_newlines-line : (v : Bytes) → Printable v → trim_newlines (v ++ newline ∷ []) ≡ v
unfolding trim_newlines
trim_newlines-line [] h = refl
trim_newlines-line (c ∷ v) h = let later = trim_newlines-line v h.1 in rw later (ground arith)

trim_newlines-before :
    (u w : Bytes) (d : ℕ) (v : Bytes)
    → trim_newlines w ≡ d ∷ v
    → trim_newlines (u ++ w) ≡ u ++ d ∷ v
unfolding trim_newlines
trim_newlines-before [] w d v e = e
trim_newlines-before (c ∷ []) w d v e = rw e (ground arith)
trim_newlines-before (c ∷ b ∷ u) w d v e =
    let later = trim_newlines-before (b ∷ u) w d v e in rw later (ground arith)

-- Of a text that was ended, one printable line after it is what the end of the file holds, also seen
-- through a window that the line fits.
pub last_line :
    (size : ℕ) (u : Bytes) (d : ℕ) (v : Bytes)
    → Ended u
    → Printable (d ∷ v)
    → suc (length (d ∷ v)) ≤ size
    → (let file = u ++ ((d ∷ v) ++ newline ∷ []) in
        after_last (trim_newlines (drop (length file - size) file)) ≡ d ∷ v)
last_line size u d v ended p fits =
    let line = (d ∷ v) ++ newline ∷ [] in
    let n = length (u ++ line) - size in
    let short : n ≤ length u =
      omega (arith, length-append u line, length-append (d ∷ v) (newline ∷ [])) in
    rw
      (
        drop-append_le n u line short,
        trim_newlines-before (drop n u) line d v (trim_newlines-line (d ∷ v) p),
      )
      (after_last-Ended (drop n u) (d ∷ v) (Ended-drop n u ended) p)
