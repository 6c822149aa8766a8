-- ===== src/Shell/Tokens.antt =====
-- The words that the shell finds in a line.
use fru1t_os.Prelude.{
  ℕ, zero, suc, ◌≡◌, ◌≢◌, ◌⊎◌, inl, inr, refl, ap, sym, ◌∙◌, true, false, List, [], ◌∷◌, ◌++◌, take,
}
use fru1t_os.Shell.{is_blank, scan}

-- blanks only
abbrev pub IsGap : List ℕ → Type 0
IsGap [] = Unit
IsGap (c ∷ cs) = (is_blank c ≡ true) × IsGap cs

-- no blank
abbrev pub IsSolid : List ℕ → Type 0
IsSolid [] = Unit
IsSolid (c ∷ cs) = (is_blank c ≡ false) × IsSolid cs

-- a line is made of words, each with the gap behind it
abbrev pub spelled : List (List ℕ × List ℕ) → List ℕ
spelled [] = []
spelled ((w, g) ∷ ps) = w ++ (g ++ spelled ps)

abbrev pub words : List (List ℕ × List ℕ) → List (List ℕ)
words [] = []
words ((w, g) ∷ ps) = w ∷ words ps

-- words are not empty, and a gap between two of them is not
abbrev pub IsLine : List (List ℕ × List ℕ) → Type 0
IsLine [] = Unit
IsLine ((w, g) ∷ ps) = (w ≢ []) × IsSolid w × IsGap g × ((g ≢ []) ⊎ (ps ≡ [])) × IsLine ps

module _ (n c : ℕ) (cs : List ℕ) where
  scan_skip : is_blank c ≡ true → scan (suc n) [] (c ∷ cs) ≡ scan (suc n) [] cs
  unfolding scan
  scan_skip h = rw (h, scan)

  scan_open : is_blank c ≡ false → scan (suc n) [] (c ∷ cs) ≡ scan (suc n) (c ∷ []) cs
  unfolding scan
  scan_open h = rw (h, scan)

  scan_grow :
      (w : ℕ) (ws : List ℕ)
      → is_blank c ≡ false
      → scan (suc n) (w ∷ ws) (c ∷ cs) ≡ scan (suc n) (w ∷ (ws ++ (c ∷ []))) cs
  unfolding scan
  scan_grow w ws h = rw (h, scan)

  scan_cut :
      (w : ℕ) (ws : List ℕ)
      → is_blank c ≡ true
      → scan (suc n) (w ∷ ws) (c ∷ cs) ≡ (w ∷ ws) ∷ scan n [] cs
  unfolding scan
  scan_cut w ws h = rw (h, scan)

scan-zero : (word cs : List ℕ) → scan 0 word cs ≡ []
unfolding scan
scan-zero word cs = refl

scan_gap : (n : ℕ) (g rest : List ℕ) → IsGap g → scan n [] (g ++ rest) ≡ scan n [] rest
scan_gap zero g rest h = scan-zero [] (g ++ rest) ∙ sym (scan-zero [] rest)
scan_gap (suc n) [] rest h = refl
scan_gap (suc n) (c ∷ cs) rest h = scan_skip n c (cs ++ rest) h.0 ∙ scan_gap (suc n) cs rest h.1

append_one : (ws cs : List ℕ) (c : ℕ) → (ws ++ (c ∷ [])) ++ cs ≡ ws ++ (c ∷ cs)
append_one [] cs c = refl
append_one (w ∷ ws) cs c = ap (λ t. w ∷ t) (append_one ws cs c)

append_empty : (ws : List ℕ) → ws ++ [] ≡ ws
append_empty [] = refl
append_empty (w ∷ ws) = ap (λ t. w ∷ t) (append_empty ws)

scan_solid :
    (n w : ℕ) (ws cs rest : List ℕ)
    → IsSolid cs
    → scan (suc n) (w ∷ ws) (cs ++ rest) ≡ scan (suc n) (w ∷ (ws ++ cs)) rest
scan_solid n w ws [] rest h = ap (λ t. scan (suc n) (w ∷ t) rest) (sym (append_empty ws))
scan_solid n w ws (c ∷ cs) rest h =
    scan_grow n c (cs ++ rest) w ws h.0
    ∙ scan_solid n w (ws ++ (c ∷ [])) cs rest h.1
    ∙ ap (λ t. scan (suc n) (w ∷ t) rest) (append_one ws cs c)

scan_first :
    (n c : ℕ) (cs rest : List ℕ)
    → IsSolid (c ∷ cs)
    → scan (suc n) [] ((c ∷ cs) ++ rest) ≡ scan (suc n) (c ∷ cs) rest
scan_first n c cs rest h = scan_open n c (cs ++ rest) h.0 ∙ scan_solid n c [] cs rest h.1

scan_end : (n w : ℕ) (ws : List ℕ) → scan (suc n) (w ∷ ws) [] ≡ (w ∷ ws) ∷ []
unfolding scan
scan_end n w ws = refl

scan_stop : (n : ℕ) → scan n [] [] ≡ []
unfolding scan
scan_stop zero = refl
scan_stop (suc n) = refl

take_empty : (n : ℕ) → take {A = List ℕ} n [] ≡ []
take_empty zero = refl
take_empty (suc n) = refl

scan_line :
    (n : ℕ) (ps : List (List ℕ × List ℕ)) → IsLine ps → scan n [] (spelled ps) ≡ take n (words ps)
scan_line zero ps h = scan-zero [] (spelled ps)
scan_line (suc n) [] h = scan_stop (suc n)
scan_line (suc n) (([], g) ∷ ps) h = absurd (h.0 refl)
scan_line (suc n) ((c ∷ cs, []) ∷ ps) (ne, solid, gap, sep, more) = elim sep [
  | inl bad ↦ absurd (bad refl)
  | inr last ↦
      rw last
        (scan_first n c cs [] solid ∙ scan_end n c cs ∙ ap (λ t. (c ∷ cs) ∷ t) (sym (take_empty n)))
]
scan_line (suc n) ((c ∷ cs, b ∷ bs) ∷ ps) (ne, solid, gap, sep, more) =
    scan_first n c cs (b ∷ (bs ++ spelled ps)) solid
    ∙ scan_cut n b (bs ++ spelled ps) c cs gap.0
    ∙ ap (λ t. (c ∷ cs) ∷ t) (scan_gap n bs (spelled ps) gap.1 ∙ scan_line n ps more)

-- Of a line that is made of blanks, then of words with gaps of blanks between them, the shell finds
-- the words, in their order and up to the number of arguments that it has room for.
pub scan_lem :
    (n : ℕ) (lead : List ℕ) (ps : List (List ℕ × List ℕ))
    → IsGap lead
    → IsLine ps
    → scan n [] (lead ++ spelled ps) ≡ take n (words ps)
scan_lem n lead ps h l = scan_gap n lead (spelled ps) h ∙ scan_line n ps l
