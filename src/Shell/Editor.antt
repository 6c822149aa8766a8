-- ===== src/Shell/Editor.antt =====
-- The line that the editor of `shell_run` holds.
use fru1t_os.Prelude.{
  ℕ, zero, suc, ◌+◌, ◌-◌, ◌≤◌, ◌<◌, ◌≡◌, ◌≢◌, ◌⊎◌, inl, inr, refl, ap, sym, ◌∙◌, Bool, true, false,
  ◌&&◌, ◌||◌, List, [], ◌∷◌, ◌++◌, arith, length, take, set, ltb, leb, ◌==◌, if◌then◌else◌,
  Bool-cases, length-set,
}
use fru1t_os.CString.{c_str}
use fru1t_os.CString.Laws.{IsString}
use fru1t_os.Shell.{ShellState, shell_buffer_size, edit}

module _ {ℓ} {A : Type ℓ} where
  take-set : (xs : List A) (n : ℕ) (v : A) → take n (set xs n v) ≡ take n xs
  take-set xs zero v = refl
  take-set [] (suc n) v = refl
  take-set (x ∷ xs) (suc n) v = ap (λ t. x ∷ t) (take-set xs n v)

  take-suc :
      (xs : List A) (n : ℕ) (v : A)
      → n < length xs
      → take (suc n) (set xs n v) ≡ take n xs ++ (v ∷ [])
  take-suc [] n v h = elim h [ ]
  take-suc (x ∷ xs) zero v h = refl
  take-suc (x ∷ xs) (suc n) v h = ap (λ t. x ∷ t) (take-suc xs n v (omega arith))

  -- all but the last
  abbrev pub drop_last : List A → List A
  drop_last [] = []
  drop_last (x ∷ []) = []
  drop_last (x ∷ y ∷ xs) = x ∷ drop_last (y ∷ xs)

  drop_last-take : (xs : List A) (n : ℕ) → n < length xs → drop_last (take (suc n) xs) ≡ take n xs
  drop_last-take [] n h = elim h [ ]
  drop_last-take (x ∷ xs) zero h = refl
  drop_last-take (x ∷ []) (suc n) h = absurd (omega arith)
  drop_last-take (x ∷ y ∷ xs) (suc n) h = ap (λ t. x ∷ t) (drop_last-take (y ∷ xs) n (omega arith))

-- what is typed so far
abbrev pub held : ShellState → List ℕ
held s = take s.buffer_pos s.input_buffer

pub record IsEditing (s : ShellState) : Type 0 where
  pub size : length s.input_buffer ≡ shell_buffer_size
  pub pos_in : s.buffer_pos < shell_buffer_size
  pub no_nul : IsString (held s)

c_str-set :
    (xs : List ℕ) (n : ℕ) → n < length xs → IsString (take n xs) → c_str (set xs n 0) ≡ take n xs
unfolding c_str
c_str-set [] n h z = elim h [ ]
c_str-set (x ∷ xs) zero h z = refl
c_str-set (zero ∷ xs) (suc n) h z = absurd (omega (arith, z.0))
c_str-set (suc x ∷ xs) (suc n) h z = ap (λ t. suc x ∷ t) (c_str-set xs n (omega arith) z.1)

IsString-append : (xs : List ℕ) (c : ℕ) → 0 < c → IsString xs → IsString (xs ++ (c ∷ []))
IsString-append [] c h z = (h, tt)
IsString-append (x ∷ xs) c h z = (z.0, IsString-append xs c h z.1)

IsString-drop_last : (xs : List ℕ) → IsString xs → IsString (drop_last xs)
IsString-drop_last [] z = tt
IsString-drop_last (x ∷ []) z = tt
IsString-drop_last (x ∷ y ∷ xs) z = (z.0, IsString-drop_last (y ∷ xs) z.1)

abbrev pub is_enter : ℕ → Bool
is_enter c = c == 10 || c == 13

abbrev pub is_delete : ℕ → Bool
is_delete c = c == 8 || c == 127

-- the line behind a key: DEL and backspace take its last byte, a printable byte is put at the end
-- while there is room, and any other key leaves it
abbrev pub edited : ℕ → List ℕ → List ℕ
edited c l =
    if is_delete c
    then drop_last l
    else if leb 32 c && ltb c 127 && ltb (length l) (shell_buffer_size - 1)
    then l ++ (c ∷ [])
    else l

abbrev accepts : ℕ → ShellState → Bool
accepts c s = leb 32 c && ltb c 127 && ltb s.buffer_pos (shell_buffer_size - 1)

module _ (c : ℕ) (s : ShellState) where
  edit_enter :
      is_enter c ≡ true
      → edit c s ≡ (true, record s { input_buffer = set s.input_buffer s.buffer_pos 0 })
  unfolding edit
  edit_enter t = rw (t, edit)

  edit_delete :
      is_enter c ≡ false
      → is_delete c ≡ true
      → edit c s
        ≡ (false, (if ltb 0 s.buffer_pos then record s { buffer_pos = s.buffer_pos - 1 } else s))
  unfolding edit
  edit_delete t u = rw (t, u, edit)

  edit_accept :
      is_enter c ≡ false
      → is_delete c ≡ false
      → accepts c s ≡ true
      → edit c s ≡ (
        false,
        record s {
          input_buffer = set s.input_buffer s.buffer_pos c;
          buffer_pos = s.buffer_pos + 1;
        },
      )
  unfolding edit
  edit_accept t u a = rw (t, u, a, edit)

  edit_ignore :
      is_enter c ≡ false → is_delete c ≡ false → accepts c s ≡ false → edit c s ≡ (false, s)
  unfolding edit
  edit_ignore t u a = rw (t, u, a, edit)

length-take : (xs : List ℕ) (n : ℕ) → n ≤ length xs → length (take n xs) ≡ n
length-take xs zero h = refl
length-take [] (suc n) h = absurd (omega arith)
length-take (x ∷ xs) (suc n) h = ap suc (length-take xs n (omega arith))

-- what the editor has done with a key other than Enter
pub record Edited (c : ℕ) (s : ShellState) (s' : ShellState) : Type 0 where
  pub line : held s' ≡ edited c (held s)
  pub running : s'.running ≡ s.running
  pub valid : IsEditing s'

module _ (c : ℕ) (s : ShellState) (v : IsEditing s) (other : is_enter c ≡ false) where
  delete_Edited : is_delete c ≡ true → Edited c s (edit c s).1
  delete_Edited d = rw (edit_delete c s other d) (elim (Bool-cases (ltb 0 s.buffer_pos)) [
    | inl t ↦
        let k : ℕ = s.buffer_pos - 1 in
        let e : s.buffer_pos ≡ suc k = ground arith in
        let inside : k < length s.input_buffer = rw v.size (omega (arith, v.pos_in)) in
        let shorter : take k s.input_buffer ≡ drop_last (held s) = sym (
          ap (λ n. drop_last (take n s.input_buffer)) e ∙ drop_last-take s.input_buffer k inside) in
        rw t (record {
          line = shorter ∙ rw d refl;
          running = refl;
          valid = record {
            size = v.size;
            pos_in = omega (arith, v.pos_in);
            no_nul = rw shorter (IsString-drop_last (held s) v.no_nul);
          };
        })
    | inr t ↦
        let e : s.buffer_pos ≡ 0 = ground arith in
        let empty : held s ≡ [] = ap (λ n. take n s.input_buffer) e in
        rw t (record { line = rw (d, empty) refl; running = refl; valid = v })
  ])

  accept_Edited : is_delete c ≡ false → Edited c s (edit c s).1
  accept_Edited d =
      let inside : s.buffer_pos < length s.input_buffer = rw v.size v.pos_in in
      let n : length (held s) ≡ s.buffer_pos =
        length-take s.input_buffer s.buffer_pos (omega arith) in
      let one_more : s.buffer_pos + 1 ≡ suc s.buffer_pos = omega arith in
      elim (Bool-cases (accepts c s)) [
        | inl t ↦
            let longer : take (s.buffer_pos + 1) (set s.input_buffer s.buffer_pos c)
                ≡ held s ++ (c ∷ []) =
              ap (λ k. take k (set s.input_buffer s.buffer_pos c)) one_more
              ∙ take-suc s.input_buffer s.buffer_pos c inside in
            rw (edit_accept c s other d t) (record {
              line = longer ∙ sym (rw (d, n, t) refl);
              running = refl;
              valid = record {
                size = length-set s.input_buffer s.buffer_pos c ∙ v.size;
                pos_in = ground (arith, v.pos_in);
                no_nul = rw longer (IsString-append (held s) c (ground arith) v.no_nul);
              };
            })
        | inr t ↦
            rw (edit_ignore c s other d t)
              (record { line = sym (rw (d, n, t) refl); running = refl; valid = v })
      ]

-- In the editor LF and CR, and no other key, enter the line: they leave a C string in the buffer, which
-- is the line typed so far. Each other key changes that line as a list: backspace and DEL take its last
-- byte, a printable byte is put at its end while it has less than 255, and the rest leave it. No write
-- leaves the buffer.
pub edit_lem :
    (c : ℕ) {s : ShellState}
    → IsEditing s
    → ((c ≡ 10) ⊎ (c ≡ 13)) × ((edit c s).0 ≡ true) × (c_str (edit c s).1.input_buffer ≡ held s)
      ⊎ (c ≢ 10) × (c ≢ 13) × ((edit c s).0 ≡ false) × Edited c s (edit c s).1
edit_lem c {s} v = elim (Bool-cases (is_enter c)) [
  | inl t ↦
      let inside : s.buffer_pos < length s.input_buffer = rw v.size v.pos_in in
      inl (
        enters t,
        rw (edit_enter c s t) refl,
        rw (edit_enter c s t) (c_str-set s.input_buffer s.buffer_pos inside v.no_nul),
      )
  | inr t ↦ elim (Bool-cases (is_delete c)) [
    | inl d ↦
        inr (not_ten t, not_thirteen t, rw (edit_delete c s t d) refl, delete_Edited c s v t d)
    | inr d ↦ inr (not_ten t, not_thirteen t, stays t d, accept_Edited c s v t d)
  ]
]
  where
    enters : is_enter c ≡ true → (c ≡ 10) ⊎ (c ≡ 13)
    enters t = ground arith

    not_ten : is_enter c ≡ false → c ≢ 10
    not_ten t = ground arith

    not_thirteen : is_enter c ≡ false → c ≢ 13
    not_thirteen t = ground arith

    stays : is_enter c ≡ false → is_delete c ≡ false → (edit c s).0 ≡ false
    stays t d = elim (Bool-cases (accepts c s)) [
      | inl a ↦ rw (edit_accept c s t d a) refl
      | inr a ↦ rw (edit_ignore c s t d a) refl
    ]
