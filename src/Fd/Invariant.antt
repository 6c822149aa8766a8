-- ===== src/Fd/Invariant.antt =====
-- The invariant of the descriptor table, and the search for an unused slot.
use fru1t_os.Prelude.{
  ℕ, zero, suc, ◌+◌, ◌-◌, ◌%◌, ◌<◌, ◌≡◌, inl, inr, refl, sym, ◌∙◌, ap, true, false, none, some,
  List, ◌==◌, if◌then◌else◌, length, get_or, set, length-set, get_or-set_self, get_or-set_ne, arith,
  Bool-cases,
}
use fru1t_os.Fd.{Fd, FdTable, max_fds, fd_type_unused, no_fd, fds_from, fd_init, find_unused}

none_ne_some : (k : ℕ) → none ≡ some k → ⊥
none_ne_some k e = cc

module _ {W : Type 0} where
  pub record IsValid (t : FdTable W) : Type 0 where
    pub slots : length t.fds ≡ max_fds
    pub next_in : t.next_fd < max_fds
    pub numbered : (i : ℕ) → i < max_fds → (get_or t.fds i no_fd).fd_num ≡ i

  pub slot-set :
      (fds : List (Fd W)) (i j : ℕ) (f : Fd W)
      → i < length fds
      → get_or (set fds i f) j no_fd ≡ (if i == j then f else get_or fds j no_fd)
  slot-set fds i j f h = elim (Bool-cases (i == j)) [
    | inl e ↦ let e' : i ≡ j = ground arith in rw (e, ← e') (get_or-set_self fds i f no_fd h)
    | inr n ↦ rw n (get_or-set_ne fds i j f no_fd (ground arith))
  ]

  -- a slot rewritten under its own number
  pub set-IsValid :
      {t : FdTable W} (i next : ℕ) (f : Fd W)
      → IsValid t
      → i < max_fds
      → next < max_fds
      → f.fd_num ≡ i
      → IsValid (record { fds = set t.fds i f; next_fd = next })
  set-IsValid {t} i next f v h k id = record {
    slots = omega (arith, length-set t.fds i f, v.slots);
    next_in = k;
    numbered = λ j l. ground (arith, slot-set t.fds i j f, v.slots, v.numbered j);
  }

  abbrev pub IsFree : List (Fd W) → ℕ → Type 0
  IsFree fds i = (get_or fds i no_fd).type ≡ fd_type_unused

  find_unused-zero : (fds : List (Fd W)) (start i : ℕ) → find_unused fds start 0 i ≡ none
  unfolding find_unused
  find_unused-zero fds start i = refl

  module _ (fds : List (Fd W)) (start n i : ℕ) where
    find_unused_hit :
        ((get_or fds ((start + i) % max_fds) no_fd).type == fd_type_unused) ≡ true
        → find_unused fds start (suc n) i ≡ some ((start + i) % max_fds)
    unfolding find_unused
    find_unused_hit hit = rw hit

    find_unused_miss :
        ((get_or fds ((start + i) % max_fds) no_fd).type == fd_type_unused) ≡ false
        → find_unused fds start (suc n) i ≡ find_unused fds start n (i + 1)
    unfolding find_unused
    find_unused_miss miss = rw miss

  -- the slot that is found is in the table, and unused
  pub find_unused-some :
      (fds : List (Fd W)) (start n i k : ℕ)
      → find_unused fds start n i ≡ some k
      → (k < max_fds) × IsFree fds k
  find_unused-some fds start zero i k e =
      absurd (none_ne_some k (rw (find_unused-zero fds start i) at e))
  find_unused-some fds start (suc n) i k e =
      elim (Bool-cases ((get_or fds ((start + i) % max_fds) no_fd).type == fd_type_unused)) [
        | inl hit ↦
            let at : k ≡ (start + i) % max_fds =
              ground (arith, find_unused_hit fds start n i hit) in
            (omega arith, rw at (ground arith))
        | inr miss ↦
            find_unused-some fds start n (i + 1) k (rw (find_unused_miss fds start n i miss) at e)
      ]

  find_unused-none :
      (fds : List (Fd W)) (start n i : ℕ)
      → find_unused fds start n i ≡ none
      → (d : ℕ) → d < n
      → ¬ IsFree fds ((start + i + d) % max_fds)
  find_unused-none fds start zero i e d h = elim h [ ]
  find_unused-none fds start (suc n) i e d h =
      elim (Bool-cases ((get_or fds ((start + i) % max_fds) no_fd).type == fd_type_unused)) [
        | inl hit ↦ absurd (none_ne_some _ (sym e ∙ find_unused_hit fds start n i hit))
        | inr miss ↦
            visited n i (ground arith)
              (find_unused-none fds start n (i + 1) (rw (find_unused_miss fds start n i miss) at e))
              d h
      ]
    where
      visited :
          (n i : ℕ)
          → ¬ IsFree fds ((start + i) % max_fds)
          → ((d : ℕ) → d < n → ¬ IsFree fds ((start + (i + 1) + d) % max_fds))
          → (d : ℕ) → d < suc n
          → ¬ IsFree fds ((start + i + d) % max_fds)
      visited n i here rest zero h =
          let e : (start + i + 0) % max_fds ≡ (start + i) % max_fds = omega arith in rw e here
      visited n i here rest (suc d) h =
          let e : (start + i + suc d) % max_fds ≡ (start + (i + 1) + d) % max_fds = omega arith in
          rw e (rest d (omega arith))

  -- a search of 64 rounds that fails has seen every slot in use
  pub find_unused-full :
      (fds : List (Fd W)) (start : ℕ)
      → start < max_fds
      → find_unused fds start max_fds 0 ≡ none
      → (j : ℕ) → j < max_fds
      → ¬ IsFree fds j
  find_unused-full fds start h e j l =
      let d : ℕ = (j + max_fds - start) % max_fds in
      let at : (start + 0 + d) % max_fds ≡ j = omega arith in
      rw at at (find_unused-none fds start max_fds 0 e d (omega arith))

module _ (W : Type 0) where
  length-fds_from : (n i : ℕ) → length (fds_from {W = W} n i) ≡ n
  unfolding fds_from
  length-fds_from zero i = refl
  length-fds_from (suc n) i = ap suc (length-fds_from n (i + 1))

  fd_num-fds_from : (n i j : ℕ) → j < n → (get_or (fds_from {W = W} n i) j no_fd).fd_num ≡ i + j
  unfolding fds_from
  fd_num-fds_from zero i j h = elim h [ ]
  fd_num-fds_from (suc n) i zero h = omega arith
  fd_num-fds_from (suc n) i (suc j) h = omega (arith, fd_num-fds_from n (i + 1) j (omega arith))

  pub fd_init-IsValid : IsValid (fd_init {W = W})
  unfolding fd_init
  fd_init-IsValid = record {
    slots = length-fds_from 64 0;
    next_in = omega arith;
    numbered = λ i h. omega (arith, fd_num-fds_from 64 0 i h);
  }
