-- ===== src/Process/Order.antt =====
-- The slot that `schedule` picks: the first ready one in the cyclic order.
use fru1t_os.Prelude.{
  ℕ, zero, suc, ◌+◌, ◌%◌, ◌<◌, ◌≡◌, ◌≢◌, inl, inr, refl, sym, ◌∙◌, true, false, none, some, List,
  arith, Bool-cases,
}
use fru1t_os.Process.{ProcState, ready, is_ready, Process, proc, find_ready, max_processes}

-- the `d`-th slot that a search from `start + i` visits
abbrev pub visited : (start i d : ℕ) → ℕ
visited start i d = (start + i + d) % max_processes

-- what the search of `schedule` finds: the first ready slot in the cyclic order
pub record Found (ps : List Process) (start n i k : ℕ) : Type 0 where
  pub distance : ℕ
  pub near : distance < n
  pub at : k ≡ visited start i distance
  pub is_ready : (proc ps k).state ≡ ready
  pub skipped : (d : ℕ) → d < distance → (proc ps (visited start i d)).state ≢ ready

none_ne_some : (k : ℕ) → none ≡ some k → ⊥
none_ne_some k e = cc

ready_of : (st : ProcState) → is_ready st ≡ true → st ≡ ready
ready_of st h = ground arith

not_ready_of : (st : ProcState) → is_ready st ≡ false → st ≢ ready
not_ready_of st h = ground arith

module _ (ps : List Process) (start n i : ℕ) where
  find_ready_hit :
      is_ready (proc ps ((start + i) % max_processes)).state ≡ true
      → find_ready ps start (suc n) i ≡ some ((start + i) % max_processes)
  unfolding find_ready
  find_ready_hit hit = rw hit

  find_ready_miss :
      is_ready (proc ps ((start + i) % max_processes)).state ≡ false
      → find_ready ps start (suc n) i ≡ find_ready ps start n (i + 1)
  unfolding find_ready
  find_ready_miss miss = rw miss

find_ready-zero : (ps : List Process) (start i : ℕ) → find_ready ps start 0 i ≡ none
unfolding find_ready
find_ready-zero ps start i = refl

visited-zero : (start i : ℕ) → visited start i 0 ≡ (start + i) % max_processes
visited-zero start i = omega arith

visited-suc : (start i d : ℕ) → visited start i (suc d) ≡ visited start (i + 1) d
visited-suc start i d = omega arith

skipped_suc :
    (ps : List Process) (start i m : ℕ)
    → (proc ps ((start + i) % max_processes)).state ≢ ready
    → ((d : ℕ) → d < m → (proc ps (visited start (i + 1) d)).state ≢ ready)
    → (d : ℕ) → d < suc m
    → (proc ps (visited start i d)).state ≢ ready
skipped_suc ps start i m miss rest zero h = rw (visited-zero start i) miss
skipped_suc ps start i m miss rest (suc d) h = rw (visited-suc start i d) (rest d (omega arith))

pub find_ready-Found :
    (ps : List Process) (start n i k : ℕ) → find_ready ps start n i ≡ some k → Found ps start n i k
find_ready-Found ps start zero i k e =
    absurd (none_ne_some k (rw (find_ready-zero ps start i) at e))
find_ready-Found ps start (suc n) i k e =
    elim (Bool-cases (is_ready (proc ps ((start + i) % max_processes)).state)) [
      | inl hit ↦
          let at : k ≡ (start + i) % max_processes =
            ground (arith, find_ready_hit ps start n i hit) in
          record {
            distance = 0;
            near = omega arith;
            at = at ∙ sym (visited-zero start i);
            is_ready = rw at (ready_of _ hit);
            skipped = λ d h. absurd (omega arith);
          }
      | inr miss ↦
          let f =
            find_ready-Found ps start n (i + 1) k (rw (find_ready_miss ps start n i miss) at e) in
          record {
            distance = suc f.distance;
            near = omega (arith, f.near);
            at = f.at ∙ sym (visited-suc start i f.distance);
            is_ready = f.is_ready;
            skipped = skipped_suc ps start i f.distance (not_ready_of _ miss) f.skipped;
          }
    ]

pub find_ready-none :
    (ps : List Process) (start n i : ℕ)
    → find_ready ps start n i ≡ none
    → (d : ℕ) → d < n
    → (proc ps (visited start i d)).state ≢ ready
find_ready-none ps start zero i e d h = elim h [ ]
find_ready-none ps start (suc n) i e d h =
    elim (Bool-cases (is_ready (proc ps ((start + i) % max_processes)).state)) [
      | inl hit ↦ absurd (none_ne_some _ (sym e ∙ find_ready_hit ps start n i hit))
      | inr miss ↦
          skipped_suc ps start i n (not_ready_of _ miss)
            (find_ready-none ps start n (i + 1) (rw (find_ready_miss ps start n i miss) at e)) d h
    ]
