-- ===== src/Process/Create.antt =====
-- `create_process` and `scheduler_init`.
use fru1t_os.Prelude.{
  ℕ, zero, suc, ◌+◌, ◌-◌, ◌<◌, ◌≡◌, ◌≢◌, ◌⊎◌, inl, inr, refl, sym, ◌∙◌, ap, true, false, none, some,
  List, [], ◌∷◌, ◌==◌, length, set, arith, Bool-cases, Option-cases,
}
use fru1t_os.Process.{
  ProcState, unused, ready, running, is_unused, zero_frame, Process, Scheduler, proc, find_unused,
  create_process, fresh_from, scheduler_init, max_processes, stack_size, trap_frame_size,
}
use fru1t_os.Process.Invariant.{has_frame, IsValid, proc-set, set-IsTable, some_inj, none_ne}
use fru1t_os.Process.Mark.{eq_self, eq_ne, ready_ne_running}

unused_of : (st : ProcState) → is_unused st ≡ true → st ≡ unused
unused_of st h = ground arith

-- the first unused slot of a table that starts at index `i`
record FirstUnused (ps : List Process) (i k : ℕ) : Type 0 where
  offset : ℕ
  at : k ≡ i + offset
  inside : offset < length ps
  is_unused : (proc ps offset).state ≡ unused
  taken : (j : ℕ) → j < offset → (proc ps j).state ≢ unused

find_unused-First : (ps : List Process) (i k : ℕ) → find_unused ps i ≡ some k → FirstUnused ps i k
unfolding find_unused
find_unused-First [] i k e = absurd (none_ne k e)
find_unused-First (p ∷ ps) i k e = elim (Bool-cases (is_unused p.state)) [
  | inl u ↦ record {
    offset = 0;
    at = some_inj k (i + 0) (sym e ∙ rw u (ap some (omega arith)));
    inside = omega arith;
    is_unused = unused_of p.state u;
    taken = λ j h. absurd (omega arith);
  }
  | inr n ↦
      let f = find_unused-First ps (i + 1) k (rw n at e) in
      record {
        offset = suc f.offset;
        at = omega (arith, f.at);
        inside = omega (arith, f.inside);
        is_unused = f.is_unused;
        taken = λ j. first p ps f.offset n f.taken j;
      }
]
  where
    first :
        (p : Process) (ps : List Process) (m : ℕ)
        → is_unused p.state ≡ false
        → ((j : ℕ) → j < m → (proc ps j).state ≢ unused)
        → (j : ℕ) → j < suc m
        → (proc (p ∷ ps) j).state ≢ unused
    first p ps m n rest zero h = ground arith
    first p ps m n rest (suc j) h = rest j (omega arith)

find_unused-none :
    (ps : List Process) (i : ℕ)
    → find_unused ps i ≡ none
    → (j : ℕ) → j < length ps
    → (proc ps j).state ≢ unused
unfolding find_unused
find_unused-none [] i e j h = elim h [ ]
find_unused-none (p ∷ ps) i e zero h = ground arith
find_unused-none (p ∷ ps) i e (suc j) h = elim (Bool-cases (is_unused p.state)) [
  | inl u ↦ absurd (none_ne i (sym (rw u at e)))
  | inr n ↦ find_unused-none ps (i + 1) (rw n at e) j (omega arith)
]

-- the process that `create_process` puts into slot `k`
abbrev pub created : (stack_of : ℕ → ℕ) (entry_point : ℕ) → Process → ℕ → Process
created stack_of entry_point p k = record p {
  state = ready;
  sp = stack_of k + (stack_size - trap_frame_size);
  trap_frame = some (record zero_frame { ra = entry_point; sp = stack_of k + (stack_size - 8) });
}

abbrev pub with_process : Scheduler → ℕ → Process → Scheduler
with_process s k p = record s { processes = set s.processes k p }

module _ (stack_of : ℕ → ℕ) (entry : ℕ) (s : Scheduler) where
  create_none : find_unused s.processes 0 ≡ none → create_process stack_of entry s ≡ (none, s)
  unfolding create_process
  create_none e = rw (e, create_process)

  create_some :
      (k : ℕ)
      → find_unused s.processes 0 ≡ some k
      → create_process stack_of entry s
        ≡ (some k, with_process s k (created stack_of entry (proc s.processes k) k))
  unfolding create_process
  create_some k e = rw (e, create_process)

with_process-IsValid :
    {s : Scheduler} (k : ℕ) (p : Process)
    → IsValid s
    → k < max_processes
    → p.pid ≡ k
    → p.state ≡ ready
    → has_frame p ≡ true
    → IsValid (with_process s k p)
with_process-IsValid {s} k p v h id st fr = record {
  table = set-IsTable k p v.table h id (λ _. fr);
  current_in = v.current_in;
  current_framed =
      λ c e. at c (λ (q : Process). has_frame q ≡ true) (λ _. fr) (v.current_framed c e);
  one_running = λ i.
      at i (λ (q : Process). q.state ≡ running → s.current_proc ≡ some i)
        (λ _ r. absurd (ready_ne_running (sym st ∙ r))) (v.one_running i);
}
  where
    at :
        (j : ℕ) (P : Process → Type 0)
        → (k ≡ j → P p)
        → P (proc s.processes j)
        → P (proc (set s.processes k p) j)
    at j P here there =
        rw (proc-set s.processes k j p (omega (arith, v.table.slots)))
          (elim (Bool-cases (k == j)) [ inl e ↦ rw e (here (ground arith)) | inr n ↦ rw n there ])

-- what `create_process` has done when it returns slot `k` and the state `s'`
pub record Created (stack_of : ℕ → ℕ) (entry : ℕ) (s : Scheduler) (k : ℕ) (s' : Scheduler)
    : Type 0 where
  pub was_unused : (proc s.processes k).state ≡ unused
  pub first : (j : ℕ) → j < k → (proc s.processes j).state ≢ unused
  pub ready_to_run : proc s'.processes k ≡ created stack_of entry (proc s.processes k) k
  pub others : (j : ℕ) → k ≢ j → proc s'.processes j ≡ proc s.processes j
  pub valid : IsValid s'

-- On a valid scheduler `create_process` fails, and changes nothing, exactly when no slot is unused.
-- Else it takes the first unused slot: the process there is ready, with a zeroed frame on top of its
-- own stack that starts at the entry point; every other slot is as it was, and the scheduler stays
-- valid.
pub create_process_lem :
    (stack_of : ℕ → ℕ) (entry : ℕ) {s : Scheduler}
    → IsValid s
    → (create_process stack_of entry s ≡ (none, s))
        × ((j : ℕ) → j < max_processes → (proc s.processes j).state ≢ unused)
      ⊎ ((k : ℕ) × ((create_process stack_of entry s).0 ≡ some k)
          × Created stack_of entry s k (create_process stack_of entry s).1)
create_process_lem stack_of entry {s} v = elim (Option-cases (find_unused s.processes 0)) [
  | inl e ↦ inl (
    create_none stack_of entry s e,
    λ j h. find_unused-none s.processes 0 e j (omega (arith, v.table.slots)),
  )
  | inr (k, e) ↦
      let f = find_unused-First s.processes 0 k e in
      let fk : f.offset ≡ k = omega (arith, f.at) in
      let h : k < length s.processes = omega (arith, f.inside) in
      let p : Process = created stack_of entry (proc s.processes k) k in
      inr (
        k,
        rw (create_some stack_of entry s k e),
        rw (create_some stack_of entry s k e) (record {
          was_unused = rw fk at f.is_unused;
          first = λ j l. f.taken j (omega arith);
          ready_to_run = rw (proc-set s.processes k k p h, eq_self k);
          others = λ j ne. rw (proc-set s.processes k j p h, eq_ne ne);
          valid =
              with_process-IsValid k p v (omega (arith, v.table.slots))
                (v.table.numbered k (omega (arith, v.table.slots))) refl refl;
        }),
      )
]

length-fresh_from : (n i : ℕ) → length (fresh_from n i) ≡ n
unfolding fresh_from
length-fresh_from zero i = refl
length-fresh_from (suc n) i = ap suc (length-fresh_from n (i + 1))

pid-fresh_from : (n i j : ℕ) → j < n → (proc (fresh_from n i) j).pid ≡ i + j
unfolding fresh_from
pid-fresh_from zero i j h = elim h [ ]
pid-fresh_from (suc n) i zero h = omega arith
pid-fresh_from (suc n) i (suc j) h = omega (arith, pid-fresh_from n (i + 1) j (omega arith))

unused-fresh_from : (n i j : ℕ) → (proc (fresh_from n i) j).state ≡ unused
unfolding fresh_from
unused-fresh_from zero i j = refl
unused-fresh_from (suc n) i zero = refl
unused-fresh_from (suc n) i (suc j) = unused-fresh_from n (i + 1) j

unused_ne_running : unused ≢ running
unused_ne_running e = cc

-- `scheduler_init` makes a valid scheduler of any state.
pub scheduler_init-IsValid : (s : Scheduler) → IsValid (scheduler_init s)
unfolding scheduler_init
scheduler_init-IsValid s = record {
  table = record {
    slots = length-fresh_from 8 0;
    numbered = λ i h. omega (arith, pid-fresh_from 8 0 i h);
    framed = λ i u. absurd (u (unused-fresh_from 8 0 i));
  };
  current_in = λ c e. absurd (none_ne c e);
  current_framed = λ c e. absurd (none_ne c e);
  one_running = λ i r. absurd (unused_ne_running (sym (unused-fresh_from 8 0 i) ∙ r));
}
