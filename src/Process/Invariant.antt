-- ===== src/Process/Invariant.antt =====
-- The invariant of the process table: at most one process runs, and it is the current one.
use fru1t_os.Prelude.{
  ℕ, zero, suc, ◌<◌, ◌≡◌, ◌≢◌, inl, inr, refl, sym, ◌∙◌, Bool, true, false, none, some, List, [],
  ◌∷◌, ◌==◌, if◌then◌else◌, length, set, length-set, get_or-set_self, get_or-set_ne, arith,
  Bool-cases, Option-cases,
}
use fru1t_os.Process.{
  ProcState, unused, ready, running, is_running, Process, Scheduler, proc, no_process, set_state,
  release_current, max_processes,
}

abbrev pub has_frame : Process → Bool
has_frame p = elim p.trap_frame [ none ↦ false | some _ ↦ true ]

-- the table: its slots are numbered, and every process that is in use has a saved frame
pub record IsTable (ps : List Process) : Type 0 where
  pub slots : length ps ≡ max_processes
  pub numbered : (i : ℕ) → i < max_processes → (proc ps i).pid ≡ i
  pub framed : (i : ℕ) → (proc ps i).state ≢ unused → has_frame (proc ps i) ≡ true

-- at most one process runs, and it is the current one
pub record IsValid (s : Scheduler) : Type 0 where
  pub table : IsTable s.processes
  pub current_in : (c : ℕ) → s.current_proc ≡ some c → c < max_processes
  pub current_framed : (c : ℕ) → s.current_proc ≡ some c → has_frame (proc s.processes c) ≡ true
  pub one_running : (i : ℕ) → (proc s.processes i).state ≡ running → s.current_proc ≡ some i

pub proc-set :
    (ps : List Process) (i j : ℕ) (p : Process)
    → i < length ps
    → proc (set ps i p) j ≡ (if i == j then p else proc ps j)
proc-set ps i j p h = elim (Bool-cases (i == j)) [
  | inl e ↦ let e' : i ≡ j = ground arith in rw (e, ← e') (get_or-set_self ps i p no_process h)
  | inr n ↦ rw n (get_or-set_ne ps i j p no_process (ground arith))
]

-- a slot that is not unused lies in the table
pub in_table : (ps : List Process) (i : ℕ) → (proc ps i).state ≢ unused → i < length ps
in_table [] i h = absurd (h refl)
in_table (p ∷ ps) zero h = omega arith
in_table (p ∷ ps) (suc i) h = omega (arith, in_table ps i h)

-- a process written at its own slot
pub set-IsTable :
    {ps : List Process} (i : ℕ) (p : Process)
    → IsTable ps
    → i < max_processes
    → p.pid ≡ i
    → (p.state ≢ unused → has_frame p ≡ true)
    → IsTable (set ps i p)
set-IsTable {ps} i p t h id fr = record {
  slots = omega (arith, length-set ps i p, t.slots);
  numbered = λ j l. at j (λ (q : Process). q.pid ≡ j) (λ e. id ∙ e) (t.numbered j l);
  framed =
      λ j. at j (λ (q : Process). q.state ≢ unused → has_frame q ≡ true) (λ e. fr) (t.framed j);
}
  where
    at : (j : ℕ) (P : Process → Type 0) → (i ≡ j → P p) → P (proc ps j) → P (proc (set ps i p) j)
    at j P here there =
        rw (proc-set ps i j p (omega (arith, t.slots)))
          (elim (Bool-cases (i == j)) [ inl e ↦ rw e (here (ground arith)) | inr n ↦ rw n there ])

pub set_state_at :
    {ps : List Process} (i j : ℕ) (st : ProcState)
    → IsTable ps
    → i < max_processes
    → proc (set_state ps i st) j ≡ (if i == j then record (proc ps i) { state = st } else proc ps j)
set_state_at {ps} i j st t h = proc-set ps i j _ (omega (arith, t.slots))

pub running_of : (st : ProcState) → is_running st ≡ true → st ≡ running
running_of st h = ground arith

not_running_of : (st : ProcState) → st ≢ running → is_running st ≡ false
not_running_of st h = ground arith

-- what `schedule` makes of a process before it searches
abbrev pub released : Process → Process
released p = if is_running p.state then record p { state = ready } else p

module _ (s : Scheduler) where
  release_none : s.current_proc ≡ none → release_current s ≡ s.processes
  unfolding release_current
  release_none e = rw (e, release_current)

  release_running :
      (c : ℕ)
      → s.current_proc ≡ some c
      → is_running (proc s.processes c).state ≡ true
      → release_current s ≡ set_state s.processes c ready
  unfolding release_current
  release_running c e r = rw (e, release_current, r)

  release_not_running :
      (c : ℕ)
      → s.current_proc ≡ some c
      → is_running (proc s.processes c).state ≡ false
      → release_current s ≡ s.processes
  unfolding release_current
  release_not_running c e r = rw (e, release_current, r)

  not_running :
      IsValid s → (i : ℕ) → s.current_proc ≢ some i → is_running (proc s.processes i).state ≡ false
  not_running v i ne = not_running_of _ (λ r. ne (v.one_running i r))

pub some_inj : (a b : ℕ) → some a ≡ some b → a ≡ b
some_inj a b e = ground arith

pub true_ne_false : true ≢ false
true_ne_false e = cc

pub none_ne : (a : ℕ) → none ≢ some a
none_ne a e = cc

pub release_current_at :
    {s : Scheduler}
    → IsValid s
    → (i : ℕ) → proc (release_current s) i ≡ released (proc s.processes i)
release_current_at {s} v i = elim (Option-cases s.current_proc) [
  | inl e ↦ rw (release_none s e, not_running s v i (λ r. none_ne i (sym e ∙ r)))
  | inr (c, e) ↦ elim (Bool-cases (is_running (proc s.processes c).state)) [
    | inl r ↦
        rw (release_running s c e r, set_state_at c i ready v.table (v.current_in c e))
          (elim (Bool-cases (c == i)) [
            | inl same ↦ let ci : c ≡ i = ground arith in rw (same, ← ci, r)
            | inr other ↦
                rw (other, not_running s v i (λ q. ground (arith, some_inj c i (sym e ∙ q))))
          ])
    | inr r ↦
        rw (release_not_running s c e r)
          (elim (Bool-cases (is_running (proc s.processes i).state)) [
            | inl q ↦
                let ci : c ≡ i = some_inj c i (sym e ∙ v.one_running i (running_of _ q)) in
                absurd (true_ne_false (sym q ∙ (rw ci at r)))
            | inr q ↦ rw q
          ])
  ]
]

pub release_current-IsTable : {s : Scheduler} → IsValid s → IsTable (release_current s)
release_current-IsTable {s} v = elim (Option-cases s.current_proc) [
  | inl e ↦ rw (release_none s e) v.table
  | inr (c, e) ↦ elim (Bool-cases (is_running (proc s.processes c).state)) [
    | inl r ↦ rw (release_running s c e r) (
        set-IsTable c (record (proc s.processes c) { state = ready }) v.table (v.current_in c e)
          (v.table.numbered c (v.current_in c e)) (λ _. v.current_framed c e))
    | inr r ↦ rw (release_not_running s c e r) v.table
  ]
]
