-- ===== src/Process/Calls.antt =====
-- `yield`, `process_exit`, `create_process` and `scheduler_init` on a valid scheduler.
use fru1t_os.Prelude.{
  ℕ, ◌<◌, ◌≡◌, ◌≢◌, ◌⊎◌, inl, inr, refl, sym, ◌∙◌, ap, Option, none, some, ◌==◌, if◌then◌else◌,
  Bool-cases,
}
use fru1t_os.Process.{
  unused, ready, running, Machine, Process, Scheduler, proc, set_state, release_current, schedule,
  process_exit, max_processes,
}
use fru1t_os.Process.Invariant.{
  IsValid, set-IsTable, set_state_at, release_current_at, some_inj, none_ne, true_ne_false,
}
use fru1t_os.Process.Mark.{eq_self, unused_ne_running, ready_ne_unused}
use fru1t_os.Process.Switch.{schedule_lem}

-- the state in which `yield` calls `schedule`
abbrev pub yielding : Scheduler → ℕ → Scheduler
yielding s c = record s { processes = set_state s.processes c ready }

-- the state in which `process_exit` calls `schedule`
abbrev pub exiting : Scheduler → ℕ → Scheduler
exiting s c = record s { processes = set_state s.processes c unused; current_proc = none }

process_exit_current :
    (mc : Machine) (s : Scheduler) (c : ℕ)
    → s.current_proc ≡ some c
    → process_exit mc s ≡ schedule mc (exiting s c)
unfolding process_exit
process_exit_current mc s c e =
    ap (λ (o : Option ℕ). elim o [ none ↦ some s | some d ↦ schedule mc (exiting s d) ]) e

module _ {s : Scheduler} (v : IsValid s) (c : ℕ) (e : s.current_proc ≡ some c) where
  c_in : c < max_processes
  c_in = v.current_in c e

module _ {s : Scheduler} (v : IsValid s) (c : ℕ) (e : s.current_proc ≡ some c) where
  exiting_at :
      (j : ℕ)
      → proc (exiting s c).processes j
        ≡ (if c == j then record (proc s.processes c) { state = unused } else proc s.processes j)
  exiting_at j = set_state_at c j unused v.table (c_in v c e)

  exiting_self : proc (exiting s c).processes c ≡ record (proc s.processes c) { state = unused }
  exiting_self = rw (exiting_at c, eq_self c)

  exiting_ne_running : (j : ℕ) → (proc (exiting s c).processes j).state ≢ running
  exiting_ne_running j r = elim (Bool-cases (c == j)) [
    | inl q ↦ unused_ne_running (rw (exiting_at j, q) at r)
    | inr q ↦
        let cj : c ≡ j = some_inj c j (sym e ∙ v.one_running j (rw (exiting_at j, q) at r)) in
        true_ne_false (sym (rw cj (eq_self j)) ∙ q)
  ]

  exiting-IsValid : IsValid (exiting s c)
  exiting-IsValid = record {
    table =
        set-IsTable c (record (proc s.processes c) { state = unused }) v.table (c_in v c e)
          (v.table.numbered c (c_in v c e)) (λ _. v.current_framed c e);
    current_in = λ d h. absurd (none_ne d h);
    current_framed = λ d h. absurd (none_ne d h);
    one_running = λ j r. absurd (exiting_ne_running j r);
  }

  not_ready_after : (proc (release_current (exiting s c)) c).state ≢ ready
  not_ready_after =
      rw (release_current_at exiting-IsValid c, exiting_self) (λ u. ready_ne_unused (sym u))

-- When a process exits, the processor keeps its registers, whatever process `schedule` marks as
-- running next: nothing is loaded from the frame of that process. The scheduler stays valid.
pub process_exit-same_cpu :
    (mc : Machine) {s : Scheduler} (c : ℕ)
    → IsValid s
    → s.current_proc ≡ some c
    → (s' : Scheduler) × (process_exit mc s ≡ some s')
      × IsValid s'
      × (s'.cpu ≡ s.cpu)
      × ((s'.current_proc ≡ none) ⊎ ((k : ℕ) × (s'.current_proc ≡ some k) × (k ≢ c)))
process_exit-same_cpu mc {s} c v e =
    let (s', ran, v', out) = schedule_lem mc (exiting-IsValid v c e) in
    (
      s',
      process_exit_current mc s c e ∙ ran,
      v',
      elim out [ inl idle ↦ idle.same_cpu | inr (k, p) ↦ p.kept refl ],
      elim out [
        | inl idle ↦ inl idle.same_current
        | inr (k, p) ↦
            inr (k, p.current, λ kc. not_ready_after v c e (rw kc at p.first_ready.is_ready))
      ],
    )
