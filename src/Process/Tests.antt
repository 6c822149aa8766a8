-- ===== src/Process/Tests.antt =====
-- Runs of the scheduler, and its theorems at a table of three processes.
use fru1t_os.Prelude.{
  ℕ, ◌+◌, ◌*◌, ◌<◌, ◌≡◌, ◌≢◌, ◌⊎◌, refl, ap, sym, ◌∙◌, inl, inr, Option, none, some, List, [], ◌∷◌,
  map,
}
use mathlib.Core.Path.{subst}
use fru1t_os.Process.{
  ProcState, unused, ready, running, Machine, TrapFrame, zero_frame, Process, Scheduler, proc,
  set_state, max_processes, scheduler_init, create_process, schedule, find_ready, context_switch,
  release_current, start_index, switch_from, yield, process_exit,
}
use fru1t_os.Process.Invariant.{IsValid}
use fru1t_os.Process.Switch.{schedule_lem}
use fru1t_os.Process.Calls.{process_exit-same_cpu}
use fru1t_os.Process.Create.{Created, create_process_lem, scheduler_init-IsValid}

abbrev boot : TrapFrame
boot = record zero_frame { ra = 7 }

abbrev stack_of : ℕ → ℕ
stack_of i = 100000 + 9000 * i

-- `next_frame` in a0, the register at place 10, and a memory of zeros
abbrev machine : Machine
machine = record { base = 10; word = λ a. 0 }

abbrev blank : Scheduler
blank = record { processes = []; current_proc = none; cpu = boot }

abbrev spawn : ℕ → Scheduler → Scheduler
spawn entry s = (create_process stack_of entry s).1

-- processes 0, 1 and 2 are ready, and none runs yet
started : Scheduler
unfolding scheduler_init create_process
started = spawn 30 (spawn 20 (spawn 10 (scheduler_init blank)))

empty-IsValid : IsValid (scheduler_init blank)
empty-IsValid = scheduler_init-IsValid blank

spawned : (entry : ℕ) {s : Scheduler} → IsValid s → IsValid (spawn entry s)
spawned entry {s} v = elim (create_process_lem stack_of entry v) [
  | inl (e, full) ↦ rw (e, spawn) v
  | inr (k, e, c) ↦ c.valid
]

started-IsValid : IsValid started
unfolding started
started-IsValid = spawned 30 (spawned 20 (spawned 10 empty-IsValid))

abbrev zero_runs : Scheduler
zero_runs = record started {
  processes = set_state started.processes 0 running;
  current_proc = some 0;
}

same_state : {a b : Scheduler} → some a ≡ some b → a ≡ b
same_state e = ap (λ (o : Option Scheduler). elim o [ none ↦ blank | some s ↦ s ]) e

schedule-started : schedule machine started ≡ some zero_runs
unfolding schedule find_ready release_current start_index switch_from started
schedule-started = refl

zero_runs-IsValid : IsValid zero_runs
zero_runs-IsValid =
    let (s, ran, v, out) = schedule_lem machine started-IsValid in
    subst IsValid (same_state (sym ran ∙ schedule-started)) v

abbrev states : Option Scheduler → List ProcState
states none = []
states (some s) = map (λ (p : Process). p.state) s.processes

abbrev return_address : Option Scheduler → ℕ
return_address none = 0
return_address (some s) = s.cpu.ra

-- process 0 yields to process 1, whose entry point is in the return address register
yield_runs :
    (states (yield machine zero_runs)
      ≡ ready ∷ running ∷ ready ∷ unused ∷ unused ∷ unused ∷ unused ∷ unused ∷ [])
    × (return_address (yield machine zero_runs) ≡ 20)
unfolding yield schedule find_ready context_switch release_current start_index switch_from started
yield_runs = (refl, refl)

abbrev stack_pointer : Option Scheduler → ℕ
stack_pointer none = 1
stack_pointer (some s) = s.cpu.sp

-- the stack pointer is not that of the frame, since a0 was loaded before it
stack_pointer_runs : stack_pointer (yield machine zero_runs) ≡ 0
unfolding yield schedule find_ready context_switch release_current start_index switch_from started
stack_pointer_runs = refl

-- process 0 exits: process 1 is marked, and the processor stays where it was
process_exit_runs :
    (states (process_exit machine zero_runs)
      ≡ unused ∷ running ∷ ready ∷ unused ∷ unused ∷ unused ∷ unused ∷ unused ∷ [])
    × (return_address (process_exit machine zero_runs) ≡ 7)
unfolding process_exit schedule find_ready context_switch release_current start_index switch_from
    started
process_exit_runs = (refl, refl)

process_exit-same_cpu_example :
    (s' : Scheduler) × (process_exit machine zero_runs ≡ some s')
    × IsValid s'
    × (s'.cpu ≡ boot)
    × ((s'.current_proc ≡ none) ⊎ ((k : ℕ) × (s'.current_proc ≡ some k) × (k ≢ 0)))
unfolding started
process_exit-same_cpu_example = process_exit-same_cpu machine 0 zero_runs-IsValid refl

create_process_lem_example :
    (create_process stack_of 40 zero_runs ≡ (none, zero_runs))
      × ((j : ℕ) → j < max_processes → (proc zero_runs.processes j).state ≢ unused)
    ⊎ ((k : ℕ) × ((create_process stack_of 40 zero_runs).0 ≡ some k)
        × Created stack_of 40 zero_runs k (create_process stack_of 40 zero_runs).1)
create_process_lem_example = create_process_lem stack_of 40 zero_runs-IsValid
