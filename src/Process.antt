-- ===== src/Process.antt =====
-- The round-robin scheduler of kernel.c (`scheduler_init`, `create_process`, `schedule`, `yield`,
-- `process_exit`, `context_switch`). The globals `processes` and `current_proc` and the registers of
-- the processor are one state; a pointer to a process is its index in the array.
pub mod Invariant
pub mod Order
pub mod Mark
pub mod Switch
pub mod Calls
pub mod Create
mod Tests
use fru1t_os.Prelude.{
  ℕ, zero, suc, ◌+◌, ◌-◌, ◌*◌, ◌%◌, ◌^◌, Bool, true, false, Option, none, some, List, [], ◌∷◌, ◌++◌,
  ◌==◌, leb, if◌then◌else◌, get_elem?, get_or, set, replicate,
}

-- MAX_PROCESSES
abbrev pub max_processes : ℕ
max_processes = 8

-- STACK_SIZE, and sizeof(struct trap_frame): 31 registers
abbrev pub stack_size : ℕ
stack_size = 8192

abbrev pub trap_frame_size : ℕ
trap_frame_size = 124

-- PROC_UNUSED, PROC_READY, PROC_RUNNING, PROC_BLOCKED
pub data ProcState : Type 0 where
  unused ready running blocked : ProcState

abbrev pub is_unused : ProcState → Bool
is_unused unused = true
is_unused _ = false

abbrev pub is_ready : ProcState → Bool
is_ready ready = true
is_ready _ = false

abbrev pub is_running : ProcState → Bool
is_running running = true
is_running _ = false

-- `struct trap_frame`: `others` are the 29 registers from gp to s11, in the order of the fields
pub record TrapFrame : Type 0 where
  pub ra : ℕ
  pub others : List ℕ
  pub sp : ℕ

-- memset(frame, 0, sizeof(struct trap_frame))
abbrev pub zero_frame : TrapFrame
zero_frame = record { ra = 0; others = replicate 29 0; sp = 0 }

-- `struct process`. `trap_frame` is the frame that the pointer of that name points at; it stands in
-- the process's own stack, of which nothing else is modelled. `page_table` is only ever NULL.
pub record Process : Type 0 where
  pub pid : ℕ
  pub state : ProcState
  pub sp : ℕ
  pub trap_frame : Option TrapFrame

pub record Scheduler : Type 0 where
  pub processes : List Process
  pub current_proc : Option ℕ
  pub cpu : TrapFrame

-- a slot of the array; the source never leaves it
abbrev pub no_process : Process
no_process = record { pid = 0; state = unused; sp = 0; trap_frame = none }

abbrev pub proc : List Process → ℕ → Process
proc ps i = get_or ps i no_process

abbrev pub set_state : List Process → ℕ → ProcState → List Process
set_state ps i st = set ps i (record (proc ps i) { state = st })

fresh_from : ℕ → ℕ → List Process
fresh_from zero i = []
fresh_from (suc n) i =
    record { pid = i; state = unused; sp = 0; trap_frame = none } ∷ fresh_from n (i + 1)

unfoldable pub scheduler_init : Scheduler → Scheduler
unfolding fresh_from
scheduler_init s = record s { processes = fresh_from max_processes 0; current_proc = none }

-- the first unused slot from index `i` on
unfoldable pub find_unused : List Process → ℕ → Option ℕ
find_unused [] i = none
find_unused (p ∷ ps) i =
    let rest = find_unused ps (i + 1) in if is_unused p.state then some i else rest

-- `stack_of i` is the address of `processes[i].stack`
unfoldable pub create_process :
    (stack_of : ℕ → ℕ) (entry_point : ℕ) → Scheduler → Option ℕ × Scheduler
unfolding find_unused
create_process stack_of entry_point s = elim (find_unused s.processes 0) [
  | none ↦ (none, s)
  | some i ↦ (
    some i,
    record s {
      processes = set s.processes i (record (proc s.processes i) {
        state = ready;
        sp = stack_of i + (stack_size - trap_frame_size);
        trap_frame =
            some (record zero_frame { ra = entry_point; sp = stack_of i + (stack_size - 8) });
      });
    },
  )
]

-- the loop of `schedule`, with `n` rounds left: the first ready slot from `start + i` on, going
-- round
unfoldable pub find_ready : List Process → (start n i : ℕ) → Option ℕ
find_ready ps start zero i = none
find_ready ps start (suc n) i =
    let idx = (start + i) % max_processes in
    let rest = find_ready ps start n (i + 1) in
    if is_ready (proc ps idx).state then some idx else rest

-- What the loads of `context_switch` depend on: `base` is the register that the compiler has chosen for
-- `next_frame`, by its place in the frame, and `word` the words of memory then.
pub record Machine : Type 0 where
  pub base : ℕ
  pub word : ℕ → ℕ

-- the word of a frame at the place `i`
abbrev pub field : TrapFrame → ℕ → ℕ
field f i = if i == 0 then f.ra else get_or (f.others ++ (f.sp ∷ [])) (i - 1) 0

-- The load of the register at the place `i`, in the order of the places. The load of the base register
-- overwrites the address that the later ones start from.
abbrev pub loaded_word : Machine → TrapFrame → ℕ → ℕ
loaded_word m f i = if leb i m.base then field f i else m.word ((field f m.base + 4 * i) % 2 ^ 32)

abbrev pub loaded_words : Machine → TrapFrame → (n i : ℕ) → List ℕ
loaded_words m f zero i = []
loaded_words m f (suc n) i = loaded_word m f i ∷ loaded_words m f n (i + 1)

abbrev pub loaded : Machine → TrapFrame → TrapFrame
loaded m f = record {
  ra = loaded_word m f 0;
  others = loaded_words m f 29 1;
  sp = loaded_word m f 30;
}

-- The registers go to the frame of `prev`, and the loads start from the frame of `next`. A process that
-- was never created has no frame: the source would read through NULL.
unfoldable pub context_switch : Machine → (prev next : ℕ) → Scheduler → Option Scheduler
context_switch m prev next s =
    let ps = set s.processes prev (record (proc s.processes prev) { trap_frame = some s.cpu }) in
    elim (proc s.processes prev).trap_frame [
      | none ↦ none
      | some _ ↦ elim (proc ps next).trap_frame [
        | none ↦ none
        | some frame ↦ some (record s { processes = ps; cpu = loaded m frame })
      ]
    ]

-- the running process is ready again
unfoldable pub release_current : Scheduler → List Process
release_current s = elim s.current_proc [
  | none ↦ s.processes
  | some c ↦
      if is_running (proc s.processes c).state then set_state s.processes c ready else s.processes
]

-- where the search begins
unfoldable pub start_index : Scheduler → ℕ
start_index s = elim s.current_proc [
  | none ↦ 0
  | some c ↦ ((proc s.processes c).pid + 1) % max_processes
]

-- the end of `schedule`: with no process before there is no switch
unfoldable pub switch_from : Machine → (prev : Option ℕ) (next : ℕ) → Scheduler → Option Scheduler
switch_from m none next s = some s
switch_from m (some prev) next s = context_switch m prev next s

-- `none` is a fault in `context_switch`
unfoldable pub schedule : Machine → Scheduler → Option Scheduler
schedule m s =
    let ps = release_current s in
    elim (find_ready ps (start_index s) max_processes 0) [
      | none ↦ some (record s { processes = ps })
      | some next ↦
          switch_from m s.current_proc next
            (record s { processes = set_state ps next running; current_proc = some next })
    ]

unfoldable pub yield : Machine → Scheduler → Option Scheduler
yield m s = elim s.current_proc [
  | none ↦ some s
  | some c ↦ schedule m (record s { processes = set_state s.processes c ready })
]

unfoldable pub process_exit : Machine → Scheduler → Option Scheduler
process_exit m s = elim s.current_proc [
  | none ↦ some s
  | some c ↦
      schedule m (record s { processes = set_state s.processes c unused; current_proc = none })
]
