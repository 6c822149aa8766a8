-- ===== src/Cfs.antt =====
-- The fair scheduler of cfs.c and cfs.h over the red-black tree. The globals are one state; a pointer to a
-- process is its index in the array, and the run node of process `i` has the address `i + 1` in the tree.
-- The loops over the tree have fuel for one node more than there are processes; `none` is a loop that
-- runs out of it.
pub mod Queue
pub mod Weight
pub mod Clock
pub mod Link
pub mod Run
pub mod Enqueue
pub mod Gone
pub mod Dequeue
pub mod Similar
pub mod Pick
pub mod Tick
mod Tests
use fru1t_os.Prelude.{
  ℕ, zero, suc, ◌+◌, ◌-◌, ◌*◌, ◌/◌, ◌%◌, ◌^◌, Bool, true, false, not, ◌&&◌, Option, none, some,
  List, [], ◌∷◌, ◌==◌, ltb, if◌then◌else◌, get_or, set, replicate,
}
use fru1t_os.Prelude.Int.{ℤ, pos, negsuc, ltb_ℤ, pos_part, neg_part}
use fru1t_os.Process.{
  Process, ProcState, unused, ready, running, is_unused, no_process, stack_size, trap_frame_size,
  max_processes, zero_frame,
}
use fru1t_os.Rbtree.{
  RbTree, RbNode, red, set_node, set_left, set_right, rb_root, rb_clear_node, rb_insert_color,
  rb_next,
}
use fru1t_os.Rbtree.Erase.{rb_erase}

abbrev pub nice_0_load : ℕ
nice_0_load = 1024

abbrev pub min_granularity : ℕ
min_granularity = 1000000

-- `struct sched_entity`; its `run_node` is a node of the tree
pub record SchedEntity : Type 0 where
  pub vruntime : ℕ
  pub exec_start : ℕ
  pub sum_exec_runtime : ℕ
  pub weight : ℕ
  pub on_rq : Bool

-- `struct cfs_rq`; `rb_leftmost` is the address of a node, 0 for NULL
pub record CfsRq : Type 0 where
  pub tasks_timeline : RbTree
  pub rb_leftmost : ℕ
  pub min_vruntime : ℕ
  pub nr_running : ℕ
  pub total_weight : ℕ

-- `struct cfs_process`
pub record CfsProcess : Type 0 where
  pub base : Process
  pub se : SchedEntity
  pub nice : ℤ

-- `cfs_runqueue`, `cfs_current`, `cfs_processes` and the counter of `get_time_ns`
pub record Cfs : Type 0 where
  pub cfs_runqueue : CfsRq
  pub cfs_current : Option ℕ
  pub cfs_processes : List CfsProcess
  pub counter : ℕ

abbrev pub no_entity : SchedEntity
no_entity = record { vruntime = 0; exec_start = 0; sum_exec_runtime = 0; weight = 0; on_rq = false }

-- a slot of the array, which the source never leaves
abbrev pub task : Cfs → ℕ → CfsProcess
task s i = get_or s.cfs_processes i (record { base = no_process; se = no_entity; nice = pos 0 })

abbrev pub entity : Cfs → ℕ → SchedEntity
entity s i = (task s i).se

abbrev pub set_task : ℕ → CfsProcess → Cfs → Cfs
set_task i p s = record s { cfs_processes = set s.cfs_processes i p }

abbrev pub set_entity : ℕ → SchedEntity → Cfs → Cfs
set_entity i e s = set_task i (record (task s i) { se = e }) s

abbrev pub set_proc_state : ℕ → ProcState → Cfs → Cfs
set_proc_state i st s =
    set_task i (record (task s i) { base = record ((task s i).base) { state = st } }) s

abbrev pub prio_to_weight : List ℕ
prio_to_weight =
    88761 ∷ 71755 ∷ 56483 ∷ 46273 ∷ 36291 ∷ 29154 ∷ 23254 ∷ 18705 ∷ 14949 ∷ 11916 ∷ 9548 ∷ 7620
    ∷ 6100 ∷ 4904 ∷ 3906 ∷ 3121 ∷ 2501 ∷ 1991 ∷ 1586 ∷ 1277 ∷ 1024 ∷ 820 ∷ 655 ∷ 526 ∷ 423 ∷ 335
    ∷ 272 ∷ 215 ∷ 172 ∷ 137 ∷ 110 ∷ 87 ∷ 70 ∷ 56 ∷ 45 ∷ 36 ∷ 29 ∷ 23 ∷ 18 ∷ 15 ∷ []

-- the time, and the state behind the call
unfoldable pub get_time_ns : Cfs → ℕ × Cfs
get_time_ns s = let now : ℕ = (s.counter + 1000000) % 2 ^ 64 in (now, record s { counter = now })

-- `nice` plus 20, behind the two tests
unfoldable pub weight_index : ℤ → ℕ
weight_index nice =
    let low : ℤ = if ltb_ℤ nice (negsuc 19) then negsuc 19 else nice in
    let nice' : ℤ = if ltb_ℤ (pos 19) low then pos 19 else low in
    pos_part nice' + 20 - neg_part nice'

unfoldable pub nice_to_weight : ℤ → ℕ
nice_to_weight nice = get_or prio_to_weight (weight_index nice) 0

-- the product wraps round at 32 bits
unfoldable pub calc_delta_fair : (delta : ℕ) → SchedEntity → ℕ
calc_delta_fair delta se =
    if not (se.weight == nice_0_load) && ltb delta 4294967295
    then (delta % 2 ^ 32 * nice_0_load) % 2 ^ 32 / se.weight
    else delta

abbrev pub max_of : ℕ → ℕ → ℕ
max_of a b = if ltb b a then a else b

-- the run time that the minimum is moved to
unfoldable pub next_vruntime : Cfs → ℕ
next_vruntime s =
    let rq = s.cfs_runqueue in
    let first : ℕ = (entity s (rq.rb_leftmost - 1)).vruntime in
    elim s.cfs_current [
      | none ↦ if rq.rb_leftmost == 0 then rq.min_vruntime else first
      | some c ↦
          let v : ℕ = (entity s c).vruntime in
          if rq.rb_leftmost == 0 then v else if ltb v first then v else first
    ]

unfoldable pub update_min_vruntime : Cfs → Cfs
update_min_vruntime s = record s {
  cfs_runqueue = record (s.cfs_runqueue) {
    min_vruntime = max_of (next_vruntime s) s.cfs_runqueue.min_vruntime;
  };
}

abbrev pub reset_from : ℕ → List CfsProcess → List CfsProcess
reset_from i [] = []
reset_from i (p ∷ ps) =
    record p {
      base = record (p.base) { pid = i; state = unused };
      se = record (p.se) { vruntime = 0; on_rq = false };
      nice = pos 0;
    }
    ∷ reset_from (i + 1) ps

abbrev pub clear_from : List CfsProcess → (i : ℕ) → RbTree → RbTree
clear_from [] i t = t
clear_from (p ∷ ps) i t = clear_from ps (i + 1) (rb_clear_node (i + 1) t)

unfoldable pub cfs_init : Cfs → Cfs
cfs_init s = record s {
  cfs_runqueue = record {
    tasks_timeline = clear_from s.cfs_processes 0 (rb_root s.cfs_runqueue.tasks_timeline);
    rb_leftmost = 0;
    min_vruntime = 0;
    nr_running = 0;
    total_weight = 0;
  };
  cfs_current = none;
  cfs_processes = reset_from 0 s.cfs_processes;
}
