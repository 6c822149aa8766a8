-- ===== src/Cfs/Queue.antt =====
-- The run queue of cfs.c: a task enters and leaves the tree, and the tick chooses the next one.
use fru1t_os.Prelude.{
  ℕ, zero, suc, ◌+◌, ◌-◌, ◌%◌, ◌^◌, Bool, true, false, not, Option, none, some, List, [], ◌∷◌, ◌==◌,
  ltb, if◌then◌else◌,
}
use fru1t_os.Prelude.Int.{ℤ}
use fru1t_os.Process.{
  ready, running, is_unused, stack_size, trap_frame_size, max_processes, zero_frame,
}
use fru1t_os.Rbtree.{rb_clear_node, rb_insert_color, hang, rb_next}
use fru1t_os.Rbtree.Erase.{rb_erase}
use fru1t_os.Cfs.{
  CfsRq, CfsProcess, Cfs, task, entity, set_task, set_entity, set_proc_state, get_time_ns,
  nice_to_weight, calc_delta_fair, update_min_vruntime, min_granularity,
}

abbrev pub tree_fuel : ℕ
tree_fuel = max_processes + 1

-- the loop that looks for the place of a new node below `p`: the node above the place, whether the
-- place is its left one, and whether the way went left all along
unfoldable pub find_link :
    (fuel p : ℕ) (vruntime parent : ℕ) (is_left leftmost : Bool) → Cfs → Option (ℕ × Bool × Bool)
find_link zero p vruntime parent is_left leftmost s = none
find_link (suc fuel) p vruntime parent is_left leftmost s =
    let node = s.cfs_runqueue.tasks_timeline.nodes p in
    let left = find_link fuel node.left vruntime p true leftmost s in
    let right = find_link fuel node.right vruntime p false false s in
    if p == 0
    then some (parent, is_left, leftmost)
    else if ltb vruntime (entity s (p - 1)).vruntime
    then left
    else right

unfoldable pub cfs_enqueue_task : ℕ → Cfs → Option Cfs
cfs_enqueue_task i s =
    let rq = s.cfs_runqueue in
    if (entity s i).on_rq
    then some s
    else (elim (find_link tree_fuel rq.tasks_timeline.rb_node (entity s i).vruntime 0 true true s) [
      | none ↦ none
      | some (parent, is_left, leftmost) ↦
          elim (rb_insert_color tree_fuel (i + 1) (hang (i + 1) parent is_left rq.tasks_timeline)) [
            | none ↦ none
            | some tree ↦
                let s' = set_entity i (record (entity s i) { on_rq = true }) s in
                some (
                  set_proc_state i ready (record s' {
                    cfs_runqueue = record rq {
                      tasks_timeline = tree;
                      rb_leftmost = if leftmost then i + 1 else rq.rb_leftmost;
                      nr_running = (rq.nr_running + 1) % 2 ^ 32;
                      total_weight = (rq.total_weight + (entity s i).weight) % 2 ^ 64;
                    };
                  }))
          ]
    ])

-- the first node when that of process `i` has gone
unfoldable pub leftmost_without : ℕ → CfsRq → Option ℕ
leftmost_without i rq =
    let next = rb_next tree_fuel (i + 1) rq.tasks_timeline in
    if rq.rb_leftmost == i + 1 then next else some rq.rb_leftmost

unfoldable pub cfs_dequeue_task : ℕ → Cfs → Option Cfs
cfs_dequeue_task i s =
    let rq = s.cfs_runqueue in
    if not (entity s i).on_rq then some s else (elim (leftmost_without i rq) [
      | none ↦ none
      | some first ↦ elim (rb_erase tree_fuel (i + 1) rq.tasks_timeline) [
        | none ↦ none
        | some tree ↦
            let s' = set_entity i (record (entity s i) { on_rq = false }) s in
            some (
              update_min_vruntime (record s' {
                cfs_runqueue = record rq {
                  tasks_timeline = rb_clear_node (i + 1) tree;
                  rb_leftmost = first;
                  nr_running = (rq.nr_running + 4294967295) % 2 ^ 32;
                  total_weight = (rq.total_weight + 2 ^ 64 - (entity s i).weight) % 2 ^ 64;
                };
              }))
      ]
    ])

-- `none` is NULL
unfoldable pub cfs_pick_next_task : Cfs → Option ℕ
cfs_pick_next_task s =
    if s.cfs_runqueue.rb_leftmost == 0 then none else some (s.cfs_runqueue.rb_leftmost - 1)

unfoldable pub cfs_update_curr : ℕ → Cfs → Cfs
cfs_update_curr i s =
    let (now, s') = get_time_ns s in
    let e = entity s' i in
    let delta : ℕ = (now + 2 ^ 64 - e.exec_start) % 2 ^ 64 in
    if e.exec_start == 0
    then set_entity i (record e { exec_start = now }) s'
    else update_min_vruntime (
        set_entity i
          (record e {
            exec_start = now;
            sum_exec_runtime = (e.sum_exec_runtime + delta) % 2 ^ 64;
            vruntime = (e.vruntime + calc_delta_fair delta e) % 2 ^ 64;
          })
          s')

-- the difference wraps round at 64 bits
unfoldable pub cfs_check_preempt_curr : (curr new : CfsProcess) → Bool
cfs_check_preempt_curr curr new =
    ltb min_granularity ((curr.se.vruntime + 2 ^ 64 - new.se.vruntime) % 2 ^ 64)

-- `next` leaves the queue and becomes the current task
unfoldable pub start_task : ℕ → Cfs → Option Cfs
start_task next s = elim (cfs_dequeue_task next s) [
  | none ↦ none
  | some s' ↦
      let (now, s'') = get_time_ns (set_proc_state next running s') in
      some (record (set_entity next (record (entity s'' next) { exec_start = now }) s'') {
        cfs_current = some next;
      })
]

-- the current task goes back to the queue
unfoldable pub requeue : ℕ → Cfs → Option Cfs
requeue curr s =
    let s' = set_proc_state curr ready s in
    cfs_enqueue_task curr (set_entity curr (record (entity s' curr) { exec_start = 0 }) s')

unfoldable pub preempt : (curr next : ℕ) → Cfs → Option Cfs
preempt curr next s = elim (requeue curr s) [ none ↦ none | some s' ↦ start_task next s' ]

unfoldable pub cfs_scheduler_tick : Cfs → Option Cfs
cfs_scheduler_tick s = elim s.cfs_current [
  | none ↦ elim (cfs_pick_next_task s) [ none ↦ some s | some next ↦ start_task next s ]
  | some curr ↦
      let s' = cfs_update_curr curr s in
      elim (cfs_pick_next_task s') [
        | none ↦ some s'
        | some next ↦
            if cfs_check_preempt_curr (task s' curr) (task s' next)
            then preempt curr next s'
            else some s'
      ]
]

abbrev pub find_free : List CfsProcess → ℕ → Option ℕ
find_free [] i = none
find_free (p ∷ ps) i =
    let rest = find_free ps (i + 1) in if is_unused p.base.state then some i else rest

-- the process in slot `i`, set up
abbrev pub created : (stack entry_point min_vruntime : ℕ) (nice : ℤ) → CfsProcess → CfsProcess
created stack entry_point min_vruntime nice p = record {
  base = record (p.base) {
    state = ready;
    sp = stack + (stack_size - trap_frame_size);
    trap_frame = some (record zero_frame { ra = entry_point; sp = stack + (stack_size - 8) });
  };
  se = record {
    vruntime = min_vruntime;
    exec_start = 0;
    sum_exec_runtime = 0;
    weight = nice_to_weight nice;
    on_rq = false;
  };
  nice = nice;
}

-- the inner `none` is NULL; `stack_of i` is the address of the stack of process `i`
unfoldable pub cfs_create_process :
    (stack_of : ℕ → ℕ) (entry_point : ℕ) (nice : ℤ) → Cfs → Option (Option ℕ × Cfs)
cfs_create_process stack_of entry_point nice s = elim (find_free s.cfs_processes 0) [
  | none ↦ some (none, s)
  | some i ↦
      let rq = s.cfs_runqueue in
      let s' = set_task i (created (stack_of i) entry_point rq.min_vruntime nice (task s i)) s in
      elim (cfs_enqueue_task i (record s' {
        cfs_runqueue = record rq { tasks_timeline = rb_clear_node (i + 1) rq.tasks_timeline };
      })) [ none ↦ none | some s'' ↦ some (some i, s'') ]
]
