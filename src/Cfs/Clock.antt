-- ===== src/Cfs/Clock.antt =====
-- The run times of cfs.c: preemption and the minimum.
use fru1t_os.Prelude.{
  ℕ, ◌+◌, ◌^◌, ◌≤◌, ◌<◌, ◌≡◌, ◌↔◌, ◌⊎◌, inl, inr, Bool, true, false, Option, none, some, ◌==◌,
  if◌then◌else◌, arith, Bool-cases, Option-cases,
}
use fru1t_os.Cfs.{CfsProcess, Cfs, min_granularity, update_min_vruntime}
use mathlib.Core.Path.{subst}
use fru1t_os.Rbtree.{rb_insert_color, hang}
use fru1t_os.Rbtree.Erase.{rb_erase}
use fru1t_os.Cfs.{task, entity, get_time_ns}
use fru1t_os.Cfs.Queue.{
  cfs_check_preempt_curr, cfs_enqueue_task, cfs_dequeue_task, start_task, requeue, preempt,
  cfs_update_curr, cfs_scheduler_tick, cfs_pick_next_task, find_link, tree_fuel, leftmost_without,
}

-- For run times of 64 bits, `cfs_check_preempt_curr` answers yes when the current task is ahead by more
-- than the granularity, but also when it is behind, except by nearly 2 ^ 64: the unsigned difference
-- wraps round, and a task that has run less is preempted by one that has run more.
pub cfs_check_preempt_curr_lem :
    (curr new : CfsProcess)
    → curr.se.vruntime < 2 ^ 64
    → new.se.vruntime < 2 ^ 64
    → (cfs_check_preempt_curr curr new ≡ true) ↔ (
        (new.se.vruntime + min_granularity < curr.se.vruntime)
        ⊎ (curr.se.vruntime < new.se.vruntime)
          × (new.se.vruntime + min_granularity < curr.se.vruntime + 2 ^ 64))
unfolding cfs_check_preempt_curr
cfs_check_preempt_curr_lem curr new c n = (λ h. ground arith, λ h. ground arith)

abbrev pub min_run_time : Cfs → ℕ
min_run_time s = s.cfs_runqueue.min_vruntime

-- the minimum is not below `m`, where there is a state
abbrev IsFrom : ℕ → Option Cfs → Type 0
IsFrom m none = Unit
IsFrom m (some s) = m ≤ min_run_time s

if_IsFrom :
    (m : ℕ) (b : Bool) (o p : Option Cfs) → IsFrom m o → IsFrom m p → IsFrom m (if b then o else p)
if_IsFrom m true o p h k = h
if_IsFrom m false o p h k = k

update_min_vruntime_le : (s : Cfs) → min_run_time s ≤ min_run_time (update_min_vruntime s)
unfolding update_min_vruntime
update_min_vruntime_le s = ground arith

update_le : (s : Cfs) (m : ℕ) → m ≤ min_run_time s → m ≤ min_run_time (update_min_vruntime s)
update_le s m h = omega (arith, h, update_min_vruntime_le s)

cfs_enqueue_task_le :
    (i : ℕ) (s : Cfs) (m : ℕ) → m ≤ min_run_time s → IsFrom m (cfs_enqueue_task i s)
unfolding cfs_enqueue_task
cfs_enqueue_task_le i s m h =
    let rq = s.cfs_runqueue in
    elim (Bool-cases (entity s i).on_rq) [
      | inl t ↦ rw t h
      | inr t ↦
          elim (Option-cases
            (find_link tree_fuel rq.tasks_timeline.rb_node (entity s i).vruntime 0 true true s)) [
              | inl e ↦ rw (t, e) tt
              | inr ((parent, is_left, leftmost), e) ↦
                  elim (Option-cases (
                    rb_insert_color tree_fuel (i + 1)
                      (hang (i + 1) parent is_left rq.tasks_timeline))) [
                        | inl e' ↦ rw (t, e, e') tt
                        | inr (tree, e') ↦ rw (t, e, e') h
                      ]
            ]
    ]

cfs_dequeue_task_le :
    (i : ℕ) (s : Cfs) (m : ℕ) → m ≤ min_run_time s → IsFrom m (cfs_dequeue_task i s)
unfolding cfs_dequeue_task
cfs_dequeue_task_le i s m h = elim (Bool-cases (entity s i).on_rq) [
  | inr t ↦ rw t h
  | inl t ↦ elim (Option-cases (leftmost_without i s.cfs_runqueue)) [
    | inl e ↦ rw (t, e) tt
    | inr (first, e) ↦
        elim (Option-cases (rb_erase tree_fuel (i + 1) s.cfs_runqueue.tasks_timeline)) [
          | inl e' ↦ rw (t, e, e') tt
          | inr (tree, e') ↦ rw (t, e, e') (update_le _ m h)
        ]
  ]
]

start_task_le : (i : ℕ) (s : Cfs) (m : ℕ) → m ≤ min_run_time s → IsFrom m (start_task i s)
unfolding start_task get_time_ns
start_task_le i s m h = elim (Option-cases (cfs_dequeue_task i s)) [
  | inl e ↦ rw (e, start_task) tt
  | inr (s', e) ↦
      let k : m ≤ min_run_time s' = subst (IsFrom m) e (cfs_dequeue_task_le i s m h) in
      rw (e, start_task) k
]

preempt_le : (curr next : ℕ) (s : Cfs) (m : ℕ) → m ≤ min_run_time s → IsFrom m (preempt curr next s)
unfolding preempt requeue
preempt_le curr next s m h = elim (Option-cases (requeue curr s)) [
  | inl e ↦ rw (e, preempt) tt
  | inr (s', e) ↦
      let k : m ≤ min_run_time s' = subst (IsFrom m) e (cfs_enqueue_task_le curr _ m h) in
      rw (e, preempt) (start_task_le next s' m k)
]

cfs_update_curr_le : (i : ℕ) (s : Cfs) → min_run_time s ≤ min_run_time (cfs_update_curr i s)
unfolding cfs_update_curr get_time_ns
cfs_update_curr_le i s = elim (Bool-cases ((entity s i).exec_start == 0)) [
  | inl t ↦ rw t (omega arith)
  | inr t ↦ rw t (update_min_vruntime_le _)
]

cfs_scheduler_tick-IsFrom : (s : Cfs) → IsFrom (min_run_time s) (cfs_scheduler_tick s)
unfolding cfs_scheduler_tick
cfs_scheduler_tick-IsFrom s = elim (Option-cases s.cfs_current) [
  | inl e ↦ elim (Option-cases (cfs_pick_next_task s)) [
    | inl e' ↦ simp (e, e', cfs_scheduler_tick) (omega arith)
    | inr (next, e') ↦
        simp (e, e', cfs_scheduler_tick) (start_task_le next s (min_run_time s) (omega arith))
  ]
  | inr (curr, e) ↦
      let s' = cfs_update_curr curr s in
      let le = cfs_update_curr_le curr s in
      elim (Option-cases (cfs_pick_next_task s')) [
        | inl e' ↦ simp (e, e', cfs_scheduler_tick) le
        | inr (next, e') ↦
            simp (e, e', cfs_scheduler_tick)
              (if_IsFrom (min_run_time s) (cfs_check_preempt_curr (task s' curr) (task s' next)) _ _
                (preempt_le curr next s' (min_run_time s) le) le)
      ]
]

-- The minimum of the run times never falls: not in a tick of the scheduler, with the run time that it
-- adds, the task that it takes out and the one that it puts back.
cfs_scheduler_tick_lem :
    (s s' : Cfs) → cfs_scheduler_tick s ≡ some s' → min_run_time s ≤ min_run_time s'
cfs_scheduler_tick_lem s s' e = subst (IsFrom (min_run_time s)) e (cfs_scheduler_tick-IsFrom s)
