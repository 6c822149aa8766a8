-- ===== src/Cfs/Tick.antt =====
-- `cfs_scheduler_tick` of cfs.c on a valid run queue.
use mathlib.Core.Path.{subst}
use fru1t_os.Prelude.{
  ℕ, ◌<◌, ◌≡◌, inl, inr, refl, sym, ap, ◌∙◌, true, false, ◌==◌, Option, none, some, if◌then◌else◌,
  arith, Bool-cases,
}
use fru1t_os.Process.{ready, running, max_processes}
use fru1t_os.Rbtree.Shape.{Shape}
use fru1t_os.Cfs.{Cfs, task, entity, set_entity, set_proc_state, get_time_ns, update_min_vruntime}
use fru1t_os.Cfs.Queue.{
  cfs_enqueue_task, cfs_dequeue_task, cfs_pick_next_task, cfs_update_curr, cfs_check_preempt_curr,
  start_task, requeue, preempt, cfs_scheduler_tick,
}
use fru1t_os.Cfs.Run.{IsQueue, queued_lt}
use fru1t_os.Cfs.Enqueue.{cfs_enqueue_task_lem}
use fru1t_os.Cfs.Dequeue.{cfs_dequeue_task_lem}
use fru1t_os.Cfs.Similar.{
  Similar, then-Similar, Similar-IsQueue, set_task-Similar, clocked-Similar,
  cfs_update_curr-Similar,
}
use fru1t_os.Cfs.Pick.{cfs_pick_next_task_lem}

-- The run queue is valid, and the current task is not in it.
pub record IsScheduler (s : Cfs) : Type 0 where
  pub sh : Shape
  pub queue : IsQueue s sh
  pub current :
      (c : ℕ) → s.cfs_current ≡ some c → (c < max_processes) × ((entity s c).on_rq ≡ false)

pub some_same : (i j : ℕ) → ◌≡◌ {A = Option ℕ} (some i) (some j) → i ≡ j
some_same i j e = ap (λ (o : Option ℕ). elim o [ none ↦ i | some k ↦ k ]) e

current-Similar : (o : Option ℕ) (s : Cfs) → Similar s (record s { cfs_current = o })
current-Similar o s = record {
  tree = refl;
  first = refl;
  slots = refl;
  on = λ j. refl;
  time = λ j h. refl;
}

-- the task is taken out of the queue if it is there
leaves :
    (i : ℕ) {s : Cfs} {sh : Shape}
    → IsQueue s sh
    → (s' : Cfs) × (sh' : Shape) × (cfs_dequeue_task i s ≡ some s')
      × IsQueue s' sh'
      × ((entity s' i).on_rq ≡ false)
leaves i {s} {sh} v = elim (cfs_dequeue_task_lem i v) [
  | inl h ↦ (s, sh, h.1, v, h.0)
  | inr h ↦ (h.0, h.2.sh', h.1, h.2.queue, h.2.off)
]

enters :
    (i : ℕ) {s : Cfs} {sh : Shape}
    → IsQueue s sh
    → i < max_processes
    → (s' : Cfs) × (sh' : Shape) × (cfs_enqueue_task i s ≡ some s') × IsQueue s' sh'
enters i {s} {sh} v lt = elim (cfs_enqueue_task_lem i v lt) [
  | inl h ↦ (s, sh, h.1, v)
  | inr h ↦ (h.0, h.2.sh', h.1, h.2.queue)
]

unfoldable Keeps : Option Cfs → Type 0
Keeps o = (s' : Cfs) × (o ≡ some s') × IsScheduler s'

abbrev started : (next : ℕ) → Cfs → Cfs
started next s =
    let (now, s'') = get_time_ns (set_proc_state next running s) in
    record (set_entity next (record (entity s'' next) { exec_start = now }) s'') {
      cfs_current = some next;
    }

started-IsScheduler :
    (next : ℕ) (s : Cfs) (sh : Shape)
    → IsQueue s sh
    → next < max_processes
    → (entity s next).on_rq ≡ false
    → IsScheduler (started next s)
unfolding get_time_ns
started-IsScheduler next s sh v lt off =
    let run = set_proc_state next running s in
    let ran = set_task-Similar next _ s (omega (arith, lt, v.slots)) refl (λ h. refl) in
    let off' : (entity run next).on_rq ≡ false = ran.on next ∙ off in
    let on = then-Similar ran (
      then-Similar (clocked-Similar next _ _ run (omega (arith, lt, v.slots, ran.slots)) off' off')
        (current-Similar (some next) _)) in
    record {
      sh = sh;
      queue = Similar-IsQueue v on;
      current = λ c e.
          subst (λ c. (c < max_processes) × ((entity (started next s) c).on_rq ≡ false))
            (some_same next c e) (lt, on.on next ∙ off);
    }

start_task-Keeps :
    (next : ℕ) {s : Cfs} {sh : Shape}
    → IsQueue s sh
    → next < max_processes
    → Keeps (start_task next s)
unfolding start_task Keeps
start_task-Keeps next {s} v lt =
    let (s', sh', e, v', off) = leaves next v in
    (
      started next s',
      ap (λ (o : Option Cfs). elim o [ none ↦ none | some u ↦ some (started next u) ]) e,
      started-IsScheduler next s' sh' v' lt off,
    )

requeue-IsQueue :
    (curr : ℕ) {s : Cfs} {sh : Shape}
    → IsQueue s sh
    → curr < max_processes
    → (s' : Cfs) × (sh' : Shape) × (requeue curr s ≡ some s') × IsQueue s' sh'
unfolding requeue
requeue-IsQueue curr {s} {sh} v lt =
    let ran =
      set_task-Similar curr
        (record (task s curr) { base = record ((task s curr).base) { state = ready } }) s
        (omega (arith, lt, v.slots)) refl (λ h. refl) in
    let s1 = set_proc_state curr ready s in
    let written =
      set_task-Similar curr
        (record (task s1 curr) { se = record (entity s1 curr) { exec_start = 0 } }) s1
        (omega (arith, lt, v.slots, ran.slots)) refl (λ h. refl) in
    enters curr (Similar-IsQueue v (then-Similar ran written)) lt

preempt-Keeps :
    (curr next : ℕ) {s : Cfs} {sh : Shape}
    → IsQueue s sh
    → curr < max_processes
    → next < max_processes
    → Keeps (preempt curr next s)
unfolding preempt Keeps
preempt-Keeps curr next {s} v lt lt' =
    let (s1, sh1, e, v1) = requeue-IsQueue curr v lt in
    let (s2, e2, w) = start_task-Keeps next v1 lt' in
    (s2, ap (λ (o : Option Cfs). elim o [ none ↦ none | some u ↦ start_task next u ]) e ∙ e2, w)

cfs_update_curr-same_current : (i : ℕ) (s : Cfs) → (cfs_update_curr i s).cfs_current ≡ s.cfs_current
unfolding cfs_update_curr get_time_ns update_min_vruntime
cfs_update_curr-same_current i s = elim (Bool-cases ((entity s i).exec_start == 0)) [
  | inl e ↦ rw e refl
  | inr e ↦ rw e refl
]

next_lt :
    {s : Cfs} {sh : Shape}
    → IsQueue s sh
    → (next : ℕ) → (entity s next).on_rq ≡ true
    → next < max_processes
next_lt {s} v next on = omega (arith, queued_lt s.cfs_processes next on, v.slots)

-- the tick behind the account of the current task
abbrev busy : (curr : ℕ) → Cfs → Option Cfs
busy curr s = elim (cfs_pick_next_task s) [
  | none ↦ some s
  | some next ↦
      if cfs_check_preempt_curr (task s curr) (task s next) then preempt curr next s else some s
]

-- the tick by whether a task runs
tick_idle :
    (s : Cfs)
    → s.cfs_current ≡ none
    → cfs_scheduler_tick s
      ≡ elim (cfs_pick_next_task s) [ none ↦ some s | some next ↦ start_task next s ]
unfolding cfs_scheduler_tick
tick_idle s e =
    ap
      (λ (o : Option ℕ). elim o [
        | none ↦ elim (cfs_pick_next_task s) [ none ↦ some s | some next ↦ start_task next s ]
        | some curr ↦ busy curr (cfs_update_curr curr s)
      ])
      e

tick_busy :
    (curr : ℕ) (s : Cfs)
    → s.cfs_current ≡ some curr
    → cfs_scheduler_tick s ≡ busy curr (cfs_update_curr curr s)
unfolding cfs_scheduler_tick
tick_busy curr s e = rw e refl

idle-Keeps :
    (s : Cfs)
    → IsScheduler s
    → Keeps (elim (cfs_pick_next_task s) [ none ↦ some s | some next ↦ start_task next s ])
unfolding Keeps
idle-Keeps s v = elim (cfs_pick_next_task_lem v.queue) [
  | inl h ↦
      (s, ap (λ (o : Option ℕ). elim o [ none ↦ some s | some next ↦ start_task next s ]) h.0, v)
  | inr h ↦
      let (s', e, w) = start_task-Keeps h.0 v.queue (next_lt v.queue h.0 h.2) in
      (
        s',
        ap (λ (o : Option ℕ). elim o [ none ↦ some s | some next ↦ start_task next s ]) h.1 ∙ e,
        w,
      )
]

busy-Keeps : (curr : ℕ) (s : Cfs) → IsScheduler s → curr < max_processes → Keeps (busy curr s)
unfolding Keeps
busy-Keeps curr s v lt = elim (cfs_pick_next_task_lem v.queue) [
  | inl h ↦ (s, ap (λ (o : Option ℕ). elim o [ none ↦ some s | some next ↦ chosen next ]) h.0, v)
  | inr h ↦ elim (Bool-cases (cfs_check_preempt_curr (task s curr) (task s h.0))) [
    | inl b ↦
        let (s', e, w) = preempt-Keeps curr h.0 v.queue lt (next_lt v.queue h.0 h.2) in
        (
          s',
          ap (λ (o : Option ℕ). elim o [ none ↦ some s | some next ↦ chosen next ]) h.1
              ∙ ap (λ b. if b then preempt curr h.0 s else some s) b
              ∙ e,
          w,
        )
    | inr b ↦ (
      s,
      ap (λ (o : Option ℕ). elim o [ none ↦ some s | some next ↦ chosen next ]) h.1
          ∙ ap (λ b. if b then preempt curr h.0 s else some s) b,
      v,
    )
  ]
]
  where
    chosen : ℕ → Option Cfs
    chosen next =
        if cfs_check_preempt_curr (task s curr) (task s next) then preempt curr next s else some s

updated-IsScheduler :
    (curr : ℕ) (s : Cfs)
    → IsScheduler s
    → s.cfs_current ≡ some curr
    → IsScheduler (cfs_update_curr curr s)
updated-IsScheduler curr s v e =
    let (lt, off) = v.current curr e in
    let on = cfs_update_curr-Similar curr s (omega (arith, lt, v.queue.slots)) off in
    record {
      sh = v.sh;
      queue = Similar-IsQueue v.queue on;
      current = λ c e'.
          let (lt', off') = v.current c (sym (cfs_update_curr-same_current curr s) ∙ e') in
          (lt', on.on c ∙ off');
    }

by_current :
    (o : Option ℕ) (s : Cfs) → s.cfs_current ≡ o → IsScheduler s → Keeps (cfs_scheduler_tick s)
by_current none s e v = subst Keeps (sym (tick_idle s e)) (idle-Keeps s v)
by_current (some curr) s e v =
    subst Keeps (sym (tick_busy curr s e)) (
      busy-Keeps curr (cfs_update_curr curr s) (updated-IsScheduler curr s v e)
        (v.current curr e).0)

-- On a state with a valid run queue, in which the current task, if there is one, is a process of the table
-- that is not queued, `cfs_scheduler_tick` returns, with a state that is so again.
pub cfs_scheduler_tick-IsScheduler :
    {s : Cfs} → IsScheduler s → (s' : Cfs) × (cfs_scheduler_tick s ≡ some s') × IsScheduler s'
unfolding Keeps
cfs_scheduler_tick-IsScheduler {s} v = by_current s.cfs_current s refl v
