-- ===== src/Cfs/Tests.antt =====
-- Runs of the fair scheduler, and the theorems at a queue of two tasks.
use fru1t_os.Prelude.{
  ◌≢◌, ℕ, zero, suc, ◌∷◌, ◌==◌, if◌then◌else◌, sym, ◌∙◌, false, get_or, ◌+◌, ◌*◌, ◌/◌, ◌%◌, ◌^◌,
  ◌≤◌, ◌<◌, ◌≡◌, ◌↔◌, ◌⊎◌, refl, Option, none, some, arith, true, replicate,
}
use fru1t_os.Prelude.Int.{pos}
use fru1t_os.Process.{no_process}
use fru1t_os.Rbtree.{
  black, set_node, adopt, insert_loop, rb_insert_color, hang, leftmost, climb, rb_next,
}
use fru1t_os.Rbtree.Erase.{
  rb_erase, erase_inner, color_fixup, take_over, unlink, rb_erase_color, erase_loop,
}
use fru1t_os.Cfs.{
  SchedEntity, CfsProcess, Cfs, entity, no_entity, nice_0_load, min_granularity, cfs_init,
  calc_delta_fair, get_time_ns, update_min_vruntime,
}
use fru1t_os.Cfs.Queue.{
  cfs_create_process, cfs_enqueue_task, cfs_dequeue_task, find_link, leftmost_without,
  cfs_pick_next_task, start_task, cfs_scheduler_tick, cfs_check_preempt_curr,
}
use fru1t_os.Rbtree.Shape.{leaf, branch, count}
use fru1t_os.Cfs.Gone.{Dequeued}
use fru1t_os.Cfs.Dequeue.{cfs_dequeue_task_lem}
use fru1t_os.Cfs.Pick.{cfs_pick_next_task_lem}
use fru1t_os.Cfs.Tick.{IsScheduler, some_same, cfs_scheduler_tick-IsScheduler}
use mathlib.Core.Path.{subst}
use fru1t_os.Cfs.Run.{IsQueue, Enqueued}
use fru1t_os.Cfs.Enqueue.{cfs_enqueue_task_lem}
use fru1t_os.Cfs.Weight.{calc_delta_fair_lem}
use fru1t_os.Cfs.Clock.{cfs_check_preempt_curr_lem}

abbrev blank : Cfs
blank = record {
  cfs_runqueue = record {
    tasks_timeline = record {
      rb_node = 0;
      nodes = λ p. record { parent = 0; left = 0; right = 0; color = black };
    };
    rb_leftmost = 0;
    min_vruntime = 0;
    nr_running = 0;
    total_weight = 0;
  };
  cfs_current = none;
  cfs_processes = replicate 8 (record { base = no_process; se = no_entity; nice = pos 0 });
  counter = 0;
}

abbrev state_of : Option (Option ℕ × Cfs) → Cfs
state_of none = blank
state_of (some (r, s)) = s

abbrev stacks : ℕ → ℕ
stacks i = 65536 + i * 8192

-- two tasks in the queue, of nice value 0 and 5
abbrev one_task : Cfs
one_task = state_of (cfs_create_process stacks 4096 (pos 0) (cfs_init blank))

abbrev two_tasks : Cfs
two_tasks = state_of (cfs_create_process stacks 4096 (pos 5) one_task)

abbrev next_state : Option Cfs → Cfs
next_state none = blank
next_state (some s) = s

abbrev ticked : Cfs
ticked = next_state (cfs_scheduler_tick two_tasks)

tick_runs :
    (cfs_scheduler_tick two_tasks ≡ some ticked)
    × (ticked.cfs_current ≡ some 0)
    × (ticked.cfs_runqueue.rb_leftmost ≡ 2)
    × (ticked.cfs_runqueue.nr_running ≡ 1)
unfolding cfs_scheduler_tick cfs_pick_next_task start_task cfs_dequeue_task leftmost_without rb_next
    leftmost climb rb_erase unlink adopt color_fixup rb_erase_color erase_loop erase_inner take_over
    cfs_create_process cfs_enqueue_task find_link hang rb_insert_color insert_loop cfs_init set_node
    get_time_ns update_min_vruntime
tick_runs = (refl, refl, refl, refl)

abbrev light : SchedEntity
light = record no_entity { weight = 335 }

calc_delta_fair_lem_example : calc_delta_fair 4194304 light ≡ 4194304 % 4194304 * nice_0_load / 335
calc_delta_fair_lem_example = calc_delta_fair_lem 4194304 light (omega arith) (omega arith)

abbrev at_time : ℕ → CfsProcess
at_time v = record { base = no_process; se = record no_entity { vruntime = v }; nice = pos 0 }

cfs_check_preempt_curr_lem_example :
    (cfs_check_preempt_curr (at_time 5) (at_time 9) ≡ true)
    ↔ ((9 + min_granularity < 5) ⊎ (5 < 9) × (9 + min_granularity < 5 + 2 ^ 64))
cfs_check_preempt_curr_lem_example =
    cfs_check_preempt_curr_lem (at_time 5) (at_time 9) (omega arith) (omega arith)

-- a task that is behind is preempted
preempt_runs : cfs_check_preempt_curr (at_time 5) (at_time 9) ≡ true
unfolding cfs_check_preempt_curr
preempt_runs = refl

-- a queue of one task, with a second one beside it
abbrev queued_task : CfsProcess
queued_task = record {
  base = no_process;
  se = record no_entity { vruntime = 5; on_rq = true };
  nice = pos 0;
}

abbrev one_queued : Cfs
one_queued = record blank {
  cfs_runqueue = record (blank.cfs_runqueue) {
    tasks_timeline = record {
      rb_node = 1;
      nodes = λ p. record { parent = 0; left = 0; right = 0; color = black };
    };
    rb_leftmost = 1;
    nr_running = 1;
  };
  cfs_processes = queued_task ∷ at_time 3 ∷ replicate 6 (at_time 0);
}

idle_slots : (n j : ℕ) → (get_or (replicate n (at_time 0)) j (at_time 0)).se.on_rq ≡ false
idle_slots zero j = refl
idle_slots (suc n) zero = refl
idle_slots (suc n) (suc j) = idle_slots n j

one_queued_lem :
    (j : ℕ) → ((entity one_queued j).on_rq ≡ true) ↔ (0 < count (j + 1) (branch leaf 1 black leaf))
one_queued_lem zero = (λ e. omega arith, λ h. refl)
one_queued_lem (suc zero) = (λ e. cc, λ h. absurd (omega (arith, h)))
one_queued_lem (suc (suc j)) =
    let miss : ◌≡◌ {A = ℕ} (if 1 == suc (suc j) + 1 then 1 else 0) 0 = ground arith in
    (λ e. absurd (on_not_off (sym e ∙ idle_slots 6 j)), λ h. absurd (omega (arith, h, miss)))
  where
    on_not_off : true ≡ false → ⊥
    on_not_off e = cc

one_queued-IsQueue : IsQueue one_queued (branch leaf 1 black leaf)
one_queued-IsQueue = record {
  tree = (refl, omega arith, refl, refl, refl, refl);
  once = λ z. ground arith;
  colors = record { root = refl; calm = (tt, tt, tt, tt); even = (1, (refl, refl)) };
  sorted = (tt, tt);
  first = refl;
  queued = one_queued_lem;
  slots = refl;
}

cfs_enqueue_task_lem_example :
    ((entity one_queued 1).on_rq ≡ true) × (cfs_enqueue_task 1 one_queued ≡ some one_queued)
    ⊎ ((s' : Cfs) × (cfs_enqueue_task 1 one_queued ≡ some s')
        × Enqueued 1 one_queued (branch leaf 1 black leaf) s')
cfs_enqueue_task_lem_example = cfs_enqueue_task_lem 1 one_queued-IsQueue (omega arith)

cfs_dequeue_task_lem_example :
    ((entity one_queued 0).on_rq ≡ false) × (cfs_dequeue_task 0 one_queued ≡ some one_queued)
    ⊎ ((s' : Cfs) × (cfs_dequeue_task 0 one_queued ≡ some s')
        × Dequeued 0 one_queued (branch leaf 1 black leaf) s')
cfs_dequeue_task_lem_example = cfs_dequeue_task_lem 0 one_queued-IsQueue

cfs_pick_next_task_lem_example :
    ((cfs_pick_next_task one_queued ≡ none) × ((j : ℕ) → (entity one_queued j).on_rq ≢ true))
    ⊎ ((next : ℕ) × (cfs_pick_next_task one_queued ≡ some next)
        × ((entity one_queued next).on_rq ≡ true)
        × ((j : ℕ)
            → (entity one_queued j).on_rq ≡ true
            → (entity one_queued next).vruntime ≤ (entity one_queued j).vruntime))
cfs_pick_next_task_lem_example = cfs_pick_next_task_lem one_queued-IsQueue

-- the second task runs
abbrev second_runs : Cfs
second_runs = record one_queued { cfs_current = some 1 }

second_runs-IsScheduler : IsScheduler second_runs
second_runs-IsScheduler = record {
  sh = branch leaf 1 black leaf;
  queue = record {
    tree = one_queued-IsQueue.tree;
    once = one_queued-IsQueue.once;
    colors = one_queued-IsQueue.colors;
    sorted = (tt, tt);
    first = refl;
    queued = one_queued_lem;
    slots = refl;
  };
  current = λ c e.
      subst (λ c. (c < 8) × ((entity second_runs c).on_rq ≡ false)) (some_same 1 c e)
        (omega arith, refl);
}

cfs_scheduler_tick-IsScheduler_example :
    (s' : Cfs) × (cfs_scheduler_tick second_runs ≡ some s') × IsScheduler s'
cfs_scheduler_tick-IsScheduler_example = cfs_scheduler_tick-IsScheduler second_runs-IsScheduler
