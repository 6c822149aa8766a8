-- ===== src/Cfs/Run.antt =====
-- The run queue of cfs.c as a sorted list of tasks, and the state behind `cfs_enqueue_task`.
use mathlib.Core.Path.{subst, fun_ext}
use native.Mathlib.Decide.{ℕ_discrete}
use fru1t_os.Prelude.{
  ℕ, zero, suc, ◌+◌, ◌-◌, ◌%◌, ◌^◌, ◌≤◌, ◌<◌, ◌≡◌, ◌≢◌, ◌↔◌, sym, ap, ◌∙◌, Bool, true, false, List,
  [], ◌∷◌, ◌++◌, if◌then◌else◌, arith, length, set, get_or, get_or-set_self, get_or-set_ne,
  length-set,
}
use fru1t_os.Prelude.Int.{pos}
use fru1t_os.Process.{ready, max_processes, no_process}
use fru1t_os.Rbtree.{RbTree}
use fru1t_os.Rbtree.Shape.{Shape, in_order, count, IsDistinct, Represents}
use fru1t_os.Rbtree.Place.{count_null}
use fru1t_os.Rbtree.First.{first_or_null}
use fru1t_os.Rbtree.Balance.{IsRedBlack}
use fru1t_os.Rbtree.Order.{All, IsSorted, size}
use fru1t_os.Rbtree.Size.{size_le}
use fru1t_os.Cfs.{no_entity, SchedEntity, CfsProcess, Cfs, entity, set_entity, set_proc_state}
use fru1t_os.Cfs.Link.{run_time, tree_in}

-- The queue is a red-black tree of the tasks that are marked as queued, in the order of their run times,
-- and `rb_leftmost` is its first node.
pub record IsQueue (s : Cfs) (sh : Shape) : Type 0 where
  pub tree : Represents (tree_in s) sh
  pub once : IsDistinct sh
  pub colors : IsRedBlack sh
  pub sorted : IsSorted (run_time s) (in_order sh)
  pub first : s.cfs_runqueue.rb_leftmost ≡ first_or_null (in_order sh)
  pub queued : (j : ℕ) → ((entity s j).on_rq ≡ true) ↔ (0 < count (j + 1) sh)
  pub slots : length s.cfs_processes ≡ max_processes

-- a task `i` that has come into the queue
pub record Enqueued (i : ℕ) (s : Cfs) (sh : Shape) (s' : Cfs) : Type 0 where
  pub sh' : Shape
  pub queue : IsQueue s' sh'
  pub ps : List ℕ
  pub qs : List ℕ
  pub was : in_order sh ≡ ps ++ qs
  pub now : in_order sh' ≡ ps ++ (i + 1) ∷ qs
  pub low : All (λ q. run_time s q ≤ (entity s i).vruntime) ps
  pub high : All (λ q. (entity s i).vruntime < run_time s q) qs

-- the state behind `cfs_enqueue_task`
abbrev pub queued_state : (i : ℕ) → RbTree → (flag : Bool) → Cfs → Cfs
queued_state i tree flag s =
    let rq = s.cfs_runqueue in
    set_proc_state i ready (record (set_entity i (record (entity s i) { on_rq = true }) s) {
      cfs_runqueue = record rq {
        tasks_timeline = tree;
        rb_leftmost = if flag then i + 1 else rq.rb_leftmost;
        nr_running = (rq.nr_running + 1) % 2 ^ 32;
        total_weight = (rq.total_weight + (entity s i).weight) % 2 ^ 64;
      };
    })

abbrev pub no_task : CfsProcess
no_task = record { base = no_process; se = no_entity; nice = pos 0 }

-- a slot behind two writes of the slot `i`
module _ (ps : List CfsProcess) (i : ℕ) (p : CfsProcess) where
  twice_here : (q : CfsProcess) → i < length ps → get_or (set (set ps i p) i q) i no_task ≡ q
  twice_here q lt = get_or-set_self (set ps i p) i q no_task (omega (arith, lt, length-set ps i p))

  once_here : i < length ps → get_or (set ps i p) i no_task ≡ p
  once_here lt = get_or-set_self ps i p no_task lt

  twice_other :
      (q : CfsProcess) (j : ℕ)
      → i ≢ j
      → get_or (set (set ps i p) i q) j no_task ≡ get_or ps j no_task
  twice_other q j ne =
      get_or-set_ne (set ps i p) i j q no_task ne ∙ get_or-set_ne ps i j p no_task ne

module _ (i : ℕ) (tree : RbTree) (flag : Bool) (s : Cfs) (lt : i < length s.cfs_processes) where
  abbrev pub behind : Cfs
  behind = queued_state i tree flag s

  pub entity_here : entity behind i ≡ record (entity s i) { on_rq = true }
  entity_here =
      ap (λ (p : CfsProcess). p.se) (twice_here s.cfs_processes i _ _ lt)
      ∙ ap (λ (p : CfsProcess). p.se) (once_here s.cfs_processes i _ lt)

  pub entity_other : (j : ℕ) → i ≢ j → entity behind j ≡ entity s j
  entity_other j ne = ap (λ (p : CfsProcess). p.se) (twice_other s.cfs_processes i _ _ j ne)

  pub run_time_same : run_time behind ≡ run_time s
  run_time_same = fun_ext (λ q. elim (ℕ_discrete i (q - 1)) [
    | yes e ↦
        let here : (entity behind i).vruntime ≡ (entity s i).vruntime =
          ap (λ (x : SchedEntity). x.vruntime) entity_here in
        subst (λ j. (entity behind j).vruntime ≡ (entity s j).vruntime) e here
    | no ne ↦ ap (λ (x : SchedEntity). x.vruntime) (entity_other (q - 1) ne)
  ])

-- a queued task stands in the array
pub queued_lt :
    (ps : List CfsProcess) (j : ℕ) → (get_or ps j no_task).se.on_rq ≡ true → j < length ps
queued_lt [] j u = cc
queued_lt (p ∷ ps) zero u = omega arith
queued_lt (p ∷ ps) (suc j) u = omega (arith, queued_lt ps j u)

module _ {s : Cfs} {sh : Shape} (v : IsQueue s sh) where
  pub address_inside : (z : ℕ) → 0 < count z sh → (0 < z) × (z ≤ max_processes)
  address_inside zero h =
      absurd (omega (arith, h, count_null sh (tree_in s) 0 (tree_in s).rb_node v.tree))
  address_inside (suc j) h =
      let e : j + 1 ≡ suc j = omega arith in
      let on : (entity s j).on_rq ≡ true = (v.queued j).1 (rw e h) in
      (omega arith, omega (arith, queued_lt s.cfs_processes j on, v.slots))

  pub size_queue : size sh ≤ max_processes
  size_queue = size_le max_processes sh v.once address_inside

  pub not_queued : (i : ℕ) → (entity s i).on_rq ≡ false → count (i + 1) sh ≡ 0
  not_queued i off = elim (ℕ_discrete (count (i + 1) sh) 0) [
    | yes e ↦ e
    | no ne ↦ absurd (true_ne (sym ((v.queued i).1 (omega arith)) ∙ off))
  ]
    where
      true_ne : true ≡ false → ⊥
      true_ne e = cc
