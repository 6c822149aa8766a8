-- ===== src/Cfs/Enqueue.antt =====
-- The run queue of cfs.c as a sorted list of tasks, and what `cfs_enqueue_task` does to it.
use mathlib.Core.Path.{subst}
use native.Mathlib.Decide.{ℕ_discrete}
use fru1t_os.Prelude.{
  ℕ, ◌+◌, ◌-◌, ◌≤◌, ◌<◌, ◌≡◌, ◌↔◌, ◌⊎◌, inl, inr, refl, sym, ap, ◌∙◌, Bool, true, false, ◌==◌, List,
  ◌∷◌, ◌++◌, some, if◌then◌else◌, arith, length, set, Bool-cases, length-set,
}
use fru1t_os.Process.{max_processes}
use fru1t_os.Rbtree.{RbTree, red, hang, rb_insert_color}
use fru1t_os.Rbtree.Shape.{Shape, leaf, branch, in_order, count, IsDistinct, Represents, top, above}
use fru1t_os.Rbtree.First.{first_or_null}
use fru1t_os.Rbtree.Balance.{IsRedBlack}
use fru1t_os.Rbtree.Added.{rb_insert_color_lem}
use fru1t_os.Rbtree.Order.{
  before, after, in_order-around, All, IsSorted, insert-IsSorted, first-insert, All-imp,
}
use fru1t_os.Rbtree.Size.{occurs, occurs-append, occurs-in_order}
use fru1t_os.Cfs.{SchedEntity, Cfs, entity}
use fru1t_os.Cfs.Queue.{tree_fuel, find_link, cfs_enqueue_task}
use fru1t_os.Cfs.Link.{run_time, tree_in, Found, find_link-Found}
use fru1t_os.Cfs.Run.{
  Enqueued, IsQueue, entity_here, entity_other, not_queued, queued_state, run_time_same, size_queue,
}

enqueue_equation :
    (i : ℕ) (s : Cfs) (parent : ℕ) (l m : Bool) (tree : RbTree)
    → (entity s i).on_rq ≡ false
    → find_link tree_fuel (tree_in s).rb_node (entity s i).vruntime 0 true true s
      ≡ some (parent, l, m)
    → rb_insert_color tree_fuel (i + 1) (hang (i + 1) parent l (tree_in s)) ≡ some tree
    → cfs_enqueue_task i s ≡ some (queued_state i tree m s)
unfolding cfs_enqueue_task
enqueue_equation i s parent l m tree off e e' = rw (off, e, e') refl

pub count_added :
    (z p : ℕ) (sh sh' : Shape) (ps qs : List ℕ)
    → in_order sh ≡ ps ++ qs
    → in_order sh' ≡ ps ++ p ∷ qs
    → count z sh' ≡ (if p == z then 1 else 0) + count z sh
count_added z p sh sh' ps qs was now = omega (
  arith,
  ap (occurs z) was,
  ap (occurs z) now,
  occurs-append z ps qs,
  occurs-append z ps (p ∷ qs),
  occurs-in_order z sh,
  occurs-in_order z sh',
)

module _ (i : ℕ) (s : Cfs) (sh : Shape) (v : IsQueue s sh) (lt : i < max_processes)
    (off : (entity s i).on_rq ≡ false) where
  lt_slots : i < length s.cfs_processes
  lt_slots = omega (arith, lt, v.slots)

  link : Found tree_fuel (tree_in s).rb_node (entity s i).vruntime true true top sh s
  link =
      find_link-Found sh top tree_fuel (tree_in s).rb_node (entity s i).vruntime true true s v.tree
        (omega (arith, size_queue v)) tt refl v.sorted tt tt

  abbrev ps' : List ℕ
  ps' = before link.place

  abbrev qs' : List ℕ
  qs' = after link.place

  was_order : in_order sh ≡ ps' ++ qs'
  was_order = ap in_order (sym link.same) ∙ in_order-around link.place leaf

  added-IsQueue :
      (tree : RbTree) (sh' : Shape)
      → Represents tree sh'
      → IsDistinct sh'
      → IsRedBlack sh'
      → in_order sh' ≡ ps' ++ (i + 1) ∷ qs'
      → IsQueue (queued_state i tree link.flag s) sh'
  added-IsQueue tree sh' is once rb now = record {
    tree = is;
    once = once;
    colors = rb;
    sorted =
        subst (λ key. IsSorted key (in_order sh')) (sym (run_time_same i tree link.flag s lt_slots))
          (subst (IsSorted (run_time s)) (sym now) (
            insert-IsSorted (run_time s) ps' qs' (i + 1)
              (subst (IsSorted (run_time s)) was_order v.sorted)
              (subst (λ j. All (λ q. run_time s q ≤ (entity s j).vruntime) ps') same_slot link.low)
              (All-imp (λ q. (entity s i).vruntime < run_time s q)
                (λ q. run_time s (i + 1) ≤ run_time s q) qs'
                (λ q h. omega (arith, h, ap (λ j. (entity s j).vruntime) same_slot)) link.high)));
    first =
        ap (λ f. if link.flag then i + 1 else f) (v.first ∙ ap first_or_null was_order)
        ∙ sym (first-insert link.flag ps' qs' (i + 1) link.on_flag)
        ∙ ap first_or_null (sym now);
    queued = λ j. queued_now j;
    slots = length-set (set s.cfs_processes i _) i _ ∙ length-set s.cfs_processes i _ ∙ v.slots;
  }
    where
      same_slot : i ≡ i + 1 - 1
      same_slot = omega arith

      queued_now :
          (j : ℕ)
          → ((entity (queued_state i tree link.flag s) j).on_rq ≡ true) ↔ (0 < count (j + 1) sh')
      queued_now j = elim (ℕ_discrete i j) [
        | yes e ↦
            let hit : ◌≡◌ {A = ℕ} (if i + 1 == j + 1 then 1 else 0) 1 = ground arith in
            let on : (entity (queued_state i tree link.flag s) j).on_rq ≡ true =
              subst (λ x. (entity (queued_state i tree link.flag s) x).on_rq ≡ true) e
                (ap (λ (x : SchedEntity). x.on_rq) (entity_here i tree link.flag s lt_slots)) in
            (
              λ h. omega (arith, hit, count_added (j + 1) (i + 1) sh sh' ps' qs' was_order now),
              λ h. on,
            )
        | no ne ↦
            let miss : ◌≡◌ {A = ℕ} (if i + 1 == j + 1 then 1 else 0) 0 = ground arith in
            let same =
              ap (λ (x : SchedEntity). x.on_rq) (entity_other i tree link.flag s lt_slots j ne) in
            let counts = count_added (j + 1) (i + 1) sh sh' ps' qs' was_order now in
            (
              λ h. omega (arith, miss, counts, (v.queued j).0 (sym same ∙ h)),
              λ h. same ∙ (v.queued j).1 (omega (arith, miss, counts, h)),
            )
      ]

  enqueued : (s' : Cfs) × (cfs_enqueue_task i s ≡ some s') × Enqueued i s sh s'
  enqueued =
      let (tree, sh', e, is, once, order, rb) =
        rb_insert_color_lem tree_fuel (i + 1) link.place link.side (tree_in s)
          (subst (Represents (tree_in s)) (sym link.same) v.tree)
          (subst IsDistinct (sym link.same) v.once) (subst IsRedBlack (sym link.same) v.colors)
          (omega arith) (ap (count (i + 1)) link.same ∙ not_queued v i off) link.on_side
          (omega (arith, link.deep, size_queue v)) in
      let now : in_order sh' ≡ ps' ++ (i + 1) ∷ qs' =
        order ∙ in_order-around link.place (branch leaf (i + 1) red leaf) in
      (
        queued_state i tree link.flag s,
        enqueue_equation i s (above link.place) link.side link.flag tree off link.found e,
        record {
          sh' = sh';
          queue = added-IsQueue tree sh' is once rb now;
          ps = ps';
          qs = qs';
          was = was_order;
          now = now;
          low = link.low;
          high = link.high;
        },
      )

enqueue_again : (i : ℕ) (s : Cfs) → (entity s i).on_rq ≡ true → cfs_enqueue_task i s ≡ some s
unfolding cfs_enqueue_task
enqueue_again i s on = rw on refl

-- On a valid run queue, the red-black tree of the queued tasks in the order of their run times with its
-- first node in `rb_leftmost`, `cfs_enqueue_task` returns: a task that is queued is left as it is, and another
-- one comes behind the tasks with at most its run time and before those with a greater one. The queue is
-- valid again.
pub cfs_enqueue_task_lem :
    (i : ℕ) {s : Cfs} {sh : Shape}
    → IsQueue s sh
    → i < max_processes
    → ((entity s i).on_rq ≡ true) × (cfs_enqueue_task i s ≡ some s)
      ⊎ ((s' : Cfs) × (cfs_enqueue_task i s ≡ some s') × Enqueued i s sh s')
cfs_enqueue_task_lem i {s} {sh} v lt = elim (Bool-cases (entity s i).on_rq) [
  | inl on ↦ inl (on, enqueue_again i s on)
  | inr off ↦ inr (enqueued i s sh v lt off)
]
