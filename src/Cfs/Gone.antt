-- ===== src/Cfs/Gone.antt =====
-- The state behind `cfs_dequeue_task` of cfs.c, with a task marked as not queued.
use mathlib.Core.Path.{subst, fun_ext}
use native.Mathlib.Decide.{ℕ_discrete}
use fru1t_os.Prelude.{
  ℕ, ◌+◌, ◌-◌, ◌%◌, ◌^◌, ◌≤◌, ◌<◌, ◌≡◌, ◌≢◌, refl, sym, ap, true, false, ◌==◌, List, [], ◌∷◌, ◌++◌,
  if◌then◌else◌, arith, length, get_or-set_self, get_or-set_ne, length-set,
}
use fru1t_os.Rbtree.{RbTree, rb_clear_node}
use fru1t_os.Rbtree.Shape.{Shape, in_order, count, IsTree, Represents}
use fru1t_os.Rbtree.Place.{kept-IsTree, counts_itself}
use fru1t_os.Rbtree.Rotate.{node_other, root_same}
use fru1t_os.Rbtree.First.{first_or_null}
use fru1t_os.Rbtree.Order.{All-front, All-tail, All-append, IsSorted}
use fru1t_os.Rbtree.Size.{occurs, occurs-append}
use fru1t_os.Cfs.{SchedEntity, CfsProcess, Cfs, entity, set_entity, update_min_vruntime}
use fru1t_os.Cfs.Link.{run_time, tree_in}
use fru1t_os.Cfs.Run.{IsQueue, no_task}

-- a task `i` that has left the queue
pub record Dequeued (i : ℕ) (s : Cfs) (sh : Shape) (s' : Cfs) : Type 0 where
  pub sh' : Shape
  pub queue : IsQueue s' sh'
  pub ps : List ℕ
  pub qs : List ℕ
  pub was : in_order sh ≡ ps ++ (i + 1) ∷ qs
  pub now : in_order sh' ≡ ps ++ qs
  pub off : (entity s' i).on_rq ≡ false

pub remove-IsSorted :
    (key : ℕ → ℕ) (ps qs : List ℕ) (p : ℕ) → IsSorted key (ps ++ p ∷ qs) → IsSorted key (ps ++ qs)
remove-IsSorted key [] qs p s = s.1
remove-IsSorted key (q ∷ ps) qs p s = (
  All-append (λ r. key q ≤ key r) ps qs (All-front (λ r. key q ≤ key r) ps (p ∷ qs) s.0)
      (All-tail (λ r. key q ≤ key r) ps (p ∷ qs) s.0).1,
  remove-IsSorted key ps qs p s.1,
)

pub on_not_off : true ≡ false → ⊥
on_not_off e = cc

-- the first node without `n`
pub without :
    (n : ℕ) (ps qs : List ℕ)
    → first_or_null (ps ++ n ∷ qs) ≢ n
    → first_or_null (ps ++ n ∷ qs) ≡ first_or_null (ps ++ qs)
without n [] qs ne = absurd (ne refl)
without n (p ∷ ps) qs ne = refl

pub with_first :
    (n : ℕ) (ps qs : List ℕ)
    → first_or_null (ps ++ n ∷ qs) ≡ n
    → occurs n (ps ++ n ∷ qs) ≤ 1
    → first_or_null qs ≡ first_or_null (ps ++ qs)
with_first n [] qs e once = refl
with_first n (p ∷ ps) qs e once =
    let hit : ◌≡◌ {A = ℕ} (if p == n then 1 else 0) 1 = ground arith in
    absurd (omega (arith, once, hit, occurs-append n ps (n ∷ qs), counts_itself n))

pub cleared-Represents :
    (p : ℕ) (sh : Shape) (t : RbTree)
    → count p sh ≡ 0
    → Represents t sh
    → Represents (rb_clear_node p t) sh
cleared-Represents p sh t none_there is =
    subst (λ r. kept r) (sym (root_same p _ t))
      (kept-IsTree sh t (rb_clear_node p t) 0 t.rb_node
        (λ z more.
          node_other p z _ t (λ e. omega (arith, none_there, more, ap (λ x. count x sh) e)))
        is)
  where
    kept : ℕ → Type 0
    kept r = IsTree (rb_clear_node p t) 0 r sh

-- the state behind `cfs_dequeue_task`
abbrev pub gone_state : (i : ℕ) → RbTree → (first : ℕ) → Cfs → Cfs
gone_state i tree first s =
    let rq = s.cfs_runqueue in
    update_min_vruntime (record (set_entity i (record (entity s i) { on_rq = false }) s) {
      cfs_runqueue = record rq {
        tasks_timeline = rb_clear_node (i + 1) tree;
        rb_leftmost = first;
        nr_running = (rq.nr_running + 4294967295) % 2 ^ 32;
        total_weight = (rq.total_weight + 2 ^ 64 - (entity s i).weight) % 2 ^ 64;
      };
    })

module _ (i : ℕ) (tree : RbTree) (first : ℕ) (s : Cfs) (lt : i < length s.cfs_processes) where
  abbrev behind : Cfs
  behind = gone_state i tree first s

  pub behind_tree : tree_in behind ≡ rb_clear_node (i + 1) tree
  unfolding update_min_vruntime
  behind_tree = refl

  pub behind_first : behind.cfs_runqueue.rb_leftmost ≡ first
  unfolding update_min_vruntime
  behind_first = refl

  pub behind_slots : length behind.cfs_processes ≡ length s.cfs_processes
  unfolding update_min_vruntime
  behind_slots = length-set s.cfs_processes i _

  pub gone_here : entity behind i ≡ record (entity s i) { on_rq = false }
  unfolding update_min_vruntime
  gone_here = ap (λ (p : CfsProcess). p.se) (get_or-set_self s.cfs_processes i _ no_task lt)

  pub gone_other : (j : ℕ) → i ≢ j → entity behind j ≡ entity s j
  unfolding update_min_vruntime
  gone_other j ne = ap (λ (p : CfsProcess). p.se) (get_or-set_ne s.cfs_processes i j _ no_task ne)

  pub gone_times : run_time behind ≡ run_time s
  gone_times = fun_ext (λ q. elim (ℕ_discrete i (q - 1)) [
    | yes e ↦
        let here : (entity behind i).vruntime ≡ (entity s i).vruntime =
          ap (λ (x : SchedEntity). x.vruntime) gone_here in
        subst (λ j. (entity behind j).vruntime ≡ (entity s j).vruntime) e here
    | no ne ↦ ap (λ (x : SchedEntity). x.vruntime) (gone_other (q - 1) ne)
  ])
