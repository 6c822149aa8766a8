-- ===== src/Cfs/Dequeue.antt =====
-- What `cfs_dequeue_task` of cfs.c does to the run queue.
use mathlib.Core.Path.{subst}
use native.Mathlib.Decide.{ℕ_discrete}
use fru1t_os.Prelude.{
  ℕ, ◌+◌, ◌<◌, ◌≡◌, ◌↔◌, ◌⊎◌, inl, inr, refl, sym, ap, ◌∙◌, true, false, ◌==◌, List, ◌∷◌, ◌++◌,
  some, if◌then◌else◌, arith, length, Bool-cases,
}
use fru1t_os.Rbtree.{RbTree, rb_next}
use fru1t_os.Rbtree.Erase.{rb_erase}
use fru1t_os.Rbtree.Shape.{Shape, in_order, count, IsDistinct, Represents}
use fru1t_os.Rbtree.Place.{counts_itself}
use fru1t_os.Rbtree.First.{first_or_null}
use fru1t_os.Rbtree.Balance.{IsRedBlack}
use fru1t_os.Rbtree.Erased.{rb_erase_lem}
use fru1t_os.Rbtree.Next.{rb_next_lem}
use fru1t_os.Rbtree.Order.{IsSorted, size}
use fru1t_os.Rbtree.Size.{occurs, occurs-in_order}
use fru1t_os.Cfs.{SchedEntity, Cfs, entity}
use fru1t_os.Cfs.Queue.{tree_fuel, leftmost_without, cfs_dequeue_task}
use fru1t_os.Cfs.Link.{run_time, tree_in}
use fru1t_os.Cfs.Run.{IsQueue, queued_lt, size_queue}
use fru1t_os.Cfs.Enqueue.{count_added}
use fru1t_os.Cfs.Gone.{
  Dequeued, behind_first, behind_slots, behind_tree, cleared-Represents, gone_here, gone_other,
  gone_state, gone_times, on_not_off, remove-IsSorted, with_first, without,
}

dequeue_equation :
    (i : ℕ) (s : Cfs) (first : ℕ) (tree : RbTree)
    → (entity s i).on_rq ≡ true
    → leftmost_without i s.cfs_runqueue ≡ some first
    → rb_erase tree_fuel (i + 1) (tree_in s) ≡ some tree
    → cfs_dequeue_task i s ≡ some (gone_state i tree first s)
unfolding cfs_dequeue_task
dequeue_equation i s first tree on e e' = rw (on, e, e') refl

module _ (i : ℕ) (s : Cfs) (sh : Shape) (v : IsQueue s sh) (on : (entity s i).on_rq ≡ true) where
  slot : i < length s.cfs_processes
  slot = queued_lt s.cfs_processes i on

  room : size sh < tree_fuel
  room = omega (arith, size_queue v)

  module _ (ps qs : List ℕ) (was : in_order sh ≡ ps ++ (i + 1) ∷ qs) where
    next_first : leftmost_without i s.cfs_runqueue ≡ some (first_or_null (ps ++ qs))
    unfolding leftmost_without
    next_first =
        let next = rb_next_lem tree_fuel (i + 1) sh ps qs (tree_in s) v.tree v.once was room in
        let first : s.cfs_runqueue.rb_leftmost ≡ first_or_null (ps ++ (i + 1) ∷ qs) =
          v.first ∙ ap first_or_null was in
        elim (ℕ_discrete s.cfs_runqueue.rb_leftmost (i + 1)) [
          | yes e ↦
              let hit : (s.cfs_runqueue.rb_leftmost == i + 1) ≡ true = ground arith in
              ap
                (λ b.
                  if b
                  then rb_next tree_fuel (i + 1) (tree_in s)
                  else some s.cfs_runqueue.rb_leftmost)
                hit
              ∙ next
              ∙ ap some (
                  with_first (i + 1) ps qs (sym first ∙ e) (
                    omega
                      (arith, v.once (i + 1), occurs-in_order (i + 1) sh, ap (occurs (i + 1)) was)))
          | no ne ↦
              let miss : (s.cfs_runqueue.rb_leftmost == i + 1) ≡ false = ground arith in
              ap
                (λ b.
                  if b
                  then rb_next tree_fuel (i + 1) (tree_in s)
                  else some s.cfs_runqueue.rb_leftmost)
                miss
              ∙ ap some (first ∙ without (i + 1) ps qs (λ e. ne (first ∙ e)))
        ]

    rest-IsQueue :
        (tree : RbTree) (sh' : Shape)
        → Represents tree sh'
        → IsDistinct sh'
        → IsRedBlack sh'
        → in_order sh' ≡ ps ++ qs
        → IsQueue (gone_state i tree (first_or_null (ps ++ qs)) s) sh'
    rest-IsQueue tree sh' is once rb now = record {
      tree =
          subst (λ t. Represents t sh') (sym (behind_tree i tree next s slot))
            (cleared-Represents (i + 1) sh' tree none_left is);
      once = once;
      colors = rb;
      sorted =
          subst (λ key. IsSorted key (in_order sh')) (sym (gone_times i tree next s slot))
            (subst (IsSorted (run_time s)) (sym now) (
              remove-IsSorted (run_time s) ps qs (i + 1)
                (subst (IsSorted (run_time s)) was v.sorted)));
      first = behind_first i tree next s slot ∙ ap first_or_null (sym now);
      queued = λ j. queued_now j;
      slots = behind_slots i tree next s slot ∙ v.slots;
    }
      where
        next : ℕ
        next = first_or_null (ps ++ qs)

        counts : (z : ℕ) → count z sh ≡ (if i + 1 == z then 1 else 0) + count z sh'
        counts z = count_added z (i + 1) sh' sh ps qs now was

        none_left : count (i + 1) sh' ≡ 0
        none_left = omega (arith, counts (i + 1), v.once (i + 1), counts_itself (i + 1))

        queued_now :
            (j : ℕ) → ((entity (gone_state i tree next s) j).on_rq ≡ true) ↔ (0 < count (j + 1) sh')
        queued_now j = elim (ℕ_discrete i j) [
          | yes e ↦
              let off : (entity (gone_state i tree next s) j).on_rq ≡ false =
                subst (λ x. (entity (gone_state i tree next s) x).on_rq ≡ false) e
                  (ap (λ (x : SchedEntity). x.on_rq) (gone_here i tree next s slot)) in
              (
                λ h. absurd (on_not_off (sym h ∙ off)),
                λ h. absurd (omega (arith, h, none_left, ap (λ x. count (x + 1) sh') e)),
              )
          | no ne ↦
              let miss : ◌≡◌ {A = ℕ} (if i + 1 == j + 1 then 1 else 0) 0 = ground arith in
              let same = ap (λ (x : SchedEntity). x.on_rq) (gone_other i tree next s slot j ne) in
              (
                λ h. omega (arith, miss, counts (j + 1), (v.queued j).0 (sym same ∙ h)),
                λ h. same ∙ (v.queued j).1 (omega (arith, miss, counts (j + 1), h)),
              )
        ]

  dequeued : (s' : Cfs) × (cfs_dequeue_task i s ≡ some s') × Dequeued i s sh s'
  dequeued =
      let (tree, sh', ps, qs, e, is, once, rb, was, now) =
        rb_erase_lem tree_fuel (i + 1) sh (tree_in s) v.tree v.once v.colors ((v.queued i).0 on)
          room in
      (
        gone_state i tree (first_or_null (ps ++ qs)) s,
        dequeue_equation i s (first_or_null (ps ++ qs)) tree on (next_first ps qs was) e,
        record {
          sh' = sh';
          queue = rest-IsQueue ps qs was tree sh' is once rb now;
          ps = ps;
          qs = qs;
          was = was;
          now = now;
          off =
              ap (λ (x : SchedEntity). x.on_rq)
                (gone_here i tree (first_or_null (ps ++ qs)) s slot);
        },
      )

dequeue_again : (i : ℕ) (s : Cfs) → (entity s i).on_rq ≡ false → cfs_dequeue_task i s ≡ some s
unfolding cfs_dequeue_task
dequeue_again i s off = rw off refl

-- On a valid run queue, the red-black tree of the queued tasks in the order of their run times with its
-- first node in `rb_leftmost`, `cfs_dequeue_task` returns: a task that is not queued is left as it is, and a
-- queued one leaves the tree, with the other tasks in the same order. The queue is valid again.
pub cfs_dequeue_task_lem :
    (i : ℕ) {s : Cfs} {sh : Shape}
    → IsQueue s sh
    → ((entity s i).on_rq ≡ false) × (cfs_dequeue_task i s ≡ some s)
      ⊎ ((s' : Cfs) × (cfs_dequeue_task i s ≡ some s') × Dequeued i s sh s')
cfs_dequeue_task_lem i {s} {sh} v = elim (Bool-cases (entity s i).on_rq) [
  | inl on ↦ inr (dequeued i s sh v on)
  | inr off ↦ inl (off, dequeue_again i s off)
]
