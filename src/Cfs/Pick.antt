-- ===== src/Cfs/Pick.antt =====
-- `cfs_pick_next_task` of cfs.c on a valid run queue.
use mathlib.Core.Path.{subst}
use native.Mathlib.Decide.{ℕ_discrete}
use fru1t_os.Prelude.{
  ℕ, ◌+◌, ◌-◌, ◌≤◌, ◌<◌, ◌≡◌, ◌≢◌, ◌⊎◌, inl, inr, ap, ◌∙◌, true, false, ◌==◌, List, [], ◌∷◌, none,
  some, if◌then◌else◌, arith,
}
use fru1t_os.Rbtree.Shape.{Shape, in_order, count}
use fru1t_os.Rbtree.First.{first_or_null}
use fru1t_os.Rbtree.Place.{counts_itself}
use fru1t_os.Rbtree.Order.{All, IsSorted}
use fru1t_os.Rbtree.Size.{occurs, occurs-in_order}
use fru1t_os.Cfs.{Cfs, entity}
use fru1t_os.Cfs.Queue.{cfs_pick_next_task}
use fru1t_os.Cfs.Link.{run_time}
use fru1t_os.Cfs.Run.{IsQueue, address_inside}

in_All : (P : ℕ → Type 0) (ps : List ℕ) (q : ℕ) → All P ps → 0 < occurs q ps → P q
in_All P [] q a h = absurd (omega (arith, h))
in_All P (p ∷ ps) q a h = elim (ℕ_discrete p q) [
  | yes e ↦ subst P e a.0
  | no ne ↦
      let miss : ◌≡◌ {A = ℕ} (if p == q then 1 else 0) 0 = ground arith in
      in_All P ps q a.1 (omega (arith, h, miss))
]

-- what the pick gives for a tree with these nodes
picked :
    (ps : List ℕ) (s : Cfs)
    → ((j : ℕ) → (entity s j).on_rq ≡ true → 0 < occurs (j + 1) ps)
    → ((p : ℕ) → 0 < occurs p ps → (0 < p) × ((entity s (p - 1)).on_rq ≡ true))
    → IsSorted (run_time s) ps
    → s.cfs_runqueue.rb_leftmost ≡ first_or_null ps
    → ((cfs_pick_next_task s ≡ none) × ((j : ℕ) → (entity s j).on_rq ≢ true))
      ⊎ ((next : ℕ) × (cfs_pick_next_task s ≡ some next)
          × ((entity s next).on_rq ≡ true)
          × ((j : ℕ)
              → (entity s j).on_rq ≡ true
              → (entity s next).vruntime ≤ (entity s j).vruntime))
unfolding cfs_pick_next_task
picked [] s there back sorted first =
    let null : (s.cfs_runqueue.rb_leftmost == 0) ≡ true = ground arith in
    inl (
      ap (λ b. if b then none else some (s.cfs_runqueue.rb_leftmost - 1)) null,
      λ j h. omega (arith, there j h),
    )
picked (p ∷ ps) s there back sorted first =
    let (pos, on) = back p (omega (arith, counts_itself p)) in
    let some_task : (s.cfs_runqueue.rb_leftmost == 0) ≡ false = ground arith in
    inr (
      p - 1,
      ap (λ b. if b then none else some (s.cfs_runqueue.rb_leftmost - 1)) some_task
          ∙ ap (λ q. some (q - 1)) first,
      on,
      λ j h.
          let same : j + 1 - 1 ≡ j = omega arith in
          subst (λ i. run_time s p ≤ (entity s i).vruntime) same
            (in_All (λ q. run_time s p ≤ run_time s q) (p ∷ ps) (j + 1) (omega arith, sorted.0)
              (there j h)),
    )

-- On a valid run queue `cfs_pick_next_task` gives NULL exactly when no task is queued, and else a queued task
-- such that no queued task has a smaller run time.
pub cfs_pick_next_task_lem :
    {s : Cfs} {sh : Shape}
    → IsQueue s sh
    → ((cfs_pick_next_task s ≡ none) × ((j : ℕ) → (entity s j).on_rq ≢ true))
      ⊎ ((next : ℕ) × (cfs_pick_next_task s ≡ some next)
          × ((entity s next).on_rq ≡ true)
          × ((j : ℕ)
              → (entity s j).on_rq ≡ true
              → (entity s next).vruntime ≤ (entity s j).vruntime))
cfs_pick_next_task_lem {s} {sh} v =
    picked (in_order sh) s (λ j h. omega (arith, (v.queued j).0 h, occurs-in_order (j + 1) sh))
      (λ p h.
        let there : 0 < count p sh = omega (arith, h, occurs-in_order p sh) in
        let pos : 0 < p = (address_inside v p there).0 in
        let back : p - 1 + 1 ≡ p = omega (arith, pos) in
        (pos, (v.queued (p - 1)).1 (omega (arith, there, ap (λ q. count q sh) back))))
      v.sorted v.first
