-- ===== src/Cfs/Similar.antt =====
-- The steps of cfs.c that leave the run queue as it is.
use native.Mathlib.Decide.{ℕ_discrete}
use fru1t_os.Prelude.{
  ℕ, ◌+◌, ◌-◌, ◌≤◌, ◌<◌, ◌≡◌, refl, sym, ap, ◌∙◌, true, false, ◌==◌, List, [], ◌∷◌, arith, length,
  inl, inr, Bool-cases, get_or-set_self, get_or-set_ne, length-set,
}
use fru1t_os.Rbtree.Shape.{Shape, in_order, count}
use fru1t_os.Rbtree.Place.{counts_itself}
use fru1t_os.Rbtree.Order.{All, IsSorted}
use fru1t_os.Rbtree.Size.{occurs, occurs-in_order}
use fru1t_os.Cfs.{
  SchedEntity, CfsProcess, Cfs, task, entity, set_task, set_entity, get_time_ns,
  update_min_vruntime,
}
use fru1t_os.Cfs.Queue.{cfs_update_curr}
use fru1t_os.Cfs.Link.{run_time, tree_in}
use fru1t_os.Cfs.Run.{IsQueue, no_task, address_inside}

-- the same tree, with the same run times of the queued tasks
pub record Similar (s s' : Cfs) : Type 0 where
  pub tree : tree_in s' ≡ tree_in s
  pub first : s'.cfs_runqueue.rb_leftmost ≡ s.cfs_runqueue.rb_leftmost
  pub slots : length s'.cfs_processes ≡ length s.cfs_processes
  pub on : (j : ℕ) → (entity s' j).on_rq ≡ (entity s j).on_rq
  pub time : (j : ℕ) → (entity s j).on_rq ≡ true → (entity s' j).vruntime ≡ (entity s j).vruntime

pub then-Similar : {s s' s'' : Cfs} → Similar s s' → Similar s' s'' → Similar s s''
then-Similar a b = record {
  tree = b.tree ∙ a.tree;
  first = b.first ∙ a.first;
  slots = b.slots ∙ a.slots;
  on = λ j. b.on j ∙ a.on j;
  time = λ j h. b.time j (a.on j ∙ h) ∙ a.time j h;
}

All-of : (P : ℕ → Type 0) (ps : List ℕ) → ((p : ℕ) → 0 < occurs p ps → P p) → All P ps
All-of P [] f = tt
All-of P (p ∷ ps) f =
    (f p (omega (arith, counts_itself p)), All-of P ps (λ q h. f q (omega (arith, h))))

same-IsSorted :
    (key key' : ℕ → ℕ) (ps : List ℕ)
    → ((p : ℕ) → 0 < occurs p ps → key' p ≡ key p)
    → IsSorted key ps
    → IsSorted key' ps
same-IsSorted key key' [] f s = tt
same-IsSorted key key' (p ∷ ps) f s = (
  low ps s.0 (λ q h. f q (omega (arith, h))),
  same-IsSorted key key' ps (λ q h. f q (omega (arith, h))) s.1,
)
  where
    low :
        (qs : List ℕ)
        → All (λ q. key p ≤ key q) qs
        → ((q : ℕ) → 0 < occurs q qs → key' q ≡ key q)
        → All (λ q. key' p ≤ key' q) qs
    low [] a g = tt
    low (q ∷ qs) a g = (
      omega
          (arith, a.0, f p (omega (arith, counts_itself p)), g q (omega (arith, counts_itself q))),
      low qs a.1 (λ r h. g r (omega (arith, h))),
    )

pub Similar-IsQueue : {s s' : Cfs} {sh : Shape} → IsQueue s sh → Similar s s' → IsQueue s' sh
Similar-IsQueue {s} {s'} {sh} v e = record {
  tree = rw e.tree v.tree;
  once = v.once;
  colors = v.colors;
  sorted =
      same-IsSorted (run_time s) (run_time s') (in_order sh)
        (λ p h.
          let there : 0 < count p sh = omega (arith, h, occurs-in_order p sh) in
          let place : 0 < p = (address_inside v p there).0 in
          let back : p - 1 + 1 ≡ p = omega (arith, place) in
          e.time (p - 1) ((v.queued (p - 1)).1 (omega (arith, there, ap (λ q. count q sh) back))))
        v.sorted;
  first = e.first ∙ v.first;
  queued = λ j. (λ h. (v.queued j).0 (sym (e.on j) ∙ h), λ h. e.on j ∙ (v.queued j).1 h);
  slots = e.slots ∙ v.slots;
}

-- a write of a slot
pub set_task-Similar :
    (i : ℕ) (p : CfsProcess) (s : Cfs)
    → i < length s.cfs_processes
    → p.se.on_rq ≡ (entity s i).on_rq
    → ((entity s i).on_rq ≡ true → p.se.vruntime ≡ (entity s i).vruntime)
    → Similar s (set_task i p s)
set_task-Similar i p s lt on time = record {
  tree = refl;
  first = refl;
  slots = length-set s.cfs_processes i p;
  on = λ j. elim (ℕ_discrete i j) [
    | yes e ↦
        rw (← e) (
          ap (λ (q : CfsProcess). q.se.on_rq) (get_or-set_self s.cfs_processes i p no_task lt) ∙ on)
    | no ne ↦ ap (λ (q : CfsProcess). q.se.on_rq) (get_or-set_ne s.cfs_processes i j p no_task ne)
  ];
  time = λ j h. elim (ℕ_discrete i j) [
    | yes e ↦ rw (← e) (
        ap (λ (q : CfsProcess). q.se.vruntime) (get_or-set_self s.cfs_processes i p no_task lt)
        ∙ time (rw e h))
    | no ne ↦
        ap (λ (q : CfsProcess). q.se.vruntime) (get_or-set_ne s.cfs_processes i j p no_task ne)
  ];
}

pub update_min_vruntime-Similar : (s : Cfs) → Similar s (update_min_vruntime s)
unfolding update_min_vruntime
update_min_vruntime-Similar s = record {
  tree = refl;
  first = refl;
  slots = refl;
  on = λ j. refl;
  time = λ j h. refl;
}

-- the clock has gone on, and a task that is not queued is written
pub clocked-Similar :
    (i : ℕ) (x : SchedEntity) (n : ℕ) (s : Cfs)
    → i < length s.cfs_processes
    → (entity s i).on_rq ≡ false
    → x.on_rq ≡ false
    → Similar s (set_entity i x (record s { counter = n }))
clocked-Similar i x n s lt off on =
    let written : Similar s (set_entity i x s) =
      set_task-Similar i (record (task s i) { se = x }) s lt (on ∙ sym off) (λ h. cc) in
    record {
      tree = refl;
      first = refl;
      slots = written.slots;
      on = written.on;
      time = written.time;
    }

-- the account of a task that is not queued
pub cfs_update_curr-Similar :
    (i : ℕ) (s : Cfs)
    → i < length s.cfs_processes
    → (entity s i).on_rq ≡ false
    → Similar s (cfs_update_curr i s)
unfolding cfs_update_curr get_time_ns
cfs_update_curr-Similar i s lt off = elim (Bool-cases ((entity s i).exec_start == 0)) [
  | inl e ↦ rw e (clocked-Similar i _ _ s lt off off)
  | inr e ↦ rw e (then-Similar (clocked-Similar i _ _ s lt off off) (update_min_vruntime-Similar _))
]
