-- ===== src/Cfs/Link.antt =====
-- The place that `cfs_enqueue_task` of cfs.c finds for a task: behind the tasks with at most its run time,
-- before those with a greater one.
use fru1t_os.Prelude.{
  ℕ, zero, suc, ◌+◌, ◌-◌, ◌≤◌, ◌<◌, ◌≡◌, refl, ap, ◌∙◌, Bool, true, false, ◌==◌, ltb, [], ◌∷◌, ◌++◌,
  Option, some, if◌then◌else◌, arith, inl, inr, Bool-cases,
}
use fru1t_os.Rbtree.{RbTree}
use fru1t_os.Rbtree.Shape.{
  Shape, leaf, branch, in_order, IsTree, Context, in_left, in_right, plug, above,
}
use fru1t_os.Rbtree.Hang.{IsSide}
use fru1t_os.Rbtree.Loop.{depth}
use fru1t_os.Rbtree.Order.{
  before, after, All, All-append, All-imp, IsSorted, tail-IsSorted, front-IsSorted, below-IsSorted,
  IsFlag, last-IsFlag, size,
}
use fru1t_os.Cfs.{Cfs, entity}
use fru1t_os.Cfs.Queue.{find_link}

-- the run time of the task whose node is `p`
abbrev pub run_time : Cfs → ℕ → ℕ
run_time s p = (entity s (p - 1)).vruntime

abbrev pub tree_in : Cfs → RbTree
tree_in s = s.cfs_runqueue.tasks_timeline

module _ (fuel p v parent : ℕ) (l m : Bool) (s : Cfs) where
  abbrev choice : Option (ℕ × Bool × Bool)
  choice =
      if ltb v (run_time s p)
      then find_link fuel ((tree_in s).nodes p).left v p true m s
      else find_link fuel ((tree_in s).nodes p).right v p false false s

  link_end : p ≡ 0 → find_link (suc fuel) p v parent l m s ≡ some (parent, l, m)
  unfolding find_link
  link_end e =
      let null : (p == 0) ≡ true = ground arith in
      ap (λ b. if b then some (parent, l, m) else choice) null

  link_left :
      0 < p
      → v < run_time s p
      → find_link (suc fuel) p v parent l m s
        ≡ find_link fuel ((tree_in s).nodes p).left v p true m s
  unfolding find_link
  link_left pos h =
      let there : (p == 0) ≡ false = ground arith in
      let less : ltb v (run_time s p) ≡ true = ground arith in
      ap (λ b. if b then some (parent, l, m) else choice) there
      ∙ ap
          (λ b.
            if b
            then find_link fuel ((tree_in s).nodes p).left v p true m s
            else find_link fuel ((tree_in s).nodes p).right v p false false s)
          less

  link_right :
      0 < p
      → run_time s p ≤ v
      → find_link (suc fuel) p v parent l m s
        ≡ find_link fuel ((tree_in s).nodes p).right v p false false s
  unfolding find_link
  link_right pos h =
      let there : (p == 0) ≡ false = ground arith in
      let more : ltb v (run_time s p) ≡ false = ground arith in
      ap (λ b. if b then some (parent, l, m) else choice) there
      ∙ ap
          (λ b.
            if b
            then find_link fuel ((tree_in s).nodes p).left v p true m s
            else find_link fuel ((tree_in s).nodes p).right v p false false s)
          more

-- the place that the search from the place `k` on finds, where `sub` stands
pub record Found (fuel p v : ℕ) (l m : Bool) (k : Context) (sub : Shape) (s : Cfs) : Type 0 where
  pub place : Context
  pub side : Bool
  pub flag : Bool
  pub found : find_link fuel p v (above k) l m s ≡ some (above place, side, flag)
  pub same : plug place leaf ≡ plug k sub
  pub on_side : IsSide place side
  pub on_flag : IsFlag flag (before place)
  pub deep : depth place ≤ depth k + size sub
  pub low : All (λ q. run_time s q ≤ v) (before place)
  pub high : All (λ q. v < run_time s q) (after place)

pub find_link-Found :
    (sub : Shape) (k : Context) (fuel p v : ℕ) (l m : Bool) (s : Cfs)
    → IsTree (tree_in s) (above k) p sub
    → size sub < fuel
    → IsSide k l
    → IsFlag m (before k)
    → IsSorted (run_time s) (in_order sub)
    → All (λ q. run_time s q ≤ v) (before k)
    → All (λ q. v < run_time s q) (after k)
    → Found fuel p v l m k sub s
find_link-Found sub k zero p v l m s is h side flag sorted low high = absurd (omega arith)
find_link-Found leaf k (suc fuel) p v l m s is h side flag sorted low high = record {
  place = k;
  side = l;
  flag = m;
  found = link_end fuel p v (above k) l m s is;
  same = refl;
  on_side = side;
  on_flag = flag;
  deep = omega arith;
  low = low;
  high = high;
}
find_link-Found (branch a x c b) k (suc fuel) p v l m s (e, pos, par, col, left, right) h side flag
      sorted low high =
    elim (Bool-cases (ltb v (run_time s x))) [
      | inl less ↦
          let less' : v < run_time s x = ground arith in
          let behind = tail-IsSorted (run_time s) (in_order a) (x ∷ in_order b) sorted in
          let f =
            find_link-Found a (in_left k x c b) fuel ((tree_in s).nodes x).left v true m s left
              (omega arith) refl flag
              (front-IsSorted (run_time s) (in_order a) (x ∷ in_order b) sorted) low
              (
                less',
                All-append (λ q. v < run_time s q) (in_order b) (after k)
                    (All-imp (λ q. run_time s x ≤ run_time s q) (λ q. v < run_time s q) (in_order b)
                      (λ q le. omega (arith, le, less')) behind.0)
                    high,
              ) in
          record {
            place = f.place;
            side = f.side;
            flag = f.flag;
            found =
                ap (λ y. find_link (suc fuel) y v (above k) l m s) e
                ∙ link_left fuel x v (above k) l m s pos less'
                ∙ f.found;
            same = f.same;
            on_side = f.on_side;
            on_flag = f.on_flag;
            deep = omega (arith, f.deep);
            low = f.low;
            high = f.high;
          }
      | inr more ↦
          let more' : run_time s x ≤ v = ground arith in
          let behind = tail-IsSorted (run_time s) (in_order a) (x ∷ in_order b) sorted in
          let f =
            find_link-Found b (in_right k a x c) fuel ((tree_in s).nodes x).right v false false s
              right (omega arith) refl (last-IsFlag (before k) (in_order a) x) behind.1
              (All-append (λ q. run_time s q ≤ v) (before k) (in_order a ++ x ∷ []) low
                (All-append (λ q. run_time s q ≤ v) (in_order a) (x ∷ [])
                  (All-imp (λ q. run_time s q ≤ run_time s x) (λ q. run_time s q ≤ v) (in_order a)
                    (λ q le. omega (arith, le, more'))
                    (below-IsSorted (run_time s) (in_order a) (in_order b) x sorted))
                  (more', tt)))
              high in
          record {
            place = f.place;
            side = f.side;
            flag = f.flag;
            found =
                ap (λ y. find_link (suc fuel) y v (above k) l m s) e
                ∙ link_right fuel x v (above k) l m s pos more'
                ∙ f.found;
            same = f.same;
            on_side = f.on_side;
            on_flag = f.on_flag;
            deep = omega (arith, f.deep);
            low = f.low;
            high = f.high;
          }
    ]
