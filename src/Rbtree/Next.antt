-- ===== src/Rbtree/Next.antt =====
-- `rb_next` of rbtree.c finds the next node in the order of the tree.
use mathlib.Core.Path.{subst}
use fru1t_os.Prelude.{
  ℕ, zero, suc, ◌≤◌, ◌<◌, ◌≡◌, ◌≢◌, refl, sym, ap, ◌∙◌, Bool, true, false, not, ◌&&◌, ◌==◌, List,
  [], ◌∷◌, ◌++◌, some, if◌then◌else◌, arith, append_assoc,
}
use fru1t_os.Rbtree.{Color, RbTree, leftmost, climb, rb_next}
use fru1t_os.Rbtree.Shape.{
  Shape, leaf, branch, in_order, count, IsDistinct, Represents, Context, top, in_left, in_right,
  plug,
}
use fru1t_os.Rbtree.Place.{count-plug, counts_itself}
use fru1t_os.Rbtree.First.{left_depth, first_or_null, first-append, leftmost_lem}
use fru1t_os.Rbtree.Order.{before, after, in_order-around, size}
use fru1t_os.Rbtree.Size.{occurs, occurs-append, occurs-in_order}
use fru1t_os.Rbtree.Loop.{depth}
use fru1t_os.Rbtree.Holds.{Holds, facts, misses}
use fru1t_os.Rbtree.Least.{size-plug, locate}

module _ (fuel p q : ℕ) (t : RbTree) (up : (t.nodes p).parent ≡ q) where
  abbrev step : (q : ℕ) → Bool
  step q = not (q == 0) && (p == (t.nodes q).right)

  climb-step :
      (b : Bool) → step q ≡ b → climb (suc fuel) p t ≡ (if b then climb fuel q t else some q)
  unfolding climb
  climb-step b e =
      ap (λ q. if step q then climb fuel q t else some q) up
      ∙ ap (λ b. if b then climb fuel q t else some q) e

  climb_root : q ≡ 0 → climb (suc fuel) p t ≡ some q
  climb_root e =
      let null : (q == 0) ≡ true = ground arith in
      climb-step false (ap (λ b. not b && (p == (t.nodes q).right)) null)

  climb_left : 0 < q → (t.nodes q).right ≢ p → climb (suc fuel) p t ≡ some q
  climb_left pos ne =
      let there : (q == 0) ≡ false = ground arith in
      let miss : (p == (t.nodes q).right) ≡ false = ground arith in
      climb-step false (ap (λ b. not b && (p == (t.nodes q).right)) there ∙ miss)

  climb_right : 0 < q → (t.nodes q).right ≡ p → climb (suc fuel) p t ≡ climb fuel q t
  climb_right pos e =
      let there : (q == 0) ≡ false = ground arith in
      let hit : (p == (t.nodes q).right) ≡ true = ground arith in
      climb-step true (ap (λ b. not b && (p == (t.nodes q).right)) there ∙ hit)

climb_lem :
    (k : Context) (l : Shape) (p : ℕ) (c : Color) (r : Shape) (fuel : ℕ) (t : RbTree)
    → Holds t (plug k (branch l p c r))
    → depth k < fuel
    → climb fuel p t ≡ some (first_or_null (after k))
climb_lem k l p c r zero t h d = absurd (omega arith)
climb_lem top l p c r (suc fuel) t h d = climb_root fuel p 0 t (facts top l p c r t h.0).parent refl
climb_lem (in_left k q e s) l p c r (suc fuel) t h d =
    let f = facts (in_left k q e s) l p c r t h.0 in
    let g = facts k (branch l p c r) q e s t h.0 in
    climb_left fuel p q t f.parent g.place (
      misses s t q (t.nodes q).right p g.right f.place
        (omega (arith, h.1 p, counts_itself p, count-plug k p (branch (branch l p c r) q e s))))
climb_lem (in_right k s q e) l p c r (suc fuel) t h d =
    let f = facts (in_right k s q e) l p c r t h.0 in
    let g = facts k s q e (branch l p c r) t h.0 in
    climb_right fuel p q t f.parent g.place g.right.0
    ∙ climb_lem k s q e (branch l p c r) fuel t h (omega (arith, d))

left_depth_le : (s : Shape) → left_depth s ≤ size s
left_depth_le leaf = omega arith
left_depth_le (branch l p c r) = omega (arith, left_depth_le l)

module _ (fuel p : ℕ) (t : RbTree) (pos : 0 < p) where
  next_up : (t.nodes p).right ≡ 0 → rb_next fuel p t ≡ climb fuel p t
  unfolding rb_next
  next_up e =
      let there : (p == 0) ≡ false = ground arith in
      let null : ((t.nodes p).right == 0) ≡ true = ground arith in
      ap
        (λ b.
          if b
          then some 0
          else if (t.nodes p).right == 0
          then climb fuel p t
          else leftmost fuel (t.nodes p).right t)
        there
      ∙ ap (λ b. if b then climb fuel p t else leftmost fuel (t.nodes p).right t) null

  next_down : (q : ℕ) → (t.nodes p).right ≡ q → 0 < q → rb_next fuel p t ≡ leftmost fuel q t
  unfolding rb_next
  next_down q e some_right =
      let there : (p == 0) ≡ false = ground arith in
      let more : ((t.nodes p).right == 0) ≡ false = ground arith in
      ap
        (λ b.
          if b
          then some 0
          else if (t.nodes p).right == 0
          then climb fuel p t
          else leftmost fuel (t.nodes p).right t)
        there
      ∙ ap (λ b. if b then climb fuel p t else leftmost fuel (t.nodes p).right t) more
      ∙ ap (λ x. leftmost fuel x t) e

next_at :
    (fuel : ℕ) (k : Context) (l : Shape) (p : ℕ) (c : Color) (r : Shape) (t : RbTree)
    → Holds t (plug k (branch l p c r))
    → size (plug k (branch l p c r)) < fuel
    → rb_next fuel p t ≡ some (first_or_null (in_order r ++ after k))
next_at fuel k l p c leaf t h room =
    let f = facts k l p c leaf t h.0 in
    next_up fuel p t f.place f.right
    ∙ climb_lem k l p c leaf fuel t h (omega (arith, room, size-plug k (branch l p c leaf)))
next_at fuel k l p c (branch a q e b) t h room =
    let f = facts k l p c (branch a q e b) t h.0 in
    let (at, pos, par, col, left, right) = f.right in
    next_down fuel p t f.place q at pos
    ∙ leftmost_lem a q (in_order b) fuel t left
        (omega (arith, left_depth_le a, room, size-plug k (branch l p c (branch a q e b))))
    ∙ ap some (sym (first-append (in_order a) (in_order b) (after k) q))

-- a node that occurs once splits a list in one way
abbrev tail_of : List ℕ → List ℕ
tail_of [] = []
tail_of (p ∷ ps) = ps

pub split_once :
    (n : ℕ) (ps qs ps' qs' : List ℕ)
    → ps ++ n ∷ qs ≡ ps' ++ n ∷ qs'
    → occurs n (ps ++ n ∷ qs) ≤ 1
    → qs ≡ qs'
split_once n [] qs [] qs' e once = ap tail_of e
split_once n [] qs (p ∷ ps') qs' e once =
    let there = occurs-append n ps' (n ∷ qs') in
    absurd (omega (arith, once, counts_itself n, there, ap (λ x. occurs n (tail_of x)) e))
split_once n (p ∷ ps) qs [] qs' e once =
    let there = occurs-append n ps (n ∷ qs) in
    let same : p ≡ n = ap first_or_null e in
    let hit : ◌≡◌ {A = ℕ} (if p == n then 1 else 0) 1 = ground arith in
    absurd (omega (arith, once, counts_itself n, there, hit))
split_once n (p ∷ ps) qs (p' ∷ ps') qs' e once =
    split_once n ps qs ps' qs' (ap tail_of e) (omega (arith, once))

-- On a tree of different nodes whose pointers fit, `rb_next` of a node, with more fuel than there are nodes,
-- returns the node behind it from left to right, or NULL for the last one.
pub rb_next_lem :
    (fuel n : ℕ) (sh : Shape) (ps qs : List ℕ) (t : RbTree)
    → Represents t sh
    → IsDistinct sh
    → in_order sh ≡ ps ++ n ∷ qs
    → size sh < fuel
    → rb_next fuel n t ≡ some (first_or_null qs)
rb_next_lem fuel n sh ps qs t is once order room =
    let there : 0 < count n sh = omega (
      arith,
      occurs-in_order n sh,
      ap (occurs n) order,
      occurs-append n ps (n ∷ qs),
      counts_itself n,
    ) in
    let p = locate sh n top there in
    let located : (before p.place ++ in_order p.l) ++ n ∷ (in_order p.r ++ after p.place)
        ≡ ps ++ n ∷ qs =
      append_assoc (before p.place) (in_order p.l) (n ∷ (in_order p.r ++ after p.place))
      ∙ ap (λ x. before p.place ++ x)
          (sym (append_assoc (in_order p.l) (n ∷ in_order p.r) (after p.place)))
      ∙ sym (in_order-around p.place (branch p.l n p.c p.r))
      ∙ ap in_order p.same
      ∙ order in
    next_at fuel p.place p.l n p.c p.r t
      (subst (Represents t) (sym p.same) is, subst IsDistinct (sym p.same) once)
      (omega (arith, room, ap size p.same))
    ∙ ap (λ x. some (first_or_null x))
        (split_once n (before p.place ++ in_order p.l) (in_order p.r ++ after p.place) ps qs located
          (omega (arith, once n, occurs-in_order n sh, ap (occurs n) (located ∙ sym order))))
