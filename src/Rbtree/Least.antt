-- ===== src/Rbtree/Least.antt =====
-- The successor of a node with two children: the first node below its right child, and the way to it.
use native.Mathlib.Decide.{ℕ_discrete}
use fru1t_os.Prelude.{
  ℕ, zero, suc, ◌+◌, ◌≤◌, ◌<◌, ◌≡◌, refl, sym, ap, ◌∙◌, true, false, ◌==◌, some, if◌then◌else◌,
  arith,
}
use fru1t_os.Rbtree.{Color, RbTree, leftmost}
use fru1t_os.Rbtree.Shape.{
  Shape, leaf, branch, count, IsTree, Context, top, in_left, in_right, plug, above,
}
use fru1t_os.Rbtree.Place.{count_in}
use fru1t_os.Rbtree.First.{leftmost_here, leftmost_below}
use fru1t_os.Rbtree.Order.{before, size}
use fru1t_os.Rbtree.Loop.{depth}

-- a place below another one
abbrev pub compose : Context → Context → Context
compose k top = k
compose k (in_left j p c r) = in_left (compose k j) p c r
compose k (in_right j l p c) = in_right (compose k j) l p c

pub plug-compose : (k j : Context) (s : Shape) → plug (compose k j) s ≡ plug k (plug j s)
plug-compose k top s = refl
plug-compose k (in_left j p c r) s = plug-compose k j (branch s p c r)
plug-compose k (in_right j l p c) s = plug-compose k j (branch l p c s)

pub depth-compose : (k j : Context) → depth (compose k j) ≡ depth k + depth j
depth-compose k top = omega arith
depth-compose k (in_left j p c r) = omega (arith, depth-compose k j)
depth-compose k (in_right j l p c) = omega (arith, depth-compose k j)

pub size-plug : (k : Context) (s : Shape) → depth k + size s ≤ size (plug k s)
size-plug top s = omega arith
size-plug (in_left k p c r) s = omega (arith, size-plug k (branch s p c r))
size-plug (in_right k l p c) s = omega (arith, size-plug k (branch l p c s))

-- the first node `m` of the tree with the root `p` at the place `k`
pub record Least (fuel : ℕ) (k : Context) (l : Shape) (p : ℕ) (c : Color) (r : Shape) (t : RbTree)
    : Type 0 where
  pub place : Context
  pub m : ℕ
  pub d : Color
  pub y : Shape
  pub same : plug place (branch leaf m d y) ≡ plug k (branch l p c r)
  pub found : leftmost fuel p t ≡ some m
  pub first : before place ≡ before k

pub least :
    (l : Shape) (k : Context) (fuel p : ℕ) (c : Color) (r : Shape) (t : RbTree)
    → IsTree t p (t.nodes p).left l
    → size l < fuel
    → Least fuel k l p c r t
least l k zero p c r t is h = absurd (omega arith)
least leaf k (suc fuel) p c r t is h = record {
  place = k;
  m = p;
  d = c;
  y = r;
  same = refl;
  found = leftmost_here fuel p t is;
  first = refl;
}
least (branch a x d b) k (suc fuel) p c r t (e, pos, par, col, left, right) h =
    let below = least a (in_left k p c r) fuel x d b t left (omega arith) in
    record {
      place = below.place;
      m = below.m;
      d = below.d;
      y = below.y;
      same = below.same;
      found = leftmost_below fuel p x t e pos ∙ below.found;
      first = below.first;
    }

-- the node above the place when `m` has the place of `n`
pub above-compose :
    (k j : Context) (a : Shape) (c : Color) (n m : ℕ)
    → count_in n j ≡ 0
    → (if above (compose (in_right k a n c) j) == n
        then m
        else above (compose (in_right k a n c) j))
      ≡ above (compose (in_right k a m c) j)
above-compose k top a c n m none =
    let hit : (n == n) ≡ true = ground arith in ap (λ b. if b then m else n) hit
above-compose k (in_left j q d s) a c n m none =
    let miss : (q == n) ≡ false = ground (arith, none) in ap (λ b. if b then m else q) miss
above-compose k (in_right j s q d) a c n m none =
    let miss : (q == n) ≡ false = ground (arith, none) in ap (λ b. if b then m else q) miss

-- where a node of a tree stands
pub record Place (n : ℕ) (s : Shape) : Type 0 where
  pub place : Context
  pub l : Shape
  pub c : Color
  pub r : Shape
  pub same : plug place (branch l n c r) ≡ s

pub locate : (s : Shape) (n : ℕ) (k : Context) → 0 < count n s → Place n (plug k s)
locate leaf n k h = absurd (omega arith)
locate (branch l p c r) n k h = elim (ℕ_discrete p n) [
  | yes e ↦ record {
    place = k;
    l = l;
    c = c;
    r = r;
    same = ap (λ q. plug k (branch l q c r)) (sym e);
  }
  | no ne ↦ elim (ℕ_discrete (count n l) 0) [
    | no some_left ↦ locate l n (in_left k p c r) (omega arith)
    | yes none ↦
        let miss : ◌≡◌ {A = ℕ} (if p == n then 1 else 0) 0 = ground arith in
        locate r n (in_right k l p c) (omega (arith, h, miss, none))
  ]
]
