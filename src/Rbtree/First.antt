-- ===== src/Rbtree/First.antt =====
-- `rb_first` of rbtree.c finds the first node.
use fru1t_os.Prelude.{
  ℕ, zero, suc, ◌<◌, ◌≡◌, refl, sym, ap, ◌∙◌, true, false, some, List, [], ◌∷◌, ◌++◌, ◌==◌,
  if◌then◌else◌, arith,
}
use fru1t_os.Rbtree.{RbTree, leftmost, rb_first}
use fru1t_os.Rbtree.Shape.{Shape, leaf, branch, in_order, IsTree, Represents}

-- the length of the way that goes left all along
abbrev pub left_depth : Shape → ℕ
left_depth leaf = 0
left_depth (branch l p c r) = suc (left_depth l)

-- the first of a list, 0 without one
abbrev pub first_or_null : List ℕ → ℕ
first_or_null [] = 0
first_or_null (p ∷ ps) = p

pub first-append :
    (ps qs rs : List ℕ) (p : ℕ)
    → first_or_null ((ps ++ p ∷ qs) ++ rs) ≡ first_or_null (ps ++ p ∷ qs)
first-append [] qs rs p = refl
first-append (x ∷ ps) qs rs p = refl

pub leftmost_here :
    (fuel p : ℕ) (t : RbTree) → (t.nodes p).left ≡ 0 → leftmost (suc fuel) p t ≡ some p
unfolding leftmost
leftmost_here fuel p t e =
    let null : ((t.nodes p).left == 0) ≡ true = ground arith in
    ap (λ b. if b then some p else leftmost fuel (t.nodes p).left t) null

pub leftmost_below :
    (fuel p q : ℕ) (t : RbTree)
    → (t.nodes p).left ≡ q
    → 0 < q
    → leftmost (suc fuel) p t ≡ leftmost fuel q t
unfolding leftmost
leftmost_below fuel p q t e h =
    let there : ((t.nodes p).left == 0) ≡ false = ground arith in
    ap (λ b. if b then some p else leftmost fuel (t.nodes p).left t) there
    ∙ ap (λ x. leftmost fuel x t) e

pub leftmost_lem :
    (l : Shape) (p : ℕ) (rest : List ℕ) (fuel : ℕ) (t : RbTree)
    → IsTree t p (t.nodes p).left l
    → left_depth l < fuel
    → leftmost fuel p t ≡ some (first_or_null (in_order l ++ p ∷ rest))
leftmost_lem l p rest zero t is h = absurd (omega arith)
leftmost_lem leaf p rest (suc fuel) t is h = leftmost_here fuel p t is
leftmost_lem (branch l a c r) p rest (suc fuel) t (e, pos, par, col, left, right) h =
    leftmost_below fuel p a t e pos
    ∙ leftmost_lem l a (in_order r) fuel t left (omega arith)
    ∙ ap some (sym (first-append (in_order l) (in_order r) (p ∷ rest) a))

-- On a tree `rb_first` returns, with more fuel than the tree is deep on its left side, and gives the
-- first of its nodes from left to right, or NULL without one.
rb_first_lem :
    (fuel : ℕ) (s : Shape) (t : RbTree)
    → Represents t s
    → left_depth s < fuel
    → rb_first fuel t ≡ some (first_or_null (in_order s))
unfolding rb_first
rb_first_lem fuel leaf t is h = let null : (t.rb_node == 0) ≡ true = ground arith in rw null refl
rb_first_lem fuel (branch l a c r) t (e, pos, par, col, left, right) h =
    let there : (t.rb_node == 0) ≡ false = ground arith in
    ap (λ b. if b then some 0 else leftmost fuel t.rb_node t) there
    ∙ ap (λ p. leftmost fuel p t) e
    ∙ leftmost_lem l a (in_order r) fuel t left (omega arith)
