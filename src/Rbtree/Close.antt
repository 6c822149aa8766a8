-- ===== src/Rbtree/Close.antt =====
-- The test of the loop of `rb_erase_color` of rbtree.c, and the node that is painted black behind it.
use mathlib.Core.Path.{subst}
use fru1t_os.Prelude.{
  ℕ, zero, suc, ◌+◌, ◌<◌, ◌≡◌, ◌≢◌, refl, sym, ap, ◌∙◌, Bool, true, false, not, ◌&&◌, ◌==◌, ◌⊎◌,
  Option, some, if◌then◌else◌, arith, inl, inr, Bool-cases,
}
use fru1t_os.Rbtree.{Color, black, RbTree, rb_set_color, rb_is_black}
use fru1t_os.Rbtree.Erase.{Round, climbs, breaks, erase_left, erase_right, erase_loop}
use fru1t_os.Rbtree.Shape.{
  Shape, leaf, branch, count, IsTree, Represents, Context, top, in_left, in_right, plug,
}
use fru1t_os.Rbtree.Place.{count_in, count-plug, count_null}
use fru1t_os.Rbtree.Settle.{blacken}
use fru1t_os.Rbtree.Holds.{Holds, facts, rb_set_color-Holds}

-- the address of the root of a tree
abbrev pub pointer : Shape → ℕ
pointer leaf = 0
pointer (branch l p c r) = p

pub pointer_lem : (s : Shape) (t : RbTree) (q p : ℕ) → IsTree t q p s → p ≡ pointer s
pointer_lem leaf t q p is = is
pointer_lem (branch l a c r) t q p is = is.0

-- the root stands at or above each place
root_around :
    (k : Context) (l : Shape) (p : ℕ) (c : Color) (r : Shape) (t : RbTree)
    → Represents t (plug k (branch l p c r))
    → 0 < (if p == t.rb_node then 1 else 0) + count_in t.rb_node k
root_around top l p c r t is = ground (arith, is.0)
root_around (in_left k q d s) l p c r t is =
    omega (arith, root_around k (branch l p c r) q d s t is)
root_around (in_right k s q d) l p c r t is =
    omega (arith, root_around k s q d (branch l p c r) t is)

-- and so below none
pub record Below (t : RbTree) (l r : Shape) : Type 0 where
  pub place : 0 < t.rb_node
  pub not_left : count t.rb_node l ≡ 0
  pub not_right : count t.rb_node r ≡ 0

pub root_Below :
    (k : Context) (l : Shape) (p : ℕ) (c : Color) (r : Shape) (t : RbTree)
    → Holds t (plug k (branch l p c r))
    → Below t l r
root_Below k l p c r t (is, once) =
    let around = root_around k l p c r t is in
    let all = count-plug k t.rb_node (branch l p c r) in
    let most = once t.rb_node in
    record {
      place = elim (zero_or_more t.rb_node) [
        | inl e ↦ absurd (
            omega (
              arith,
              around,
              all,
              ap (λ z. count z (plug k (branch l p c r))) e,
              count_null (plug k (branch l p c r)) t 0 t.rb_node is,
            ))
        | inr more ↦ more
      ];
      not_left = omega (arith, around, all, most);
      not_right = omega (arith, around, all, most);
    }
  where
    zero_or_more : (n : ℕ) → (n ≡ 0) ⊎ (0 < n)
    zero_or_more zero = inl refl
    zero_or_more (suc n) = inr (omega arith)

-- `if (node) rb_set_color(node, RB_BLACK)` behind the loop
abbrev pub closed_by : ℕ → RbTree → RbTree
closed_by node t = if node == 0 then t else rb_set_color node black t

closed_there : (n : ℕ) (t : RbTree) → 0 < n → closed_by n t ≡ rb_set_color n black t
closed_there n t pos =
    let there : (n == 0) ≡ false = ground arith in
    ap (λ b. if b then t else rb_set_color n black t) there

pub closed_at :
    (k : Context) (x : Shape) (t : RbTree)
    → Holds t (plug k x)
    → Holds (closed_by (pointer x) t) (plug k (blacken x))
closed_at k leaf t h = h
closed_at k (branch a n c b) t h =
    subst (λ u. Holds u (plug k (branch a n black b)))
      (sym (closed_there n t (facts k a n c b t h.0).place))
      (rb_set_color-Holds k a n c black b t h)

pub closed_root : (s : Shape) (t : RbTree) → Holds t s → Holds (closed_by t.rb_node t) (blacken s)
closed_root s t h =
    subst (λ z. Holds (closed_by z t) (blacken s)) (sym (pointer_lem s t 0 t.rb_node h.0))
      (closed_at top s t h)

-- one round of the loop
abbrev pub on_with : (fuel : ℕ) → Round → Option (ℕ × RbTree)
on_with fuel r = elim r [
  | climbs node parent t ↦ erase_loop fuel node parent t
  | breaks t ↦ some (t.rb_node, t)
]

module _ (fuel n q : ℕ) (t : RbTree) where
  loop_test :
      (b : Bool)
      → (rb_is_black n t && not (n == t.rb_node)) ≡ b
      → erase_loop (suc fuel) n q t ≡ (
          if b
          then on_with fuel (if (t.nodes q).left == n then erase_right q t else erase_left q t)
          else some (n, t))
  unfolding erase_loop
  loop_test b e =
      ap
        (λ b.
          if b
          then on_with fuel (if (t.nodes q).left == n then erase_right q t else erase_left q t)
          else some (n, t))
        e

  loop_round :
      (b : Bool)
      → ((t.nodes q).left == n) ≡ b
      → on_with fuel (if (t.nodes q).left == n then erase_right q t else erase_left q t)
        ≡ on_with fuel (if b then erase_right q t else erase_left q t)
  loop_round b e = ap (λ b. on_with fuel (if b then erase_right q t else erase_left q t)) e

  pub ends_red : rb_is_black n t ≡ false → erase_loop (suc fuel) n q t ≡ some (n, t)
  ends_red e = loop_test false (ap (λ b. b && not (n == t.rb_node)) e)

  pub ends_root : n ≡ t.rb_node → erase_loop (suc fuel) n q t ≡ some (n, t)
  ends_root e =
      loop_test false (elim (Bool-cases (rb_is_black n t)) [ inl b ↦ rw b hit | inr b ↦ rw b refl ])
    where
      hit : not (n == t.rb_node) ≡ false
      hit = ground arith

  module _ (b : rb_is_black n t ≡ true) (ne : n ≢ t.rb_node) where
    passes : (rb_is_black n t && not (n == t.rb_node)) ≡ true
    passes =
        let miss : (n == t.rb_node) ≡ false = ground arith in
        ap (λ b. b && not (n == t.rb_node)) b ∙ ap not miss

    pub round_left :
        (t.nodes q).left ≡ n → erase_loop (suc fuel) n q t ≡ on_with fuel (erase_right q t)
    round_left e =
        let hit : ((t.nodes q).left == n) ≡ true = ground arith in
        loop_test true passes ∙ loop_round true hit

    pub round_right :
        (t.nodes q).left ≢ n → erase_loop (suc fuel) n q t ≡ on_with fuel (erase_left q t)
    round_right e =
        let miss : ((t.nodes q).left == n) ≡ false = ground arith in
        loop_test true passes ∙ loop_round false miss
