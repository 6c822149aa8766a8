-- ===== src/Rbtree/Successor.antt =====
-- The removal of a node with two children by `rb_erase` of rbtree.c: its successor takes its place.
use mathlib.Core.Path.{subst}
use fru1t_os.Prelude.{ℕ, zero, suc, ◌+◌, ◌≤◌, ◌<◌, ◌≡◌, sym, ap, ◌∙◌, ◌==◌, if◌then◌else◌, arith}
use fru1t_os.Rbtree.{Color, red, black, RbNode, RbTree, rb_parent}
use fru1t_os.Rbtree.Erase.{unlink, take_over, color_fixup, erase_inner}
use fru1t_os.Rbtree.Shape.{
  Shape, leaf, branch, in_order, count, IsDistinct, Represents, Context, in_right, plug, above,
}
use fru1t_os.Rbtree.Place.{count_in, count-plug, counts_itself}
use fru1t_os.Rbtree.Balance.{IsEven, IsRedBlack, plug-IsCalm, plug-IsEven}
use fru1t_os.Rbtree.Added.{unplug-CalmIn, unplug-EvenIn, tone-plug}
use fru1t_os.Rbtree.Loop.{depth}
use fru1t_os.Rbtree.Holds.{Holds, facts, rb_color_at}
use fru1t_os.Rbtree.Close.{pointer, pointer_lem}
use fru1t_os.Rbtree.Unlink.{Unlinked, unlink-Unlinked}
use fru1t_os.Rbtree.TakeOver.{take_over-Represents}
use fru1t_os.Rbtree.Least.{compose, plug-compose, above-compose}
use fru1t_os.Rbtree.Removed.{Leaves, Lacks-right, color_fixup-Leaves, around_at}

-- the colours do not depend on the addresses
same-IsEven :
    (a : Shape) (n m : ℕ) (c : Color) (b : Shape) (h : ℕ)
    → IsEven h (branch a n c b)
    → IsEven h (branch a m c b)
same-IsEven a n m red b h e = e
same-IsEven a n m black b zero e = absurd e
same-IsEven a n m black b (suc h) e = e

renamed-IsRedBlack :
    (k : Context) (a : Shape) (n m : ℕ) (c : Color) (b : Shape)
    → IsRedBlack (plug k (branch a n c b))
    → IsRedBlack (plug k (branch a m c b))
renamed-IsRedBlack k a n m c b v =
    let (around, calm, up) = unplug-CalmIn k (branch a n c b) v.calm in
    let (h, ways, even) = unplug-EvenIn k (branch a n c b) v.even.0 v.even.1 in
    record {
      root = tone-plug k (branch a m c b) ∙ sym (tone-plug k (branch a n c b)) ∙ v.root;
      calm = plug-IsCalm k (branch a m c b) around calm up;
      even = plug-IsEven k (branch a m c b) h ways (same-IsEven a n m c b h even);
    }

-- the successor `m` of `n` stands at the place `j` below the right child of `n`
module _ (fuel : ℕ) (k : Context) (a1 : Shape) (p1 : ℕ) (c1 : Color) (a2 : Shape) (n : ℕ)
    (c : Color) (j : Context) (m : ℕ) (d : Color) (y : Shape) (t : RbTree)
    (is : Represents t (plug (compose (in_right k (branch a1 p1 c1 a2) n c) j) (branch leaf m d y)))
    (once : IsDistinct
      (plug (compose (in_right k (branch a1 p1 c1 a2) n c) j) (branch leaf m d y))) where
  abbrev a : Shape
  a = branch a1 p1 c1 a2

  abbrev old_place : Context
  old_place = compose (in_right k a n c) j

  abbrev new_place : Context
  new_place = compose (in_right k a m c) j

  abbrev unlinked : RbTree
  unlinked = unlink m (t.nodes m).right t

  abbrev taken : RbTree
  taken = take_over n m unlinked

  -- how often a node stands in each part
  counts :
      (z : ℕ)
      → (if m == z then 1 else 0)
          + (if n == z then 1 else 0)
          + count_in z k
          + count z a
          + count z (plug j y)
        ≤ 1
  counts z = omega (
    arith,
    once z,
    count-plug old_place z (branch leaf m d y),
    count-plug old_place z y,
    ap (count z) (plug-compose (in_right k a n c) j y),
    count-plug k z (branch a n c (plug j y)),
  )

  out : Unlinked old_place m y t unlinked
  out =
      let f = facts old_place leaf m d y t is in
      unlink-Unlinked old_place m (t.nodes m).right y t f.place f.parent
        (around_at old_place leaf m d y t is) f.right
        (λ z. omega (arith, once z, count-plug old_place z (branch leaf m d y)))

  taken-Holds : Holds taken (plug new_place y)
  taken-Holds =
      let place_m = (facts old_place leaf m d y t is).place in
      let is' = subst (Represents unlinked) (plug-compose (in_right k a n c) j y) out.holds.0 in
      let f = facts k a n c (plug j y) unlinked is' in
      let there : 0 < (unlinked.nodes n).left = omega (arith, f.left.0, f.left.1) in
      (
        subst (Represents taken) (sym (plug-compose (in_right k a m c) j y)) (
            take_over-Represents k a (plug j y) c n m unlinked f.place place_m f.parent f.color
              f.left f.right (around_at k a n c (plug j y) unlinked is') there
              (λ z. omega (arith, counts z))),
        λ z. omega (
          arith,
          counts z,
          ap (count z) (plug-compose (in_right k a m c) j y),
          count-plug k z (branch a m c (plug j y)),
        ),
      )

  inner_equation : color_fixup fuel d (pointer y) (above new_place) taken ≡ erase_inner fuel n m t
  unfolding erase_inner
  inner_equation =
      let f = facts old_place leaf m d y t is in
      let none_there : count_in n j ≡ 0 =
        omega (arith, counts n, counts_itself n, count-plug j n y) in
      let here : rb_parent m unlinked ≡ above old_place =
        ap (λ (x : RbNode). x.parent) out.kept ∙ f.parent in
      let parent : (if rb_parent m unlinked == n then m else rb_parent m t) ≡ above new_place =
        ap (λ q. if q == n then m else rb_parent m t) here
        ∙ ap (λ q. if above old_place == n then m else q) f.parent
        ∙ above-compose k j a c n m none_there in
      sym (
        ap
          (λ q.
            color_fixup fuel q (t.nodes m).right
              (if rb_parent m unlinked == n then m else rb_parent m t) taken)
          (rb_color_at m d t f.place f.color)
        ∙ ap
            (λ z.
              color_fixup fuel d z (if rb_parent m unlinked == n then m else rb_parent m t) taken)
            (pointer_lem y t m (t.nodes m).right f.right)
        ∙ ap (λ q. color_fixup fuel d (pointer y) q taken) parent)

  pub erase_inner-Leaves :
      IsRedBlack (plug old_place (branch leaf m d y))
      → depth new_place < fuel
      → Leaves (erase_inner fuel n m t) (in_order (plug k (branch a m c (plug j y))))
  erase_inner-Leaves v deep =
      let old_same = plug-compose (in_right k a n c) j (branch leaf m d y) in
      let new_same = plug-compose (in_right k a m c) j (branch leaf m d y) in
      let v' =
        subst IsRedBlack (sym new_same) (
          renamed-IsRedBlack k a n m c (plug j (branch leaf m d y))
            (subst IsRedBlack old_same v)) in
      subst (λ o. Leaves o (in_order (plug k (branch a m c (plug j y))))) inner_equation
        (subst (λ s. Leaves (color_fixup fuel d (pointer y) (above new_place) taken) (in_order s))
          (plug-compose (in_right k a m c) j y)
          (color_fixup-Leaves fuel new_place d y taken taken-Holds
            (Lacks-right new_place leaf m d y v') deep))
