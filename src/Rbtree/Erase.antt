-- ===== src/Rbtree/Erase.antt =====
-- `rb_erase` of rbtree.c with its rebalancing loop `rb_erase_color`. As in the parent module a pointer
-- is an address, 0 for NULL, and `none` is a loop that runs out of its fuel.
use fru1t_os.Prelude.{ℕ, zero, suc, Bool, not, ◌&&◌, Option, none, some, ◌==◌, if◌then◌else◌}
use fru1t_os.Rbtree.{
  Color, red, black, RbTree, is_red, set_node, set_left, set_right, rb_set_parent, rb_set_color,
  rb_parent, rb_color, rb_is_red, rb_is_black, adopt, rb_rotate_left, rb_rotate_right, leftmost,
}

-- what a round of the loop of `rb_erase_color` does: it goes on from a node, or leaves the loop
pub data Round : Type 0 where
  climbs : (node parent : ℕ) → RbTree → Round
  breaks : RbTree → Round

-- a red sibling is turned above `parent` first
unfoldable pub lift_right : (parent : ℕ) → RbTree → RbTree
lift_right parent t =
    let sibling : ℕ = (t.nodes parent).right in
    if rb_is_red sibling t
    then rb_rotate_left parent (rb_set_color parent red (rb_set_color sibling black t))
    else t

unfoldable pub lift_left : (parent : ℕ) → RbTree → RbTree
lift_left parent t =
    let sibling : ℕ = (t.nodes parent).left in
    if rb_is_red sibling t
    then rb_rotate_right parent (rb_set_color parent red (rb_set_color sibling black t))
    else t

-- both children of the sibling are black
unfoldable pub is_plain : (sibling : ℕ) → RbTree → Bool
is_plain sibling t = rb_is_black (t.nodes sibling).left t && rb_is_black (t.nodes sibling).right t

-- the last round, with the sibling to the right of `parent`: the red child of the sibling is turned to
-- its far side, and then the sibling above `parent`
unfoldable pub settle_right : (parent : ℕ) → RbTree → RbTree
settle_right parent t =
    let sibling : ℕ = (t.nodes parent).right in
    let t1 =
      if rb_is_black (t.nodes sibling).right t
      then rb_rotate_right sibling
          (rb_set_color sibling red (rb_set_color (t.nodes sibling).left black t))
      else t in
    let sibling' : ℕ = (t1.nodes parent).right in
    let t2 = rb_set_color parent black (rb_set_color sibling' (rb_color parent t1) t1) in
    rb_rotate_left parent (rb_set_color (t2.nodes sibling').right black t2)

unfoldable pub settle_left : (parent : ℕ) → RbTree → RbTree
settle_left parent t =
    let sibling : ℕ = (t.nodes parent).left in
    let t1 =
      if rb_is_black (t.nodes sibling).left t
      then rb_rotate_left sibling
          (rb_set_color sibling red (rb_set_color (t.nodes sibling).right black t))
      else t in
    let sibling' : ℕ = (t1.nodes parent).left in
    let t2 = rb_set_color parent black (rb_set_color sibling' (rb_color parent t1) t1) in
    rb_rotate_right parent (rb_set_color (t2.nodes sibling').left black t2)

unfoldable pub erase_right : (parent : ℕ) → RbTree → Round
erase_right parent t =
    let t1 = lift_right parent t in
    let sibling : ℕ = (t1.nodes parent).right in
    if is_plain sibling t1
    then climbs parent (rb_parent parent (rb_set_color sibling red t1))
        (rb_set_color sibling red t1)
    else breaks (settle_right parent t1)

unfoldable pub erase_left : (parent : ℕ) → RbTree → Round
erase_left parent t =
    let t1 = lift_left parent t in
    let sibling : ℕ = (t1.nodes parent).left in
    if is_plain sibling t1
    then climbs parent (rb_parent parent (rb_set_color sibling red t1))
        (rb_set_color sibling red t1)
    else breaks (settle_left parent t1)

-- the loop, and the node that it ends with
unfoldable pub erase_loop : (fuel : ℕ) → (node parent : ℕ) → RbTree → Option (ℕ × RbTree)
erase_loop zero node parent t = none
erase_loop (suc fuel) node parent t =
    if rb_is_black node t && not (node == t.rb_node)
    then (elim (if (t.nodes parent).left == node
        then erase_right parent t
        else erase_left parent t) [
          | climbs node' parent' t' ↦ erase_loop fuel node' parent' t'
          | breaks t' ↦ some (t'.rb_node, t')
        ])
    else some (node, t)

unfoldable pub rb_erase_color : (fuel : ℕ) → (node parent : ℕ) → RbTree → Option RbTree
rb_erase_color fuel node parent t = elim (erase_loop fuel node parent t) [
  | none ↦ none
  | some (node', t') ↦ some (if node' == 0 then t' else rb_set_color node' black t')
]

-- the label `color_fixup`
unfoldable pub color_fixup : (fuel : ℕ) → Color → (child parent : ℕ) → RbTree → Option RbTree
color_fixup fuel color child parent t =
    let rest = rb_erase_color fuel child parent t in if is_red color then some t else rest

-- a node with one child at most gives its place to `child`
unfoldable pub unlink : (node child : ℕ) → RbTree → RbTree
unlink node child t =
    let t1 = adopt child (rb_parent node t) t in
    if rb_parent node t == 0
    then record t1 { rb_node = child }
    else if (t1.nodes (rb_parent node t)).left == node
    then set_left (rb_parent node t) child t1
    else set_right (rb_parent node t) child t1

-- `node`, the successor of `old`, takes the fields and the place of `old`
unfoldable pub take_over : (old node : ℕ) → RbTree → RbTree
take_over old node t =
    let o = t.nodes old in
    let t1 = set_node node o t in
    let t2 =
      if rb_parent old t1 == 0
      then record t1 { rb_node = node }
      else if (t1.nodes (rb_parent old t1)).left == old
      then set_left (rb_parent old t1) node t1
      else set_right (rb_parent old t1) node t1 in
    let t3 = rb_set_parent (t2.nodes old).left node t2 in adopt (t3.nodes old).right node t3

unfoldable pub erase_inner : (fuel : ℕ) → (old node : ℕ) → RbTree → Option RbTree
erase_inner fuel old node t =
    let child : ℕ = (t.nodes node).right in
    let t1 = unlink node child t in
    let parent : ℕ = if rb_parent node t1 == old then node else rb_parent node t in
    color_fixup fuel (rb_color node t) child parent (take_over old node t1)

unfoldable pub rb_erase : (fuel : ℕ) → (node : ℕ) → RbTree → Option RbTree
rb_erase fuel node t =
    if (t.nodes node).left == 0
    then (color_fixup fuel (rb_color node t) (t.nodes node).right (rb_parent node t)
        (unlink node (t.nodes node).right t))
    else if (t.nodes node).right == 0
    then (color_fixup fuel (rb_color node t) (t.nodes node).left (rb_parent node t)
        (unlink node (t.nodes node).left t))
    else (elim (leftmost fuel (t.nodes node).right t) [
      | none ↦ none
      | some s ↦ erase_inner fuel node s t
    ])
