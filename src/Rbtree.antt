-- ===== src/Rbtree.antt =====
-- The red-black tree of rbtree.c and rbtree.h. The state is the root and the node at each address; a
-- pointer is an address, 0 for NULL. A loop that climbs or descends has fuel, and `none` is a loop that
-- runs out of it.
pub mod Erase
pub mod Shape
pub mod Rotate
pub mod Place
pub mod Settle
pub mod Balance
pub mod Settled
pub mod Holds
pub mod Round
pub mod Insert
pub mod Loop
pub mod Hang
pub mod Added
pub mod Order
pub mod Size
pub mod Repair
pub mod Lent
pub mod Repaired
pub mod Turns
pub mod Rounds
pub mod Close
pub mod EraseLoop
pub mod Mended
pub mod Unlink
pub mod TakeOver
pub mod Least
pub mod Removed
pub mod Successor
pub mod Erased
pub mod Next
pub mod Turn
pub mod First
pub mod Mirror
mod Tests
use fru1t_os.Prelude.{
  ℕ, zero, suc, ◌+◌, Bool, true, false, not, ◌&&◌, ◌||◌, Option, none, some, ◌==◌, if◌then◌else◌,
}

-- RB_RED, RB_BLACK
pub data Color : Type 0 where
  red black : Color

abbrev pub is_red : Color → Bool
is_red red = true
is_red black = false

-- `struct rb_node`
pub record RbNode : Type 0 where
  pub parent : ℕ
  pub left : ℕ
  pub right : ℕ
  pub color : Color

-- `struct rb_root` and the nodes
pub record RbTree : Type 0 where
  pub rb_node : ℕ
  pub nodes : ℕ → RbNode

unfoldable pub set_node : ℕ → RbNode → RbTree → RbTree
set_node p n t = record t { nodes = λ q. if q == p then n else t.nodes q }

abbrev pub set_left : (p child : ℕ) → RbTree → RbTree
set_left p child t = set_node p (record (t.nodes p) { left = child }) t

abbrev pub set_right : (p child : ℕ) → RbTree → RbTree
set_right p child t = set_node p (record (t.nodes p) { right = child }) t

abbrev pub rb_set_parent : (p parent : ℕ) → RbTree → RbTree
rb_set_parent p parent t = set_node p (record (t.nodes p) { parent = parent }) t

abbrev pub rb_set_color : (p : ℕ) → Color → RbTree → RbTree
rb_set_color p color t = set_node p (record (t.nodes p) { color = color }) t

abbrev pub rb_parent : ℕ → RbTree → ℕ
rb_parent p t = (t.nodes p).parent

abbrev pub rb_color : ℕ → RbTree → Color
rb_color p t = if p == 0 then black else (t.nodes p).color

abbrev pub rb_is_red : ℕ → RbTree → Bool
rb_is_red p t = is_red (rb_color p t)

abbrev pub rb_is_black : ℕ → RbTree → Bool
rb_is_black p t = not (is_red (rb_color p t))

-- RB_ROOT
abbrev pub rb_root : RbTree → RbTree
rb_root t = record t { rb_node = 0 }

-- RB_EMPTY_NODE, RB_CLEAR_NODE and rb_empty_root
abbrev pub rb_empty_node : ℕ → RbTree → Bool
rb_empty_node p t = rb_parent p t == p

abbrev pub rb_clear_node : ℕ → RbTree → RbTree
rb_clear_node p t = rb_set_parent p p t

abbrev pub rb_empty_root : RbTree → Bool
rb_empty_root t = t.rb_node == 0

-- the child `old` of `parent`, or the root, becomes `new`
unfoldable pub replace_child : (parent old new : ℕ) → RbTree → RbTree
replace_child parent old new t =
    if parent == 0
    then record t { rb_node = new }
    else if old == (t.nodes parent).left
    then set_left parent new t
    else set_right parent new t

-- `if (p) rb_set_parent(p, parent)`
unfoldable pub adopt : (p parent : ℕ) → RbTree → RbTree
adopt p parent t = if p == 0 then t else rb_set_parent p parent t

unfoldable pub rb_rotate_left : ℕ → RbTree → RbTree
rb_rotate_left node t =
    let right : ℕ = (t.nodes node).right in
    let parent : ℕ = rb_parent node t in
    let t1 = set_right node (t.nodes right).left t in
    let t2 = adopt (t1.nodes right).left node t1 in
    let t3 = rb_set_parent right parent (set_left right node t2) in
    rb_set_parent node right (replace_child parent node right t3)

-- the code asks for the right child first here; `node` is one of the two
unfoldable pub replace_right_first : (parent old new : ℕ) → RbTree → RbTree
replace_right_first parent old new t =
    if parent == 0
    then record t { rb_node = new }
    else if old == (t.nodes parent).right
    then set_right parent new t
    else set_left parent new t

unfoldable pub rb_rotate_right : ℕ → RbTree → RbTree
rb_rotate_right node t =
    let left : ℕ = (t.nodes node).left in
    let parent : ℕ = rb_parent node t in
    let t1 = set_left node (t.nodes left).right t in
    let t2 = adopt (t1.nodes left).right node t1 in
    let t3 = rb_set_parent left parent (set_right left node t2) in
    rb_set_parent node left (replace_right_first parent node left t3)

-- case 1 of a round of `rb_insert_color`: the uncle is red
unfoldable pub recolor : (parent uncle gparent : ℕ) → RbTree → RbTree
recolor parent uncle gparent t =
    rb_set_color gparent red (rb_set_color parent black (rb_set_color uncle black t))

-- case 2, when `turn` is set, and case 3: the rotations, and the node that the loop goes on with
unfoldable pub turn_left_side : (turn : Bool) → (node parent gparent : ℕ) → RbTree → ℕ × RbTree
turn_left_side turn node parent gparent t =
    let t1 = if turn then rb_rotate_left parent t else t in
    let node' : ℕ = if turn then parent else node in
    let parent' : ℕ = if turn then node else parent in
    (node', rb_rotate_right gparent (rb_set_color gparent red (rb_set_color parent' black t1)))

unfoldable pub turn_right_side : (turn : Bool) → (node parent gparent : ℕ) → RbTree → ℕ × RbTree
turn_right_side turn node parent gparent t =
    let t1 = if turn then rb_rotate_right parent t else t in
    let node' : ℕ = if turn then parent else node in
    let parent' : ℕ = if turn then node else parent in
    (node', rb_rotate_left gparent (rb_set_color gparent red (rb_set_color parent' black t1)))

-- a round of `rb_insert_color`, with a red parent
unfoldable pub insert_round : (node : ℕ) → RbTree → ℕ × RbTree
insert_round node t =
    let parent : ℕ = rb_parent node t in
    let gparent : ℕ = rb_parent parent t in
    if parent == (t.nodes gparent).left
    then (if rb_is_red (t.nodes gparent).right t
        then (gparent, recolor parent (t.nodes gparent).right gparent t)
        else turn_left_side ((t.nodes parent).right == node) node parent gparent t)
    else (if rb_is_red (t.nodes gparent).left t
        then (gparent, recolor parent (t.nodes gparent).left gparent t)
        else turn_right_side ((t.nodes parent).left == node) node parent gparent t)

unfoldable pub insert_loop : (fuel : ℕ) → (node : ℕ) → RbTree → Option RbTree
insert_loop zero node t = none
insert_loop (suc fuel) node t =
    let rest = insert_loop fuel (insert_round node t).0 (insert_round node t).1 in
    if rb_is_red (rb_parent node t) t then rest else some t

unfoldable pub rb_insert_color : (fuel : ℕ) → (node : ℕ) → RbTree → Option RbTree
rb_insert_color fuel node t = elim (insert_loop fuel node t) [
  | none ↦ none
  | some t' ↦ some (rb_set_color t'.rb_node black t')
]

-- a red node without children, hung below `parent`, as the callers of `rb_insert_color` do it
unfoldable pub hang : (p parent : ℕ) (is_left : Bool) → RbTree → RbTree
hang p parent is_left t =
    let t' = set_node p (record { parent = parent; left = 0; right = 0; color = red }) t in
    if parent == 0
    then record t' { rb_node = p }
    else if is_left
    then set_left parent p t'
    else set_right parent p t'

-- the loop `while (node->left) node = node->left`
unfoldable pub leftmost : (fuel : ℕ) → ℕ → RbTree → Option ℕ
leftmost zero p t = none
leftmost (suc fuel) p t =
    let rest = leftmost fuel (t.nodes p).left t in if (t.nodes p).left == 0 then some p else rest

-- 0 is NULL
unfoldable pub rb_first : (fuel : ℕ) → RbTree → Option ℕ
rb_first fuel t = if t.rb_node == 0 then some 0 else leftmost fuel t.rb_node t

-- the loop that climbs while the node is a right child
unfoldable pub climb : (fuel : ℕ) → ℕ → RbTree → Option ℕ
climb zero p t = none
climb (suc fuel) p t =
    let rest = climb fuel (rb_parent p t) t in
    if not (rb_parent p t == 0) && (p == (t.nodes (rb_parent p t)).right)
    then rest
    else some (rb_parent p t)

unfoldable pub rb_next : (fuel : ℕ) → ℕ → RbTree → Option ℕ
rb_next fuel p t =
    if p == 0
    then some 0
    else if (t.nodes p).right == 0
    then climb fuel p t
    else leftmost fuel (t.nodes p).right t
