-- ===== src/Rbtree/Shape.antt =====
-- Which tree the nodes of a store make up: `IsTree` follows the pointers down and compares the parents.
use fru1t_os.Prelude.{ℕ, ◌+◌, ◌≤◌, ◌<◌, ◌≡◌, ◌==◌, List, [], ◌∷◌, ◌++◌, if◌then◌else◌}
use fru1t_os.Rbtree.{Color, RbTree}

-- the addresses and colours of a tree
pub data Shape : Type 0 where
  leaf : Shape
  branch : Shape → ℕ → Color → Shape → Shape

-- the nodes from left to right
abbrev pub in_order : Shape → List ℕ
in_order leaf = []
in_order (branch l p c r) = in_order l ++ p ∷ in_order r

-- how often the node `z` stands in a tree
abbrev pub count : ℕ → Shape → ℕ
count z leaf = 0
count z (branch l p c r) = (if p == z then 1 else 0) + count z l + count z r

-- no node stands in two places
abbrev pub IsDistinct : Shape → Type 0
IsDistinct s = (z : ℕ) → count z s ≤ 1

abbrev pub IsTree : RbTree → (parent p : ℕ) → Shape → Type 0
IsTree t parent p leaf = p ≡ 0
IsTree t parent p (branch l a c r) =
    (p ≡ a)
    × (0 < a)
    × ((t.nodes a).parent ≡ parent)
    × ((t.nodes a).color ≡ c)
    × IsTree t a (t.nodes a).left l
    × IsTree t a (t.nodes a).right r

-- a tree from the root
abbrev pub Represents : RbTree → Shape → Type 0
Represents t s = IsTree t 0 t.rb_node s

-- The way from the root to a place: the node above, its colour, and its other child.
pub data Context : Type 0 where
  top : Context
  in_left : Context → ℕ → Color → Shape → Context
  in_right : Context → Shape → ℕ → Color → Context

-- the tree with `s` at the place
abbrev pub plug : Context → Shape → Shape
plug top s = s
plug (in_left k p c r) s = plug k (branch s p c r)
plug (in_right k l p c) s = plug k (branch l p c s)

-- the node above the place
abbrev pub above : Context → ℕ
above top = 0
above (in_left k p c r) = p
above (in_right k l p c) = p
