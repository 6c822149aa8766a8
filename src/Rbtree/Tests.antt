-- ===== src/Rbtree/Tests.antt =====
-- Runs of the red-black tree, and the theorem at a tree of four nodes.
use fru1t_os.Prelude.{
  List, ℕ, false, ◌≡◌, refl, ◌==◌, Option, none, some, [], ◌∷◌, ◌++◌, if◌then◌else◌, arith,
}
use fru1t_os.Rbtree.{
  red, black, RbNode, RbTree, set_node, rb_rotate_left, rb_rotate_right, replace_child, adopt,
  insert_loop, insert_round, turn_right_side, rb_insert_color, hang, leftmost, rb_first, climb,
  rb_next,
}
use fru1t_os.Rbtree.Erase.{rb_erase, erase_inner, color_fixup, take_over, unlink}
use fru1t_os.Rbtree.Shape.{
  Shape, leaf, branch, in_order, IsDistinct, Represents, Context, top, in_left, in_right, plug,
}
use fru1t_os.Rbtree.Balance.{IsRedBlack}
use fru1t_os.Rbtree.Added.{rb_insert_color_lem}
use fru1t_os.Rbtree.Mirror.{rotations_lem}
use fru1t_os.Rbtree.Erased.{rb_erase_lem}
use fru1t_os.Rbtree.Next.{rb_next_lem}

-- 300 above 100, which has 200 to its right, and 200 has 250 there
abbrev nodes : ℕ → RbNode
nodes p =
    if p == 300
    then record { parent = 0; left = 100; right = 0; color = black }
    else if p == 100
    then record { parent = 300; left = 0; right = 200; color = red }
    else if p == 200
    then record { parent = 100; left = 0; right = 250; color = black }
    else record { parent = 200; left = 0; right = 0; color = red }

abbrev tree : RbTree
tree = record { rb_node = 300; nodes = nodes }

abbrev place : Context
place = in_left top 300 black leaf

abbrev leaf_250 : Shape
leaf_250 = branch leaf 250 red leaf

tree-Represents :
    Represents tree (plug place (branch leaf 100 red (branch leaf 200 black leaf_250)))
tree-Represents = (
  refl,
  omega arith,
  refl,
  refl,
  (
    refl,
    omega arith,
    refl,
    refl,
    refl,
    (refl, omega arith, refl, refl, refl, (refl, omega arith, refl, refl, refl, refl)),
  ),
  refl,
)

tree-IsDistinct : IsDistinct (plug place (branch leaf 100 red (branch leaf 200 black leaf_250)))
tree-IsDistinct z = ground arith

rotations_lem_example :
    Represents
      (rb_rotate_left 100 tree)
      (plug place (branch (branch leaf 100 red leaf) 200 black leaf_250))
    × (in_order (plug place (branch (branch leaf 100 red leaf) 200 black leaf_250))
        ≡ in_order (plug place (branch leaf 100 red (branch leaf 200 black leaf_250))))
    × IsDistinct (plug place (branch (branch leaf 100 red leaf) 200 black leaf_250))
    × Represents
        (rb_rotate_right 200 (rb_rotate_left 100 tree))
        (plug place (branch leaf 100 red (branch leaf 200 black leaf_250)))
rotations_lem_example =
    rotations_lem place leaf leaf leaf_250 100 200 red black tree tree-Represents tree-IsDistinct

order_runs :
    (rb_first 9 tree ≡ some 100) × (rb_next 9 100 tree ≡ some 200) × (rb_next 9 250 tree ≡ some 300)
unfolding rb_first leftmost rb_next climb
order_runs = (refl, refl, refl)

-- 1, 2 and 3 in a row to the right: the insertion of 3 turns 2 to the top
abbrev row : RbTree
row = record {
  rb_node = 1;
  nodes = λ p.
      if p == 1
      then record { parent = 0; left = 0; right = 2; color = black }
      else if p == 2
      then record { parent = 1; left = 0; right = 3; color = red }
      else record { parent = 2; left = 0; right = 0; color = red };
}

abbrev turned_row : Option RbTree
turned_row = rb_insert_color 4 3 row

abbrev summary : Option RbTree → List ℕ
summary none = []
summary (some t) = t.rb_node ∷ (t.nodes 2).left ∷ (t.nodes 2).right ∷ (t.nodes 1).right ∷ []

insert_runs : summary turned_row ≡ 2 ∷ 1 ∷ 3 ∷ 0 ∷ []
unfolding rb_insert_color insert_loop insert_round turn_right_side rb_rotate_left replace_child
    adopt set_node
insert_runs = refl

abbrev erased : Option RbTree → Option RbTree
erased none = none
erased (some t) = rb_erase 4 2 t

erase_runs : summary (erased turned_row) ≡ 3 ∷ 1 ∷ 0 ∷ 0 ∷ []
unfolding rb_insert_color insert_loop insert_round turn_right_side rb_rotate_left replace_child
    adopt set_node rb_erase erase_inner color_fixup take_over unlink leftmost
erase_runs = refl

-- 300 above 100: 200 comes between them, and is turned to the top
abbrev pair : RbTree
pair = record {
  rb_node = 300;
  nodes = λ p.
      if p == 300
      then record { parent = 0; left = 100; right = 0; color = black }
      else record { parent = 300; left = 0; right = 0; color = red };
}

abbrev between : Context
between = in_right (in_left top 300 black leaf) leaf 100 red

pair-Represents : Represents pair (plug between leaf)
pair-Represents = (refl, omega arith, refl, refl, (refl, omega arith, refl, refl, refl, refl), refl)

pair-IsRedBlack : IsRedBlack (plug between leaf)
pair-IsRedBlack = record {
  root = refl;
  calm = (tt, tt, (refl, refl, tt, tt), tt);
  even = (1, ((refl, refl), refl));
}

pair-IsDistinct : IsDistinct (plug between leaf)
pair-IsDistinct z = ground arith

rb_insert_color_lem_example :
    (t' : RbTree) × (s : Shape) × (rb_insert_color 3 200 (hang 200 100 false pair) ≡ some t')
    × Represents t' s
    × IsDistinct s
    × (in_order s ≡ 100 ∷ 200 ∷ 300 ∷ [])
    × IsRedBlack s
rb_insert_color_lem_example =
    rb_insert_color_lem 3 200 between false pair pair-Represents pair-IsDistinct pair-IsRedBlack
      (omega arith) refl refl (omega arith)

rb_erase_lem_example :
    (t' : RbTree) × (s : Shape) × (ps : List ℕ) × (qs : List ℕ) × (rb_erase 3 300 pair ≡ some t')
    × Represents t' s
    × IsDistinct s
    × IsRedBlack s
    × (in_order (plug between leaf) ≡ ps ++ 300 ∷ qs)
    × (in_order s ≡ ps ++ qs)
rb_erase_lem_example =
    rb_erase_lem 3 300 (plug between leaf) pair pair-Represents pair-IsDistinct pair-IsRedBlack
      (omega arith) (omega arith)

rb_next_lem_example : rb_next 9 200 tree ≡ some 250
rb_next_lem_example =
    rb_next_lem 9 200 (plug place (branch leaf 100 red (branch leaf 200 black leaf_250))) (100 ∷ [])
      (250 ∷ 300 ∷ []) tree tree-Represents tree-IsDistinct refl (omega arith)
