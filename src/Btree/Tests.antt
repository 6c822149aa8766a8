-- ===== src/Btree/Tests.antt =====
-- Runs of the B-tree, and the theorem at a tree of two levels.
use fru1t_os.Prelude.{◌≡◌, refl, true, false, some, [], ◌∷◌}
use fru1t_os.Prelude.Int.{pos, ◌-ℤ◌}
use fru1t_os.Btree.{
  Btree, node, nil, cons, search, find_key_index, value_at, btree_search, traverse, btree_traverse,
}
use fru1t_os.Btree.Delete.{
  Removed, nodes_of, delete_from, delete_in, btree_delete, btree_delete_lem,
}

abbrev tree : Btree
tree = record {
  root = some (
      node false ((20, 2) ∷ [])
        (cons (node true ((10, 1) ∷ []) nil) (cons (node true ((30, 3) ∷ []) nil) nil)));
  height = 2;
  num_nodes = pos 3;
}

abbrev rest : Btree
rest = record {
  root = some (
      node false ((20, 2) ∷ [])
        (cons (node true ((10, 1) ∷ []) nil) (cons (node true [] nil) nil)));
  height = 2;
  num_nodes = pos 2;
}

search_runs : btree_search 30 tree ≡ 3
unfolding btree_search search find_key_index value_at
search_runs = refl

traverse_runs : btree_traverse tree ≡ (10, 1) ∷ (20, 2) ∷ (30, 3) ∷ []
unfolding btree_traverse traverse
traverse_runs = refl

delete_runs : btree_delete 30 tree ≡ some rest
unfolding btree_delete delete_from delete_in find_key_index value_at
delete_runs = refl

btree_delete_lem_example :
    Removed 30 (btree_traverse tree) (btree_traverse rest)
    × (nodes_of rest ≡ nodes_of tree)
    × (rest.num_nodes ≡ tree.num_nodes -ℤ pos 1)
btree_delete_lem_example = btree_delete_lem 30 tree rest delete_runs
