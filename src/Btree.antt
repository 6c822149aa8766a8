-- ===== src/Btree.antt =====
-- The B-tree of btree.c over the heap allocator. A node is a tree: its keys with their values, of
-- which there are `num_keys`, and its children; a value pointer is a number, 0 for NULL. The `parent`
-- pointers, which no operation reads, are left out.
pub mod Delete
mod Tests
use fru1t_os.Prelude.{
  ℕ, zero, suc, ◌+◌, ◌-◌, Bool, true, false, ◌&&◌, not, Option, none, some, List, [], ◌∷◌, ◌++◌,
  ltb, leb, ◌==◌, if◌then◌else◌, length, take, get_or,
}
use fru1t_os.Prelude.Int.{ℤ, pos, negsuc, ◌-ℤ◌}
use fru1t_os.Memory.{MemBlock, kmalloc}

abbrev pub btree_min_keys : ℕ
btree_min_keys = 2

abbrev pub btree_max_keys : ℕ
btree_max_keys = 4

-- sizeof(struct btree_node): an `int`, four keys, four values, five children, a parent, an `int`
abbrev pub node_size : ℕ
node_size = 64

abbrev pub Entry : Type 0
Entry = ℕ × ℕ

mutual
  pub data BtreeNode : Type 0 where
    node : (is_leaf : Bool) → (entries : List Entry) → (children : Nodes) → BtreeNode

  pub data Nodes : Type 0 where
    nil : Nodes
    cons : BtreeNode → Nodes → Nodes

-- `struct btree`; `none` is a NULL root
pub record Btree : Type 0 where
  pub root : Option BtreeNode
  pub height : ℕ
  pub num_nodes : ℤ

unfoldable pub btree_init : Btree
btree_init = record { root = none; height = 0; num_nodes = pos 0 }

-- the first index whose key is not below `key`, or the number of keys
unfoldable pub find_key_index : ℕ → List Entry → ℕ
find_key_index key [] = 0
find_key_index key ((k, v) ∷ es) =
    let rest = find_key_index key es in if ltb k key then suc rest else 0

-- the value at index `i`, if the key there is `key`
unfoldable pub value_at : ℕ → ℕ → List Entry → Option ℕ
value_at key i [] = none
value_at key zero ((k, v) ∷ es) = if k == key then some v else none
value_at key (suc i) (e ∷ es) = value_at key i es

-- what the loop of `btree_search` gives at a node: the value found there, or what the child gives
abbrev pub found_or : Option ℕ → (is_leaf : Bool) → (below : ℕ) → ℕ
found_or none is_leaf below = if is_leaf then 0 else below
found_or (some v) is_leaf below = v

unfoldable mutual
  pub search : ℕ → BtreeNode → ℕ
  search key (node is_leaf es cs) =
      found_or (value_at key (find_key_index key es) es) is_leaf
        (search_child key (find_key_index key es) cs)

  pub search_child : ℕ → ℕ → Nodes → ℕ
  search_child key i nil = 0
  search_child key zero (cons c cs) = search key c
  search_child key (suc i) (cons c cs) = search_child key i cs

unfoldable pub btree_search : ℕ → Btree → ℕ
btree_search key t = elim t.root [ none ↦ 0 | some n ↦ search key n ]

abbrev pub drop_entries : ℕ → List Entry → List Entry
drop_entries zero es = es
drop_entries (suc n) [] = []
drop_entries (suc n) (e ∷ es) = drop_entries n es

abbrev pub take_nodes : ℕ → Nodes → Nodes
take_nodes zero cs = nil
take_nodes (suc n) nil = nil
take_nodes (suc n) (cons c cs) = cons c (take_nodes n cs)

abbrev pub drop_nodes : ℕ → Nodes → Nodes
drop_nodes zero cs = cs
drop_nodes (suc n) nil = nil
drop_nodes (suc n) (cons c cs) = drop_nodes n cs

-- the node `i` is replaced by two
abbrev pub put_two : ℕ → BtreeNode → BtreeNode → Nodes → Nodes
put_two i a b nil = nil
put_two zero a b (cons c cs) = cons a (cons b cs)
put_two (suc i) a b (cons c cs) = cons c (put_two i a b cs)

abbrev pub put_node : ℕ → BtreeNode → Nodes → Nodes
put_node i a nil = nil
put_node zero a (cons c cs) = cons a cs
put_node (suc i) a (cons c cs) = cons c (put_node i a cs)

abbrev pub node_at : ℕ → Nodes → Option BtreeNode
node_at i nil = none
node_at zero (cons c cs) = some c
node_at (suc i) (cons c cs) = node_at i cs

abbrev pub insert_at : ℕ → Entry → List Entry → List Entry
insert_at zero e es = e ∷ es
insert_at (suc i) e [] = e ∷ []
insert_at (suc i) e (x ∷ es) = x ∷ insert_at i e es

-- a full child: its lower half, its middle entry and its upper half
unfoldable pub halves : BtreeNode → BtreeNode × Entry × BtreeNode
halves (node is_leaf es cs) = (
  node is_leaf (take btree_min_keys es)
      (if is_leaf then cs else take_nodes (btree_min_keys + 1) cs),
  get_or es btree_min_keys (0, 0),
  node is_leaf (drop_entries (btree_min_keys + 1) es)
      (if is_leaf then nil else drop_nodes (btree_min_keys + 1) cs),
)

-- a parent that has room. `none` is an allocation that fails, or a missing child: the source then goes
-- on with the child as it is, full, which is not followed further.
unfoldable pub btree_split_child :
    ℕ → BtreeNode → List MemBlock → Option (BtreeNode × List MemBlock)
btree_split_child i (node is_leaf es cs) heap = elim (kmalloc node_size heap).0 [
  | none ↦ none
  | some p ↦ elim (node_at i cs) [
    | none ↦ none
    | some c ↦
        let (lower, middle, upper) = halves c in
        some (
          node is_leaf (insert_at i middle es) (put_two i lower upper cs),
          (kmalloc node_size heap).1,
        )
  ]
]

-- the place that the loop from the right finds: behind the last key that is not above `key`
unfoldable pub place_of : ℕ → List Entry → ℕ
place_of key [] = 0
place_of key ((k, v) ∷ es) =
    let rest = place_of key es in if rest == 0 then (if ltb key k then 0 else 1) else suc rest

abbrev pub num_keys : BtreeNode → ℕ
num_keys (node is_leaf es cs) = length es

abbrev pub key_at : ℕ → BtreeNode → ℕ
key_at i (node is_leaf es cs) = (get_or es i (0, 0)).0

abbrev pub child_at : ℕ → BtreeNode → Option BtreeNode
child_at i (node is_leaf es cs) = node_at i cs

abbrev pub set_child : ℕ → BtreeNode → BtreeNode → BtreeNode
set_child i c (node is_leaf es cs) = node is_leaf es (put_node i c cs)

-- the node and its child `i` behind the step that splits a full one; the last part is the index that
-- the descent goes on with
unfoldable pub make_room :
    (i key : ℕ) → BtreeNode → BtreeNode → List MemBlock → Option (BtreeNode × List MemBlock × ℕ)
make_room i key n c heap =
    if num_keys c == btree_max_keys
    then (elim (btree_split_child i n heap) [
      | none ↦ none
      | some (n', heap') ↦ some (n', heap', (if ltb (key_at i n') key then suc i else i))
    ])
    else some (n, heap, i)

-- a descent over at most `fuel` levels; `none` is a write behind the arrays of a full leaf, a missing
-- child, a split without memory, or too little fuel
unfoldable pub btree_insert_non_full :
    (fuel key value : ℕ) → BtreeNode → List MemBlock → Option (BtreeNode × List MemBlock)
btree_insert_non_full zero key value n heap = none
btree_insert_non_full (suc fuel) key value (node true es cs) heap =
    if ltb (length es) btree_max_keys
    then some (node true (insert_at (place_of key es) (key, value) es) cs, heap)
    else none
btree_insert_non_full (suc fuel) key value (node false es cs) heap =
    elim (node_at (place_of key es) cs) [
      | none ↦ none
      | some c ↦ elim (make_room (place_of key es) key (node false es cs) c heap) [
        | none ↦ none
        | some (n, heap', i) ↦ elim (child_at i n) [
          | none ↦ none
          | some d ↦ elim (btree_insert_non_full fuel key value d heap') [
            | none ↦ none
            | some (d', heap'') ↦ some (set_child i d' n, heap'')
          ]
        ]
      ]
    ]

-- a full root: the new root over its halves; the flag is false for -1
unfoldable pub split_root : BtreeNode → List MemBlock → Option (Bool × BtreeNode × List MemBlock)
split_root root heap = elim (kmalloc node_size heap).0 [
  | none ↦ some (false, root, (kmalloc node_size heap).1)
  | some p ↦ elim (btree_split_child 0 (node false [] (cons root nil)) (kmalloc node_size heap).1) [
    | none ↦ none
    | some (n, heap') ↦ some (true, n, heap')
  ]
]

-- the end of `btree_insert`, from a root that is not full
unfoldable pub insert_below :
    (key value : ℕ)
    → BtreeNode
    → (height : ℕ) (num_nodes : ℤ) → List MemBlock
    → Option (Bool × Btree × List MemBlock)
insert_below key value n height num_nodes heap =
    elim (btree_insert_non_full (height + 1) key value n heap) [
      | none ↦ none
      | some (n', heap') ↦ some (
        true,
        record { root = some n'; height = height; num_nodes = num_nodes -ℤ negsuc 0 },
        heap',
      )
    ]

-- the flag is false for -1. The fuel is one more than the height, which counts the levels.
unfoldable pub btree_insert :
    (key value : ℕ) → Btree → List MemBlock → Option (Bool × Btree × List MemBlock)
btree_insert key value t heap =
    if not (btree_search key t == 0) then some (false, t, heap) else (elim t.root [
      | none ↦ elim (kmalloc node_size heap).0 [
        | none ↦ some (false, t, (kmalloc node_size heap).1)
        | some p ↦ some (
          true,
          record { root = some (node true ((key, value) ∷ []) nil); height = 1; num_nodes = pos 1 },
          (kmalloc node_size heap).1,
        )
      ]
      | some root ↦
          if num_keys root == btree_max_keys
          then (elim (split_root root heap) [
            | none ↦ none
            | some (false, n, heap') ↦ some (false, t, heap')
            | some (true, n, heap') ↦ insert_below key value n (t.height + 1) t.num_nodes heap'
          ])
          else insert_below key value root t.height t.num_nodes heap
    ])

unfoldable mutual
  -- in order
  pub traverse : BtreeNode → List Entry
  traverse (node is_leaf es cs) = let woven = weave es cs in if is_leaf then es else woven

  pub weave : List Entry → Nodes → List Entry
  weave es nil = es
  weave [] (cons c cs) = traverse c
  weave (e ∷ es) (cons c cs) = traverse c ++ (e ∷ weave es cs)

unfoldable pub btree_traverse : Btree → List Entry
btree_traverse t = elim t.root [ none ↦ [] | some n ↦ traverse n ]
