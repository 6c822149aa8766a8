-- ===== src/Btree/Delete.antt =====
-- The deletion of btree.c, and what it takes from the tree.
use fru1t_os.Prelude.{
  append_assoc, ℕ, zero, suc, ◌+◌, ◌≤◌, ◌≡◌, ◌⊎◌, ◌∙◌, refl, ap, sym, Bool, true, false, Option,
  none, some, List, [], ◌∷◌, ◌++◌, arith, if◌then◌else◌, length, inl, inr,
}
use fru1t_os.Prelude.Int.{pos, ◌-ℤ◌}
use fru1t_os.Btree.{
  BtreeNode, Nodes, node, nil, cons, Btree, Entry, find_key_index, value_at, traverse, weave,
  btree_traverse,
}

-- `delete_leaf_node` at the index that it finds
abbrev pub remove_at : ℕ → List Entry → List Entry
remove_at i [] = []
remove_at zero (e ∷ es) = es
remove_at (suc i) (e ∷ es) = e ∷ remove_at i es

-- a node whose deletion below, in the child that the key belongs to, is `below`; `none` is -1: the key
-- is not there, or stands in an inner node
unfoldable pub delete_in : ℕ → Bool → List Entry → Nodes → Option Nodes → Option BtreeNode
delete_in key is_leaf es cs below = elim (value_at key (find_key_index key es) es) [
  | some v ↦ if is_leaf then some (node is_leaf (remove_at (find_key_index key es) es) cs) else none
  | none ↦
      if is_leaf then none else (elim below [ none ↦ none | some cs' ↦ some (node is_leaf es cs') ])
]

abbrev pub or_first : Nodes → Option BtreeNode → Option Nodes
or_first cs none = none
or_first cs (some c) = some (cons c cs)

abbrev pub or_later : BtreeNode → Option Nodes → Option Nodes
or_later c none = none
or_later c (some cs) = some (cons c cs)

unfoldable mutual
  pub delete_from : ℕ → BtreeNode → Option BtreeNode
  delete_from key (node is_leaf es cs) =
      delete_in key is_leaf es cs (delete_child key (find_key_index key es) cs)

  pub delete_child : ℕ → ℕ → Nodes → Option Nodes
  delete_child key i nil = none
  delete_child key zero (cons c cs) = or_first cs (delete_from key c)
  delete_child key (suc i) (cons c cs) = or_later c (delete_child key i cs)

unfoldable pub btree_delete : ℕ → Btree → Option Btree
btree_delete key t = elim t.root [
  | none ↦ none
  | some n ↦ elim (delete_from key n) [
    | none ↦ none
    | some n' ↦ some (record t { root = some n'; num_nodes = t.num_nodes -ℤ pos 1 })
  ]
]

-- one entry of this key is missing in the second list
pub record Removed (key : ℕ) (es es' : List Entry) : Type 0 where
  pub value : ℕ
  pub before : List Entry
  pub after : List Entry
  pub was : es ≡ before ++ ((key, value) ∷ after)
  pub now : es' ≡ before ++ after

module _ {key : ℕ} {es es' : List Entry} (r : Removed key es es') where
  behind : (front : List Entry) → Removed key (front ++ es) (front ++ es')
  behind front = record {
    value = r.value;
    before = front ++ r.before;
    after = r.after;
    was = ap (λ t. front ++ t) r.was ∙ sym (append_assoc front r.before ((key, r.value) ∷ r.after));
    now = ap (λ t. front ++ t) r.now ∙ sym (append_assoc front r.before r.after);
  }

  in_front_of : (back : List Entry) → Removed key (es ++ back) (es' ++ back)
  in_front_of back = record {
    value = r.value;
    before = r.before;
    after = r.after ++ back;
    was = ap (λ t. t ++ back) r.was ∙ append_assoc r.before ((key, r.value) ∷ r.after) back;
    now = ap (λ t. t ++ back) r.now ∙ append_assoc r.before r.after back;
  }

find_key_index-le : (key : ℕ) (es : List Entry) → find_key_index key es ≤ length es
unfolding find_key_index
find_key_index-le key [] = omega arith
find_key_index-le key ((k, v) ∷ es) = ground (arith, find_key_index-le key es)

remove_at-Removed :
    (key i v : ℕ) (es : List Entry) → value_at key i es ≡ some v → Removed key es (remove_at i es)
unfolding value_at
remove_at-Removed key i v [] e = cc
remove_at-Removed key zero v ((k, w) ∷ es) e =
    let same : k ≡ key = ground arith in
    record { value = w; before = []; after = es; was = ap (λ n. (n, w) ∷ es) same; now = refl }
remove_at-Removed key (suc i) v (x ∷ es) e = behind (remove_at-Removed key i v es e) (x ∷ [])

no_node {ℓ} : {A : Type ℓ} {a : A} → none ≡ some a → ⊥
no_node e = cc

the_same {ℓ} : {A : Type ℓ} {a b : A} → some a ≡ some b → a ≡ b
the_same e = cc

-- a node from which an entry was deleted: its own, or one below
delete_in_hit :
    (key : ℕ) (is_leaf : Bool) (es : List Entry) (cs : Nodes) (below : Option Nodes) (n : BtreeNode)
    → delete_in key is_leaf es cs below ≡ some n
    → (is_leaf ≡ true)
        × ((v : ℕ) × (value_at key (find_key_index key es) es ≡ some v)
            × (n ≡ node true (remove_at (find_key_index key es) es) cs))
      ⊎ (is_leaf ≡ false) × (cs' : Nodes) × (below ≡ some cs') × (n ≡ node false es cs')
unfolding delete_in
delete_in_hit key is_leaf es cs below n e =
    split is_leaf (value_at key (find_key_index key es) es) below refl e
  where
    split :
        (l : Bool) (o : Option ℕ) (b : Option Nodes)
        → value_at key (find_key_index key es) es ≡ o
        → (elim o [
          | some v ↦ if l then some (node l (remove_at (find_key_index key es) es) cs) else none
          | none ↦ if l then none else (elim b [ none ↦ none | some cs' ↦ some (node l es cs') ])
        ])
          ≡ some n
        → (l ≡ true)
            × ((v : ℕ) × (value_at key (find_key_index key es) es ≡ some v)
                × (n ≡ node true (remove_at (find_key_index key es) es) cs))
          ⊎ (l ≡ false) × (cs' : Nodes) × (b ≡ some cs') × (n ≡ node false es cs')
    split true none b q e = absurd (no_node e)
    split false none none q e = absurd (no_node e)
    split false none (some cs') q e = inr (refl, cs', refl, sym (the_same e))
    split true (some v) b q e = inl (refl, (v, q, sym (the_same e)))
    split false (some v) b q e = absurd (no_node e)

or_first_hit :
    (cs : Nodes) (o : Option BtreeNode) (cs' : Nodes)
    → or_first cs o ≡ some cs'
    → (c : BtreeNode) × (o ≡ some c) × (cs' ≡ cons c cs)
or_first_hit cs none cs' e = absurd (no_node e)
or_first_hit cs (some c) cs' e = (c, refl, sym (the_same e))

or_later_hit :
    (c : BtreeNode) (o : Option Nodes) (cs' : Nodes)
    → or_later c o ≡ some cs'
    → (cs : Nodes) × (o ≡ some cs) × (cs' ≡ cons c cs)
or_later_hit c none cs' e = absurd (no_node e)
or_later_hit c (some cs) cs' e = (cs, refl, sym (the_same e))

first_Removed :
    (key : ℕ) (es : List Entry) (cs : Nodes) (c c' : BtreeNode)
    → Removed key (traverse c) (traverse c')
    → Removed key (weave es (cons c cs)) (weave es (cons c' cs))
unfolding traverse
first_Removed key [] cs c c' r = r
first_Removed key (x ∷ es) cs c c' r = in_front_of r (x ∷ weave es cs)

mutual
  unfolding traverse delete_from

  delete_from-Removed :
      (key : ℕ) (n n' : BtreeNode)
      → delete_from key n ≡ some n'
      → Removed key (traverse n) (traverse n')
  delete_from-Removed key (node l es cs) n' e =
      elim (delete_in_hit key l es cs (delete_child key (find_key_index key es) cs) n' e) [
        | inl (leaf, (v, a, same)) ↦
            rw (leaf, same) (remove_at-Removed key (find_key_index key es) v es a)
        | inr (inner, cs', b, same) ↦
            rw (inner, same)
              (delete_child-Removed key (find_key_index key es) es cs cs' (find_key_index-le key es)
                b)
      ]

  delete_child-Removed :
      (key i : ℕ) (es : List Entry) (cs cs' : Nodes)
      → i ≤ length es
      → delete_child key i cs ≡ some cs'
      → Removed key (weave es cs) (weave es cs')
  delete_child-Removed key i es nil cs' h e = absurd (no_node e)
  delete_child-Removed key zero es (cons c cs) cs' h e =
      let (c', b, same) = or_first_hit cs (delete_from key c) cs' e in
      rw same (first_Removed key es cs c c' (delete_from-Removed key c c' b))
  delete_child-Removed key (suc i) [] (cons c cs) cs' h e = absurd (omega arith)
  delete_child-Removed key (suc i) (x ∷ es) (cons c cs) cs' h e =
      let (ds, b, same) = or_later_hit c (delete_child key i cs) cs' e in
      rw same (
        behind (behind (delete_child-Removed key i es cs ds (omega arith) b) (x ∷ [])) (traverse c))

unfoldable mutual
  -- how many nodes there are
  pub node_count : BtreeNode → ℕ
  node_count (node l es cs) = suc (nodes_count cs)

  pub nodes_count : Nodes → ℕ
  nodes_count nil = 0
  nodes_count (cons c cs) = node_count c + nodes_count cs

mutual
  unfolding node_count delete_from

  node_count-delete_from :
      (key : ℕ) (n n' : BtreeNode) → delete_from key n ≡ some n' → node_count n' ≡ node_count n
  node_count-delete_from key (node l es cs) n' e =
      elim (delete_in_hit key l es cs (delete_child key (find_key_index key es) cs) n' e) [
        | inl (leaf, (v, a, same)) ↦ ap node_count same
        | inr (inner, cs', b, same) ↦
            ap node_count same
            ∙ ap suc (nodes_count-delete_child key (find_key_index key es) cs cs' b)
      ]

  nodes_count-delete_child :
      (key i : ℕ) (cs cs' : Nodes)
      → delete_child key i cs ≡ some cs'
      → nodes_count cs' ≡ nodes_count cs
  nodes_count-delete_child key i nil cs' e = absurd (no_node e)
  nodes_count-delete_child key zero (cons c cs) cs' e =
      let (c', b, same) = or_first_hit cs (delete_from key c) cs' e in
      ap nodes_count same ∙ ap (λ k. k + nodes_count cs) (node_count-delete_from key c c' b)
  nodes_count-delete_child key (suc i) (cons c cs) cs' e =
      let (ds, b, same) = or_later_hit c (delete_child key i cs) cs' e in
      ap nodes_count same ∙ ap (λ k. node_count c + k) (nodes_count-delete_child key i cs ds b)

-- the nodes that the tree has
abbrev pub nodes_of : Btree → ℕ
nodes_of t = elim t.root [ none ↦ 0 | some n ↦ node_count n ]

btree_delete_root :
    (key : ℕ) (t t' : Btree)
    → btree_delete key t ≡ some t'
    → (n : BtreeNode) × (n' : BtreeNode) × (t.root ≡ some n)
      × (delete_from key n ≡ some n')
      × (t'.root ≡ some n')
      × (t'.num_nodes ≡ t.num_nodes -ℤ pos 1)
unfolding btree_delete
btree_delete_root key t t' e = split t.root refl e
  where
    result : Option BtreeNode → Option Btree
    result o = elim o [
      | none ↦ none
      | some n' ↦ some (record t { root = some n'; num_nodes = t.num_nodes -ℤ pos 1 })
    ]

    inner :
        (n : BtreeNode) (o : Option BtreeNode)
        → delete_from key n ≡ o
        → t.root ≡ some n
        → result o ≡ some t'
        → (n : BtreeNode) × (n' : BtreeNode) × (t.root ≡ some n)
          × (delete_from key n ≡ some n')
          × (t'.root ≡ some n')
          × (t'.num_nodes ≡ t.num_nodes -ℤ pos 1)
    inner n none d r e = absurd (no_node e)
    inner n (some n') d r e =
        let same = the_same e in
        (
          n,
          n',
          r,
          d,
          ap (λ (b : Btree). b.root) (sym same),
          ap (λ (b : Btree). b.num_nodes) (sym same),
        )

    split :
        (o : Option BtreeNode)
        → t.root ≡ o
        → (elim o [ none ↦ none | some n ↦ result (delete_from key n) ]) ≡ some t'
        → (n : BtreeNode) × (n' : BtreeNode) × (t.root ≡ some n)
          × (delete_from key n ≡ some n')
          × (t'.root ≡ some n')
          × (t'.num_nodes ≡ t.num_nodes -ℤ pos 1)
    split none r e = absurd (no_node e)
    split (some n) r e = inner n (delete_from key n) refl r e

traversal : (t : Btree) (n : BtreeNode) → t.root ≡ some n → btree_traverse t ≡ traverse n
unfolding btree_traverse
traversal t n r = ap (λ (o : Option BtreeNode). elim o [ none ↦ [] | some m ↦ traverse m ]) r

-- When `btree_delete` succeeds, the traversal of the tree is the one before without one entry, which
-- has the key. The tree has as many nodes as before, but its `num_nodes` is one less.
pub btree_delete_lem :
    (key : ℕ) (t t' : Btree)
    → btree_delete key t ≡ some t'
    → Removed key (btree_traverse t) (btree_traverse t')
      × (nodes_of t' ≡ nodes_of t)
      × (t'.num_nodes ≡ t.num_nodes -ℤ pos 1)
btree_delete_lem key t t' e =
    let (n, n', r, d, r', c) = btree_delete_root key t t' e in
    (
      rw (traversal t n r, traversal t' n' r') (delete_from-Removed key n n' d),
      ap (λ (o : Option BtreeNode). elim o [ none ↦ 0 | some m ↦ node_count m ]) r'
          ∙ node_count-delete_from key n n' d
          ∙ ap (λ (o : Option BtreeNode). elim o [ none ↦ 0 | some m ↦ node_count m ]) (sym r),
      c,
    )
