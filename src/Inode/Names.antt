-- ===== src/Inode/Names.antt =====
-- The files of inode.c by name: `btree_fs_create`, `btree_fs_open`, `btree_fs_read`, `btree_fs_write` and
-- `btree_fs_delete`. The name tree maps the hash of a name to the pointer of an inode.
use fru1t_os.Prelude.{
  ℕ, suc, ◌+◌, ◌-◌, ◌<◌, ◌≡◌, refl, ap, ◌∙◌, Bool, true, false, not, Option, none, some, List, ◌==◌,
  leb, if◌then◌else◌, arith, length, get_or-set_self,
}
use fru1t_os.CString.{strlen}
use fru1t_os.Btree.{
  Btree, BtreeNode, Nodes, node, Entry, find_key_index, value_at, found_or, search, search_child,
  btree_search, btree_insert,
}
use fru1t_os.Btree.Delete.{delete_from, btree_delete, delete_in, delete_child}
use fru1t_os.Inode.{
  Inode, BtreeFilesystem, inode_at, max_filename_len, hash_string, inode_alloc, inode_free,
  inode_get, deleted_or, free_blocks_of, no_inode,
}
use fru1t_os.Inode.Files.{inode_read, inode_write}
use fru1t_os.Inode.Invariant.{IsUsed, IsValid, used_lt}
use fru1t_os.Inode.Release.{free_blocks_of-Returned}

-- the outer `none` is a fault of a tree's insertion, the inner one is -1
unfoldable pub btree_fs_create :
    (filename : List ℕ) (type : ℕ) → BtreeFilesystem → Option (Option ℕ × BtreeFilesystem)
btree_fs_create filename type fs =
    if leb max_filename_len (strlen filename)
    then some (none, fs)
    else if not (btree_search (hash_string filename) fs.name_tree == 0)
    then some (none, fs)
    else (elim (inode_alloc type fs) [
      | none ↦ none
      | some (none, fs') ↦ some (none, fs')
      | some (some i, fs') ↦
          elim (btree_insert (hash_string filename) (i + 1) fs'.name_tree fs'.heap) [
            | none ↦ none
            | some (ok, tree, heap) ↦
                some (some (inode_at fs' i).inode_num, record fs' { name_tree = tree; heap = heap })
          ]
    ])

-- `none` is -1
unfoldable pub btree_fs_open : (filename : List ℕ) → BtreeFilesystem → Option ℕ
btree_fs_open filename fs =
    let p : ℕ = btree_search (hash_string filename) fs.name_tree in
    if p == 0 then none else some (inode_at fs (p - 1)).inode_num

unfoldable pub btree_fs_read : (filename : List ℕ) (size : ℕ) → BtreeFilesystem → Option (List ℕ)
btree_fs_read filename size fs = elim (btree_fs_open filename fs) [
  | none ↦ none
  | some num ↦
      if inode_get num fs == 0 then none else some (inode_read (inode_get num fs - 1) 0 size fs)
]

unfoldable pub btree_fs_write :
    (filename bytes : List ℕ) → BtreeFilesystem → Option (ℕ × BtreeFilesystem)
btree_fs_write filename bytes fs = elim (btree_fs_open filename fs) [
  | none ↦ none
  | some num ↦
      if inode_get num fs == 0 then none else some (inode_write (inode_get num fs - 1) 0 bytes fs)
]

-- the flag is false for -1; the answer of `btree_delete` is not looked at
unfoldable pub btree_fs_delete : (filename : List ℕ) → BtreeFilesystem → Bool × BtreeFilesystem
btree_fs_delete filename fs =
    let p : ℕ = btree_search (hash_string filename) fs.name_tree in
    if p == 0 then (false, fs) else (
      true,
      inode_free (p - 1) (record fs {
        name_tree = deleted_or fs.name_tree (btree_delete (hash_string filename) fs.name_tree);
      }),
    )

module _ (key i : ℕ) (es : List Entry) (cs : Nodes) (t : Btree)
    (r : t.root ≡ some (node false es cs))
    (at : value_at key (find_key_index key es) es ≡ some (suc i)) where
  search_inner : search key (node false es cs) ≡ suc i
  unfolding search
  search_inner = ap (λ o. found_or o false (search_child key (find_key_index key es) cs)) at

  search_root : btree_search key t ≡ suc i
  unfolding btree_search
  search_root =
      ap (λ (o : Option BtreeNode). elim o [ none ↦ 0 | some n ↦ search key n ]) r ∙ search_inner

  kept_inner : (below : Option Nodes) → delete_in key false es cs below ≡ none
  unfolding delete_in
  kept_inner below = rw (at, delete_in)

  kept_root : btree_delete key t ≡ none
  unfolding btree_delete delete_from delete_in
  kept_root =
      let kept : delete_from key (node false es cs) ≡ none =
        kept_from (kept_inner (delete_child key (find_key_index key es) cs)) in
      rw (r, kept, btree_delete)
    where
      kept_from :
          delete_in key false es cs (delete_child key (find_key_index key es) cs) ≡ none
          → delete_from key (node false es cs) ≡ none
      kept_from e = e

free_names :
    (i : ℕ) (fs : BtreeFilesystem)
    → IsValid fs
    → IsUsed fs i
    → ((inode_free i fs).name_tree ≡ fs.name_tree) × ((inode_at (inode_free i fs) i).in_use ≡ false)
unfolding inode_free
free_names i fs v u =
    let n = inode_at fs i in
    let r = free_blocks_of-Returned n.block_count n.direct_blocks fs v.words in
    let room : i < length (free_blocks_of n.block_count n.direct_blocks fs).inodes =
      rw (r.inodes, v.table) (used_lt i v u) in
    rw u (
      r.names,
      ap (λ (m : Inode). m.in_use)
          (get_or-set_self (free_blocks_of n.block_count n.direct_blocks fs).inodes i
            (record n { in_use = false }) no_inode room),
    )

delete_equation :
    (filename : List ℕ) (i : ℕ) (fs : BtreeFilesystem)
    → btree_search (hash_string filename) fs.name_tree ≡ suc i
    → btree_delete (hash_string filename) fs.name_tree ≡ none
    → btree_fs_delete filename fs ≡ (true, inode_free i fs)
unfolding btree_fs_delete
delete_equation filename i fs s d =
    let t : (suc i == 0) ≡ false = ground arith in
    let n : suc i - 1 ≡ i = omega arith in rw (s, t, d, n) refl

open_equation :
    (filename : List ℕ) (i : ℕ) (fs : BtreeFilesystem)
    → btree_search (hash_string filename) fs.name_tree ≡ suc i
    → btree_fs_open filename fs ≡ some (inode_at fs i).inode_num
unfolding btree_fs_open
open_equation filename i fs s =
    let t : (suc i == 0) ≡ false = ground arith in
    let n : suc i - 1 ≡ i = omega arith in rw (s, t, n) refl

-- Where the hash of a name is a key of an inner root of the name tree, `btree_fs_delete` reports success
-- and frees the inode, but the name stays: it still opens, to the freed inode.
pub open-deleted :
    (filename : List ℕ) (i : ℕ) (es : List Entry) (cs : Nodes) {fs : BtreeFilesystem}
    → IsValid fs
    → IsUsed fs i
    → fs.name_tree.root ≡ some (node false es cs)
    → value_at (hash_string filename) (find_key_index (hash_string filename) es) es ≡ some (suc i)
    → ((btree_fs_delete filename fs).0 ≡ true)
      × ((inode_at (btree_fs_delete filename fs).1 i).in_use ≡ false)
      × (btree_fs_open filename (btree_fs_delete filename fs).1
          ≡ some (inode_at (btree_fs_delete filename fs).1 i).inode_num)
open-deleted filename i es cs {fs} v u r at =
    let key : ℕ = hash_string filename in
    let found = search_root key i es cs fs.name_tree r at in
    let (names, freed) = free_names i fs v u in
    rw (delete_equation filename i fs found (kept_root key i es cs fs.name_tree r at)) (
      refl,
      freed,
      open_equation filename i (inode_free i fs) (ap (btree_search key) names ∙ found),
    )
