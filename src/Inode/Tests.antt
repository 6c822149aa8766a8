-- ===== src/Inode/Tests.antt =====
-- Runs of the inodes and blocks, and the theorems at a file system with two empty inodes.
use fru1t_os.Prelude.{
  ℕ, zero, suc, ◌+◌, ◌/◌, ◌≤◌, ◌<◌, ◌≡◌, ◌⊎◌, inl, inr, refl, sym, ◌∙◌, true, false, none, some,
  List, [], ◌∷◌, arith, length, take, get_or, set, replicate, length-replicate,
}
use fru1t_os.Prelude.Int.{pos}
use fru1t_os.Btree.{
  Btree, Entry, Nodes, node, nil, cons, btree_init, btree_insert, find_key_index, value_at,
  btree_search, search,
}
use fru1t_os.Inode.{
  Inode, BtreeFilesystem, no_inode, inode_at, num_direct_blocks, fs_block_size, max_blocks,
  max_inode_count, fresh_inode, hash_from, hash_string, block_alloc, take_block, block_get_ptr,
  inode_alloc, inode_free,
}
use fru1t_os.Fs.{load, store}
use fru1t_os.Inode.Bitmap.{bitmap_test, find_free_from}
use fru1t_os.Inode.Files.{
  inode_read, inode_write, inode_truncate, write_loop, read_loop, ensure_block, address_of,
}
use fru1t_os.Inode.Invariant.{block_of, IsValid}
use fru1t_os.Inode.Release.{rewritten-IsValid}
use fru1t_os.Inode.Ops.{release-IsValid}
use fru1t_os.Inode.Alloc.{Fresh, Taken, inode_words, inode_alloc_lem, block_alloc_lem}
use fru1t_os.Inode.Calls.{inode_read-inode_write, inode_read-inode_write_other}
use fru1t_os.Inode.Names.{btree_fs_open, btree_fs_delete, open-deleted}

abbrev blank : Inode
blank = record (fresh_inode 0 0) { in_use = false }

-- a name tree of two levels, with "a" as the key of the root
abbrev a : List ℕ
a = 97 ∷ []

abbrev root_entries : List Entry
root_entries = (177670, 1) ∷ []

abbrev root_children : Nodes
root_children = cons (node true ((10, 2) ∷ []) nil) (cons (node true ((200000, 3) ∷ []) nil) nil)

abbrev names : Btree
names = record {
  root = some (node false root_entries root_children);
  height = 2;
  num_nodes = pos 3;
}

abbrev empty : BtreeFilesystem
empty = record {
  inode_tree = btree_init;
  name_tree = names;
  inodes = replicate max_inode_count blank;
  block_storage = 4096;
  block_bitmap = replicate 32 0;
  inode_bitmap = 3 ∷ replicate 7 0;
  free_inodes = pos 254;
  free_blocks = pos 1024;
  heap = [];
  memory = λ p. 7;
}

abbrev one_inode : BtreeFilesystem
one_inode = record empty { inodes = set empty.inodes 0 (fresh_inode 0 1) }

abbrev two_inodes : BtreeFilesystem
two_inodes = record one_inode { inodes = set one_inode.inodes 1 (fresh_inode 1 1) }

blank_at :
    (n i : ℕ)
    → ((get_or (replicate n blank) i no_inode).in_use ≡ false)
      × (i < n → length (get_or (replicate n blank) i no_inode).direct_blocks ≡ num_direct_blocks)
blank_at zero i = (refl, λ l. absurd (omega arith))
blank_at (suc n) zero = (refl, λ l. refl)
blank_at (suc n) (suc i) = ((blank_at n i).0, λ l. (blank_at n i).1 (omega arith))

true_ne : true ≡ false → ⊥
true_ne e = cc

empty-IsValid : IsValid empty
empty-IsValid = record {
  words = refl;
  table = length-replicate max_inode_count blank;
  directs = λ i l. (blank_at max_inode_count i).1 l;
  marked = λ i k u. absurd (true_ne (sym u ∙ (blank_at max_inode_count i).0));
  apart = λ i j k l u w h e. absurd (true_ne (sym u ∙ (blank_at max_inode_count i).0));
}

no_blocks : (n k : ℕ) → get_or (replicate {A = ℕ} n 0) k 0 ≡ 0
no_blocks zero k = refl
no_blocks (suc n) zero = refl
no_blocks (suc n) (suc k) = no_blocks n k

one_inode-IsValid : IsValid one_inode
one_inode-IsValid =
    rewritten-IsValid one_inode 0 (fresh_inode 0 1) empty-IsValid (omega arith) refl refl refl
      (inr (λ k. inl (no_blocks 10 k))) (λ j k ne u h. refl)

two_inodes-IsValid : IsValid two_inodes
two_inodes-IsValid =
    rewritten-IsValid two_inodes 1 (fresh_inode 1 1) one_inode-IsValid (omega arith) refl refl refl
      (inr (λ k. inl (no_blocks 10 k))) (λ j k ne u h. refl)

abbrev happy : List ℕ
happy = 104 ∷ 105 ∷ []

-- the file system with the two bytes in a first block of inode 0
abbrev one_block : BtreeFilesystem
one_block = (inode_write 0 0 happy two_inodes).1

write_runs :
    ((inode_write 0 0 happy two_inodes).0 ≡ 2)
    × (inode_read 0 1 9 one_block ≡ 105 ∷ [])
    × (block_of one_block 0 0 ≡ 1)
unfolding inode_write write_loop ensure_block block_alloc address_of block_get_ptr take_block
    find_free_from bitmap_test inode_read read_loop load store
write_runs = (refl, refl, refl)

hash_runs : hash_string a ≡ 177670
unfolding hash_string hash_from
hash_runs = refl

open_runs : btree_fs_open a two_inodes ≡ some 0
unfolding btree_fs_open btree_search search find_key_index value_at hash_string hash_from
open_runs = refl

key_at_root :
    value_at (hash_string a) (find_key_index (hash_string a) root_entries) root_entries
    ≡ some (suc 0)
unfolding hash_string hash_from find_key_index value_at
key_at_root = refl

used_runs : ((inode_at one_block 0).in_use ≡ true) × ((inode_at one_block 1).in_use ≡ true)
unfolding inode_write write_loop ensure_block block_alloc address_of block_get_ptr take_block
    find_free_from bitmap_test
used_runs = (refl, refl)

inode_read-inode_write_example :
    (inode_read 0 0 (inode_write 0 0 happy two_inodes).0 (inode_write 0 0 happy two_inodes).1
      ≡ take (inode_write 0 0 happy two_inodes).0 happy)
    × ((inode_write 0 0 happy two_inodes).0 ≤ 2)
    × (((inode_write 0 0 happy two_inodes).0 ≡ 2)
        ⊎ (num_direct_blocks ≤ (0 + (inode_write 0 0 happy two_inodes).0) / fs_block_size)
        ⊎ ((b : ℕ)
            → 1 ≤ b
            → b < max_blocks
            → bitmap_test (inode_write 0 0 happy two_inodes).1.block_bitmap b ≡ true))
    × IsValid (inode_write 0 0 happy two_inodes).1
inode_read-inode_write_example =
    inode_read-inode_write 0 0 happy two_inodes-IsValid refl (omega arith)

one_block-IsValid : IsValid one_block
one_block-IsValid = inode_read-inode_write_example.3

inode_read-inode_write_other_example :
    inode_read 0 0 2 (inode_write 1 0 (120 ∷ []) one_block).1 ≡ inode_read 0 0 2 one_block
inode_read-inode_write_other_example =
    inode_read-inode_write_other 1 0 (120 ∷ []) one_block-IsValid used_runs.1 (omega arith) 0 0 2
      (omega arith) used_runs.0

release-IsValid_example : IsValid (inode_free 1 one_block) × IsValid (inode_truncate 0 1 one_block)
release-IsValid_example = release-IsValid 1 0 1 one_block-IsValid used_runs.0

one_block_words : length one_block.inode_bitmap ≡ inode_words
unfolding inode_write write_loop ensure_block block_alloc address_of block_get_ptr take_block
    find_free_from bitmap_test
one_block_words = refl

inode_alloc_lem_example :
    (inode_alloc 1 one_block ≡ some (none, one_block))
      × ((i : ℕ) → i < max_inode_count → bitmap_test one_block.inode_bitmap i ≡ true)
    ⊎ ((i : ℕ) × (inode_alloc 1 one_block ≡ none)
        × (btree_insert i (i + 1) one_block.inode_tree one_block.heap ≡ none))
    ⊎ ((i : ℕ) × (fs' : BtreeFilesystem) × (inode_alloc 1 one_block ≡ some (some i, fs'))
        × Fresh i 1 one_block fs')
inode_alloc_lem_example = inode_alloc_lem 1 one_block-IsValid one_block_words

block_alloc_lem_example :
    (block_alloc one_block ≡ (none, one_block))
      × ((b : ℕ) → 1 ≤ b → b < max_blocks → bitmap_test one_block.block_bitmap b ≡ true)
    ⊎ ((b : ℕ) × (fs' : BtreeFilesystem) × (block_alloc one_block ≡ (some b, fs'))
        × Taken b one_block fs')
block_alloc_lem_example = block_alloc_lem one_block-IsValid

open-deleted_example :
    ((btree_fs_delete a two_inodes).0 ≡ true)
    × ((inode_at (btree_fs_delete a two_inodes).1 0).in_use ≡ false)
    × (btree_fs_open a (btree_fs_delete a two_inodes).1
        ≡ some (inode_at (btree_fs_delete a two_inodes).1 0).inode_num)
open-deleted_example =
    open-deleted a 0 root_entries root_children two_inodes-IsValid refl refl key_at_root
