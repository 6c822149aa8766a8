-- ===== src/Inode.antt =====
-- The file system of inode.c and inode.h: bitmaps of blocks and inodes, the table of inodes, and files
-- over their direct blocks. A pointer to an inode is its index in the table plus one, 0 for NULL; the
-- memory holds the bytes of the block storage. The three times, which nothing reads, are left out.
pub mod Bits
pub mod Bitmap
pub mod Files
pub mod Invariant
pub mod Ensure
pub mod Pieces
pub mod Written
pub mod Write
pub mod Loop
pub mod Read
pub mod Calls
pub mod Release
pub mod Ops
pub mod Alloc
pub mod Names
mod Tests
use fru1t_os.Prelude.{
  ℕ, zero, suc, ◌+◌, ◌-◌, ◌*◌, ◌/◌, ◌%◌, ◌^◌, Bool, true, false, not, ◌||◌, ◌&&◌, Option, none,
  some, List, [], ◌∷◌, ◌++◌, ltb, leb, ◌==◌, if◌then◌else◌, length, take, get_or, set, replicate,
}
use fru1t_os.Prelude.Int.{ℤ, pos, negsuc, ◌-ℤ◌}
use fru1t_os.Memory.{MemBlock, kmalloc, kfree}
use fru1t_os.CString.{strlen}
use fru1t_os.Fs.{store, load}
use fru1t_os.Btree.{Btree, btree_init, btree_search, btree_insert}
use fru1t_os.Btree.Delete.{btree_delete}
use fru1t_os.Inode.Bitmap.{
  bitmap_init, bitmap_set, bitmap_clear, bitmap_test, bitmap_find_free, find_free_from,
}

abbrev pub max_inode_count : ℕ
max_inode_count = 256

abbrev pub max_filename_len : ℕ
max_filename_len = 64

abbrev pub num_direct_blocks : ℕ
num_direct_blocks = 10

abbrev pub fs_block_size : ℕ
fs_block_size = 512

abbrev pub max_blocks : ℕ
max_blocks = 1024

-- `struct inode`
pub record Inode : Type 0 where
  pub inode_num : ℕ
  pub type : ℕ
  pub size : ℕ
  pub permissions : ℕ
  pub link_count : ℕ
  pub block_count : ℕ
  pub direct_blocks : List ℕ
  pub indirect_block : ℕ
  pub double_indirect_block : ℕ
  pub in_use : Bool

-- `struct btree_filesystem`, the heap and the bytes at each address. The totals are constants.
pub record BtreeFilesystem : Type 0 where
  pub inode_tree : Btree
  pub name_tree : Btree
  pub inodes : List Inode
  pub block_storage : ℕ
  pub block_bitmap : List ℕ
  pub inode_bitmap : List ℕ
  pub free_inodes : ℤ
  pub free_blocks : ℤ
  pub heap : List MemBlock
  pub memory : ℕ → ℕ

abbrev pub no_inode : Inode
no_inode = record {
  inode_num = 0;
  type = 0;
  size = 0;
  permissions = 0;
  link_count = 0;
  block_count = 0;
  direct_blocks = [];
  indirect_block = 0;
  double_indirect_block = 0;
  in_use = false;
}

abbrev pub inode_at : BtreeFilesystem → ℕ → Inode
inode_at fs i = get_or fs.inodes i no_inode

abbrev pub set_inode : ℕ → Inode → BtreeFilesystem → BtreeFilesystem
set_inode i n fs = record fs { inodes = set fs.inodes i n }

-- hash * 33 + c over 32 bits
unfoldable pub hash_from : ℕ → List ℕ → ℕ
hash_from hash [] = hash
hash_from hash (c ∷ cs) = hash_from ((hash * 33 + c) % 2 ^ 32) cs

unfoldable pub hash_string : List ℕ → ℕ
hash_string s = hash_from 5381 s

abbrev pub numbered_from : ℕ → List Inode → List Inode
numbered_from i [] = []
numbered_from i (n ∷ ns) = record n { in_use = false; inode_num = i } ∷ numbered_from (i + 1) ns

-- `none` is the panic without memory
unfoldable pub inode_fs_init : BtreeFilesystem → Option BtreeFilesystem
inode_fs_init fs = elim (kmalloc (fs_block_size * max_blocks) fs.heap).0 [
  | none ↦ none
  | some p ↦ some (record {
    inode_tree = btree_init;
    name_tree = btree_init;
    inodes = numbered_from 0 fs.inodes;
    block_storage = p;
    block_bitmap = bitmap_init fs.block_bitmap;
    inode_bitmap = bitmap_init fs.inode_bitmap;
    free_inodes = pos max_inode_count;
    free_blocks = pos max_blocks;
    heap = (kmalloc (fs_block_size * max_blocks) fs.heap).1;
    memory = fs.memory;
  })
]

-- `none` is NULL
unfoldable pub block_get_ptr : BtreeFilesystem → ℕ → Option ℕ
block_get_ptr fs b =
    if b == 0 || leb max_blocks b then none else some (fs.block_storage + b * fs_block_size)

unfoldable pub block_is_allocated : BtreeFilesystem → ℕ → Bool
block_is_allocated fs b = bitmap_test fs.block_bitmap b

abbrev pub cleared_block : Option ℕ → (ℕ → ℕ) → ℕ → ℕ
cleared_block none memory = memory
cleared_block (some p) memory = store p (replicate fs_block_size 0) memory

-- what taking block `b` does: the bit, the count, and the bytes
unfoldable pub take_block : ℕ → BtreeFilesystem → BtreeFilesystem
take_block b fs = record fs {
  block_bitmap = bitmap_set fs.block_bitmap b;
  free_blocks = fs.free_blocks -ℤ pos 1;
  memory = cleared_block (block_get_ptr fs b) fs.memory;
}

-- `none` is 0; the search starts from block 1
unfoldable pub block_alloc : BtreeFilesystem → Option ℕ × BtreeFilesystem
block_alloc fs = elim (find_free_from (max_blocks - 1) 1 fs.block_bitmap) [
  | none ↦ (none, fs)
  | some b ↦ (some b, take_block b fs)
]

unfoldable pub block_free : ℕ → BtreeFilesystem → BtreeFilesystem
block_free b fs = if b == 0 || leb max_blocks b then fs else record fs {
  block_bitmap = bitmap_clear fs.block_bitmap b;
  free_blocks = fs.free_blocks -ℤ negsuc 0;
}

-- the inode as `inode_alloc` sets it up
abbrev pub fresh_inode : (i type : ℕ) → Inode
fresh_inode i type = record {
  inode_num = i;
  type = type;
  size = 0;
  permissions = 6;
  link_count = 1;
  block_count = 0;
  direct_blocks = replicate num_direct_blocks 0;
  indirect_block = 0;
  double_indirect_block = 0;
  in_use = true;
}

-- the outer `none` is a fault of `btree_insert`, whose answer is not looked at; the inner one is NULL
unfoldable pub inode_alloc : ℕ → BtreeFilesystem → Option (Option ℕ × BtreeFilesystem)
inode_alloc type fs = elim (bitmap_find_free fs.inode_bitmap max_inode_count) [
  | none ↦ some (none, fs)
  | some i ↦ elim (btree_insert i (i + 1) fs.inode_tree fs.heap) [
    | none ↦ none
    | some (ok, tree, heap) ↦ some (
      some i,
      record fs {
        inode_tree = tree;
        inodes = set fs.inodes i (fresh_inode i type);
        inode_bitmap = bitmap_set fs.inode_bitmap i;
        free_inodes = fs.free_inodes -ℤ pos 1;
        heap = heap;
      },
    )
  ]
]

-- the loop over the direct blocks of a file that is freed, at most `n` of them
unfoldable pub free_blocks_of : (n : ℕ) → List ℕ → BtreeFilesystem → BtreeFilesystem
free_blocks_of zero bs fs = fs
free_blocks_of (suc n) [] fs = fs
free_blocks_of (suc n) (b ∷ bs) fs = free_blocks_of n bs (if ltb 0 b then block_free b fs else fs)

abbrev pub deleted_or : Btree → Option Btree → Btree
deleted_or t none = t
deleted_or t (some t') = t'

unfoldable pub inode_free : ℕ → BtreeFilesystem → BtreeFilesystem
inode_free i fs =
    let n = inode_at fs i in
    let fs' = free_blocks_of n.block_count n.direct_blocks fs in
    if n.in_use
    then record fs' {
      inode_tree = deleted_or fs'.inode_tree (btree_delete n.inode_num fs'.inode_tree);
      inodes = set fs'.inodes i (record n { in_use = false });
      inode_bitmap = bitmap_clear fs'.inode_bitmap n.inode_num;
      free_inodes = fs'.free_inodes -ℤ negsuc 0;
    }
    else fs

-- a pointer
unfoldable pub inode_get : ℕ → BtreeFilesystem → ℕ
inode_get num fs = btree_search num fs.inode_tree
