-- ===== src/Inode/Invariant.antt =====
-- When the inodes and the bitmap of blocks fit together, and what a block that is taken or given back
-- does to that.
use native.Mathlib.Decide.{ℕ_discrete}
use fru1t_os.Prelude.{
  ℕ, zero, suc, ◌+◌, ◌*◌, ◌≤◌, ◌<◌, ◌≡◌, ◌≢◌, ◌⊎◌, inl, inr, refl, true, false, ◌||◌, none, some,
  List, [], ◌∷◌, leb, ◌==◌, if◌then◌else◌, arith, length, get_or, set, replicate, Bool-cases,
  get_or-set_self, get_or-set_ne, length-replicate,
}
use fru1t_os.Fs.{store}
use fru1t_os.Fs.Bytes.{store_outside}
use fru1t_os.Inode.{
  Inode, BtreeFilesystem, no_inode, inode_at, num_direct_blocks, fs_block_size, max_blocks,
  max_inode_count, block_get_ptr, take_block, block_alloc, block_free,
}
use fru1t_os.Inode.Bitmap.{
  bitmap_clear, bitmap_test, find_free-cases, bitmap_test-bitmap_set, length-bitmap_set,
}

-- the block at index `k` of inode `i`, 0 for none
abbrev pub block_of : BtreeFilesystem → ℕ → ℕ → ℕ
block_of fs i k = get_or (inode_at fs i).direct_blocks k 0

-- where byte `o` of a block stands
abbrev pub place : BtreeFilesystem → (b o : ℕ) → ℕ
place fs b o = fs.block_storage + b * fs_block_size + o

abbrev pub IsUsed : BtreeFilesystem → ℕ → Type 0
IsUsed fs i = (inode_at fs i).in_use ≡ true

-- The tables have their sizes; the blocks of an inode in use are marked in the bitmap, and no block
-- stands in two places.
pub record IsValid (fs : BtreeFilesystem) : Type 0 where
  pub words : length fs.block_bitmap ≡ 32
  pub table : length fs.inodes ≡ max_inode_count
  pub directs :
      (i : ℕ) → i < max_inode_count → length (inode_at fs i).direct_blocks ≡ num_direct_blocks
  pub marked :
      (i k : ℕ)
      → IsUsed fs i
      → (block_of fs i k ≡ 0)
        ⊎ (block_of fs i k < max_blocks) × (bitmap_test fs.block_bitmap (block_of fs i k) ≡ true)
  pub apart :
      (i j k l : ℕ)
      → IsUsed fs i
      → IsUsed fs j
      → 0 < block_of fs i k
      → block_of fs i k ≡ block_of fs j l
      → (i ≡ j) × (k ≡ l)

-- inode `j` behind a write of inode `i`
pub inode_at-set :
    (ns : List Inode) (i j : ℕ) (n : Inode)
    → i < length ns
    → (i ≡ j) × (get_or (set ns i n) j no_inode ≡ n)
      ⊎ (i ≢ j) × (get_or (set ns i n) j no_inode ≡ get_or ns j no_inode)
inode_at-set ns i j n h = elim (ℕ_discrete i j) [
  | yes e ↦ inl (e, rw (← e) (get_or-set_self ns i n no_inode h))
  | no ne ↦ inr (ne, get_or-set_ne ns i j n no_inode ne)
]

pub used_lt : {fs : BtreeFilesystem} (i : ℕ) → IsValid fs → IsUsed fs i → i < max_inode_count
used_lt {fs} i v u = rw (← v.table) (inside fs.inodes i u)
  where
    inside : (ns : List Inode) (i : ℕ) → (get_or ns i no_inode).in_use ≡ true → i < length ns
    inside [] i u = cc
    inside (n ∷ ns) zero u = omega arith
    inside (n ∷ ns) (suc i) u = omega (arith, inside ns i u)

pub block_get_ptr_hit :
    (fs : BtreeFilesystem) (b : ℕ)
    → 0 < b
    → b < max_blocks
    → block_get_ptr fs b ≡ some (fs.block_storage + b * fs_block_size)
unfolding block_get_ptr
block_get_ptr_hit fs b h l = let t : (b == 0 || leb max_blocks b) ≡ false = ground arith in rw t

store_zeros :
    (p n : ℕ) (m : ℕ → ℕ) (a : ℕ) → (a < p) ⊎ (p + n ≤ a) → store p (replicate n 0) m a ≡ m a
store_zeros p n m a h =
    let e : length (replicate {A = ℕ} n 0) ≡ n = length-replicate n 0 in
    store_outside p (replicate n 0) m a (elim h [ inl b ↦ inl b | inr b ↦ inr (omega arith) ])

-- taking one block leaves the bytes of another
pub take_block_other :
    (fs : BtreeFilesystem) (b c o : ℕ)
    → 0 < b
    → b < max_blocks
    → b ≢ c
    → o < fs_block_size
    → (take_block b fs).memory (place fs c o) ≡ fs.memory (place fs c o)
unfolding take_block
take_block_other fs b c o h l ne lo = rw (block_get_ptr_hit fs b h l) (
    store_zeros (fs.block_storage + b * fs_block_size) fs_block_size fs.memory (place fs c o)
      (elim (Bool-cases (leb b c)) [
        | inl t ↦ let d : b < c = ground arith in inr (omega arith)
        | inr t ↦ let d : c < b = ground arith in inl (omega arith)
      ]))

-- the first block that is not marked, which `block_alloc` takes; `none` when all are
pub block_alloc-cases :
    (fs : BtreeFilesystem)
    → (block_alloc fs ≡ (none, fs))
        × ((b : ℕ) → 1 ≤ b → b < max_blocks → bitmap_test fs.block_bitmap b ≡ true)
      ⊎ ((b : ℕ) × (block_alloc fs ≡ (some b, take_block b fs))
          × (1 ≤ b)
          × (b < max_blocks)
          × (bitmap_test fs.block_bitmap b ≡ false)
          × ((c : ℕ) → 1 ≤ c → c < b → bitmap_test fs.block_bitmap c ≡ true))
unfolding block_alloc
block_alloc-cases fs = elim (find_free-cases 1023 1 fs.block_bitmap) [
  | inl (e, r) ↦ inl (rw (e, block_alloc), λ b l h. r b l (omega arith))
  | inr (b, e, (l, h, f, r)) ↦ inr (b, rw (e, block_alloc), l, omega arith, f, r)
]

-- the bits behind the taking of a block
pub marks-take_block :
    (fs : BtreeFilesystem) (b c : ℕ)
    → length fs.block_bitmap ≡ 32
    → b < max_blocks
    → bitmap_test (take_block b fs).block_bitmap c
      ≡ (if b == c then true else bitmap_test fs.block_bitmap c)
unfolding take_block
marks-take_block fs b c e h = bitmap_test-bitmap_set fs.block_bitmap b c (omega arith)

pub words-take_block :
    (fs : BtreeFilesystem) (b : ℕ) → length (take_block b fs).block_bitmap ≡ length fs.block_bitmap
unfolding take_block
words-take_block fs b = length-bitmap_set fs.block_bitmap b

pub block_free_hit :
    (fs : BtreeFilesystem) (b : ℕ)
    → 0 < b
    → b < max_blocks
    → (block_free b fs).block_bitmap ≡ bitmap_clear fs.block_bitmap b
unfolding block_free
block_free_hit fs b h l = let t : (b == 0 || leb max_blocks b) ≡ false = ground arith in rw t refl
