-- ===== src/Inode/Alloc.antt =====
-- `block_alloc` and `inode_alloc` on a valid file system.
use fru1t_os.Prelude.{
  ℕ, zero, suc, ◌+◌, ◌*◌, ◌/◌, ◌≤◌, ◌<◌, ◌≡◌, ◌≢◌, ◌⊎◌, inl, inr, refl, ap, ◌∙◌, Bool, true, false,
  none, some, List, ◌==◌, if◌then◌else◌, arith, length, get_or, set, replicate, Option-cases,
  length-replicate,
}
use fru1t_os.Prelude.Int.{pos, ◌-ℤ◌}
use fru1t_os.Memory.{MemBlock}
use fru1t_os.Inode.Pieces.{store_inside}
use fru1t_os.Btree.{Btree, btree_insert}
use fru1t_os.Inode.{
  BtreeFilesystem, inode_at, num_direct_blocks, fs_block_size, max_blocks, max_inode_count,
  take_block, block_alloc, fresh_inode, inode_alloc,
}
use fru1t_os.Inode.Bitmap.{
  bitmap_test, bitmap_find_free, bitmap_set, find_free-cases, bitmap_test-bitmap_set,
  length-bitmap_set,
}
use fru1t_os.Inode.Invariant.{
  block_of, place, IsValid, block_alloc-cases, marks-take_block, words-take_block, take_block_other,
  block_get_ptr_hit,
}
use fru1t_os.Inode.Release.{rewritten, rewritten-IsValid}

zeros : (n k d : ℕ) → d ≡ 0 → get_or (replicate n d) k d ≡ d
zeros zero k d e = refl
zeros (suc n) zero d e = refl
zeros (suc n) (suc k) d e = zeros n k d e

-- MAX_INODE_COUNT / 32
abbrev pub inode_words : ℕ
inode_words = max_inode_count / 32

-- an inode that `inode_alloc` has set up in slot `i`
pub record Fresh (i type : ℕ) (fs fs' : BtreeFilesystem) : Type 0 where
  pub inside : i < max_inode_count
  pub was_free : bitmap_test fs.inode_bitmap i ≡ false
  pub first : (j : ℕ) → j < i → bitmap_test fs.inode_bitmap j ≡ true
  pub marks :
      (j : ℕ)
      → bitmap_test fs'.inode_bitmap j ≡ (if i == j then true else bitmap_test fs.inode_bitmap j)
  pub words : length fs'.inode_bitmap ≡ length fs.inode_bitmap
  pub inode : inode_at fs' i ≡ fresh_inode i type
  pub others : (j : ℕ) → i ≢ j → inode_at fs' j ≡ inode_at fs j
  pub valid : IsValid fs'

module _ (type : ℕ) (fs : BtreeFilesystem) where
  alloc_none :
      bitmap_find_free fs.inode_bitmap max_inode_count ≡ none
      → inode_alloc type fs ≡ some (none, fs)
  unfolding inode_alloc
  alloc_none e = rw (e, inode_alloc)

  alloc_fault :
      (i : ℕ)
      → bitmap_find_free fs.inode_bitmap max_inode_count ≡ some i
      → btree_insert i (i + 1) fs.inode_tree fs.heap ≡ none
      → inode_alloc type fs ≡ none
  unfolding inode_alloc
  alloc_fault i e d = rw (e, d, inode_alloc)

  alloc_some :
      (i : ℕ) (ok : Bool) (tree : Btree) (heap : List MemBlock)
      → bitmap_find_free fs.inode_bitmap max_inode_count ≡ some i
      → btree_insert i (i + 1) fs.inode_tree fs.heap ≡ some (ok, tree, heap)
      → inode_alloc type fs
        ≡ some (
          some i,
          record fs {
            inode_tree = tree;
            inodes = set fs.inodes i (fresh_inode i type);
            inode_bitmap = bitmap_set fs.inode_bitmap i;
            free_inodes = fs.free_inodes -ℤ pos 1;
            heap = heap;
          },
        )
  unfolding inode_alloc
  alloc_some i ok tree heap e d = rw (e, d, inode_alloc)

  inode_alloc-cases :
      IsValid fs
      → length fs.inode_bitmap ≡ inode_words
      → (inode_alloc type fs ≡ some (none, fs))
          × ((i : ℕ) → i < max_inode_count → bitmap_test fs.inode_bitmap i ≡ true)
        ⊎ ((i : ℕ) × (inode_alloc type fs ≡ none)
            × (btree_insert i (i + 1) fs.inode_tree fs.heap ≡ none))
        ⊎ ((i : ℕ) × (fs' : BtreeFilesystem) × (inode_alloc type fs ≡ some (some i, fs'))
            × Fresh i type fs fs')
  unfolding bitmap_find_free
  inode_alloc-cases v w = elim (find_free-cases max_inode_count 0 fs.inode_bitmap) [
    | inl (e, full) ↦ inl (alloc_none e, λ i l. full i (omega arith) (omega arith))
    | inr (i, e, (lo, hi, free, first)) ↦
        elim (Option-cases (btree_insert i (i + 1) fs.inode_tree fs.heap)) [
          | inl d ↦ inr (inl (i, alloc_fault i e d, d))
          | inr ((ok, tree, heap), d) ↦ inr (
              inr (
                i,
                _,
                alloc_some i ok tree heap e d,
                fresh i _ refl (omega arith) free (λ j l. first j (omega arith) l) refl refl,
              ))
        ]
  ]
    where
      fresh :
          (i : ℕ) (fs' : BtreeFilesystem)
          → fs'.inodes ≡ set fs.inodes i (fresh_inode i type)
          → i < max_inode_count
          → bitmap_test fs.inode_bitmap i ≡ false
          → ((j : ℕ) → j < i → bitmap_test fs.inode_bitmap j ≡ true)
          → fs'.inode_bitmap ≡ bitmap_set fs.inode_bitmap i
          → fs'.block_bitmap ≡ fs.block_bitmap
          → Fresh i type fs fs'
      fresh i fs' at lt free first marked same = record {
        inside = lt;
        was_free = free;
        first = first;
        marks = λ j.
            ap (λ m. bitmap_test m j) marked
            ∙ bitmap_test-bitmap_set fs.inode_bitmap i j (omega (arith, w, lt));
        words = ap length marked ∙ length-bitmap_set fs.inode_bitmap i;
        inode = elim (rewritten fs' i (fresh_inode i type) v lt at i) [
          | inl (_, r) ↦ r
          | inr (ne, _) ↦ absurd (ne refl)
        ];
        others = λ j ne. elim (rewritten fs' i (fresh_inode i type) v lt at j) [
          | inl (e, _) ↦ absurd (ne e)
          | inr (_, r) ↦ r
        ];
        valid =
            rewritten-IsValid fs' i (fresh_inode i type) v lt at (ap length same ∙ v.words)
              (length-replicate {A = ℕ} num_direct_blocks 0)
              (inr (λ k. inl (zeros num_direct_blocks k 0 refl)))
              (λ j k ne uj h. ap (λ m. bitmap_test m (block_of fs j k)) same);
      }

-- On a valid file system with an inode bitmap of all its words, `inode_alloc` finds no inode exactly when
-- all are marked, or `btree_insert` faults, or the first unmarked inode is set up without blocks. Then it
-- is marked, every other inode and its mark are as they were, and the file system stays valid.
pub inode_alloc_lem :
    (type : ℕ) {fs : BtreeFilesystem}
    → IsValid fs
    → length fs.inode_bitmap ≡ inode_words
    → (inode_alloc type fs ≡ some (none, fs))
        × ((i : ℕ) → i < max_inode_count → bitmap_test fs.inode_bitmap i ≡ true)
      ⊎ ((i : ℕ) × (inode_alloc type fs ≡ none)
          × (btree_insert i (i + 1) fs.inode_tree fs.heap ≡ none))
      ⊎ ((i : ℕ) × (fs' : BtreeFilesystem) × (inode_alloc type fs ≡ some (some i, fs'))
          × Fresh i type fs fs')
inode_alloc_lem type {fs} v w = inode_alloc-cases type fs v w

-- a block that `block_alloc` has taken
pub record Taken (b : ℕ) (fs fs' : BtreeFilesystem) : Type 0 where
  pub first : (1 ≤ b) × ((c : ℕ) → 1 ≤ c → c < b → bitmap_test fs.block_bitmap c ≡ true)
  pub inside : b < max_blocks
  pub was_free : bitmap_test fs.block_bitmap b ≡ false
  pub marks :
      (c : ℕ)
      → bitmap_test fs'.block_bitmap c ≡ (if b == c then true else bitmap_test fs.block_bitmap c)
  pub cleared : (o : ℕ) → o < fs_block_size → fs'.memory (place fs b o) ≡ 0
  pub others :
      (c o : ℕ) → b ≢ c → o < fs_block_size → fs'.memory (place fs c o) ≡ fs.memory (place fs c o)
  pub valid : IsValid fs'

take_block-IsValid :
    {fs : BtreeFilesystem} (b : ℕ) → b < max_blocks → IsValid fs → IsValid (take_block b fs)
unfolding take_block
take_block-IsValid {fs} b lt v = record {
  words = words-take_block fs b ∙ v.words;
  table = v.table;
  directs = v.directs;
  marked = λ j k u. elim (v.marked j k u) [
    | inl z ↦ inl z
    | inr (h, t) ↦ inr (h, marks-take_block fs b (block_of fs j k) v.words lt ∙ ground arith)
  ];
  apart = v.apart;
}

take_block_zero :
    (fs : BtreeFilesystem) (b o : ℕ)
    → 0 < b
    → b < max_blocks
    → o < fs_block_size
    → (take_block b fs).memory (place fs b o) ≡ 0
unfolding take_block
take_block_zero fs b o h l lo =
    let n : length (replicate {A = ℕ} fs_block_size 0) ≡ fs_block_size =
      length-replicate {A = ℕ} fs_block_size 0 in
    rw (block_get_ptr_hit fs b h l) (
      store_inside (fs.block_storage + b * fs_block_size) o (replicate fs_block_size 0) fs.memory
        (omega arith)
      ∙ zeros fs_block_size o 0 refl)

-- On a valid file system `block_alloc` fails, and changes nothing, exactly when all blocks but block 0
-- are marked. Else it takes the first unmarked one, whose 512 bytes are 0 then; the marks and the bytes
-- of every other block are as they were, and the file system stays valid.
pub block_alloc_lem :
    {fs : BtreeFilesystem}
    → IsValid fs
    → (block_alloc fs ≡ (none, fs))
        × ((b : ℕ) → 1 ≤ b → b < max_blocks → bitmap_test fs.block_bitmap b ≡ true)
      ⊎ ((b : ℕ) × (fs' : BtreeFilesystem) × (block_alloc fs ≡ (some b, fs')) × Taken b fs fs')
block_alloc_lem {fs} v = elim (block_alloc-cases fs) [
  | inl full ↦ inl full
  | inr (b, e, lo, hi, free, first) ↦ inr (
    b,
    take_block b fs,
    e,
    record {
      first = (lo, first);
      inside = hi;
      was_free = free;
      marks = λ c. marks-take_block fs b c v.words hi;
      cleared = λ o l. take_block_zero fs b o lo hi l;
      others = λ c o ne l. take_block_other fs b c o lo hi ne l;
      valid = take_block-IsValid b hi v;
    },
  )
]
