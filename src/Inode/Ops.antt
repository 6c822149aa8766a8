-- ===== src/Inode/Ops.antt =====
-- `inode_free` and `inode_truncate` on a valid file system.
use native.Mathlib.Decide.{ℕ_discrete}
use fru1t_os.Prelude.{
  ℕ, zero, suc, ◌+◌, ◌-◌, ◌/◌, ◌%◌, ◌^◌, ◌<◌, ◌≡◌, ◌⊎◌, inl, inr, refl, ap, ◌∙◌, true, false, List,
  [], ◌∷◌, ltb, leb, if◌then◌else◌, arith, get_or, set, Bool-cases, length-set, get_or-set_ne,
}
use fru1t_os.Inode.{
  Inode, BtreeFilesystem, inode_at, set_inode, num_direct_blocks, fs_block_size, max_inode_count,
  block_free, inode_free,
}
use fru1t_os.Inode.Bitmap.{bitmap_test}
use fru1t_os.Inode.Files.{cut_loop, min_of, inode_truncate}
use fru1t_os.Inode.Invariant.{block_of, IsUsed, IsValid, used_lt}
use fru1t_os.Inode.Release.{
  free_blocks_of-Returned, rewritten, rewritten-IsValid, free_inodes_same, free_words, free_marks,
}

set_zero : (ds : List ℕ) (k : ℕ) → get_or (set ds k 0) k 0 ≡ 0
set_zero [] k = refl
set_zero (d ∷ ds) zero = refl
set_zero (d ∷ ds) (suc k) = set_zero ds k

-- `inode_free` keeps the file system valid
inode_free-IsValid : (i : ℕ) (fs : BtreeFilesystem) → IsValid fs → IsValid (inode_free i fs)
unfolding inode_free
inode_free-IsValid i fs v = elim (Bool-cases (inode_at fs i).in_use) [
  | inr t ↦ rw t v
  | inl t ↦
      let n = inode_at fs i in
      let r = free_blocks_of-Returned n.block_count n.direct_blocks fs v.words in
      let lt : i < max_inode_count = used_lt i v t in
      rw t (
        rewritten-IsValid _ i (record n { in_use = false }) v lt
          (ap (λ ns. set ns i (record n { in_use = false })) r.inodes) r.words (v.directs i lt)
          (inl refl)
          (λ j k ne uj h. r.marks (block_of fs j k) (λ l p e. ne (v.apart i j l k t uj p e).0)))
]

cut_step :
    (i k : ℕ) (fs : BtreeFilesystem)
    → IsValid fs
    → IsUsed fs i
    → 0 < block_of fs i k
    → IsValid (
        set_inode i
          (record (inode_at fs i) { direct_blocks = set (inode_at fs i).direct_blocks k 0 })
          (block_free (block_of fs i k) fs))
cut_step i k fs v u p =
    let ds : List ℕ = (inode_at fs i).direct_blocks in
    let lt : i < max_inode_count = used_lt i v u in
    rewritten-IsValid _ i (record (inode_at fs i) { direct_blocks = set ds k 0 }) v lt
      (ap (λ ns. set ns i (record (inode_at fs i) { direct_blocks = set ds k 0 }))
        (free_inodes_same (block_of fs i k) fs))
      (free_words (block_of fs i k) fs ∙ v.words) (length-set ds k 0 ∙ v.directs i lt) (inr own)
      (λ j l ne uj h.
        free_marks (block_of fs i k) fs (block_of fs j l) v.words
          (λ e. ne (v.apart i j k l u uj p e).0))
  where
    own :
        (l : ℕ)
        → (get_or (set (inode_at fs i).direct_blocks k 0) l 0 ≡ 0)
          ⊎ IsUsed fs i
            × (get_or (set (inode_at fs i).direct_blocks k 0) l 0 ≡ block_of fs i l)
            × (bitmap_test (block_free (block_of fs i k) fs).block_bitmap (block_of fs i l)
                ≡ bitmap_test fs.block_bitmap (block_of fs i l))
    own l = elim (ℕ_discrete k l) [
      | yes e ↦ inl (
          ap (λ m. get_or (set (inode_at fs i).direct_blocks m 0) l 0) e
          ∙ set_zero (inode_at fs i).direct_blocks l)
      | no ne ↦ inr (
        u,
        get_or-set_ne (inode_at fs i).direct_blocks k l 0 0 ne,
        free_marks (block_of fs i k) fs (block_of fs i l) v.words
            (λ e. ne (v.apart i i k l u u p e).1),
      )
    ]

-- the round of the loop that cuts: a block at index `k` is given back
module _ (n i k : ℕ) (fs : BtreeFilesystem) where
  abbrev one_cut : BtreeFilesystem
  one_cut =
      set_inode i (record (inode_at fs i) { direct_blocks = set (inode_at fs i).direct_blocks k 0 })
        (block_free (block_of fs i k) fs)

  cut_hit : ltb 0 (block_of fs i k) ≡ true → cut_loop (suc n) i k fs ≡ cut_loop n i (k + 1) one_cut
  unfolding cut_loop
  cut_hit t = ap (λ x. cut_loop n i (k + 1) (if x then one_cut else fs)) t

  cut_miss : ltb 0 (block_of fs i k) ≡ false → cut_loop (suc n) i k fs ≡ cut_loop n i (k + 1) fs
  unfolding cut_loop
  cut_miss t = ap (λ x. cut_loop n i (k + 1) (if x then one_cut else fs)) t

  one_cut-IsUsed : IsValid fs → IsUsed fs i → IsUsed one_cut i
  one_cut-IsUsed v u =
      elim (rewritten one_cut i
        (record (inode_at fs i) { direct_blocks = set (inode_at fs i).direct_blocks k 0 }) v
        (used_lt i v u)
        (ap
          (λ ns.
            set ns i
              (record (inode_at fs i) { direct_blocks = set (inode_at fs i).direct_blocks k 0 }))
          (free_inodes_same (block_of fs i k) fs))
        i) [ inl (_, r) ↦ ap (λ (m : Inode). m.in_use) r ∙ u | inr (ne, _) ↦ absurd (ne refl) ]

cut_loop-zero : (i k : ℕ) (fs : BtreeFilesystem) → cut_loop 0 i k fs ≡ fs
unfolding cut_loop
cut_loop-zero i k fs = refl

cut_loop-IsValid :
    (n i k : ℕ) (fs : BtreeFilesystem)
    → IsValid fs
    → IsUsed fs i
    → IsValid (cut_loop n i k fs) × IsUsed (cut_loop n i k fs) i
cut_loop-IsValid zero i k fs v u = rw (cut_loop-zero i k fs) (v, u)
cut_loop-IsValid (suc n) i k fs v u = elim (Bool-cases (ltb 0 (block_of fs i k))) [
  | inl t ↦ rw (cut_hit n i k fs t) (
      cut_loop-IsValid n i (k + 1) (one_cut n i k fs) (cut_step i k fs v u (ground arith))
        (one_cut-IsUsed n i k fs v u))
  | inr t ↦ rw (cut_miss n i k fs t) (cut_loop-IsValid n i (k + 1) fs v u)
]

-- the size and the count of blocks do not matter
relabelled-IsValid :
    (i size count : ℕ) (fs : BtreeFilesystem)
    → IsValid fs
    → IsUsed fs i
    → IsValid (set_inode i (record (inode_at fs i) { size = size; block_count = count }) fs)
relabelled-IsValid i size count fs v u =
    let lt : i < max_inode_count = used_lt i v u in
    rewritten-IsValid _ i (record (inode_at fs i) { size = size; block_count = count }) v lt refl
      v.words (v.directs i lt) (inr (λ k. inr (u, refl, refl))) (λ j k ne uj h. refl)

inode_truncate-IsValid :
    (i new_size : ℕ) (fs : BtreeFilesystem)
    → IsValid fs
    → IsUsed fs i
    → IsValid (inode_truncate i new_size fs)
unfolding inode_truncate
inode_truncate-IsValid i new_size fs v u = elim (Bool-cases (leb (inode_at fs i).size new_size)) [
  | inl t ↦ rw t v
  | inr t ↦
      let blocks : ℕ = (new_size + 511) % 2 ^ 32 / fs_block_size in
      let n : ℕ = min_of (inode_at fs i).block_count num_direct_blocks - blocks in
      let (v', u') = cut_loop-IsValid n i blocks fs v u in
      rw t (relabelled-IsValid i new_size blocks (cut_loop n i blocks fs) v' u')
]

-- On a valid file system `inode_free` of any inode `i`, in use or not, and `inode_truncate` of an inode
-- `j` in use each leave a valid one: no block of another inode is given back.
pub release-IsValid :
    (i j new_size : ℕ) {fs : BtreeFilesystem}
    → IsValid fs
    → IsUsed fs j
    → IsValid (inode_free i fs) × IsValid (inode_truncate j new_size fs)
release-IsValid i j new_size {fs} v u =
    (inode_free-IsValid i fs v, inode_truncate-IsValid j new_size fs v u)
