-- ===== src/Inode/Release.antt =====
-- Blocks and inodes that are taken and given back: `block_alloc`, `inode_alloc`, `inode_free` and
-- `inode_truncate` keep the file system valid.
use native.Mathlib.Decide.{ℕ_discrete}
use fru1t_os.Prelude.{
  ℕ, zero, suc, ◌/◌, ◌<◌, ◌≡◌, ◌≢◌, ◌⊎◌, inl, inr, refl, ap, sym, ◌∙◌, true, false, ◌||◌, List, [],
  ◌∷◌, ◌==◌, ltb, leb, if◌then◌else◌, arith, length, get_or, set, Bool-cases, length-set,
}
use fru1t_os.Inode.{
  Inode, BtreeFilesystem, no_inode, inode_at, num_direct_blocks, max_blocks, max_inode_count,
  block_free, free_blocks_of,
}
use fru1t_os.Inode.Bitmap.{bitmap_test, bitmap_test-bitmap_clear, length-bitmap_clear}
use fru1t_os.Inode.Invariant.{block_of, IsUsed, IsValid, inode_at-set}

-- the block `b` is given back: nothing but the bitmap and the count changes
module _ (b : ℕ) (fs : BtreeFilesystem) where
  pub free_inodes_same : (block_free b fs).inodes ≡ fs.inodes
  unfolding block_free
  free_inodes_same = elim (Bool-cases (b == 0 || leb max_blocks b)) [
    | inl t ↦ rw t refl
    | inr t ↦ rw t refl
  ]

  pub free_names_same : (block_free b fs).name_tree ≡ fs.name_tree
  unfolding block_free
  free_names_same = elim (Bool-cases (b == 0 || leb max_blocks b)) [
    | inl t ↦ rw t refl
    | inr t ↦ rw t refl
  ]

  pub free_words : length (block_free b fs).block_bitmap ≡ length fs.block_bitmap
  unfolding block_free
  free_words = elim (Bool-cases (b == 0 || leb max_blocks b)) [
    | inl t ↦ rw t refl
    | inr t ↦ rw t (length-bitmap_clear fs.block_bitmap b)
  ]

  pub free_marks :
      (c : ℕ)
      → length fs.block_bitmap ≡ 32
      → b ≢ c
      → bitmap_test (block_free b fs).block_bitmap c ≡ bitmap_test fs.block_bitmap c
  unfolding block_free
  free_marks c w ne = elim (Bool-cases (b == 0 || leb max_blocks b)) [
    | inl t ↦ rw t refl
    | inr t ↦
        let inside : b / 32 < length fs.block_bitmap = ground arith in
        let u : (b == c) ≡ false = ground arith in
        rw t (bitmap_test-bitmap_clear fs.block_bitmap b c inside ∙ rw u refl)
  ]

module _ (n b : ℕ) (bs : List ℕ) (fs : BtreeFilesystem) where
  free_cons_hit :
      ltb 0 b ≡ true → free_blocks_of (suc n) (b ∷ bs) fs ≡ free_blocks_of n bs (block_free b fs)
  unfolding free_blocks_of
  free_cons_hit t = ap (λ x. free_blocks_of n bs (if x then block_free b fs else fs)) t

  free_cons_miss : ltb 0 b ≡ false → free_blocks_of (suc n) (b ∷ bs) fs ≡ free_blocks_of n bs fs
  unfolding free_blocks_of
  free_cons_miss t = ap (λ x. free_blocks_of n bs (if x then block_free b fs else fs)) t

free_none :
    (n : ℕ) (fs : BtreeFilesystem) → (free_blocks_of 0 [] fs ≡ fs) × (free_blocks_of n [] fs ≡ fs)
unfolding free_blocks_of
free_none zero fs = (refl, refl)
free_none (suc n) fs = (refl, refl)

free_zero : (bs : List ℕ) (fs : BtreeFilesystem) → free_blocks_of 0 bs fs ≡ fs
unfolding free_blocks_of
free_zero bs fs = refl

-- what giving back the blocks `bs` has left
pub record Returned (bs : List ℕ) (fs fs' : BtreeFilesystem) : Type 0 where
  pub inodes : fs'.inodes ≡ fs.inodes
  pub names : fs'.name_tree ≡ fs.name_tree
  pub words : length fs'.block_bitmap ≡ 32
  pub marks :
      (c : ℕ)
      → ((k : ℕ) → 0 < get_or bs k 0 → get_or bs k 0 ≢ c)
      → bitmap_test fs'.block_bitmap c ≡ bitmap_test fs.block_bitmap c

pub free_blocks_of-Returned :
    (n : ℕ) (bs : List ℕ) (fs : BtreeFilesystem)
    → length fs.block_bitmap ≡ 32
    → Returned bs fs (free_blocks_of n bs fs)
free_blocks_of-Returned zero bs fs w =
    rw (free_zero bs fs) (record { inodes = refl; names = refl; words = w; marks = λ c h. refl })
free_blocks_of-Returned (suc n) [] fs w =
    rw ((free_none (suc n) fs).1)
      (record { inodes = refl; names = refl; words = w; marks = λ c h. refl })
free_blocks_of-Returned (suc n) (b ∷ bs) fs w = elim (Bool-cases (ltb 0 b)) [
  | inl t ↦
      let r = free_blocks_of-Returned n bs (block_free b fs) (free_words b fs ∙ w) in
      rw (free_cons_hit n b bs fs t) (record {
        inodes = r.inodes ∙ free_inodes_same b fs;
        names = r.names ∙ free_names_same b fs;
        words = r.words;
        marks = λ c h. r.marks c (λ k. h (suc k)) ∙ free_marks b fs c w (h 0 (ground arith));
      })
  | inr t ↦
      let r = free_blocks_of-Returned n bs fs w in
      rw (free_cons_miss n b bs fs t) (record {
        inodes = r.inodes;
        names = r.names;
        words = r.words;
        marks = λ c h. r.marks c (λ k. h (suc k));
      })
]

-- inode `j` behind the write of inode `i` with a value that shares no block with the others
module _ {fs : BtreeFilesystem} (fs' : BtreeFilesystem) (i : ℕ) (n : Inode) (v : IsValid fs)
    (lt : i < max_inode_count) (at : fs'.inodes ≡ set fs.inodes i n) where
  pub rewritten :
      (j : ℕ) → (i ≡ j) × (inode_at fs' j ≡ n) ⊎ (i ≢ j) × (inode_at fs' j ≡ inode_at fs j)
  rewritten j =
      rw (ap (λ ns. get_or ns j no_inode) at) (inode_at-set fs.inodes i j n (rw v.table lt))

  abbrev Same : BtreeFilesystem → (j k : ℕ) → Type 0
  Same f j k =
      IsUsed fs j
      × (block_of f j k ≡ block_of fs j k)
      × (bitmap_test f.block_bitmap (block_of fs j k)
          ≡ bitmap_test fs.block_bitmap (block_of fs j k))

  -- An inode that is not in use, or has no blocks but those of the one that it replaces.
  pub rewritten-IsValid :
      length fs'.block_bitmap ≡ 32
      → length n.direct_blocks ≡ num_direct_blocks
      → (n.in_use ≡ false)
        ⊎ ((k : ℕ)
            → (get_or n.direct_blocks k 0 ≡ 0)
              ⊎ IsUsed fs i
                × (get_or n.direct_blocks k 0 ≡ block_of fs i k)
                × (bitmap_test fs'.block_bitmap (block_of fs i k)
                    ≡ bitmap_test fs.block_bitmap (block_of fs i k)))
      → ((j k : ℕ)
          → i ≢ j
          → IsUsed fs j
          → 0 < block_of fs j k
          → bitmap_test fs'.block_bitmap (block_of fs j k)
            ≡ bitmap_test fs.block_bitmap (block_of fs j k))
      → IsValid fs'
  rewritten-IsValid words ten own marks = record {
    words = words;
    table = ap length at ∙ length-set fs.inodes i n ∙ v.table;
    directs = λ j l. elim (rewritten j) [
      | inl (_, r) ↦ ap (λ (m : Inode). length m.direct_blocks) r ∙ ten
      | inr (_, r) ↦ ap (λ (m : Inode). length m.direct_blocks) r ∙ v.directs j l
    ];
    marked = λ j k u. elim (back j k u) [
      | inl z ↦ inl z
      | inr (u', e, m) ↦
          rw e (elim (v.marked j k u') [ inl z ↦ inl z | inr (h, t) ↦ inr (h, m ∙ t) ])
    ];
    apart = λ x y k l ux uy h e. elim (back x k ux) [
      | inl z ↦ absurd (omega arith)
      | inr (ux', ex, _) ↦ elim (back y l uy) [
        | inl z ↦ absurd (omega arith)
        | inr (uy', ey, _) ↦ v.apart x y k l ux' uy' (rw (← ex) h) (sym ex ∙ e ∙ ey)
      ]
    ];
  }
    where
      used_of : (j : ℕ) (m : Inode) → inode_at fs' j ≡ m → IsUsed fs' j → m.in_use ≡ true
      used_of j m e u = ap (λ (x : Inode). x.in_use) (sym e) ∙ u

      block_is :
          (j k : ℕ) (m : Inode) → inode_at fs' j ≡ m → block_of fs' j k ≡ get_or m.direct_blocks k 0
      block_is j k m e = ap (λ (x : Inode). get_or x.direct_blocks k 0) e

      unused : false ≡ true → ⊥
      unused e = cc

      back : (j k : ℕ) → IsUsed fs' j → (block_of fs' j k ≡ 0) ⊎ Same fs' j k
      back j k u = elim (rewritten j) [
        | inl (e, r) ↦ elim own [
          | inl f ↦ absurd (unused (sym f ∙ used_of j n r u))
          | inr own' ↦ elim (own' k) [
            | inl z ↦ inl (block_is j k n r ∙ z)
            | inr (w, b, m) ↦ rw (← e) (inr (w, block_is i k n (rw e r) ∙ b, m))
          ]
        ]
        | inr (ne, r) ↦
            let u' : IsUsed fs j = used_of j (inode_at fs j) r u in
            let b = block_is j k (inode_at fs j) r in
            elim (ℕ_discrete (block_of fs j k) 0) [
              | yes z ↦ inl (b ∙ z)
              | no nz ↦ inr (u', b, marks j k ne u' (omega arith))
            ]
      ]
