-- ===== src/Inode/Ensure.antt =====
-- What `inode_write` has behind the allocation of a block for an index of an inode.
use native.Mathlib.Decide.{ℕ_discrete}
use fru1t_os.Prelude.{
  ℕ, ◌+◌, ◌≤◌, ◌<◌, ◌≡◌, ◌≢◌, ◌⊎◌, inl, inr, refl, ap, sym, ◌∙◌, true, false, none, some, List,
  ◌==◌, arith, length, get_or, set, get_or-set_self, get_or-set_ne, length-set,
}
use fru1t_os.Inode.{
  Inode, BtreeFilesystem, inode_at, set_inode, num_direct_blocks, fs_block_size, max_blocks,
  max_inode_count, take_block, block_alloc,
}
use fru1t_os.Inode.Files.{ensure_block}
use fru1t_os.Inode.Bitmap.{bitmap_test}
use fru1t_os.Inode.Invariant.{
  block_of, place, IsUsed, IsValid, inode_at-set, used_lt, take_block_other, block_alloc-cases,
  marks-take_block, words-take_block,
}

-- Index `k` of inode `i` has a block now; the blocks that were there, the other inodes and the bytes of
-- the inodes in use are as they were.
pub record Ensured (i k : ℕ) (fs fs' : BtreeFilesystem) : Type 0 where
  pub has : 0 < block_of fs' i k
  pub bounded : block_of fs' i k < max_blocks
  pub storage : fs'.block_storage ≡ fs.block_storage
  pub keeps : (l : ℕ) → 0 < block_of fs i l → block_of fs' i l ≡ block_of fs i l
  pub used : IsUsed fs' i
  pub size : (inode_at fs' i).size ≡ (inode_at fs i).size
  pub others : (j : ℕ) → i ≢ j → inode_at fs' j ≡ inode_at fs j
  pub bytes :
      (j l o : ℕ)
      → IsUsed fs j
      → 0 < block_of fs j l
      → o < fs_block_size
      → fs'.memory (place fs (block_of fs j l) o) ≡ fs.memory (place fs (block_of fs j l) o)
  pub valid : IsValid fs'

-- the inode with block `b` at index `k`
abbrev with_block : (k b : ℕ) → Inode → Inode
with_block k b n = record n {
  direct_blocks = set n.direct_blocks k b;
  block_count = n.block_count + 1;
}

-- the file system with a new block at index `k` of inode `i`
abbrev given : (i k b : ℕ) → BtreeFilesystem → BtreeFilesystem
given i k b fs = set_inode i (with_block k b (inode_at fs i)) (take_block b fs)

module _ {fs : BtreeFilesystem} (i k b : ℕ) (v : IsValid fs) (u : IsUsed fs i) where
  given_inode :
      (j : ℕ)
      → (i ≡ j) × (inode_at (given i k b fs) j ≡ with_block k b (inode_at fs i))
        ⊎ (i ≢ j) × (inode_at (given i k b fs) j ≡ inode_at fs j)
  unfolding take_block
  given_inode j =
      inode_at-set fs.inodes i j (with_block k b (inode_at fs i)) (rw v.table (used_lt i v u))

  given_used : (j : ℕ) → (inode_at (given i k b fs) j).in_use ≡ (inode_at fs j).in_use
  given_used j = elim (given_inode j) [
    | inl (e, r) ↦ ap (λ (n : Inode). n.in_use) r ∙ ap (λ m. (inode_at fs m).in_use) e
    | inr (ne, r) ↦ ap (λ (n : Inode). n.in_use) r
  ]

  given_block :
      (j l : ℕ)
      → k < num_direct_blocks
      → (i ≡ j) × (k ≡ l) × (block_of (given i k b fs) j l ≡ b)
        ⊎ ((i ≢ j) ⊎ (k ≢ l)) × (block_of (given i k b fs) j l ≡ block_of fs j l)
  given_block j l h = elim (given_inode j) [
    | inl (e, r) ↦
        let ds : List ℕ = (inode_at fs i).direct_blocks in
        let at : block_of (given i k b fs) j l ≡ get_or (set ds k b) l 0 =
          ap (λ (n : Inode). get_or n.direct_blocks l 0) r in
        let room : k < length ds = rw (v.directs i (used_lt i v u)) h in
        elim (ℕ_discrete k l) [
          | yes same ↦ inl (
            e,
            same,
            at ∙ ap (λ m. get_or (set ds k b) m 0) (sym same) ∙ get_or-set_self ds k b 0 room,
          )
          | no ne ↦ inr (inr ne, at ∙ get_or-set_ne ds k l b 0 ne ∙ ap (λ m. block_of fs m l) e)
        ]
    | inr (ne, r) ↦ inr (inl ne, ap (λ (n : Inode). get_or n.direct_blocks l 0) r)
  ]

  module _ (h : k < num_direct_blocks) (lo : 1 ≤ b) (hi : b < max_blocks)
      (free : bitmap_test fs.block_bitmap b ≡ false) where
    -- no inode in use has the new block
    not_b : (j l : ℕ) → IsUsed fs j → b ≢ block_of fs j l
    not_b j l uj e = elim (v.marked j l uj) [
      | inl z ↦ absurd (omega arith)
      | inr (_, t) ↦ absurd (true_ne (sym t ∙ ap (bitmap_test fs.block_bitmap) (sym e) ∙ free))
    ]
      where
        true_ne : true ≡ false → ⊥
        true_ne e = cc

    given_marked :
        (j l : ℕ)
        → IsUsed (given i k b fs) j
        → (block_of (given i k b fs) j l ≡ 0)
          ⊎ (block_of (given i k b fs) j l < max_blocks)
            × (bitmap_test (given i k b fs).block_bitmap (block_of (given i k b fs) j l) ≡ true)
    given_marked j l uj =
        let uj' : IsUsed fs j = sym (given_used j) ∙ uj in
        elim (given_block j l h) [
          | inl (_, _, r) ↦ rw r (inr (hi, marks-take_block fs b b v.words hi ∙ ground arith))
          | inr (_, r) ↦ rw r (elim (v.marked j l uj') [
            | inl z ↦ inl z
            | inr (lt, t) ↦
                inr (lt, marks-take_block fs b (block_of fs j l) v.words hi ∙ ground arith)
          ])
        ]

    given_apart :
        (x y l m : ℕ)
        → IsUsed (given i k b fs) x
        → IsUsed (given i k b fs) y
        → 0 < block_of (given i k b fs) x l
        → block_of (given i k b fs) x l ≡ block_of (given i k b fs) y m
        → (x ≡ y) × (l ≡ m)
    given_apart x y l m ux uy p e =
        let ux' : IsUsed fs x = sym (given_used x) ∙ ux in
        let uy' : IsUsed fs y = sym (given_used y) ∙ uy in
        elim (given_block x l h) [
          | inl (ex, kx, r) ↦ elim (given_block y m h) [
            | inl (ey, ky, r') ↦ (sym ex ∙ ey, sym kx ∙ ky)
            | inr (_, r') ↦ absurd (not_b y m uy' (sym r ∙ e ∙ r'))
          ]
          | inr (_, r) ↦ elim (given_block y m h) [
            | inl (ey, ky, r') ↦ absurd (not_b x l ux' (sym r' ∙ sym e ∙ r))
            | inr (_, r') ↦ v.apart x y l m ux' uy' (rw (← r) p) (sym r ∙ e ∙ r')
          ]
        ]

    given_at : block_of (given i k b fs) i k ≡ b
    given_at = elim (given_block i k h) [
      | inl (_, _, r) ↦ r
      | inr (inl ne, _) ↦ absurd (ne refl)
      | inr (inr ne, _) ↦ absurd (ne refl)
    ]

    given_keeps :
        (j l : ℕ)
        → IsUsed fs j
        → 0 < block_of fs j l
        → (i ≢ j) ⊎ (block_of fs i k ≡ 0)
        → block_of (given i k b fs) j l ≡ block_of fs j l
    given_keeps j l uj p apart = elim (given_block j l h) [
      | inr (_, r) ↦ r
      | inl (e, kl, _) ↦ elim apart [
        | inl ne ↦ absurd (ne e)
        | inr z ↦
            let same : block_of fs j l ≡ block_of fs i k =
              ap (λ m. block_of fs m l) (sym e) ∙ ap (λ m. block_of fs i m) (sym kl) in
            absurd (omega arith)
      ]
    ]

    given_directs :
        (j : ℕ)
        → j < max_inode_count
        → length (inode_at (given i k b fs) j).direct_blocks ≡ num_direct_blocks
    given_directs j l = elim (given_inode j) [
      | inl (e, r) ↦
          ap (λ (n : Inode). length n.direct_blocks) r
          ∙ length-set (inode_at fs i).direct_blocks k b
          ∙ v.directs i (used_lt i v u)
      | inr (_, r) ↦ ap (λ (n : Inode). length n.direct_blocks) r ∙ v.directs j l
    ]

    given_table : length (given i k b fs).inodes ≡ max_inode_count
    unfolding take_block
    given_table = length-set fs.inodes i (with_block k b (inode_at fs i)) ∙ v.table

    given-IsValid : IsValid (given i k b fs)
    given-IsValid = record {
      words = words-take_block fs b ∙ v.words;
      table = given_table;
      directs = given_directs;
      marked = given_marked;
      apart = given_apart;
    }

    given_storage : (given i k b fs).block_storage ≡ fs.block_storage
    unfolding take_block
    given_storage = refl

    given-Ensured : block_of fs i k ≡ 0 → Ensured i k fs (given i k b fs)
    given-Ensured z = record {
      has = rw given_at lo;
      bounded = rw given_at hi;
      storage = given_storage;
      keeps = λ l p. given_keeps i l u p (inr z);
      used = given_used i ∙ u;
      size = elim (given_inode i) [
        | inl (_, r) ↦ ap (λ (n : Inode). n.size) r
        | inr (ne, _) ↦ absurd (ne refl)
      ];
      others = λ j ne. elim (given_inode j) [ inl (e, _) ↦ absurd (ne e) | inr (_, r) ↦ r ];
      bytes = λ j l o uj p lo'. take_block_other fs b (block_of fs j l) o lo hi (not_b j l uj) lo';
      valid = given-IsValid;
    }

ensure_present :
    (i k : ℕ) (fs : BtreeFilesystem) → 0 < block_of fs i k → ensure_block i k fs ≡ some fs
unfolding ensure_block
ensure_present i k fs h = let t : (block_of fs i k == 0) ≡ false = ground arith in rw t

ensure_none :
    (i k : ℕ) (fs : BtreeFilesystem)
    → block_of fs i k ≡ 0
    → block_alloc fs ≡ (none, fs)
    → ensure_block i k fs ≡ none
unfolding ensure_block
ensure_none i k fs z e =
    let t : (block_of fs i k == 0) ≡ true = ground arith in rw (t, e, ensure_block)

ensure_new :
    (i k b : ℕ) (fs : BtreeFilesystem)
    → block_of fs i k ≡ 0
    → block_alloc fs ≡ (some b, take_block b fs)
    → ensure_block i k fs ≡ some (given i k b fs)
unfolding ensure_block
ensure_new i k b fs z e =
    let t : (block_of fs i k == 0) ≡ true = ground arith in
    let found : (block_alloc fs).0 ≡ some b = ap (λ r. r.0) e in
    let left : (block_alloc fs).1 ≡ take_block b fs = ap (λ r. r.1) e in
    rw (t, found, ensure_block)
      (ap (λ g. some (set_inode i (with_block k b (inode_at fs i)) g)) left)

-- either the index has a block then, or all blocks are taken
pub ensure_block-cases :
    {fs : BtreeFilesystem} (i k : ℕ)
    → IsValid fs
    → IsUsed fs i
    → k < num_direct_blocks
    → (ensure_block i k fs ≡ none)
        × ((b : ℕ) → 1 ≤ b → b < max_blocks → bitmap_test fs.block_bitmap b ≡ true)
      ⊎ ((fs' : BtreeFilesystem) × (ensure_block i k fs ≡ some fs') × Ensured i k fs fs')
ensure_block-cases {fs} i k v u h = elim (ℕ_discrete (block_of fs i k) 0) [
  | yes z ↦ elim (block_alloc-cases fs) [
    | inl (e, full) ↦ inl (ensure_none i k fs z e, full)
    | inr (b, e, lo, hi, free, _) ↦
        inr (given i k b fs, ensure_new i k b fs z e, given-Ensured i k b v u h lo hi free z)
  ]
  | no ne ↦
      let p : 0 < block_of fs i k = omega arith in
      inr (
        fs,
        ensure_present i k fs p,
        record {
          has = p;
          bounded = elim (v.marked i k u) [ inl z ↦ absurd (ne z) | inr (l, _) ↦ l ];
          storage = refl;
          keeps = λ l q. refl;
          used = u;
          size = refl;
          others = λ j n. refl;
          bytes = λ j l o uj q lo. refl;
          valid = v;
        },
      )
]
