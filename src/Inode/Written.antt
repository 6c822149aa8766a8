-- ===== src/Inode/Written.antt =====
-- What a run of the loop of `inode_write` has done, and that such runs compose.
use native.Mathlib.Decide.{ℕ_discrete}
use fru1t_os.Prelude.{
  ℕ, ◌+◌, ◌-◌, ◌/◌, ◌%◌, ◌≤◌, ◌<◌, ◌≡◌, ◌≢◌, ◌⊎◌, inl, inr, refl, ap, sym, ◌∙◌, List, ltb, arith,
  get_or, Bool-cases,
}
use fru1t_os.Inode.{BtreeFilesystem, inode_at, num_direct_blocks, fs_block_size}
use fru1t_os.Inode.Files.{drop}
use fru1t_os.Inode.Pieces.{get_or-drop}
use fru1t_os.Inode.Invariant.{block_of, place, IsUsed, IsValid}

-- position `p` of inode `i` has a block
abbrev pub Mapped : BtreeFilesystem → (i p : ℕ) → Type 0
Mapped fs i p = (p / fs_block_size < num_direct_blocks) × (0 < block_of fs i (p / fs_block_size))

-- the byte at position `p` of inode `i`
abbrev pub byte : BtreeFilesystem → (i p : ℕ) → ℕ
byte fs i p = fs.memory (place fs (block_of fs i (p / fs_block_size)) (p % fs_block_size))

-- The positions from `p` to below `e` of inode `i` hold the bytes `cs`; its other bytes, the other inodes
-- and their bytes are as they were.
pub record Written (i p e : ℕ) (cs : List ℕ) (fs fs' : BtreeFilesystem) : Type 0 where
  pub now : (q : ℕ) → p ≤ q → q < e → Mapped fs' i q × (byte fs' i q ≡ get_or cs (q - p) 0)
  pub kept :
      (q : ℕ) → Mapped fs i q → (q < p) ⊎ (e ≤ q) → Mapped fs' i q × (byte fs' i q ≡ byte fs i q)
  pub storage : fs'.block_storage ≡ fs.block_storage
  pub used : IsUsed fs' i
  pub size : (inode_at fs' i).size ≡ (inode_at fs i).size
  pub others : (j : ℕ) → i ≢ j → inode_at fs' j ≡ inode_at fs j
  pub bytes :
      (j l o : ℕ)
      → i ≢ j
      → IsUsed fs j
      → 0 < block_of fs j l
      → o < fs_block_size
      → fs'.memory (place fs (block_of fs j l) o) ≡ fs.memory (place fs (block_of fs j l) o)
  pub valid : IsValid fs'

pub nothing-Written :
    {fs : BtreeFilesystem} (i p : ℕ) (cs : List ℕ)
    → IsValid fs
    → IsUsed fs i
    → Written i p p cs fs fs
nothing-Written i p cs v u = record {
  now = λ q l h. absurd (omega arith);
  kept = λ q m h. (m, refl);
  storage = refl;
  used = u;
  size = refl;
  others = λ j ne. refl;
  bytes = λ j l o ne uj h lo. refl;
  valid = v;
}

module _ {fs f g : BtreeFilesystem} (i p m e : ℕ) (cs : List ℕ) where
  -- two runs, one behind the other
  pub then_Written :
      p ≤ m
      → m ≤ e
      → Written i p m cs fs f
      → Written i m e (drop (m - p) cs) f g
      → Written i p e cs fs g
  then_Written pm me a b = record {
    now = λ q l h. elim (Bool-cases (ltb q m)) [
      | inl t ↦
          let (mapped, at) = a.now q l (ground arith) in
          let (mapped', same) = b.kept q mapped (inl (ground arith)) in (mapped', same ∙ at)
      | inr t ↦
          let (mapped, at) = b.now q (ground arith) h in
          let n : m - p + (q - m) ≡ q - p = ground arith in
          (mapped, at ∙ get_or-drop (m - p) (q - m) cs ∙ ap (λ j. get_or cs j 0) n)
    ];
    kept = λ q mapped h.
        let (mapped', same) =
          a.kept q mapped (elim h [ inl x ↦ inl x | inr x ↦ inr (omega arith) ]) in
        let (mapped'', same') =
          b.kept q mapped' (elim h [ inl x ↦ inl (omega arith) | inr x ↦ inr x ]) in
        (mapped'', same' ∙ same);
    storage = b.storage ∙ a.storage;
    used = b.used;
    size = b.size ∙ a.size;
    others = λ j ne. b.others j ne ∙ a.others j ne;
    bytes = λ j l o ne uj h lo.
        let same_inode = a.others j ne in
        let used' : IsUsed f j = ap (λ n. n.in_use) same_inode ∙ uj in
        let block' : block_of f j l ≡ block_of fs j l =
          ap (λ n. get_or n.direct_blocks l 0) same_inode in
        let place' : place f (block_of f j l) o ≡ place fs (block_of fs j l) o =
          omega (arith, a.storage) in
        ap g.memory (sym place')
        ∙ b.bytes j l o ne used' (rw block' h) lo
        ∙ ap f.memory place'
        ∙ a.bytes j l o ne uj h lo;
    valid = b.valid;
  }

-- bytes of two places that do not meet
pub places_apart :
    (fs : BtreeFilesystem) (b b' o o' k : ℕ)
    → (b ≢ b') ⊎ ((o' < o) ⊎ (o + k ≤ o'))
    → o + k ≤ fs_block_size
    → o' < fs_block_size
    → (place fs b' o' < place fs b o) ⊎ (place fs b o + k ≤ place fs b' o')
places_apart fs b b' o o' k h room lo = elim (ℕ_discrete b b') [
  | yes e ↦ elim h [
    | inl ne ↦ absurd (ne e)
    | inr (inl x) ↦ inl (omega arith)
    | inr (inr x) ↦ inr (omega arith)
  ]
  | no ne ↦ elim (Bool-cases (ltb b b')) [
    | inl t ↦ let d : b < b' = ground arith in inr (omega arith)
    | inr t ↦ let d : b' < b = ground arith in inl (omega arith)
  ]
]
