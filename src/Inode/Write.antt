-- ===== src/Inode/Write.antt =====
-- The loop of `inode_write`.
use native.Mathlib.Decide.{ℕ_discrete}
use fru1t_os.Prelude.{
  ℕ, ◌+◌, ◌-◌, ◌/◌, ◌%◌, ◌≤◌, ◌<◌, ◌≡◌, ◌≢◌, ◌⊎◌, inl, inr, refl, ap, sym, ◌∙◌, false, some, List,
  ◌==◌, leb, arith, length, take, get_or,
}
use fru1t_os.Fs.{store}
use fru1t_os.Fs.Bytes.{store_outside}
use fru1t_os.Inode.{
  Inode, BtreeFilesystem, inode_at, num_direct_blocks, fs_block_size, max_blocks, block_get_ptr,
}
use fru1t_os.Inode.Files.{chunk, with_memory, address_of}
use fru1t_os.Inode.Pieces.{get_or-take, length-take, store_inside}
use fru1t_os.Inode.Invariant.{block_of, place, IsUsed, IsValid}
use fru1t_os.Inode.Ensure.{Ensured}
use fru1t_os.Inode.Written.{Mapped, byte, Written, places_apart}

pub chunk_pos : (p n : ℕ) → 0 < n → 0 < chunk p n
chunk_pos p n h = ground arith

pub chunk-le : (p n : ℕ) → chunk p n ≤ n
chunk-le p n = ground arith

pub chunk_fits : (p n : ℕ) → p % fs_block_size + chunk p n ≤ fs_block_size
chunk_fits p n = ground arith

pub address_of_hit :
    (fs : BtreeFilesystem) (i p : ℕ)
    → Mapped fs i p
    → block_of fs i (p / fs_block_size) < max_blocks
    → address_of fs (inode_at fs i) p
      ≡ some (place fs (block_of fs i (p / fs_block_size)) (p % fs_block_size))
unfolding address_of block_get_ptr
address_of_hit fs i p (room, has) hi =
    let k : ℕ = p / fs_block_size in
    let t : leb num_direct_blocks k ≡ false = ground arith in
    let u : (block_of fs i k == 0) ≡ false = ground arith in
    let w : leb max_blocks (block_of fs i k) ≡ false = ground arith in rw (t, u, w) refl

module _ {fs f : BtreeFilesystem} (i p k : ℕ) (cs : List ℕ) (v : IsValid fs) (u : IsUsed fs i)
    (en : Ensured i (p / fs_block_size) fs f) (fits : p % fs_block_size + k ≤ fs_block_size)
    (len : k ≤ length cs) (room : p / fs_block_size < num_direct_blocks) where
  -- where the chunk goes
  abbrev pub goal : ℕ
  goal = place f (block_of f i (p / fs_block_size)) (p % fs_block_size)

  abbrev pub stored : BtreeFilesystem
  stored = with_memory f (store goal (take k cs) f.memory)

  stored_outside :
      (a : ℕ) → (a < goal) ⊎ (goal + k ≤ a) → store goal (take k cs) f.memory a ≡ f.memory a
  stored_outside a h =
      store_outside goal (take k cs) f.memory a
        (elim h [ inl x ↦ inl x | inr x ↦ inr (omega (arith, length-take k cs len)) ])

  stored_now :
      (q : ℕ) → p ≤ q → q < p + k → Mapped stored i q × (byte stored i q ≡ get_or cs (q - p) 0)
  stored_now q l h =
      let same_block : q / fs_block_size ≡ p / fs_block_size = omega arith in
      let offset : q % fs_block_size ≡ p % fs_block_size + (q - p) = omega arith in
      let block : block_of f i (q / fs_block_size) ≡ block_of f i (p / fs_block_size) =
        ap (block_of f i) same_block in
      let at : place f (block_of f i (q / fs_block_size)) (q % fs_block_size) ≡ goal + (q - p) =
        omega arith in
      let short : q - p < length (take k cs) = omega (arith, length-take k cs len) in
      (
        (omega arith, omega (arith, en.has)),
        ap (store goal (take k cs) f.memory) at
            ∙ store_inside goal (q - p) (take k cs) f.memory short
            ∙ get_or-take k (q - p) cs (omega arith),
      )

  stored_kept :
      (q : ℕ)
      → Mapped fs i q
      → (q < p) ⊎ (p + k ≤ q)
      → Mapped stored i q × (byte stored i q ≡ byte fs i q)
  stored_kept q (in_range, has) h =
      let j : ℕ = q / fs_block_size in
      let block : block_of f i j ≡ block_of fs i j = en.keeps j has in
      let has' : 0 < block_of f i j = omega arith in
      let apart : (block_of f i (p / fs_block_size) ≢ block_of f i j)
          ⊎ ((q % fs_block_size < p % fs_block_size)
              ⊎ (p % fs_block_size + k ≤ q % fs_block_size)) =
        elim (ℕ_discrete (block_of f i (p / fs_block_size)) (block_of f i j)) [
          | no ne ↦ inl ne
          | yes e ↦
              let (_, same) = en.valid.apart i i (p / fs_block_size) j en.used en.used en.has e in
              inr (elim h [ inl x ↦ inl (omega arith) | inr x ↦ inr (omega arith) ])
        ] in
      let lo : q % fs_block_size < fs_block_size = omega arith in
      let at : place f (block_of f i j) (q % fs_block_size)
          ≡ place fs (block_of fs i j) (q % fs_block_size) =
        omega (arith, en.storage) in
      (
        (in_range, has'),
        stored_outside (place f (block_of f i j) (q % fs_block_size)) (
              places_apart f (block_of f i (p / fs_block_size)) (block_of f i j) (p % fs_block_size)
                (q % fs_block_size) k apart fits lo)
            ∙ ap f.memory at
            ∙ en.bytes i j (q % fs_block_size) u has lo,
      )

  stored_bytes :
      (j l o : ℕ)
      → i ≢ j
      → IsUsed fs j
      → 0 < block_of fs j l
      → o < fs_block_size
      → stored.memory (place fs (block_of fs j l) o) ≡ fs.memory (place fs (block_of fs j l) o)
  stored_bytes j l o ne uj has lo =
      let same_inode = en.others j ne in
      let block : block_of f j l ≡ block_of fs j l =
        ap (λ (n : Inode). get_or n.direct_blocks l 0) same_inode in
      let uj' : IsUsed f j = ap (λ (n : Inode). n.in_use) same_inode ∙ uj in
      let apart : block_of f i (p / fs_block_size) ≢ block_of f j l =
        λ e. ne (en.valid.apart i j (p / fs_block_size) l en.used uj' en.has e).0 in
      let at : place f (block_of f j l) o ≡ place fs (block_of fs j l) o =
        omega (arith, en.storage) in
      ap (store goal (take k cs) f.memory) (sym at)
      ∙ stored_outside (place f (block_of f j l) o) (
          places_apart f (block_of f i (p / fs_block_size)) (block_of f j l) (p % fs_block_size) o k
            (inl apart) fits lo)
      ∙ ap f.memory at
      ∙ en.bytes j l o uj has lo

  pub stored-Written : Written i p (p + k) cs fs stored
  stored-Written = record {
    now = stored_now;
    kept = stored_kept;
    storage = en.storage;
    used = en.used;
    size = en.size;
    others = en.others;
    bytes = stored_bytes;
    valid = record {
      words = en.valid.words;
      table = en.valid.table;
      directs = en.valid.directs;
      marked = en.valid.marked;
      apart = en.valid.apart;
    };
  }
