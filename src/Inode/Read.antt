-- ===== src/Inode/Read.antt =====
-- The loop of `inode_read`: the bytes that it gives, and what they depend on.
use fru1t_os.Prelude.{
  ℕ, zero, suc, ◌+◌, ◌-◌, ◌*◌, ◌/◌, ◌%◌, ◌^◌, ◌≤◌, ◌<◌, ◌≡◌, ◌⊎◌, inl, inr, refl, ap, sym, ◌∙◌,
  none, some, List, [], ◌++◌, arith, length, take, get_or,
}
use fru1t_os.Fs.{load}
use fru1t_os.Fs.Bytes.{load_ext}
use fru1t_os.Inode.{Inode, BtreeFilesystem, inode_at, fs_block_size, max_blocks, block_get_ptr}
use fru1t_os.Inode.Files.{drop, chunk, address_of, read_loop}
use fru1t_os.Inode.Pieces.{get_or-drop, length-drop, load-take, take-drop}
use fru1t_os.Inode.Invariant.{block_of, place, IsUsed, IsValid}
use fru1t_os.Inode.Written.{Mapped, byte}
use fru1t_os.Inode.Write.{chunk_pos, chunk-le, chunk_fits, address_of_hit}

pub read_nothing : (fuel p : ℕ) (fs : BtreeFilesystem) (n : Inode) → read_loop fuel p 0 fs n ≡ []
unfolding read_loop
read_nothing zero p fs n = refl
read_nothing (suc fuel) p fs n = refl

read_dry : (p m : ℕ) (fs : BtreeFilesystem) (n : Inode) → read_loop 0 p m fs n ≡ []
unfolding read_loop
read_dry p m fs n = refl

module _ (fuel p m : ℕ) (fs : BtreeFilesystem) (n : Inode) where
  read_step :
      (a : ℕ)
      → address_of fs n p ≡ some a
      → read_loop (suc fuel) p (suc m) fs n
        ≡ load a (chunk p (suc m)) fs.memory
          ++ read_loop fuel ((p + chunk p (suc m)) % 2 ^ 32) (suc m - chunk p (suc m)) fs n
  unfolding read_loop
  read_step a e = rw (e, read_loop)

  read_stop : address_of fs n p ≡ none → read_loop (suc fuel) p (suc m) fs n ≡ []
  unfolding read_loop
  read_stop e = rw (e, read_loop)

-- Where each position has a block, the loop gives their bytes.
pub read_loop-take :
    (fuel i p m : ℕ) (cs : List ℕ) (fs : BtreeFilesystem)
    → IsValid fs
    → IsUsed fs i
    → m ≤ fuel
    → m ≤ length cs
    → p + m < 2 ^ 32
    → ((q : ℕ) → p ≤ q → q < p + m → Mapped fs i q × (byte fs i q ≡ get_or cs (q - p) 0))
    → read_loop fuel p m fs (inode_at fs i) ≡ take m cs
read_loop-take fuel i p zero cs fs v u f l w h = read_nothing fuel p fs (inode_at fs i)
read_loop-take zero i p (suc m) cs fs v u f l w h = absurd (omega arith)
read_loop-take (suc fuel) i p (suc m) cs fs v u f l w h =
    let k : ℕ = chunk p (suc m) in
    let k_pos : 0 < k = chunk_pos p (suc m) (omega arith) in
    let k_le : k ≤ suc m = chunk-le p (suc m) in
    let fits : p % fs_block_size + k ≤ fs_block_size = chunk_fits p (suc m) in
    let (mapped, _) = h p (omega arith) (omega arith) in
    let a : ℕ = place fs (block_of fs i (p / fs_block_size)) (p % fs_block_size) in
    let found = address_of_hit fs i p mapped (bounded mapped.1) in
    let same : (p + k) % 2 ^ 32 ≡ p + k = omega arith in
    let left = length-drop k cs in
    let first : load a k fs.memory ≡ take k cs =
      load-take a k cs fs.memory (omega arith) (λ j lt. at j k k_le fits lt) in
    let rest : read_loop fuel (p + k) (suc m - k) fs (inode_at fs i)
        ≡ take (suc m - k) (drop k cs) =
      read_loop-take fuel i (p + k) (suc m - k) (drop k cs) fs v u (omega arith) (omega arith)
        (omega arith) (λ q lo hi. later q k k_le lo hi) in
    let all : k + (suc m - k) ≡ suc m = omega arith in
    read_step fuel p m fs (inode_at fs i) a found
    ∙ ap (λ t. load a k fs.memory ++ read_loop fuel t (suc m - k) fs (inode_at fs i)) same
    ∙ ap (λ t. t ++ read_loop fuel (p + k) (suc m - k) fs (inode_at fs i)) first
    ∙ ap (λ t. take k cs ++ t) rest
    ∙ take-drop k (suc m - k) cs
    ∙ ap (λ t. take t cs) all
  where
    bounded : 0 < block_of fs i (p / fs_block_size) → block_of fs i (p / fs_block_size) < max_blocks
    bounded has = elim (v.marked i (p / fs_block_size) u) [
      | inl z ↦ absurd (omega arith)
      | inr (lt, _) ↦ lt
    ]

    at :
        (j k : ℕ)
        → k ≤ suc m
        → p % fs_block_size + k ≤ fs_block_size
        → j < k
        → fs.memory (place fs (block_of fs i (p / fs_block_size)) (p % fs_block_size) + j)
          ≡ get_or cs j 0
    at j k kl fits lt =
        let (_, b) = h (p + j) (omega arith) (omega arith) in
        let same_block : (p + j) / fs_block_size ≡ p / fs_block_size = omega arith in
        let offset : (p + j) % fs_block_size ≡ p % fs_block_size + j = omega arith in
        let block = ap (block_of fs i) same_block in
        let where' : place fs (block_of fs i (p / fs_block_size)) (p % fs_block_size) + j
            ≡ place fs (block_of fs i ((p + j) / fs_block_size)) ((p + j) % fs_block_size) =
          omega arith in
        let n : p + j - p ≡ j = omega arith in ap fs.memory where' ∙ b ∙ ap (λ t. get_or cs t 0) n

    later :
        (q k : ℕ)
        → k ≤ suc m
        → p + k ≤ q
        → q < p + k + (suc m - k)
        → Mapped fs i q × (byte fs i q ≡ get_or (drop k cs) (q - (p + k)) 0)
    later q k kl lo hi =
        let (mapped, b) = h q (omega arith) (omega arith) in
        let n : q - p ≡ k + (q - (p + k)) = omega arith in
        (mapped, b ∙ ap (λ t. get_or cs t 0) n ∙ sym (get_or-drop k (q - (p + k)) cs))

-- the address of a position, if it has one
address_of-cases :
    (fs : BtreeFilesystem) (n : Inode) (p : ℕ)
    → (address_of fs n p ≡ none)
      ⊎ (0 < get_or n.direct_blocks (p / fs_block_size) 0)
        × (address_of fs n p
            ≡ some (place fs (get_or n.direct_blocks (p / fs_block_size) 0) (p % fs_block_size)))
unfolding address_of block_get_ptr
address_of-cases fs n p = ground arith

same_address :
    (fs fs' : BtreeFilesystem) (n : Inode) (p : ℕ)
    → fs'.block_storage ≡ fs.block_storage
    → address_of fs' n p ≡ address_of fs n p
unfolding address_of block_get_ptr
same_address fs fs' n p e = ground arith

-- The loop reads the blocks of its inode only.
pub read_loop_ext :
    (fuel p m : ℕ) (n : Inode) (fs fs' : BtreeFilesystem)
    → fs'.block_storage ≡ fs.block_storage
    → ((l o : ℕ)
        → 0 < get_or n.direct_blocks l 0
        → o < fs_block_size
        → fs'.memory (place fs (get_or n.direct_blocks l 0) o)
          ≡ fs.memory (place fs (get_or n.direct_blocks l 0) o))
    → read_loop fuel p m fs' n ≡ read_loop fuel p m fs n
read_loop_ext fuel p zero n fs fs' e h = read_nothing fuel p fs' n ∙ sym (read_nothing fuel p fs n)
read_loop_ext zero p (suc m) n fs fs' e h = read_dry p (suc m) fs' n ∙ sym (read_dry p (suc m) fs n)
read_loop_ext (suc fuel) p (suc m) n fs fs' e h = elim (address_of-cases fs n p) [
  | inl d ↦
      read_stop fuel p m fs' n (same_address fs fs' n p e ∙ d) ∙ sym (read_stop fuel p m fs n d)
  | inr (has, d) ↦
      let k : ℕ = chunk p (suc m) in
      let b : ℕ = get_or n.direct_blocks (p / fs_block_size) 0 in
      let fits = chunk_fits p (suc m) in
      let first : load (place fs b (p % fs_block_size)) k fs'.memory
          ≡ load (place fs b (p % fs_block_size)) k fs.memory =
        load_ext (place fs b (p % fs_block_size)) k fs'.memory fs.memory
          (λ a lo hi. one a has fits lo hi) in
      let rest = read_loop_ext fuel ((p + k) % 2 ^ 32) (suc m - k) n fs fs' e h in
      read_step fuel p m fs' n _ (same_address fs fs' n p e ∙ d)
      ∙ ap (λ t. t ++ read_loop fuel ((p + k) % 2 ^ 32) (suc m - k) fs' n) first
      ∙ ap (λ t. load (place fs b (p % fs_block_size)) k fs.memory ++ t) rest
      ∙ sym (read_step fuel p m fs n _ d)
]
  where
    one :
        (a : ℕ)
        → 0 < get_or n.direct_blocks (p / fs_block_size) 0
        → p % fs_block_size + chunk p (suc m) ≤ fs_block_size
        → place fs (get_or n.direct_blocks (p / fs_block_size) 0) (p % fs_block_size) ≤ a
        → a
          < place fs (get_or n.direct_blocks (p / fs_block_size) 0) (p % fs_block_size)
            + chunk p (suc m)
        → fs'.memory a ≡ fs.memory a
    one a has fits lo hi =
        let b : ℕ = get_or n.direct_blocks (p / fs_block_size) 0 in
        let o : ℕ = a - (fs.block_storage + b * fs_block_size) in
        let at : a ≡ place fs b o = omega arith in
        ap fs'.memory at ∙ h (p / fs_block_size) o has (omega arith) ∙ ap fs.memory (sym at)
