-- ===== src/Inode/Files.antt =====
-- The bytes of a file, from inode.c: `inode_read`, `inode_write` and `inode_truncate`. The loops run on
-- as much fuel as there are bytes: each round but the last moves at least one.
use fru1t_os.Prelude.{
  ℕ, zero, suc, ◌+◌, ◌-◌, ◌/◌, ◌%◌, ◌^◌, Option, none, some, List, [], ◌∷◌, ◌++◌, ltb, leb, ◌==◌,
  if◌then◌else◌, length, take, get_or, set,
}
use fru1t_os.Fs.{store, load}
use fru1t_os.Inode.{
  Inode, BtreeFilesystem, inode_at, set_inode, num_direct_blocks, fs_block_size, block_get_ptr,
  block_alloc, block_free,
}

abbrev pub drop : ℕ → List ℕ → List ℕ
drop zero cs = cs
drop (suc n) [] = []
drop (suc n) (c ∷ cs) = drop n cs

-- the bytes that fit the block of position `p`, of `n` that are left
abbrev pub chunk : (p n : ℕ) → ℕ
chunk p n =
    if ltb n (fs_block_size - p % fs_block_size) then n else fs_block_size - p % fs_block_size

-- where the byte of position `p` of an inode stands; `none` is a position behind the direct blocks, or
-- one without a block
unfoldable pub address_of : BtreeFilesystem → Inode → ℕ → Option ℕ
address_of fs n p =
    if leb num_direct_blocks (p / fs_block_size)
    then none
    else if get_or n.direct_blocks (p / fs_block_size) 0 == 0
    then none
    else (elim (block_get_ptr fs (get_or n.direct_blocks (p / fs_block_size) 0)) [
      | none ↦ none
      | some a ↦ some (a + p % fs_block_size)
    ])

-- the loop of `inode_read` from position `p` on, with `n` bytes left
unfoldable pub read_loop : (fuel p n : ℕ) → BtreeFilesystem → Inode → List ℕ
read_loop zero p n fs node = []
read_loop (suc fuel) p zero fs node = []
read_loop (suc fuel) p (suc n) fs node = elim (address_of fs node p) [
  | none ↦ []
  | some a ↦
      load a (chunk p (suc n)) fs.memory
      ++ read_loop fuel ((p + chunk p (suc n)) % 2 ^ 32) (suc n - chunk p (suc n)) fs node
]

-- the bytes that a read gives: what the buffer then holds, as many as the result says
unfoldable pub inode_read : (i offset size : ℕ) → BtreeFilesystem → List ℕ
inode_read i offset size fs =
    let n = inode_at fs i in
    if leb n.size offset
    then []
    else (let size' : ℕ = if ltb n.size ((offset + size) % 2 ^ 32) then n.size - offset else size in
        read_loop size' offset size' fs n)

-- the block for index `k` of inode `i`, allocated if there is none; `none` without a free block
unfoldable pub ensure_block : (i k : ℕ) → BtreeFilesystem → Option BtreeFilesystem
ensure_block i k fs =
    if get_or (inode_at fs i).direct_blocks k 0 == 0
    then (elim (block_alloc fs).0 [
      | none ↦ none
      | some b ↦
          let n = inode_at fs i in
          some (
            set_inode i
              (record n {
                direct_blocks = set n.direct_blocks k b;
                block_count = n.block_count + 1;
              })
              (block_alloc fs).1)
    ])
    else some fs

abbrev pub with_memory : BtreeFilesystem → (ℕ → ℕ) → BtreeFilesystem
with_memory fs m = record fs { memory = m }

-- the loop of `inode_write` from position `p` on, with the bytes that are left; the number is that of
-- the bytes written
unfoldable pub write_loop : (fuel i p : ℕ) → List ℕ → BtreeFilesystem → ℕ × BtreeFilesystem
write_loop zero i p cs fs = (0, fs)
write_loop (suc fuel) i p [] fs = (0, fs)
write_loop (suc fuel) i p (c ∷ cs) fs =
    if leb num_direct_blocks (p / fs_block_size)
    then (0, fs)
    else (elim (ensure_block i (p / fs_block_size) fs) [
      | none ↦ (0, fs)
      | some fs' ↦ elim (address_of fs' (inode_at fs' i) p) [
        | none ↦ (0, fs')
        | some a ↦
            let k = chunk p (length (c ∷ cs)) in
            let (w, fs'') =
              write_loop fuel i ((p + k) % 2 ^ 32) (drop k (c ∷ cs))
                (with_memory fs' (store a (take k (c ∷ cs)) fs'.memory)) in
            (k + w, fs'')
      ]
    ])

-- the size behind a write
abbrev pub grown : (i end : ℕ) → BtreeFilesystem → BtreeFilesystem
grown i end fs =
    let n = inode_at fs i in if ltb n.size end then set_inode i (record n { size = end }) fs else fs

unfoldable pub inode_write : (i offset : ℕ) → List ℕ → BtreeFilesystem → ℕ × BtreeFilesystem
inode_write i offset cs fs =
    let (w, fs') = write_loop (length cs) i offset cs fs in (w, grown i ((offset + w) % 2 ^ 32) fs')

-- the loop that frees the blocks of index `k` to below `end`, `n` of them
unfoldable pub cut_loop : (n i k : ℕ) → BtreeFilesystem → BtreeFilesystem
cut_loop zero i k fs = fs
cut_loop (suc n) i k fs =
    let m = inode_at fs i in
    let b : ℕ = get_or m.direct_blocks k 0 in
    cut_loop n i (k + 1) (
      if ltb 0 b
      then set_inode i (record m { direct_blocks = set m.direct_blocks k 0 }) (block_free b fs)
      else fs)

abbrev pub min_of : ℕ → ℕ → ℕ
min_of a b = if ltb a b then a else b

unfoldable pub inode_truncate : (i new_size : ℕ) → BtreeFilesystem → BtreeFilesystem
inode_truncate i new_size fs =
    let n = inode_at fs i in
    let new_blocks : ℕ = (new_size + 511) % 2 ^ 32 / fs_block_size in
    let fs' = cut_loop (min_of n.block_count num_direct_blocks - new_blocks) i new_blocks fs in
    if leb n.size new_size
    then fs
    else set_inode i (record (inode_at fs' i) { size = new_size; block_count = new_blocks }) fs'
