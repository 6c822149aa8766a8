-- ===== src/Memory.antt =====
-- The heap allocator of kernel.c (`struct mem_block`, `memory_init`, `kmalloc`, `kfree`,
-- `print_memory_stats`). The chain of headers that starts at `free_list` is the list of its blocks,
-- each with its address: the `next` pointer of a header is the address of the block behind it.
-- Addresses and sizes are `uint32_t`.
pub mod Tiling
pub mod Live
pub mod Grant
pub mod Release
pub mod Stats
mod Tests
use fru1t_os.Prelude.{
  ℕ, ◌+◌, ◌-◌, ◌*◌, ◌/◌, ◌%◌, ◌^◌, Bool, true, false, ◌&&◌, ◌||◌, Option, none, some, List, [], ◌∷◌,
  leb, ltb, ◌==◌, if◌then◌else◌,
}

-- HEAP_SIZE
abbrev pub heap_size : ℕ
heap_size = 4 * 1024 * 1024

-- sizeof(struct mem_block): an `int`, a `size_t` and a pointer, four bytes each
abbrev pub header_size : ℕ
header_size = 12

pub record MemBlock : Type 0 where
  pub addr : ℕ
  pub is_free : Bool
  pub size : ℕ

-- `heap` is the address of the heap's array, which the linker chooses
unfoldable pub memory_init : (heap : ℕ) → List MemBlock
memory_init heap = record { addr = heap; is_free = true; size = heap_size - header_size } ∷ []

-- (size + 7) & ~7 over 32 bits: the mask clears the low three bits
unfoldable pub align8 : ℕ → ℕ
align8 size = (size + 7) % 2 ^ 32 / 8 * 8

-- a block that the search takes, and the blocks behind it: it is split if a header and at least one
-- byte more are left
unfoldable pub take_block : ℕ → MemBlock → List MemBlock → List MemBlock
take_block size b bs =
    if ltb ((size + header_size) % 2 ^ 32) b.size
    then record b { is_free = false; size = size }
      ∷ record {
        addr = b.addr + header_size + size;
        is_free = true;
        size = b.size - size - header_size;
      }
      ∷ bs
    else record b { is_free = false } ∷ bs

-- the loop of `kmalloc`: the first free block that is large enough
unfoldable pub first_fit : ℕ → List MemBlock → Option ℕ × List MemBlock
unfolding take_block
first_fit size [] = (none, [])
first_fit size (b ∷ bs) =
    let (p, rest) = first_fit size bs in
    if b.is_free && leb size b.size
    then (some (b.addr + header_size), take_block size b bs)
    else (p, b ∷ rest)

-- `none` is NULL
unfoldable pub kmalloc : ℕ → List MemBlock → Option ℕ × List MemBlock
unfolding align8 first_fit
kmalloc size blocks = if size == 0 then (none, blocks) else first_fit (align8 size) blocks

-- whether a header of the chain stands at the address `a`
abbrev pub heads : ℕ → List MemBlock → Bool
heads a [] = false
heads a (b ∷ bs) = (b.addr == a) || heads a bs

abbrev pub marked_at : ℕ → List MemBlock → List MemBlock
marked_at a [] = []
marked_at a (b ∷ bs) = if b.addr == a then record b { is_free = true } ∷ bs else b ∷ marked_at a bs

-- `block->is_free = 1` at the header of address `a`; `none` is a write at an address that heads no
-- block, which changes other bytes of the heap
unfoldable pub mark_free : ℕ → List MemBlock → Option (List MemBlock)
mark_free a bs = if heads a bs then some (marked_at a bs) else none

abbrev pub mergeable : MemBlock → MemBlock → Bool
mergeable b c = b.is_free && c.is_free && (b.addr + header_size + b.size == c.addr)

-- the loop of `kfree`: `current` goes on behind a merged block, so each block takes in at most one
-- successor
unfoldable pub coalesce : List MemBlock → List MemBlock
coalesce [] = []
coalesce (b ∷ []) = b ∷ []
coalesce (b ∷ c ∷ bs) = elim (mergeable b c) [
  | true ↦ record b { size = b.size + (header_size + c.size) } ∷ coalesce bs
  | false ↦ b ∷ coalesce (c ∷ bs)
]

-- NULL is left alone; `none` is a pointer that is to no block
unfoldable pub kfree : Option ℕ → List MemBlock → Option (List MemBlock)
unfolding mark_free coalesce
kfree none blocks = some blocks
kfree (some p) blocks = elim (mark_free (p - header_size) blocks) [
  | none ↦ none
  | some marked ↦ some (coalesce marked)
]

-- `print_memory_stats`: how many blocks there are, and the bytes free and in use
pub record MemStats : Type 0 where
  pub blocks : ℕ
  pub total_free : ℕ
  pub total_used : ℕ

unfoldable pub memory_stats : List MemBlock → MemStats
memory_stats [] = record { blocks = 0; total_free = 0; total_used = 0 }
memory_stats (b ∷ bs) =
    let s = memory_stats bs in
    record {
      blocks = s.blocks + 1;
      total_free = if b.is_free then s.total_free + b.size else s.total_free;
      total_used = if b.is_free then s.total_used else s.total_used + b.size;
    }
