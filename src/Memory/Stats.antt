-- ===== src/Memory/Stats.antt =====
-- The bytes of the heap are conserved, a first allocation can be undone, and where the first
-- pointers lie.
use fru1t_os.Prelude.{
  ℕ, ◌+◌, ◌-◌, ◌*◌, ◌%◌, ◌≤◌, ◌<◌, ◌≡◌, ◌≢◌, refl, sym, ap, ◌∙◌, Option, some, List, [], ◌∷◌, arith,
  true, false,
}
use fru1t_os.Memory.{
  MemBlock, heap_size, header_size, memory_init, align8, kmalloc, mark_free, kfree, memory_stats,
}
use fru1t_os.Memory.Tiling.{Tiles, IsHeap}

stats-Tiles :
    (a e : ℕ) (bs : List MemBlock)
    → Tiles a e bs
    → let s = memory_stats bs in a + (s.total_free + s.total_used + header_size * s.blocks) ≡ e
unfolding memory_stats
stats-Tiles a e [] t = ground arith
stats-Tiles a e (b ∷ bs) t = ground (arith, stats-Tiles (a + header_size + b.size) e bs)

-- The bytes that `print_memory_stats` reports free and used, with a header for each block, make up
-- the heap.
stats-IsHeap :
    {heap : ℕ} {bs : List MemBlock}
    → IsHeap heap bs
    → let s = memory_stats bs in s.total_free + s.total_used + header_size * s.blocks ≡ heap_size
stats-IsHeap {heap} {bs} v = omega (arith, stats-Tiles heap (heap + heap_size) bs v.tiles)

-- what `kmalloc` makes of a large free block in front
kmalloc_front :
    (size : ℕ) (b : MemBlock) (bs : List MemBlock)
    → size ≢ 0
    → b.is_free ≡ true
    → b.size ≤ heap_size
    → align8 size + header_size < b.size
    → kmalloc size (b ∷ bs) ≡ (
      some (b.addr + header_size),
      record b { is_free = false; size = align8 size }
          ∷ record {
            addr = b.addr + header_size + align8 size;
            is_free = true;
            size = b.size - align8 size - header_size;
          }
          ∷ bs,
    )
unfolding kmalloc
kmalloc_front size b bs ne free small room = ground arith

abbrev whole : ℕ → MemBlock
whole heap = record { addr = heap; is_free = true; size = heap_size - header_size }

kmalloc_init :
    (heap size : ℕ)
    → size ≢ 0
    → align8 size + 2 * header_size < heap_size
    → kmalloc size (memory_init heap) ≡ (
      some (heap + header_size),
      record { addr = heap; is_free = false; size = align8 size }
          ∷ record {
            addr = heap + header_size + align8 size;
            is_free = true;
            size = heap_size - header_size - align8 size - header_size;
          }
          ∷ [],
    )
unfolding memory_init
kmalloc_init heap size ne room =
    kmalloc_front size (whole heap) [] ne refl (omega arith) (omega arith)

-- `kfree` of a first allocation that leaves room undoes it: the heap is the initial one again.
kfree-kmalloc_init :
    (heap size : ℕ)
    → size ≢ 0
    → align8 size + 2 * header_size < heap_size
    → let (p, bs) = kmalloc size (memory_init heap) in
      (p ≡ some (heap + header_size)) × (kfree p bs ≡ some (memory_init heap))
unfolding memory_init kfree mark_free
kfree-kmalloc_init heap size ne room = rw (kmalloc_init heap size ne room) (refl, ground arith)

kmalloc_behind :
    (size : ℕ) (b c : MemBlock) (bs : List MemBlock)
    → size ≢ 0
    → b.is_free ≡ false
    → c.is_free ≡ true
    → align8 size ≤ c.size
    → (kmalloc size (b ∷ c ∷ bs)).0 ≡ some (c.addr + header_size)
unfolding kmalloc
kmalloc_behind size b c bs ne used free room = ground arith

align8_mod : (size : ℕ) → align8 size % 8 ≡ 0
unfolding align8
align8_mod size = omega arith

-- Wherever the heap stands, the pointers of its first two allocations are never both multiples of 8.
pub kmalloc_unaligned :
    (heap m n : ℕ) {p q : ℕ}
    → m ≢ 0
    → n ≢ 0
    → align8 m + align8 n + 3 * header_size < heap_size
    → (kmalloc m (memory_init heap)).0 ≡ some p
    → (kmalloc n (kmalloc m (memory_init heap)).1).0 ≡ some q
    → ¬ ((p % 8 ≡ 0) × (q % 8 ≡ 0))
kmalloc_unaligned heap m n {p} {q} nm nn room hp hq both =
    let first = kmalloc_init heap m nm (omega arith) in
    let at : some p ≡ some (heap + header_size) =
      sym hp ∙ ap (λ (r : Option ℕ × List MemBlock). r.0) first in
    let next : some q ≡ some (heap + header_size + align8 m + header_size) =
      sym hq
      ∙ ap (λ (r : Option ℕ × List MemBlock). (kmalloc n r.1).0) first
      ∙ kmalloc_behind n _ _ [] nn refl refl (omega arith) in
    let p_is : p ≡ heap + header_size = ground arith in
    let q_is : q ≡ heap + header_size + align8 m + header_size = ground arith in
    omega (arith, align8_mod m)
