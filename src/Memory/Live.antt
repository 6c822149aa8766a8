-- ===== src/Memory/Live.antt =====
-- Which addresses the heap has handed out, and that the regions lie apart.
use fru1t_os.Prelude.{
  ℕ, ◌+◌, ◌≤◌, ◌<◌, ◌≡◌, refl, Option, none, some, List, [], ◌∷◌, arith, ◌==◌, if◌then◌else◌,
}
use fru1t_os.Memory.{MemBlock, heap_size, header_size}
use fru1t_os.Memory.Tiling.{Tiles, Tiles-le, IsHeap}

-- the bytes allocated at the pointer `q`: none if `q` is no pointer that `kmalloc` gave, or is free
abbrev pub capacity : ℕ → List MemBlock → Option ℕ
capacity q [] = none
capacity q (b ∷ bs) =
    if b.addr + header_size == q then (if b.is_free then none else some b.size) else capacity q bs

-- no header stands below the start of a tiling
pub capacity_below :
    (a e q : ℕ) (bs : List MemBlock) → Tiles a e bs → q < a + header_size → capacity q bs ≡ none
capacity_below a e q [] t h = refl
capacity_below a e q (b ∷ bs) t h = ground (arith, capacity_below (a + header_size + b.size) e q bs)

-- an allocated region lies inside the tiling
pub capacity_within :
    (a e q n : ℕ) (bs : List MemBlock)
    → Tiles a e bs
    → capacity q bs ≡ some n
    → (a + header_size ≤ q) × (q + n ≤ e)
capacity_within a e q n [] t h = cc
capacity_within a e q n (b ∷ bs) t h = ground (
  arith,
  capacity_within (a + header_size + b.size) e q n bs,
  Tiles-le (a + header_size + b.size) e bs,
)

capacity_apart :
    (a e p q m n : ℕ) (bs : List MemBlock)
    → Tiles a e bs
    → capacity p bs ≡ some m
    → capacity q bs ≡ some n
    → p < q
    → p + m + header_size ≤ q
capacity_apart a e p q m n [] t hp hq l = cc
capacity_apart a e p q m n (b ∷ bs) t hp hq l = ground (
  arith,
  capacity_apart (a + header_size + b.size) e p q m n bs,
  capacity_within (a + header_size + b.size) e q n bs,
  capacity_within (a + header_size + b.size) e p m bs,
)

-- Two allocated regions of a heap lie inside it and apart, the header of the second between them.
pub allocated_apart :
    {heap : ℕ} {bs : List MemBlock} (p q m n : ℕ)
    → IsHeap heap bs
    → capacity p bs ≡ some m
    → capacity q bs ≡ some n
    → p < q
    → (heap + header_size ≤ p) × (p + m + header_size ≤ q) × (q + n ≤ heap + heap_size)
allocated_apart {heap} {bs} p q m n v hp hq l = ground (
  arith,
  capacity_within heap (heap + heap_size) p m bs v.tiles hp,
  capacity_within heap (heap + heap_size) q n bs v.tiles hq,
  capacity_apart heap (heap + heap_size) p q m n bs v.tiles hp hq l,
)
