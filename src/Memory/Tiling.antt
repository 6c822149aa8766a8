-- ===== src/Memory/Tiling.antt =====
-- The invariant of the heap: its blocks lie end to end and fill it.
use fru1t_os.Prelude.{
  ℕ, ◌+◌, ◌-◌, ◌^◌, ◌≤◌, ◌<◌, ◌≡◌, Option, none, some, List, [], ◌∷◌, arith, ap, refl, true,
  if◌then◌else◌,
}
use fru1t_os.Memory.{
  MemBlock, heap_size, header_size, memory_init, align8, take_block, first_fit, kmalloc, mark_free,
  heads, marked_at, coalesce, kfree,
}

-- the blocks fill the addresses from `a` to `e`, with no gap and no overlap
abbrev pub Tiles : ℕ → ℕ → List MemBlock → Type 0
Tiles a e [] = a ≡ e
Tiles a e (b ∷ bs) = (b.addr ≡ a) × Tiles (a + header_size + b.size) e bs

pub Tiles-le : (a e : ℕ) (bs : List MemBlock) → Tiles a e bs → a ≤ e
Tiles-le a e [] t = omega arith
Tiles-le a e (b ∷ bs) t = omega (arith, Tiles-le (a + header_size + b.size) e bs t.1)

-- The heap starts at a non-zero address and does not wrap round the address space.
pub record IsHeap (heap : ℕ) (bs : List MemBlock) : Type 0 where
  pub ne_zero : 0 < heap
  pub fits : heap + heap_size ≤ 2 ^ 32
  pub tiles : Tiles heap (heap + heap_size) bs

moved-Tiles : (a a' e : ℕ) (bs : List MemBlock) → a ≡ a' → Tiles a e bs → Tiles a' e bs
moved-Tiles a a' e bs p t = rw (← p) t

take_block-Tiles :
    (a e size : ℕ) (b : MemBlock) (bs : List MemBlock)
    → 0 < a
    → e ≤ 2 ^ 32
    → size ≤ b.size
    → Tiles a e (b ∷ bs)
    → Tiles a e (take_block size b bs)
unfolding take_block
take_block-Tiles a e size b bs pa h fit t = ground (
  arith,
  Tiles-le (a + header_size + b.size) e bs t.1,
  moved-Tiles (a + header_size + b.size)
      (a + header_size + size + header_size + (b.size - size - header_size)) e bs,
)

pub first_fit-Tiles :
    (a e size : ℕ) (bs : List MemBlock)
    → 0 < a
    → e ≤ 2 ^ 32
    → Tiles a e bs
    → Tiles a e (first_fit size bs).1
unfolding first_fit
first_fit-Tiles a e size [] pa h t = t
first_fit-Tiles a e size (b ∷ bs) pa h t = ground (
  arith,
  take_block-Tiles a e size b bs pa h,
  first_fit-Tiles (a + header_size + b.size) e size bs (omega arith) h,
)

pub marked_at-Tiles : (a e p : ℕ) (bs : List MemBlock) → Tiles a e bs → Tiles a e (marked_at p bs)
marked_at-Tiles a e p [] t = t
marked_at-Tiles a e p (b ∷ bs) t = ground (arith, marked_at-Tiles (a + header_size + b.size) e p bs)

coalesce-Tiles : (a e : ℕ) (bs : List MemBlock) → Tiles a e bs → Tiles a e (coalesce bs)
unfolding coalesce
coalesce-Tiles a e [] t = t
coalesce-Tiles a e (b ∷ []) t = t
coalesce-Tiles a e (b ∷ c ∷ bs) t = ground (
  arith,
  coalesce-Tiles (a + header_size + b.size + header_size + c.size) e bs,
  moved-Tiles (a + header_size + b.size + header_size + c.size)
      (a + header_size + (b.size + (header_size + c.size))) e (coalesce bs),
  coalesce-Tiles (a + header_size + b.size) e (c ∷ bs),
)

pub kmalloc-IsHeap :
    {heap : ℕ} {bs : List MemBlock} (size : ℕ) → IsHeap heap bs → IsHeap heap (kmalloc size bs).1
unfolding kmalloc
kmalloc-IsHeap {heap} {bs} size v =
    ground (arith, first_fit-Tiles heap (heap + heap_size) (align8 size) bs v.ne_zero v.fits)

-- NULL, or a pointer to a block of the chain
abbrev pub IsBlock : Option ℕ → List MemBlock → Type 0
IsBlock none bs = Unit
IsBlock (some p) bs = heads (p - header_size) bs ≡ true

pub kfree_marked :
    (p : ℕ) (bs : List MemBlock)
    → IsBlock (some p) bs
    → kfree (some p) bs ≡ some (coalesce (marked_at (p - header_size) bs))
unfolding kfree mark_free
kfree_marked p bs h =
    ap
      (λ b. elim (if b then some (marked_at (p - header_size) bs) else none) [
        | none ↦ none
        | some marked ↦ some (coalesce marked)
      ])
      h

kfree_null : (bs : List MemBlock) → kfree none bs ≡ some bs
unfolding kfree
kfree_null bs = refl

pub marked-IsHeap :
    {heap : ℕ} {bs : List MemBlock} (a : ℕ)
    → IsHeap heap bs
    → IsHeap heap (coalesce (marked_at a bs))
marked-IsHeap {heap} {bs} a v =
    let end : ℕ = heap + heap_size in
    record {
      ne_zero = v.ne_zero;
      fits = v.fits;
      tiles = coalesce-Tiles heap end (marked_at a bs) (marked_at-Tiles heap end a bs v.tiles);
    }

kfree-IsHeap :
    {heap : ℕ} {bs : List MemBlock} (p : Option ℕ)
    → IsHeap heap bs
    → IsBlock p bs
    → (bs' : List MemBlock) × (kfree p bs ≡ some bs') × IsHeap heap bs'
kfree-IsHeap {heap} {bs} none v h = (bs, kfree_null bs, v)
kfree-IsHeap {heap} {bs} (some p) v h = (
  coalesce (marked_at (p - header_size) bs),
  kfree_marked p bs h,
  marked-IsHeap (p - header_size) v,
)

pub memory_init-IsHeap :
    (heap : ℕ) → 0 < heap → heap + heap_size ≤ 2 ^ 32 → IsHeap heap (memory_init heap)
unfolding memory_init
memory_init-IsHeap heap h k = ground arith

-- `memory_init` at an address that leaves room makes a heap whose blocks fill it end to end, and on
-- such a heap any `kmalloc` leaves one, and `kfree` of NULL or of the pointer to a block returns and
-- leaves one.
pub ops-IsHeap :
    {heap : ℕ} {bs : List MemBlock} (size : ℕ) (p : Option ℕ)
    → IsHeap heap bs
    → IsBlock p bs
    → IsHeap heap (memory_init heap)
      × IsHeap heap (kmalloc size bs).1
      × ((bs' : List MemBlock) × (kfree p bs ≡ some bs') × IsHeap heap bs')
ops-IsHeap {heap} size p v h =
    (memory_init-IsHeap heap v.ne_zero v.fits, kmalloc-IsHeap size v, kfree-IsHeap p v h)
