-- ===== src/Memory/Tests.antt =====
-- Runs of the allocator, and its theorems at concrete heaps.
use fru1t_os.Prelude.{
  ◌≢◌, ◌<◌, ◌-◌, ℕ, ◌^◌, ◌≡◌, ◌≢◌, ◌⊎◌, refl, none, some, List, [], ◌∷◌, arith, true, ◌-◌, Bool,
  false,
}
use fru1t_os.Memory.{mark_free, MemBlock, heap_size, memory_init, align8, kmalloc, kfree}
use fru1t_os.Memory.Tiling.{IsHeap, ops-IsHeap}
use fru1t_os.Memory.Live.{capacity}
use fru1t_os.Memory.Grant.{Granted, has_room, kmalloc-Granted, kmalloc_total, kmalloc_wraps}
use fru1t_os.Memory.Release.{capacity-kfree}

abbrev block : ℕ → Bool → ℕ → MemBlock
block a f n = record { addr = a; is_free = f; size = n }

-- 64 and 104 bytes in use, the rest free
abbrev two_used : List MemBlock
two_used = block 1000 false 64 ∷ block 1076 false 104 ∷ block 1192 true (heap_size - 204) ∷ []

two_used_runs : (kmalloc 100 (kmalloc 64 (memory_init 1000)).1) ≡ (some 1088, two_used)
unfolding kmalloc memory_init
two_used_runs = refl

two_used-IsHeap : IsHeap 1000 two_used
two_used-IsHeap = omega arith

-- the sizes in the order of the list; the middle block is given back
hole : List MemBlock
unfolding kfree mark_free
hole = elim (kfree (some 1088) two_used) [ none ↦ [] | some bs ↦ bs ]

hole_reused : (kmalloc 97 hole).0 ≡ some 1088
unfolding hole kmalloc
hole_reused = refl

-- Three free neighbours become two: a merged block does not take in its second successor.
kfree_leaves_neighbours :
    kfree
      (some 1032)
      (block 1000 true 8 ∷ block 1020 false 8 ∷ block 1040 true 8 ∷ block 1060 false 8 ∷ [])
    ≡ some (block 1000 true 28 ∷ block 1040 true 8 ∷ block 1060 false 8 ∷ [])
unfolding kfree mark_free
kfree_leaves_neighbours = refl

-- a pointer into a block is a fault
stray_runs : kfree (some 1016) two_used ≡ none
unfolding kfree mark_free
stray_runs = refl

ops-IsHeap_example :
    IsHeap 1000 (memory_init 1000)
    × IsHeap 1000 (kmalloc 300 two_used).1
    × ((bs' : List MemBlock) × (kfree (some 1012) two_used ≡ some bs') × IsHeap 1000 bs')
ops-IsHeap_example = ops-IsHeap 300 (some 1012) two_used-IsHeap refl

granted_at : (kmalloc 300 two_used).0 ≡ some 1204
unfolding kmalloc
granted_at = refl

kmalloc-Granted_example : Granted 300 two_used 1204 (kmalloc 300 two_used).1
kmalloc-Granted_example = kmalloc-Granted 300 1204 two_used-IsHeap (omega arith) granted_at

abbrev request : ℕ
request = 300

kmalloc_total_example :
    (kmalloc request two_used ≡ (none, two_used))
      × ((request ≡ 0) ⊎ (has_room (align8 request) two_used ≡ false))
    ⊎ ((p : ℕ) × ((kmalloc request two_used).0 ≡ some p)
        × (request ≢ 0)
        × (has_room (align8 request) two_used ≡ true))
kmalloc_total_example = kmalloc_total request two_used

kmalloc_wraps_example :
    (p : ℕ) × (n : ℕ) × ((kmalloc (2 ^ 32 - 1) two_used).0 ≡ some p)
    × (capacity p two_used ≡ none)
    × (capacity p (kmalloc (2 ^ 32 - 1) two_used).1 ≡ some n)
    × (n < 2 ^ 32 - 1)
kmalloc_wraps_example = kmalloc_wraps (2 ^ 32 - 1) two_used-IsHeap (omega arith) (omega arith) refl

capacity-kfree_example :
    (bs' : List MemBlock) × (kfree (some 1012) two_used ≡ some bs')
    × IsHeap 1000 bs'
    × (capacity 1012 bs' ≡ none)
    × ((q : ℕ) → 1012 ≢ q → capacity q bs' ≡ capacity q two_used)
capacity-kfree_example = capacity-kfree 1012 64 two_used-IsHeap refl

first_pointer : (kmalloc 64 (memory_init 1000)).0 ≡ some 1012
unfolding kmalloc memory_init
first_pointer = refl

second_pointer : (kmalloc 100 (kmalloc 64 (memory_init 1000)).1).0 ≡ some 1088
unfolding kmalloc memory_init
second_pointer = refl
