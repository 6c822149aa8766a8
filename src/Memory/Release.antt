-- ===== src/Memory/Release.antt =====
-- What `kfree` does to the allocated regions.
use fru1t_os.Prelude.{
  ℕ, ◌+◌, ◌-◌, ◌≡◌, ◌≢◌, ◌∙◌, refl, Bool-cases, inl, inr, none, some, List, [], ◌∷◌, arith, true,
  false, ◌==◌, if◌then◌else◌,
}
use fru1t_os.Memory.{MemBlock, heap_size, header_size, marked_at, mergeable, coalesce, kfree}
use fru1t_os.Memory.Tiling.{Tiles, IsHeap, IsBlock, marked_at-Tiles, kfree_marked, marked-IsHeap}
use fru1t_os.Memory.Live.{capacity, capacity_below, capacity_within}

coalesce_nil : coalesce [] ≡ []
unfolding coalesce
coalesce_nil = refl

coalesce_one : (b : MemBlock) → coalesce (b ∷ []) ≡ b ∷ []
unfolding coalesce
coalesce_one b = refl

capacity-marked_at :
    (a q : ℕ) (bs : List MemBlock)
    → capacity q (marked_at a bs) ≡ (if a + header_size == q then none else capacity q bs)
capacity-marked_at a q [] = ground arith
capacity-marked_at a q (b ∷ bs) = ground (arith, capacity-marked_at a q bs)

-- an allocated pointer is to a block
allocated-IsBlock : (p n : ℕ) (bs : List MemBlock) → capacity p bs ≡ some n → IsBlock (some p) bs
allocated-IsBlock p n [] e = cc
allocated-IsBlock p n (b ∷ bs) e = ground (arith, allocated-IsBlock p n bs)

module _ (b c : MemBlock) (bs : List MemBlock) where
  coalesce_merge :
      mergeable b c ≡ true
      → coalesce (b ∷ c ∷ bs) ≡ record b { size = b.size + (header_size + c.size) } ∷ coalesce bs
  unfolding coalesce
  coalesce_merge m = ground arith

  coalesce_keep : mergeable b c ≡ false → coalesce (b ∷ c ∷ bs) ≡ b ∷ coalesce (c ∷ bs)
  unfolding coalesce
  coalesce_keep m = ground arith

capacity-coalesce :
    (a e q : ℕ) (bs : List MemBlock) → Tiles a e bs → capacity q (coalesce bs) ≡ capacity q bs
capacity-coalesce a e q [] t = rw coalesce_nil
capacity-coalesce a e q (b ∷ []) t = rw (coalesce_one b)
capacity-coalesce a e q (b ∷ c ∷ bs) t = elim (Bool-cases (mergeable b c)) [
  | inl m ↦ rw (coalesce_merge b c bs m) (
      ground (
        arith,
        capacity-coalesce (a + header_size + b.size + header_size + c.size) e q bs,
        capacity_below (a + header_size + b.size + header_size + c.size) e q bs,
      ))
  | inr m ↦
      rw (coalesce_keep b c bs m)
        (rw (capacity-coalesce (a + header_size + b.size) e q (c ∷ bs) t.1))
]

-- On a heap whose blocks fill it, `kfree` of an allocated pointer returns a heap whose blocks fill it
-- again: the region of the pointer is no longer allocated, so that its bytes stand in a free block, and
-- every other allocated region is as it was.
pub capacity-kfree :
    {heap : ℕ} {bs : List MemBlock} (p n : ℕ)
    → IsHeap heap bs
    → capacity p bs ≡ some n
    → (bs' : List MemBlock) × (kfree (some p) bs ≡ some bs')
      × IsHeap heap bs'
      × (capacity p bs' ≡ none)
      × ((q : ℕ) → p ≢ q → capacity q bs' ≡ capacity q bs)
capacity-kfree {heap} {bs} p n v e =
    let at : ℕ = p - header_size in
    (
      coalesce (marked_at at bs),
      kfree_marked p bs (allocated-IsBlock p n bs e),
      marked-IsHeap at v,
      now p ∙ (let t : (p == p) ≡ true = ground arith in rw t refl),
      λ q ne. now q ∙ (let t : (p == q) ≡ false = ground arith in rw t refl),
    )
  where
    now :
        (q : ℕ)
        → capacity q (coalesce (marked_at (p - header_size) bs))
          ≡ (if p == q then none else capacity q bs)
    now q =
        let at : ℕ = p - header_size in
        let end : ℕ = heap + heap_size in
        rw (capacity-coalesce heap end q (marked_at at bs) (marked_at-Tiles heap end at bs v.tiles))
          (ground (arith, capacity-marked_at at q bs, capacity_within heap end p n bs v.tiles e))
