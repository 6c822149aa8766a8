-- ===== src/Trap.antt =====
-- The trap handler and the page allocator of kernel.c. A handler that panics never returns: `none`.
-- The registers that it reads are its arguments.
mod Tests
use native.Mathlib.Decide.{ℕ_discrete}
use fru1t_os.Prelude.{
  ℕ, zero, suc, ◌+◌, ◌-◌, ◌*◌, ◌/◌, ◌%◌, ◌^◌, ◌≤◌, ◌<◌, ◌≡◌, ◌≢◌, ◌⊎◌, inl, inr, refl, Bool, true,
  false, ◌&&◌, Option, none, some, arith, ltb, leb, ◌==◌, if◌then◌else◌, Bool-cases,
}
use fru1t_os.Keyboard.{InputBuffer, handle_uart_interrupt}

abbrev pub page_size : ℕ
page_size = 4096

-- SCAUSE_ECALL and SCAUSE_EXTERNAL_INTERRUPT; SCAUSE_INTERRUPT is the top bit of 32
abbrev pub scause_ecall : ℕ
scause_ecall = 8

abbrev pub scause_external_interrupt : ℕ
scause_external_interrupt = 9

-- what is written to `sepc`, and the input buffer; a system call does nothing
unfoldable pub handle_trap : (scause user_pc lsr rhr : ℕ) → InputBuffer → Option (ℕ × InputBuffer)
handle_trap scause user_pc lsr rhr b =
    if scause / 2 ^ 31 % 2 == 1
    then (if scause % 2 ^ 31 == scause_external_interrupt
        then some (user_pc, handle_uart_interrupt lsr rhr b)
        else none)
    else if scause == scause_ecall
    then some ((user_pc + 4) % 2 ^ 32, b)
    else none

-- `next` is `next_paddr` and `end` the end of the free memory; the result is the address, the new
-- `next_paddr` and the memory with the pages cleared
unfoldable pub alloc_pages : (end n next : ℕ) → (ℕ → ℕ) → Option (ℕ × ℕ × (ℕ → ℕ))
alloc_pages end n next memory =
    let size : ℕ = n * page_size % 2 ^ 32 in
    let next' : ℕ = (next + size) % 2 ^ 32 in
    if ltb end next'
    then none
    else some (next, next', λ a. if leb next a && ltb a (next + size) then 0 else memory a)

pages_equation :
    (end n next : ℕ) (memory : ℕ → ℕ)
    → next + n * page_size < 2 ^ 32
    → next + n * page_size ≤ end
    → alloc_pages end n next memory
      ≡ some (
        next,
        next + n * page_size,
        λ a. if leb next a && ltb a (next + n * page_size) then 0 else memory a,
      )
unfolding alloc_pages
pages_equation end n next memory h r =
    let size : n * page_size % 2 ^ 32 ≡ n * page_size = omega arith in
    let sum : (next + n * page_size) % 2 ^ 32 ≡ next + n * page_size = omega arith in
    let t : ltb end (next + n * page_size) ≡ false = ground arith in rw (size, sum, t) refl

pages_panic :
    (end n next : ℕ) (memory : ℕ → ℕ)
    → next + n * page_size < 2 ^ 32
    → end < next + n * page_size
    → alloc_pages end n next memory ≡ none
unfolding alloc_pages
pages_panic end n next memory h r =
    let size : n * page_size % 2 ^ 32 ≡ n * page_size = omega arith in
    let sum : (next + n * page_size) % 2 ^ 32 ≡ next + n * page_size = omega arith in
    let t : ltb end (next + n * page_size) ≡ true = ground arith in rw (size, sum, t) refl

-- what `alloc_pages` has done when it returns
pub record Paged (end n next : ℕ) (memory : ℕ → ℕ) (p next' : ℕ) (memory' : ℕ → ℕ) : Type 0 where
  pub behind_used : p ≡ next
  pub room : p + n * page_size ≡ next'
  pub inside : next' ≤ end
  pub cleared : (a : ℕ) → (p ≤ a) → (a < next') → memory' a ≡ 0
  pub others : (a : ℕ) → (a < p) ⊎ (next' ≤ a) → memory' a ≡ memory a

-- Where the address space is not exceeded, `alloc_pages` panics exactly when the free memory has too
-- few bytes left. Else it returns pages that start where the last ones ended, lie in the free memory
-- and are cleared; the memory outside of them, so that of earlier pages, stays as it was.
pub alloc_pages_lem :
    (end n next : ℕ) (memory : ℕ → ℕ)
    → next + n * page_size < 2 ^ 32
    → (alloc_pages end n next memory ≡ none) × (end < next + n * page_size)
      ⊎ ((p : ℕ) × (next' : ℕ) × (memory' : ℕ → ℕ) × (alloc_pages end n next memory
            ≡ some (p, next', memory'))
          × Paged end n next memory p next' memory')
alloc_pages_lem end n next memory h = elim (Bool-cases (ltb end (next + n * page_size))) [
  | inl t ↦
      let full : end < next + n * page_size = ground arith in
      inl (pages_panic end n next memory h full, full)
  | inr t ↦
      let room : next + n * page_size ≤ end = ground arith in
      inr (
        next,
        next + n * page_size,
        _,
        pages_equation end n next memory h room,
        record {
          behind_used = refl;
          room = refl;
          inside = room;
          cleared = λ a l r. ground arith;
          others = λ a l. ground arith;
        },
      )
]
