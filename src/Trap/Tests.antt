-- ===== src/Trap/Tests.antt =====
-- Runs of the trap handler and of the page allocator, and the theorem at a page.
use fru1t_os.Prelude.{ℕ, ◌+◌, ◌*◌, ◌<◌, ◌≡◌, ◌⊎◌, refl, none, some, arith, replicate}
use fru1t_os.Keyboard.{InputBuffer, handle_uart_interrupt}
use fru1t_os.Trap.{handle_trap, alloc_pages, page_size, Paged, alloc_pages_lem}

abbrev buffer : InputBuffer
buffer = record { buffer = replicate 256 0; write_pos = 0; read_pos = 0; count = 0 }

abbrev ram : ℕ
ram = 65536

abbrev ram_end : ℕ
ram_end = 73728

ecall_runs : handle_trap 8 100 0 0 buffer ≡ some (104, buffer)
unfolding handle_trap
ecall_runs = refl

-- the timer
timer_runs : handle_trap 2147483653 100 0 0 buffer ≡ none
unfolding handle_trap
timer_runs = refl

-- an external interrupt without a byte
spurious_runs : handle_trap 2147483657 100 0 0 buffer ≡ some (100, handle_uart_interrupt 0 0 buffer)
unfolding handle_trap
spurious_runs = refl

alloc_pages_lem_example :
    (alloc_pages ram_end 1 ram (λ a. 7) ≡ none) × (ram_end < ram + 1 * page_size)
    ⊎ ((p : ℕ) × (next' : ℕ) × (memory' : ℕ → ℕ) × (alloc_pages ram_end 1 ram (λ a. 7)
          ≡ some (p, next', memory'))
        × Paged ram_end 1 ram (λ a. 7) p next' memory')
alloc_pages_lem_example = alloc_pages_lem ram_end 1 ram (λ a. 7) (omega arith)
