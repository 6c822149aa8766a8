-- ===== src/Fd/Tests.antt =====
-- Runs of the descriptor table with the UART's operations over a queue of bytes, and the theorems at
-- them.
use fru1t_os.Prelude.{
  ℕ, ◌<◌, ◌≡◌, ◌⊎◌, refl, Bool, true, false, none, some, List, [], ◌∷◌, ◌++◌, arith, set,
}
use fru1t_os.Prelude.Int.{pos}
use fru1t_os.Fd.{Fd, FdTable, max_fds, no_fd, fd_init, fd_alloc, find_unused, fd_get, fd_poll}
use fru1t_os.Fd.Invariant.{IsValid, IsFree, fd_init-IsValid, set-IsValid}
use fru1t_os.Fd.Calls.{Allocated, fd_alloc_lem}
use fru1t_os.Fd.Uart.{Uart, uart_fd_ops, uart_fd_poll}

-- the bytes that wait to be read
abbrev Line : Type 0
Line = List ℕ

abbrev ready : Line → Bool
ready [] = false
ready (_ ∷ _) = true

abbrev next : Line → ℕ × Line
next [] = (0, [])
next (c ∷ cs) = (c, cs)

-- what is written comes back at the end of the line
abbrev loopback : Uart Line
loopback = record { rx_ready = ready; getchar = next; putchar = λ c d. d ++ (c ∷ []) }

abbrev table : FdTable Line
table = fd_init

alloc_runs : (fd_alloc 2 0 (some (uart_fd_ops loopback)) table).0 ≡ some 0
unfolding fd_alloc find_unused fd_init
alloc_runs = refl

abbrev console : Fd Line
console = record no_fd { type = 2; ops = some (uart_fd_ops loopback); ref_count = pos 1 }

abbrev one_open : FdTable Line
one_open = record { fds = set table.fds 0 console; next_fd = 1 }

one_open-IsValid : IsValid one_open
unfolding fd_init
one_open-IsValid = set-IsValid 0 1 console (fd_init-IsValid Line) (omega arith) (omega arith) refl

console_found : fd_get (pos 0) one_open ≡ some (0, console)
unfolding fd_get fd_init
console_found = refl

poll_runs : (fd_poll (pos 0) one_open (65 ∷ [])).0 ≡ 3
unfolding fd_poll fd_get fd_init uart_fd_poll
poll_runs = refl

fd_alloc_lem_example :
    (fd_alloc 2 0 none one_open ≡ (none, one_open))
      × ((j : ℕ) → j < max_fds → ¬ IsFree one_open.fds j)
    ⊎ ((n : ℕ) × ((fd_alloc 2 0 none one_open).0 ≡ some n)
        × Allocated 2 0 none one_open n (fd_alloc 2 0 none one_open).1)
fd_alloc_lem_example = fd_alloc_lem 2 0 none one_open-IsValid (omega arith)
