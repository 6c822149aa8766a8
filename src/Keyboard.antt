-- ===== src/Keyboard.antt =====
-- The keyboard's ring buffer and the UART interrupt of kernel.c (`struct input_buffer`,
-- `input_buffer_*`, `handle_uart_interrupt`). A function that updates the global `input_buf`
-- returns the new buffer. The two UART registers that a call reads are its arguments.
pub mod Queue
pub mod Refine
mod Tests
use Prim.Native.Nat.{bit_and}
use fru1t_os.Prelude.{ℕ, ◌+◌, ◌-◌, ◌%◌, Bool, List, ltb, ◌==◌, not, if◌then◌else◌, get_or, set}

-- INPUT_BUFFER_SIZE
abbrev pub input_buffer_size : ℕ
input_buffer_size = 256

-- `struct input_buffer`; a `char` is the number of its byte
pub record InputBuffer : Type 0 where
  pub buffer : List ℕ
  pub write_pos : ℕ
  pub read_pos : ℕ
  pub count : ℕ

-- the bytes of the storage stay as they are
pub input_buffer_init : InputBuffer → InputBuffer
input_buffer_init b = record b { write_pos = 0; read_pos = 0; count = 0 }

pub input_buffer_put : ℕ → InputBuffer → InputBuffer
input_buffer_put c b =
    if ltb b.count input_buffer_size
    then record b {
      buffer = set b.buffer b.write_pos c;
      write_pos = (b.write_pos + 1) % input_buffer_size;
      count = b.count + 1;
    }
    else b

-- 0 stands for "no byte", as in the source
pub input_buffer_get : InputBuffer → ℕ × InputBuffer
input_buffer_get b =
    if ltb 0 b.count
    then (
      get_or b.buffer b.read_pos 0,
      record b { read_pos = (b.read_pos + 1) % input_buffer_size; count = b.count - 1 },
    )
    else (0, b)

pub input_buffer_available : InputBuffer → Bool
input_buffer_available b = ltb 0 b.count

-- UART_LSR_RX_READY is bit 0 of the line status register `lsr`
abbrev pub uart_rx_ready : ℕ → Bool
uart_rx_ready lsr = not (bit_and lsr 1 == 0)

-- `rhr` is what a read of the receive register returns
pub handle_uart_interrupt : (lsr rhr : ℕ) → InputBuffer → InputBuffer
unfolding input_buffer_put
handle_uart_interrupt lsr rhr b = if uart_rx_ready lsr then input_buffer_put rhr b else b
