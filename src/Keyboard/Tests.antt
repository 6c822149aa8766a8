-- ===== src/Keyboard/Tests.antt =====
-- Runs of the keyboard buffer, and its theorems at concrete buffers.
use fru1t_os.Prelude.{◌≡◌, refl, false, List, [], ◌∷◌, arith, replicate}
use fru1t_os.Keyboard.{
  InputBuffer, input_buffer_put, input_buffer_get, input_buffer_available, input_buffer_init,
  handle_uart_interrupt,
}
use fru1t_os.Keyboard.Queue
use fru1t_os.Keyboard.Queue.{Event, arrives, reads}
use fru1t_os.Keyboard.Refine.{IsValid, contents, run, run_refines, ops-IsValid}

abbrev fresh : InputBuffer
fresh = record { buffer = replicate 256 0; write_pos = 0; read_pos = 0; count = 0 }

fresh-IsValid : IsValid fresh
fresh-IsValid = record {
  storage = refl;
  read_in = omega arith;
  count_in = omega arith;
  write_at = refl;
}

abbrev script : List Event
script = arrives 104 ∷ arrives 105 ∷ reads ∷ arrives 33 ∷ reads ∷ reads ∷ reads ∷ []

run_runs : run script fresh ≡ 104 ∷ 105 ∷ 33 ∷ 0 ∷ []
unfolding run input_buffer_put input_buffer_get
run_runs = refl

-- bit 0 of the status register says whether a byte is there
interrupt_runs :
    ((handle_uart_interrupt 0x61 65 fresh).count ≡ 1)
    × ((handle_uart_interrupt 0x60 65 fresh).count ≡ 0)
unfolding handle_uart_interrupt
interrupt_runs = (refl, refl)

run_refines_example : run script fresh ≡ Queue.run script []
run_refines_example = run_refines script fresh-IsValid

ops-IsValid_example :
    IsValid (input_buffer_put 65 fresh)
    × IsValid (input_buffer_get fresh).1
    × (input_buffer_available fresh ≡ false)
    × IsValid (input_buffer_init fresh)
    × (contents (input_buffer_init fresh) ≡ [])
ops-IsValid_example = ops-IsValid 65 fresh-IsValid
