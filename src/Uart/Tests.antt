-- ===== src/Uart/Tests.antt =====
-- The serial port on concrete histories.
use tenclaw.Base.{◌≡◌, refl, List, [], ◌∷◌, ◌++◌, arith, set, replicate}
use tenclaw.Uart.{Uart, initial}
use tenclaw.Uart.Fifo.{IsValid, waiting}
use tenclaw.Uart.Ports.{Event, input, read, write}
use tenclaw.Uart.History.{run, all_delivered, all_accepted, run-stream}

-- One byte waits, and both interrupts are enabled.
abbrev fed : Uart
fed = record initial { rx_buf = set (replicate 256 0) 0 65; rx_tail = 1; rx_count = 1; ier = 3 }

fed-IsValid : IsValid fed
fed-IsValid = record {
  buf_len = refl;
  head_in = omega arith;
  count_in = omega arith;
  tail_at = refl;
}

abbrev history : List Event
history = input 66 ∷ read 0 ∷ write 4 1 ∷ read 0 ∷ read 0 ∷ []

run-stream_example :
    all_delivered fed history ++ waiting (run fed history) ≡ waiting fed ++ all_accepted fed history
run-stream_example = (run-stream fed history fed-IsValid).1
