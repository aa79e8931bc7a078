-- ===== src/Uart/Tests.antt =====
-- The serial port at concrete inputs (kernel/uart.c).
use operating_system_se.Base.{◌≡◌, refl, true, some, [], ◌∷◌, replicate}
use operating_system_se.Console.{Console}
use operating_system_se.Uart.{Uart, uartwrite}

abbrev busy : Uart
busy = record { tx_busy = true; thr = some 9; line = [] }

abbrev console : Console
console = record { buf = replicate 128 0; r = 0; w = 0; e = 0 }

waits : uartwrite (1 ∷ 2 ∷ []) busy ≡ (1 ∷ 2 ∷ [], busy)
unfolding uartwrite
waits = refl
