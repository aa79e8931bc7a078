-- ===== src/Uart/Send.antt =====
-- The bytes that `uartwrite` sends while the port transmits and interrupts (kernel/uart.c).
use operating_system_se.Base.{
  ℕ, ◌≤◌, ◌≡◌, true, false, Option, none, some, List, [], ◌∷◌, ◌++◌, length,
}
use operating_system_se.Console.{Console}
use operating_system_se.Uart.{Uart, transmit, read_lsr, uartwrite, uartintr}

-- What may happen while a call of `uartwrite` has not returned: the port transmits, or `uartintr` runs, with bytes
-- that were received and the console's state, or the writer goes on from its sleep, be it woken or not.
pub data Event : Type 0 where
  transmits : Event
  interrupts : List ℕ → Console → Event
  resumes : Event

-- The bytes that are left to write, and the port.
abbrev pub Writing : Type 0
Writing = List ℕ × Uart

unfoldable pub happen : Event → Writing → Writing
happen transmits w = (w.0, transmit w.1)
happen (interrupts cs con) w = (w.0, (uartintr (read_lsr w.1) cs w.1 con).0)
happen resumes w = uartwrite w.0 w.1

unfoldable pub run : List Event → Writing → Writing
run [] w = w
run (e ∷ es) w = run es (happen e w)

-- For each of these interrupts: the port transmits, interrupts, and the writer is woken.
abbrev pub served : List (List ℕ × Console) → List Event
served [] = []
served ((cs, con) ∷ is) = transmits ∷ interrupts cs con ∷ resumes ∷ served is

abbrev pub held : Option ℕ → List ℕ
held none = []
held (some b) = b ∷ []

-- What the port was given and has not lost.
abbrev pub accepted : Uart → List ℕ
accepted u = u.line ++ held u.thr

-- While tx_busy is 0, THR is empty.
abbrev pub IsQuiet : Uart → Type 0
IsQuiet u = u.tx_busy ≡ false → u.thr ≡ none

abbrev loaded : ℕ → Uart → Uart
loaded b u = record { tx_busy = true; thr = some b; line = u.line }

-- Nothing is lost from here to there.
record Keeps (w w' : Writing) : Type 0 where
  quiet : IsQuiet w'.1
  bytes : accepted w'.1 ++ w'.0 ≡ accepted w.1 ++ w.0
  shorter : length w'.0 ≤ length w.0
