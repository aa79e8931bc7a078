-- ===== src/Uart.antt =====
-- kernel/uart.c: the serial port. Its lock makes what `uartwrite` does up to its next sleep() or return one step.
-- The port's register THR holds one byte until the port has transmitted it: a write before that loses the byte
-- that is there (the places of the port's FIFO are not counted on). The spinning of `uartputc_sync` ends when the
-- register is empty.
pub mod Send
mod Tests
use Prim.Native.Nat.{bit_and}
use operating_system_se.Base.{
  ℕ, zero, suc, ◌+◌, Bool, true, false, not, Option, none, some, List, [], ◌∷◌, ◌++◌, ◌%◌, ◌==◌,
  if◌then◌else◌, length, ℤ, pos, negsuc,
}
use operating_system_se.Console.{Console, Effect, consoleintr}

-- tx_busy, the byte in THR that is not yet transmitted, and what the port has transmitted.
pub record Uart : Type 0 where
  pub tx_busy : Bool
  pub thr : Option ℕ
  pub line : List ℕ

-- WriteReg(THR, b)
unfoldable pub write_thr : ℕ → Uart → Uart
write_thr b u = record u { thr = some b }

-- The port transmits the byte in THR.
unfoldable pub transmit : Uart → Uart
transmit u = elim u.thr [ none ↦ u | some b ↦ record u { thr = none; line = u.line ++ (b ∷ []) } ]

-- ReadReg(LSR), without the bit for a byte that was received: LSR_TX_IDLE stands for an empty THR.
unfoldable pub read_lsr : Uart → ℕ
read_lsr u = elim u.thr [ none ↦ 32 | some b ↦ 0 ]

-- The writes of `uartinit`: the register and the value.
abbrev pub uartinit : List (ℕ × ℕ)
uartinit = (1, 0) ∷ (3, 128) ∷ (0, 3) ∷ (1, 0) ∷ (3, 3) ∷ (2, 7) ∷ (1, 3) ∷ []

-- `uartwrite` with the bytes that are left, until it sleeps, with those left then, or returns, with none.
unfoldable pub uartwrite : List ℕ → Uart → List ℕ × Uart
unfolding write_thr
uartwrite [] u = ([], u)
uartwrite (b ∷ bs) u =
    if u.tx_busy then (b ∷ bs, u) else uartwrite bs (record (write_thr b u) { tx_busy = true })

-- `uartputc_sync`: it does not return once the kernel has panicked. It waits until what is in THR is
-- transmitted.
unfoldable pub uartputc_sync : (panicked : Bool) → ℕ → Uart → Option Uart
unfolding write_thr transmit
uartputc_sync panicked c u = if panicked then none else some (write_thr (c % 256) (transmit u))

-- LSR_TX_IDLE
abbrev pub tx_idle : (lsr : ℕ) → Bool
tx_idle lsr = not (bit_and lsr 32 == 0)

-- `uartgetc`: the first of the bytes that were received, or -1, and those that are left.
unfoldable pub uartgetc : List ℕ → ℤ × List ℕ
uartgetc [] = (negsuc 0, [])
uartgetc (c ∷ cs) = (pos c, cs)

-- The loop of `uartintr` that reads, for at most `fuel` bytes.
unfoldable pub read_chars : (fuel : ℕ) → List ℕ → Console → Console × List Effect
unfolding uartgetc consoleintr
read_chars zero cs con = (con, [])
read_chars (suc fuel) cs con =
    let (c, cs') = uartgetc cs in
    elim c [
      | negsuc n ↦ (con, [])
      | pos ch ↦
          let (con', es) = consoleintr ch con in
          let (con'', es') = read_chars fuel cs' con' in (con'', es ++ es')
    ]

-- `uartintr`, where `lsr` is the status that it reads first, and `received` are the bytes that are waiting; each
-- round but the last takes one.
unfoldable pub uartintr :
    (lsr : ℕ) (received : List ℕ) → Uart → Console → Uart × (Console × List Effect)
unfolding read_chars
uartintr lsr received u con =
    let u' = if tx_idle lsr then record u { tx_busy = false } else u in
    (u', read_chars (length received + 1) received con)
