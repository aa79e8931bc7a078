-- ===== src/Console.antt =====
-- kernel/console.c: the line editor between the keyboard and the readers, a ring of 128 bytes with three
-- counters of 32 bits that wrap. The console's lock makes a call of `consoleintr`, and what a reader does up to
-- its next sleep() or return, one step. Characters are bytes.
pub mod Ring
pub mod Store
pub mod Edit
pub mod Read
mod Tests
use operating_system_se.Base.{
  ℕ, zero, suc, ◌+◌, ◌-◌, ◌%◌, ◌^◌, ◌&&◌, ◌||◌, Bool, true, false, not, Option, none, some, List,
  [], ◌∷◌, ◌++◌, ltb, ◌==◌, if◌then◌else◌, get_or, set, min,
}
use operating_system_se.Pipe.{u32}

-- INPUT_BUF_SIZE and BACKSPACE
abbrev pub buf_size : ℕ
buf_size = 128

abbrev pub backspace : ℕ
backspace = 256

-- a - b on uint
abbrev pub sub_32 : ℕ → ℕ → ℕ
sub_32 a b = u32 (a + 2 ^ 32 - b)

-- cons, less its lock
pub record Console : Type 0 where
  pub buf : List ℕ
  pub r : ℕ
  pub w : ℕ
  pub e : ℕ

-- What the interrupt handler does to the rest of the machine.
pub data Effect : Type 0 where
  uart : ℕ → Effect
  list_processes : Effect
  wake_readers : Effect

unfoldable pub consputc : ℕ → List Effect
consputc c = if c == backspace then uart 8 ∷ uart 32 ∷ uart 8 ∷ [] else uart c ∷ []

-- The loop of control-u, at most `fuel` times.
unfoldable pub kill_line : ℕ → Console → Console × List Effect
kill_line zero c = (c, [])
kill_line (suc fuel) c =
    let rest = kill_line fuel (record c { e = sub_32 c.e 1 }) in
    if not (c.e == c.w) && not (get_or c.buf (sub_32 c.e 1 % buf_size) 0 == 10)
    then (rest.0, consputc backspace ++ rest.1)
    else (c, [])

-- cons.buf[cons.e++ % INPUT_BUF_SIZE] = c
unfoldable pub store_char : ℕ → Console → Console
store_char ch c = record c { buf = set c.buf (c.e % buf_size) ch; e = u32 (c.e + 1) }

-- The default case: another character is typed.
unfoldable pub type_char : ℕ → Console → Console × List Effect
unfolding store_char consputc
type_char ch c =
    let ch' = if ch == 13 then 10 else ch in
    let c' = store_char ch' c in
    if not (ch == 0) && ltb (sub_32 c.e c.r) buf_size
    then (if ch' == 10 || ch' == 4 || sub_32 c'.e c'.r == buf_size
        then (record c' { w = c'.e }, consputc ch' ++ (wake_readers ∷ []))
        else (c', consputc ch'))
    else (c, [])

-- control-p, control-u, control-h and delete, and the other characters. 128 rounds are enough for control-u.
unfoldable pub consoleintr : ℕ → Console → Console × List Effect
unfolding kill_line type_char consputc
consoleintr ch c =
    if ch == 16
    then (c, list_processes ∷ [])
    else if ch == 21
    then kill_line buf_size c
    else if ch == 8 || ch == 127
    then (if c.e == c.w then (c, []) else (record c { e = sub_32 c.e 1 }, consputc backspace))
    else type_char ch c

-- How a run of the loop of `consoleread` ends: a count is returned; -1 is; or it sleeps, with `n` bytes to go.
pub data ReadEnd : Type 0 where
  returned : ℕ → ReadEnd
  interrupted : ReadEnd
  asleep : ℕ → ReadEnd

module _ {U : Type 0} where
  -- The loop of `consoleread` with `n` of `target` bytes to go. `killed n` is what killed() returns then, and
  -- `copyout a b u` stores byte `b` at address `a`, or is none where that faults.
  unfoldable pub consoleread_loop :
      (ℕ → Bool)
      → (ℕ → ℕ → U → Option U)
      → (target n dst : ℕ) → Console
      → U
      → ReadEnd × (Console × U)
  consoleread_loop killed copyout target zero dst c u = (returned target, (c, u))
  consoleread_loop killed copyout target (suc n) dst c u =
      let ch = get_or c.buf (c.r % buf_size) 0 in
      let c' : Console = record c { r = u32 (c.r + 1) } in
      if c.r == c.w
      then ((if killed (suc n) then interrupted else asleep (suc n)), (c, u))
      else if ch == 4
      then (
        returned (target - suc n),
        ((if ltb (suc n) target then record c' { r = sub_32 c'.r 1 } else c'), u),
      )
      else elim (copyout dst ch u) [
        | none ↦ (returned (target - suc n), (c', u))
        | some u' ↦
            if ch == 10
            then (returned (target - n), (c', u'))
            else consoleread_loop killed copyout target n (dst + 1) c' u'
      ]

  -- `consoleread` up to its first sleep() or return.
  unfoldable pub consoleread :
      (ℕ → Bool) → (ℕ → ℕ → U → Option U) → (n dst : ℕ) → Console → U → ReadEnd × (Console × U)
  unfolding consoleread_loop
  consoleread killed copyout n dst c u = consoleread_loop killed copyout n n dst c u

-- The loop of `consolewrite` with i = `i` and `left` bytes to go: `copyin a n` are `n` bytes from address `a`,
-- or none where that faults. The result is the value returned and the bytes that uartwrite() was given.
unfoldable pub consolewrite_loop : (ℕ → ℕ → Option (List ℕ)) → (fuel src i left : ℕ) → ℕ × List ℕ
consolewrite_loop copyin zero src i left = (i, [])
consolewrite_loop copyin (suc fuel) src i left =
    let nn = min 32 left in
    let rest = consolewrite_loop copyin fuel src (i + nn) (left - nn) in
    if left == 0
    then (i, [])
    else elim (copyin (src + i) nn) [ none ↦ (i, []) | some bs ↦ (rest.0, bs ++ rest.1) ]

unfoldable pub consolewrite : (ℕ → ℕ → Option (List ℕ)) → (src n : ℕ) → ℕ × List ℕ
unfolding consolewrite_loop
consolewrite copyin src n = consolewrite_loop copyin n src 0 n
