-- ===== src/Trap.antt =====
-- kernel/trap.c and the dispatch of kernel/syscall.c: what the handlers do, in order, for what the
-- machine's registers and the devices say.
use operating_system_se.Base.{
  ℕ, ◌+◌, ◌-◌, ◌%◌, ◌^◌, ◌≡◌, Bool, true, not, ◌&&◌, ◌||◌, ltb, leb, ◌==◌, if◌then◌else◌, Option,
  none, some, List, [], ◌∷◌, ◌++◌, ◌≤◌, Outcome, ok, panic, get_elem?, arith,
}

-- The scause of an interrupt through the PLIC, and of the timer.
abbrev pub external_interrupt : ℕ
external_interrupt = 9223372036854775817

abbrev pub timer_interrupt : ℕ
timer_interrupt = 9223372036854775813

-- UART0_IRQ and VIRTIO0_IRQ
abbrev pub uart0_irq : ℕ
uart0_irq = 10

abbrev pub virtio0_irq : ℕ
virtio0_irq = 1

-- What a handler does.
pub data Action : Type 0 where
  uartintr : Action
  virtio_disk_intr : Action
  complains : Action
  plic_complete : ℕ → Action
  clockintr : Action
  save_epc : ℕ → Action
  intr_on : Action
  syscall_at : ℕ → Action
  vmfault : Action
  set_killed : Action
  kexit : Action
  yields : Action
  prepare_return : Action
  restore : (sepc sstatus : ℕ) → Action

-- `devintr`: `irq` is what plic_claim() returns. The result is which_dev.
unfoldable pub devintr : (scause irq : ℕ) → ℕ × List Action
devintr scause irq =
    let completes : List Action = if not (irq == 0) then plic_complete irq ∷ [] else [] in
    let handles : List Action =
      if irq == uart0_irq
      then uartintr ∷ []
      else if irq == virtio0_irq
      then virtio_disk_intr ∷ []
      else if not (irq == 0)
      then complains ∷ []
      else [] in
    if scause == external_interrupt
    then (1, handles ++ completes)
    else if scause == timer_interrupt
    then (2, clockintr ∷ [])
    else (0, [])

-- What a trap from user space finds: whether it was from user mode, the registers, whether vmfault() maps
-- a page, and what killed() says before and after the trap is handled.
pub record UserTrap : Type 0 where
  pub from_user : Bool
  pub scause : ℕ
  pub sepc : ℕ
  pub irq : ℕ
  pub faults_in : Bool
  pub killed_before : Bool
  pub killed_after : Bool

-- The end of `usertrap`: kexit() does not return.
unfoldable pub usertrap_end : Bool → ℕ → List Action
usertrap_end killed which_dev =
    if killed
    then kexit ∷ []
    else if which_dev == 2
    then yields ∷ prepare_return ∷ []
    else prepare_return ∷ []

unfoldable pub usertrap : UserTrap → Outcome (List Action)
unfolding devintr usertrap_end
usertrap t =
    let (which_dev, acts) = devintr t.scause t.irq in
    if not t.from_user
    then panic "usertrap: not from user mode"
    else if t.scause == 8
    then (if t.killed_before
        then ok (save_epc t.sepc ∷ kexit ∷ [])
        else ok (
            save_epc t.sepc
            ∷ save_epc (t.sepc + 4)
            ∷ intr_on
            ∷ syscall_at (t.sepc + 4)
            ∷ usertrap_end t.killed_after 0))
    else if not (which_dev == 0)
    then ok (save_epc t.sepc ∷ (acts ++ usertrap_end t.killed_after which_dev))
    else if (t.scause == 15 || t.scause == 13) && t.faults_in
    then ok (save_epc t.sepc ∷ vmfault ∷ usertrap_end t.killed_after 0)
    else ok (save_epc t.sepc ∷ complains ∷ set_killed ∷ usertrap_end true 0)

-- `kerneltrap`: `supervisor` is the bit SPP, `running` whether this CPU runs a process.
unfoldable pub kerneltrap :
    (supervisor intr running : Bool) (scause sepc sstatus irq : ℕ) → Outcome (List Action)
unfolding devintr
kerneltrap supervisor intr running scause sepc sstatus irq =
    let (which_dev, acts) = devintr scause irq in
    if not supervisor
    then panic "kerneltrap: not from supervisor mode"
    else if intr
    then panic "kerneltrap: interrupts enabled"
    else if which_dev == 0
    then panic "kerneltrap"
    else if which_dev == 2 && running
    then ok (acts ++ (yields ∷ restore sepc sstatus ∷ []))
    else ok (acts ++ (restore sepc sstatus ∷ []))

-- NELEM(syscalls)
abbrev pub n_syscalls : ℕ
n_syscalls = 24

-- `syscall`, over the state `S` of the kernel, with the table of handlers: the value of a0, and the state.
unfoldable pub syscall : {S : Type 0} → (ℕ → Option (S → ℕ × S)) → (a7 : ℕ) → S → ℕ × S
syscall table a7 s =
    let num = a7 % 2 ^ 32 in
    if ltb 0 num && ltb num n_syscalls
    then (elim (table num) [ some f ↦ f s | none ↦ (2 ^ 64 - 1, s) ])
    else (2 ^ 64 - 1, s)

-- `argraw`: `regs` are a0 to a5.
unfoldable pub argraw : List ℕ → ℕ → Outcome ℕ
argraw regs n =
    if leb 6 n
    then panic "argraw"
    else (elim (get_elem? regs n) [ some r ↦ ok r | none ↦ panic "argraw" ])

-- `fetchaddr` up to its copyin(): whether the eight bytes lie in the process.
unfoldable pub fetchaddr_ok : (addr sz : ℕ) → Bool
fetchaddr_ok addr sz = not (leb sz addr || ltb sz ((addr + 8) % 2 ^ 64))

-- When `fetchaddr` goes on to its copyin(), all eight bytes lie below the process's size, if that is a
-- number of 64 bits that leaves room for them.
fetchaddr_ok-bounds : (addr sz : ℕ) → sz + 8 ≤ 2 ^ 64 → fetchaddr_ok addr sz ≡ true → addr + 8 ≤ sz
unfolding fetchaddr_ok
fetchaddr_ok-bounds addr sz h e = ground arith
