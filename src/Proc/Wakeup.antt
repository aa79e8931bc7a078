-- ===== src/Proc/Wakeup.antt =====
-- Sleeping, waking and killing in kernel/proc.c. `me` is the index of the process that runs, or none.
pub mod Effects
mod Tests
use operating_system_se.Base.{
  ℕ, ◌+◌, ◌≡◌, Bool, true, false, ◌&&◌, not, Option, none, some, List, [], ◌∷◌, ◌==◌, same_ref,
  if◌then◌else◌, get_elem?, modify, Outcome, ok, panic,
}
use operating_system_se.Spinlock.{Cpu}
use operating_system_se.Proc.{
  ProcState, running, runnable, sleeping, Proc, Chan, null, same_chan, is_sleeping, is_running,
}

-- What `wakeup` does to one process.
unfoldable pub wake_one : Chan → Proc → Proc
wake_one chan p =
    if is_sleeping p.state && same_chan p.chan chan
    then record p { state = runnable; q_ticks = 0; wait_time = 0 }
    else p

-- The loop of `wakeup` from index `i` on: it passes over the process that runs.
unfoldable pub wakeup_from : ℕ → Option ℕ → Chan → List Proc → List Proc
unfolding wake_one
wakeup_from i me chan [] = []
wakeup_from i me chan (p ∷ ps) =
    (if not (same_ref (some i) me) then wake_one chan p else p) ∷ wakeup_from (i + 1) me chan ps

unfoldable pub wakeup : Option ℕ → Chan → List Proc → List Proc
unfolding wakeup_from
wakeup me chan ps = wakeup_from 0 me chan ps

-- What `kkill` does to its victim.
unfoldable pub kill_one : Proc → Proc
kill_one p =
    let p' = record p { killed = 1 } in
    if is_sleeping p.state then record p' { state = runnable } else p'

-- The new table, for the result 0, or none, for the result -1.
unfoldable pub kkill : ℕ → List Proc → Option (List Proc)
unfolding kill_one
kkill pid [] = none
kkill pid (p ∷ ps) =
    let rest = kkill pid ps in
    if p.pid == pid
    then some (kill_one p ∷ ps)
    else (elim rest [ none ↦ none | some ps' ↦ some (p ∷ ps') ])

unfoldable pub setkilled : ℕ → List Proc → List Proc
setkilled i ps = modify (λ p. record p { killed = 1 }) ps i

unfoldable pub killed : ℕ → List Proc → Bool
killed i ps = elim (get_elem? ps i) [ none ↦ false | some p ↦ not (p.killed == 0) ]

-- `sched` up to its swtch(): `held` says whether the CPU holds the lock of the process.
unfoldable pub sched_check : Bool → Cpu → ProcState → Outcome (Unit {0})
sched_check held c st =
    if not held
    then panic "sched p->lock"
    else if not (c.noff == 1)
    then panic "sched locks"
    else if is_running st
    then panic "sched RUNNING"
    else if c.intr
    then panic "sched interruptible"
    else ok tt

-- The two halves of `sched`: what it saves, and, on the CPU `c` where the process is resumed, what
-- it restores.
unfoldable pub sched_resume : Bool → Cpu → Cpu
sched_resume intena c = record c { intena = intena }

-- `sleep` before sched(), for the running process `i`.
unfoldable pub sleep_enter : ℕ → Chan → List Proc → List Proc
sleep_enter i chan ps = modify (λ p. record p { chan = chan; state = sleeping }) ps i

-- `sleep` after sched().
unfoldable pub sleep_leave : ℕ → List Proc → List Proc
sleep_leave i ps = modify (λ p. record p { chan = null }) ps i

-- `yield` before sched().
unfoldable pub yield_enter : ℕ → List Proc → List Proc
yield_enter i ps = modify (λ p. record p { state = runnable }) ps i
