-- ===== src/Proc/Wakeup/Tests.antt =====
-- The theorems about sleeping and killing (kernel/proc.c) at a small table.
use operating_system_se.Base.{ℕ, ◌≡◌, refl, none, some, List, [], ◌∷◌, All, arith}
use operating_system_se.Proc.{Proc, ProcState, sleeping, runnable, Chan, addr, null}
use operating_system_se.Proc.Mlfq.{quantum}
use operating_system_se.Proc.Mlfq.Levels.{IsValid}
use operating_system_se.Proc.Wakeup.{kill_one, kkill}

abbrev process : ProcState → ℕ → Chan → Proc
process st pid chan = record {
  state = st;
  chan = chan;
  killed = 0;
  xstate = 0;
  pid = pid;
  parent = none;
  queue_level = 1;
  q_ticks = 1;
  wait_time = 3;
  n_run = 0;
  total_ticks = 0;
  kstack = 0;
  sz = 0;
  pagetable = 0;
  trapframe = 0;
  context = record { ra = 0; sp = 0; saved = [] };
  ofile = [];
  cwd = none;
  name = λ _. 0;
}

abbrev sleeper : Proc
sleeper = process sleeping 5 (addr 9)

abbrev table : List Proc
table = process runnable 4 null ∷ sleeper ∷ process sleeping 6 (addr 8) ∷ []

table-IsValid : All IsValid table
unfolding quantum
table-IsValid = omega arith

kills :
    kkill 5 table
    ≡ some (process runnable 4 null ∷ kill_one sleeper ∷ process sleeping 6 (addr 8) ∷ [])
unfolding kkill
kills = refl
