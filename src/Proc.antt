-- ===== src/Proc.antt =====
-- kernel/proc.h and kernel/param.h: the process table.
pub mod Mlfq
pub mod Wakeup
pub mod Life
use operating_system_se.Base.{ℕ, ◌≡◌, ◌↔◌, Option, List, Bool, true, false, ◌==◌, arith}

-- `enum procstate`
pub data ProcState : Type 0 where
  unused used sleeping runnable running zombie : ProcState

-- NPROC
abbrev pub nproc : ℕ
nproc = 64

-- NOFILE
abbrev pub nofile : ℕ
nofile = 16

-- The address that a process sleeps on: null, a process of the table, or any other object.
pub data Chan : Type 0 where
  null : Chan
  proc_at : ℕ → Chan
  addr : ℕ → Chan

abbrev pub same_chan : Chan → Chan → Bool
same_chan null null = true
same_chan (proc_at i) (proc_at j) = i == j
same_chan (addr a) (addr b) = a == b
same_chan _ _ = false

-- `struct context`: the saved registers, the callee-saved ones s0 to s11 as a list.
pub record Context : Type 0 where
  pub ra : ℕ
  pub sp : ℕ
  pub saved : List ℕ

-- `struct proc`. A pointer to a process, a file or an inode is its index in its table, or none for
-- null; other pointers are addresses, 0 for null. `killed`, `xstate` and `pid` are bit patterns of C
-- ints. The name is its
-- bytes by offset. The lock of a process is not part of the state: what a function does between taking and
-- releasing it is one step.
pub record Proc : Type 0 where
  pub state : ProcState
  pub chan : Chan
  pub killed : ℕ
  pub xstate : ℕ
  pub pid : ℕ
  pub parent : Option ℕ
  pub queue_level : ℕ
  pub q_ticks : ℕ
  pub wait_time : ℕ
  pub n_run : ℕ
  pub total_ticks : ℕ
  pub kstack : ℕ
  pub sz : ℕ
  pub pagetable : ℕ
  pub trapframe : ℕ
  pub context : Context
  pub ofile : List (Option ℕ)
  pub cwd : Option ℕ
  pub name : ℕ → ℕ

abbrev pub is_unused : ProcState → Bool
is_unused unused = true
is_unused _ = false

abbrev pub is_sleeping : ProcState → Bool
is_sleeping sleeping = true
is_sleeping _ = false

abbrev pub is_runnable : ProcState → Bool
is_runnable runnable = true
is_runnable _ = false

abbrev pub is_running : ProcState → Bool
is_running running = true
is_running _ = false

abbrev pub is_zombie : ProcState → Bool
is_zombie zombie = true
is_zombie _ = false
