-- ===== src/Proc/Life/Tests.antt =====
-- The life of a process (kernel/proc.c) on a small table, and the theorems at that table.
use operating_system_se.Base.{
  ℕ, zero, suc, ◌+◌, ◌<◌, ◌≡◌, ◌≢◌, refl, true, Option, none, some, List, [], ◌∷◌, arith, get_elem?,
  set, ok,
}
use operating_system_se.Kalloc.{Mem, kalloc}
use operating_system_se.Proc.{
  Proc, ProcState, unused, sleeping, runnable, running, zombie, Chan, null, proc_at,
}
use operating_system_se.Proc.Wakeup.{wakeup, kkill}
use operating_system_se.Proc.Life.Ops.{Vm, Files}
use operating_system_se.Proc.Life.{
  Kernel, put_proc, find_unused, allocproc, kfork, kwait_round, exit_table, parent_of, reaped,
  proc_pagetable, dup_all, on_cwd,
}
use operating_system_se.Proc.Life.Pids.{PidsOk, allocated, allocproc-eq}
use operating_system_se.Proc.Life.Exit.{exit_table-wakes_parent}
use operating_system_se.Proc.Life.Wait.{IsPage, page_freed, IsCleared, kwait_round-reaps}
use operating_system_se.Proc.Life.Fork.{IsForked, kfork-child}
use operating_system_se.Proc.Life.KillFree.{kkill-born_killed}

-- A machine whose page tables are all at one address, and on which nothing fails.
abbrev toy : Vm
toy = record {
  kend = 4096;
  forkret = 77;
  trampoline_code = 0;
  uvmcreate = λ m. ok (8192, m);
  mappages = λ pt va size pa perm m. ok (true, m);
  uvmunmap = λ pt va n f m. ok m;
  uvmfree = λ pt sz m. ok m;
  uvmcopy = λ old new sz m. ok (true, m);
  copyout = λ pt va v m. ok (true, m);
}

-- The files' state counts the references taken.
abbrev counting : Files ℕ
counting = record {
  filedup = λ f n. ok (n + 1);
  fileclose = λ f n. ok n;
  idup = λ i n. ok (n + 1);
  put_cwd = λ i n. ok n;
}

abbrev process : ProcState → ℕ → Option ℕ → Chan → Proc
process st pid par chan = record {
  state = st;
  chan = chan;
  killed = 0;
  xstate = 0;
  pid = pid;
  parent = par;
  queue_level = 0;
  q_ticks = 0;
  wait_time = 0;
  n_run = 0;
  total_ticks = 0;
  kstack = 0;
  sz = 0;
  pagetable = 0;
  trapframe = 0;
  context = record { ra = 0; sp = 0; saved = [] };
  ofile = none ∷ some 3 ∷ [];
  cwd = some 1;
  name = λ _. 0;
}

-- init, a child that exits, its sleeping parent, and a free slot.
abbrev family : List Proc
family =
    process running 1 none null
    ∷ process running 2 (some 2) null
    ∷ process sleeping 3 (some 0) (proc_at 2)
    ∷ process unused 0 none null
    ∷ []

abbrev kernel : List Proc → Kernel ℕ
kernel ps = record {
  procs = ps;
  nextpid = 4;
  initproc = some 0;
  mem = record { word = λ _. 0; freelist = 12288 };
  files = 0;
}

-- One process and a free slot.
abbrev pair : List Proc
pair = process running 1 none null ∷ process unused 0 none null ∷ []

pair_free : (i : ℕ) (p : Proc) → get_elem? pair i ≡ some p → p.state ≡ unused → p.pid ≡ 0
pair_free zero p e u = ground arith
pair_free (suc zero) p e u = ground arith
pair_free (suc (suc i)) p e u = cc

pair_range :
    (i : ℕ) (p : Proc) → get_elem? pair i ≡ some p → p.state ≢ unused → (0 < p.pid) × (p.pid < 2)
pair_range zero p e u = ground arith
pair_range (suc zero) p e u = ground arith
pair_range (suc (suc i)) p e u = cc

pair_unique :
    (i j : ℕ) (p q : Proc)
    → get_elem? pair i ≡ some p
    → get_elem? pair j ≡ some q
    → p.state ≢ unused
    → p.pid ≡ q.pid
    → i ≡ j
pair_unique zero zero p q e e' u s = refl
pair_unique zero (suc zero) p q e e' u s = ground arith
pair_unique zero (suc (suc j)) p q e e' u s = cc
pair_unique (suc zero) j p q e e' u s = ground arith
pair_unique (suc (suc i)) j p q e e' u s = cc

pair-PidsOk : PidsOk pair 2
pair-PidsOk = record {
  start = omega arith;
  free = pair_free;
  range = pair_range;
  unique = pair_unique;
}

abbrev start : Kernel ℕ
start = record (kernel pair) { nextpid = 2 }

free_slot : find_unused 0 pair ≡ some (1, process unused 0 none null)
unfolding find_unused
free_slot = refl

free_page : (kalloc start.mem).0 ≡ 12288
unfolding kalloc
free_page = refl

page_ne : (kalloc start.mem).0 ≢ 0
page_ne = omega (arith, free_page)

page_table :
    proc_pagetable toy (kalloc start.mem).0 (kalloc start.mem).1 ≡ ok (8192, (kalloc start.mem).1)
unfolding proc_pagetable
page_table = refl

abbrev dry : Kernel ℕ
dry = record start { mem = record { word = λ _. 0; freelist = 0 } }

no_page : (kalloc dry.mem).0 ≡ 0
unfolding kalloc
no_page = refl

kkill-born_killed_example :
    (ps' : List Proc) × (k' : Kernel ℕ) × (q : Proc) × (kkill 0 pair ≡ some ps')
    × (allocproc toy (record start { procs = ps' }) ≡ ok (some 1, k'))
    × (k'.procs ≡ set ps' 1 q)
    × (q.killed ≡ 1)
kkill-born_killed_example =
    kkill-born_killed toy start 1 8192 (process unused 0 none null) (kalloc start.mem).1 pair-PidsOk
      free_slot page_ne page_table (λ e. absurd (omega arith))

-- The parent as the exit leaves it.
abbrev woken : Proc
woken = process runnable 3 (some 0) (proc_at 2)

parent-of_1 : parent_of family 1 ≡ some 2
unfolding parent_of
parent-of_1 = refl

exit-wakes : get_elem? (exit_table 1 9 (some 0) family) 2 ≡ some woken
unfolding exit_table wakeup
exit-wakes = refl

exit_table-wakes_parent_example : runnable ≢ sleeping
exit_table-wakes_parent_example =
    exit_table-wakes_parent 1 9 2 (some 0) family woken parent-of_1 (λ e. absurd (omega arith))
      exit-wakes refl

-- A zombie with a page for its trapframe and a page table.
abbrev dead : Proc
dead = record (process zombie 2 (some 0) null) { trapframe = 16384; pagetable = 8192; sz = 4096 }

abbrev with_zombie : List Proc
with_zombie = process running 1 none null ∷ dead ∷ []

abbrev reclaimed : Mem
reclaimed = page_freed 16384 (kernel with_zombie).mem

dead-IsPage : IsPage toy 16384
dead-IsPage = omega arith

kwait_round-reaps_example :
    (q : Proc) × (kwait_round toy 0 0 (kernel with_zombie)
      ≡ ok (reaped 2, record (kernel with_zombie) { procs = set with_zombie 1 q; mem = reclaimed }))
    × IsCleared q
kwait_round-reaps_example =
    kwait_round-reaps toy (kernel with_zombie) 0 0 1 (process running 1 none null) dead
      (kernel with_zombie).mem reclaimed reclaimed reclaimed refl refl refl refl refl refl
      dead-IsPage (λ e. absurd (omega (arith, e))) refl refl refl

abbrev newborn : Proc
newborn = allocated toy start 8192 (process unused 0 none null)

abbrev allocated_kernel : Kernel ℕ
allocated_kernel = put_proc toy 1 newborn (kalloc start.mem).1 (record start { nextpid = 3 })

allocates : allocproc toy start ≡ ok (some 1, allocated_kernel)
allocates =
    allocproc-eq toy start 1 8192 (process unused 0 none null) (kalloc start.mem).1 free_slot
      page_ne page_table (λ e. absurd (omega arith))

files_dupped : dup_all counting (none ∷ some 3 ∷ []) 0 ≡ ok 1
unfolding dup_all
files_dupped = refl

cwd_held : on_cwd counting counting.idup (some 1) 1 ≡ ok 2
unfolding on_cwd
cwd_held = refl

kfork-child_example :
    (k' : Kernel ℕ) × (child : Proc) × (kfork toy counting 0 start ≡ ok (some newborn.pid, k'))
    × (get_elem? k'.procs 1 ≡ some child)
    × IsForked 0 (process running 1 none null) newborn child (kalloc start.mem).1 k'.mem
    × (k'.procs ≡ set allocated_kernel.procs 1 child)
    × (k'.files ≡ 2)
kfork-child_example =
    kfork-child toy counting start allocated_kernel 0 1 (process running 1 none null) newborn
      (kalloc start.mem).1 1 2 refl allocates refl refl files_dupped cwd_held
