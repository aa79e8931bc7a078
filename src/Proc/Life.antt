-- ===== src/Proc/Life.antt =====
-- The life of a process in kernel/proc.c: allocproc, freeproc, kfork, kexit, reparent, kwait. Locks
-- are not part of the state. What a function does between two calls that may sleep is one step; `kexit` is one
-- step as a whole.
pub mod Ops
pub mod Pids
pub mod Exit
pub mod Wait
pub mod Fork
pub mod KillFree
mod Tests
use operating_system_se.Base.{
  ℕ, zero, suc, ◌+◌, ◌-◌, ◌*◌, ◌^◌, ◌≡◌, Bool, true, false, ◌&&◌, not, Option, none, some, List, [],
  ◌∷◌, ◌||◌, map, ltb, leb, ◌==◌, same_ref, if◌then◌else◌, get_elem?, set, modify, replicate,
  length, is_some, Outcome, ok, panic, ◌>>=◌,
}
use operating_system_se.Kalloc.{Mem, page_size, kalloc, kfree}
use operating_system_se.Str.{safestrcpy}
use operating_system_se.Proc.{
  ProcState, unused, used, running, runnable, sleeping, zombie, Proc, Context, Chan, null, proc_at,
  is_unused, is_zombie, nofile,
}
use operating_system_se.Proc.Wakeup.{wakeup, killed, sleep_enter}
use operating_system_se.Proc.Life.Ops.{Vm, Files}

-- The kernel's state that these functions use: `proc`, `nextpid`, `initproc`, memory with the page
-- allocator, and the state `F` of files and inodes.
pub record Kernel (F : Type 0) : Type 0 where
  pub procs : List Proc
  pub nextpid : ℕ
  pub initproc : Option ℕ
  pub mem : Mem
  pub files : F

-- TRAMPOLINE and TRAPFRAME: MAXVA is 2^38.
abbrev pub trampoline : ℕ
trampoline = 2 ^ 38 - page_size

abbrev pub trapframe_va : ℕ
trapframe_va = 2 ^ 38 - page_size - page_size

-- The fields that `freeproc` resets.
unfoldable pub cleared : Proc → Proc
cleared p = record p {
  trapframe = 0;
  pagetable = 0;
  sz = 0;
  pid = 0;
  parent = none;
  name = λ a. if a == 0 then 0 else p.name a;
  chan = null;
  killed = 0;
  xstate = 0;
  state = unused;
}

module _ (vm : Vm) where
  open vm use {kend, trampoline_code, uvmcreate, mappages, uvmunmap, uvmfree}

  -- The result is the page table, or 0. PTE_R is 2, PTE_W is 4, PTE_X is 8.
  unfoldable pub proc_pagetable : ℕ → Mem → Outcome (ℕ × Mem)
  proc_pagetable trapframe m = do
    (pt, m1) ← uvmcreate m
    if pt == 0 then ok (0, m1) else do
      (code_ok, m2) ← mappages pt trampoline page_size trampoline_code 10 m1
      if not code_ok then (do m3 ← uvmfree pt 0 m2; ok (0, m3)) else do
        (frame_ok, m3) ← mappages pt trapframe_va page_size trapframe 6 m2
        if frame_ok
            then ok (pt, m3)
            else do m4 ← uvmunmap pt trampoline 1 0 m3; m5 ← uvmfree pt 0 m4; ok (0, m5)

  unfoldable pub proc_freepagetable : ℕ → ℕ → Mem → Outcome Mem
  proc_freepagetable pt sz m = do
    m1 ← uvmunmap pt trampoline 1 0 m
    m2 ← uvmunmap pt trapframe_va 1 0 m1
    uvmfree pt sz m2

  -- The memory that `freeproc` gives back.
  unfoldable pub free_memory : Proc → Mem → Outcome Mem
  unfolding proc_freepagetable
  free_memory p m = do
    m1 ← (if p.trapframe == 0 then ok m else kfree kend p.trapframe m)
    if p.pagetable == 0 then ok m1 else proc_freepagetable p.pagetable p.sz m1

  unfoldable pub freeproc : Proc → Mem → Outcome (Proc × Mem)
  unfolding free_memory cleared
  freeproc p m = do m' ← free_memory p m; ok (cleared p, m')

-- The first UNUSED slot, from index `i` on.
unfoldable pub find_unused : ℕ → List Proc → Option (ℕ × Proc)
find_unused i [] = none
find_unused i (p ∷ ps) = if is_unused p.state then some (i, p) else find_unused (i + 1) ps

-- The last part of `allocproc`: the context, which starts at `forkret`, and the MLFQ fields.
unfoldable pub prepared : ℕ → Proc → Proc
prepared forkret p = record p {
  context = record { ra = forkret; sp = p.kstack + page_size; saved = replicate 12 0 };
  queue_level = 0;
  q_ticks = 0;
  wait_time = 0;
  n_run = 0;
  total_ticks = 0;
}

module _ {F : Type 0} (vm : Vm) where
  -- Slot `i` gets the process `p`, and memory becomes `m`.
  abbrev pub put_proc : ℕ → Proc → Mem → Kernel F → Kernel F
  put_proc i p m k = record k { procs = set k.procs i p; mem = m }

  -- freeproc(p), and the result 0.
  unfoldable pub give_up : ℕ → Proc → Mem → Kernel F → Outcome (Option ℕ × Kernel F)
  unfolding freeproc
  give_up i p m k = do (p', m') ← freeproc vm p m; ok (none, put_proc i p' m' k)

  -- `allocproc` from `found` on, for the slot `i`.
  unfoldable pub alloc_slot : ℕ → Proc → Kernel F → Outcome (Option ℕ × Kernel F)
  unfolding give_up proc_pagetable prepared
  alloc_slot i p k =
      let k' = record k { nextpid = k.nextpid + 1 } in
      let (tf, m) = kalloc k.mem in
      let p' = record p { pid = k.nextpid; state = used; trapframe = tf } in
      if tf == 0 then give_up i p' m k' else do
        (pt, m') ← proc_pagetable vm tf m
        let p'' = record p' { pagetable = pt }
        let done = put_proc i (prepared vm.forkret p'') m' k'
        if pt == 0 then give_up i p'' m' k' else ok (some i, done)

  unfoldable pub allocproc : Kernel F → Outcome (Option ℕ × Kernel F)
  unfolding find_unused alloc_slot
  allocproc k = elim (find_unused 0 k.procs) [
    | none ↦ ok (none, k)
    | some (i, p) ↦ alloc_slot i p k
  ]

-- *(np->trapframe) = *(p->trapframe): 36 words of eight bytes.
unfoldable pub copy_words : (ℕ → ℕ) → ℕ → ℕ → ℕ → ℕ → ℕ
copy_words f dst src n a = if leb dst a && ltb a (dst + 8 * n) then f (src + (a - dst)) else f a

-- np->trapframe->a0 = 0: the field lies at offset 112.
unfoldable pub fork_frame : (ℕ → ℕ) → (parent child : ℕ) → ℕ → ℕ
unfolding copy_words
fork_frame f parent child a = if a == child + 112 then 0 else copy_words f child parent 36 a

-- safestrcpy(np->name, p->name, 16), with the two arrays side by side.
unfoldable pub copy_name : (from to : ℕ → ℕ) → ℕ → ℕ
copy_name from to a = safestrcpy (λ b. if ltb b 16 then from b else to (b - 16)) 16 0 16 (16 + a)

-- The child's descriptors: those that are open in the parent, over the child's own.
unfoldable pub fork_files : (parent child : List (Option ℕ)) → List (Option ℕ)
fork_files [] cs = cs
fork_files (o ∷ os) [] = []
fork_files (none ∷ os) (c ∷ cs) = c ∷ fork_files os cs
fork_files (some f ∷ os) (c ∷ cs) = some f ∷ fork_files os cs

module _ {F : Type 0} (fs : Files F) where
  -- filedup() of each open file.
  unfoldable pub dup_all : List (Option ℕ) → F → Outcome F
  dup_all [] s = ok s
  dup_all (none ∷ os) s = dup_all os s
  dup_all (some f ∷ os) s = do s' ← fs.filedup f s; dup_all os s'

  -- fileclose() of each open file.
  unfoldable pub close_all : List (Option ℕ) → F → Outcome F
  close_all [] s = ok s
  close_all (none ∷ os) s = close_all os s
  close_all (some f ∷ os) s = do s' ← fs.fileclose f s; close_all os s'

  -- A call on p->cwd; a null pointer is a fault.
  unfoldable pub on_cwd : (ℕ → F → Outcome F) → Option ℕ → F → Outcome F
  on_cwd f none s = panic "null inode"
  on_cwd f (some i) s = f i s

module _ {F : Type 0} (vm : Vm) (fs : Files F) where
  -- `kfork` once the child `np` is allocated in slot `i`.
  unfoldable pub fork_into : ℕ → Proc → ℕ → Proc → Kernel F → Outcome (Option ℕ × Kernel F)
  unfolding give_up fork_frame copy_name fork_files dup_all on_cwd
  fork_into me p i np k = do
    (copied, m) ← vm.uvmcopy p.pagetable np.pagetable p.sz k.mem
    if not copied then give_up vm i np m k else do
      s ← dup_all fs p.ofile k.files
      s' ← on_cwd fs fs.idup p.cwd s
      let m' = record m { word = fork_frame m.word p.trapframe np.trapframe }
      let np' = record np {
        sz = p.sz;
        ofile = fork_files p.ofile np.ofile;
        cwd = p.cwd;
        name = copy_name p.name np.name;
        parent = some me;
        state = runnable;
      }
      ok (some np.pid, record (put_proc vm i np' m' k) { files = s' })

  unfoldable pub fork_child : ℕ → Proc → Option ℕ × Kernel F → Outcome (Option ℕ × Kernel F)
  unfolding fork_into
  fork_child me p (none, k) = ok (none, k)
  fork_child me p (some i, k) = elim (get_elem? k.procs i) [
    | none ↦ panic "no process"
    | some np ↦ fork_into me p i np k
  ]

  -- The result is the child's pid, or none for -1.
  unfoldable pub kfork : ℕ → Kernel F → Outcome (Option ℕ × Kernel F)
  unfolding allocproc fork_child
  kfork me k = elim (get_elem? k.procs me) [
    | none ↦ panic "no process"
    | some p ↦ do r ← allocproc vm k; fork_child me p r
  ]

abbrev pub chan_of : Option ℕ → Chan
chan_of none = null
chan_of (some i) = proc_at i

-- One round of `reparent`: the process at index `i`.
unfoldable pub reparent_one : ℕ → Option ℕ → ℕ → List Proc → List Proc
reparent_one me initproc i ps = elim (get_elem? ps i) [
  | none ↦ ps
  | some pp ↦
      if same_ref pp.parent (some me)
      then wakeup (some me) (chan_of initproc) (modify (λ q. record q { parent = initproc }) ps i)
      else ps
]

-- The `n` rounds from index `i` on.
unfoldable pub reparent_from : ℕ → ℕ → Option ℕ → ℕ → List Proc → List Proc
unfolding reparent_one
reparent_from zero me initproc i ps = ps
reparent_from (suc n) me initproc i ps =
    reparent_from n me initproc (i + 1) (reparent_one me initproc i ps)

unfoldable pub reparent : ℕ → Option ℕ → List Proc → List Proc
unfolding reparent_from
reparent me initproc ps = reparent_from (length ps) me initproc 0 ps

unfoldable pub parent_of : List Proc → ℕ → Option ℕ
parent_of ps i = elim (get_elem? ps i) [ none ↦ none | some p ↦ p.parent ]

-- What `kexit` does to the table: children to init, the parent woken, and the process a zombie.
unfoldable pub exit_table : ℕ → ℕ → Option ℕ → List Proc → List Proc
unfolding reparent parent_of
exit_table me status initproc ps =
    let ps1 = modify (λ p. record p { ofile = map (λ _. none) p.ofile; cwd = none }) ps me in
    let ps2 = reparent me initproc ps1 in
    let ps3 = wakeup (some me) (chan_of (parent_of ps2 me)) ps2 in
    modify (λ p. record p { xstate = status; state = zombie }) ps3 me

module _ {F : Type 0} (fs : Files F) where
  -- `kexit` up to its call of sched(), which does not return. fileclose(), begin_op() and iput() may sleep; here
  -- they and the change of the table are one step, so what other processes do during such a sleep is not seen.
  unfoldable pub kexit : ℕ → ℕ → Kernel F → Outcome (Kernel F)
  unfolding close_all on_cwd exit_table
  kexit me status k = elim (get_elem? k.procs me) [
    | none ↦ panic "no process"
    | some p ↦ if same_ref k.initproc (some me) then panic "init exiting" else do
      s ← close_all fs p.ofile k.files
      s' ← on_cwd fs fs.put_cwd p.cwd s
      ok (record k { procs = exit_table me status k.initproc k.procs; files = s' })
  ]

-- How a round of `kwait` ends: it returns a pid or -1, or sleeps and goes round again.
pub data WaitStep : Type 0 where
  reaped : ℕ → WaitStep
  failed : WaitStep
  again : WaitStep

-- The scan for a zombie child, from index `i` on, with `havekids`.
pub record Scan : Type 0 where
  pub havekids : Bool
  pub child : Option (ℕ × Proc)

unfoldable pub scan_children : ℕ → ℕ → Bool → List Proc → Scan
scan_children me i havekids [] = record { havekids = havekids; child = none }
scan_children me i havekids (pp ∷ ps) =
    let mine = same_ref pp.parent (some me) in
    let rest = scan_children me (i + 1) (havekids || mine) ps in
    if mine && is_zombie pp.state then record { havekids = true; child = some (i, pp) } else rest

module _ {F : Type 0} (vm : Vm) where
  -- The zombie child `pp` in slot `i` is reported to address `addr` (0 for none) and freed.
  unfoldable pub reap : Proc → ℕ → ℕ → Proc → Kernel F → Outcome (WaitStep × Kernel F)
  unfolding freeproc
  reap p addr i pp k = do
    (sent, m) ←
        (if addr == 0 then ok (true, k.mem) else vm.copyout p.pagetable addr pp.xstate k.mem)
    if not sent
        then ok (failed, record k { mem = m })
        else do (pp', m') ← freeproc vm pp m; ok (reaped pp.pid, put_proc vm i pp' m' k)

  -- One round of the loop of `kwait`, by the running process `me`.
  unfoldable pub kwait_round : ℕ → ℕ → Kernel F → Outcome (WaitStep × Kernel F)
  unfolding scan_children reap
  kwait_round me addr k = elim (get_elem? k.procs me) [
    | none ↦ panic "no process"
    | some p ↦
        let scan = scan_children me 0 false k.procs in
        elim scan.child [
          | some (i, pp) ↦ reap p addr i pp k
          | none ↦
              if not scan.havekids || killed me k.procs
              then ok (failed, k)
              else ok (again, record k { procs = sleep_enter me (proc_at me) k.procs })
        ]
  ]
