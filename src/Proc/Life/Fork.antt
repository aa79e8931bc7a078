-- ===== src/Proc/Life/Fork.antt =====
-- What `kfork` (kernel/proc.c) makes of parent and child.
use operating_system_se.Base.{
  ℕ, ◌+◌, ◌≤◌, ◌<◌, ◌≡◌, refl, ◌⊎◌, true, some, arith, ◌==◌, if◌then◌else◌, get_elem?,
  get_elem?-set_self, lt_of_get_elem?, set, ok, Option, none, List, [], ◌∷◌, length, zero, suc, ◌-◌,
  ltb, inr,
}
use operating_system_se.Str.Copy.{safestrcpy-Copied}
use operating_system_se.Kalloc.{Mem}
use operating_system_se.Proc.{Proc, runnable}
use operating_system_se.Proc.Life.Ops.{Vm, Files}
use operating_system_se.Proc.Life.{
  Kernel, allocproc, copy_words, fork_frame, copy_name, fork_files, dup_all, on_cwd, fork_into,
  fork_child, kfork,
}

-- The child's trapframe is the parent's with a0 set to 0, so that fork returns 0 in the child; no
-- other memory is written.
pub fork_frame-copies :
    (f : ℕ → ℕ) (parent child o : ℕ)
    → o < 288
    → fork_frame f parent child (child + o) ≡ (if o == 112 then 0 else f (parent + o))
unfolding fork_frame copy_words
fork_frame-copies f parent child o h = ground arith

pub fork_frame-outside :
    (f : ℕ → ℕ) (parent child a : ℕ)
    → (a < child) ⊎ (child + 288 ≤ a)
    → fork_frame f parent child a ≡ f a
unfolding fork_frame copy_words
fork_frame-outside f parent child a h = ground arith

-- The child's descriptors: those that are open in the parent, and elsewhere its own.
fork_files-open :
    (os cs : List (Option ℕ)) (j f : ℕ)
    → get_elem? os j ≡ some (some f)
    → j < length cs
    → get_elem? (fork_files os cs) j ≡ some (some f)
unfolding fork_files
fork_files-open [] cs j f at lt = absurd (cc)
fork_files-open (o ∷ os) [] j f at lt = absurd (omega arith)
fork_files-open (none ∷ os) (c ∷ cs) zero f at lt = absurd (cc)
fork_files-open (none ∷ os) (c ∷ cs) (suc j) f at lt = fork_files-open os cs j f at (omega arith)
fork_files-open (some g ∷ os) (c ∷ cs) zero f at lt = at
fork_files-open (some g ∷ os) (c ∷ cs) (suc j) f at lt = fork_files-open os cs j f at (omega arith)

fork_files-closed :
    (os cs : List (Option ℕ)) (j : ℕ)
    → get_elem? os j ≡ some none
    → get_elem? (fork_files os cs) j ≡ get_elem? cs j
unfolding fork_files
fork_files-closed [] cs j at = absurd (cc)
fork_files-closed (o ∷ os) [] j at = refl
fork_files-closed (none ∷ os) (c ∷ cs) zero at = refl
fork_files-closed (none ∷ os) (c ∷ cs) (suc j) at = fork_files-closed os cs j at
fork_files-closed (some g ∷ os) (c ∷ cs) zero at = absurd (cc)
fork_files-closed (some g ∷ os) (c ∷ cs) (suc j) at = fork_files-closed os cs j at

-- The second name is the first, cut to 15 characters.
abbrev pub SameName : (ℕ → ℕ) → (ℕ → ℕ) → Type 0
SameName from to =
    (e : ℕ) × (e < 16) × (to e ≡ 0) × ((j : ℕ) → j < e → to j ≡ from j) × ((from e ≡ 0) ⊎ (e ≡ 15))

copy_name-SameName : (from to : ℕ → ℕ) → SameName from (copy_name from to)
unfolding copy_name
copy_name-SameName from to =
    let c =
      safestrcpy-Copied (λ b. if ltb b 16 then from b else to (b - 16)) 16 0 16 (omega arith)
        (inr (omega arith)) in
    (
      c.len,
      c.fits,
      c.ended,
      λ j h. ground (arith, c.same j h, c.fits),
      ground (arith, c.whole, c.fits),
    )

-- What `kfork` makes of the process `np` that it allocated, for the parent `p` in slot `me`: the fields, the
-- descriptors, the name, and in memory the trapframe, in which a0 is 0 and the rest is the parent's.
pub record IsForked (me : ℕ) (p np child : Proc) (m m' : Mem) : Type 0 where
  pub ready : child.state ≡ runnable
  pub pid : child.pid ≡ np.pid
  pub parent : child.parent ≡ some me
  pub size : child.sz ≡ p.sz
  pub cwd : child.cwd ≡ p.cwd
  pub table : child.pagetable ≡ np.pagetable
  pub frame : child.trapframe ≡ np.trapframe
  pub start : child.context ≡ np.context
  pub opened :
      (j f : ℕ)
      → get_elem? p.ofile j ≡ some (some f)
      → j < length np.ofile
      → get_elem? child.ofile j ≡ some (some f)
  pub closed :
      (j : ℕ) → get_elem? p.ofile j ≡ some none → get_elem? child.ofile j ≡ get_elem? np.ofile j
  pub named : SameName p.name child.name
  pub registers :
      (o : ℕ)
      → o < 288
      → m'.word (child.trapframe + o) ≡ (if o == 112 then 0 else m.word (p.trapframe + o))
  pub others : (a : ℕ) → (a < child.trapframe) ⊎ (child.trapframe + 288 ≤ a) → m'.word a ≡ m.word a
  pub pages : m'.freelist ≡ m.freelist

module _ {F : Type 0} (vm : Vm) (fs : Files F) (k k1 : Kernel F) (me i : ℕ) (p np : Proc) (m : Mem)
    (s s' : F) where
  -- The child's process once `kfork` is done.
  abbrev pub forked : Proc
  forked = record np {
    sz = p.sz;
    ofile = fork_files p.ofile np.ofile;
    cwd = p.cwd;
    name = copy_name p.name np.name;
    parent = some me;
    state = runnable;
  }

  abbrev after : Kernel F
  after = record k1 {
    procs = set k1.procs i forked;
    mem = record m { word = fork_frame m.word p.trapframe np.trapframe };
    files = s';
  }

  fork_into-eq :
      vm.uvmcopy p.pagetable np.pagetable p.sz k1.mem ≡ ok (true, m)
      → dup_all fs p.ofile k1.files ≡ ok s
      → on_cwd fs fs.idup p.cwd s ≡ ok s'
      → fork_into vm fs me p i np k1 ≡ ok (some np.pid, after)
  unfolding fork_into
  fork_into-eq copied dupped held = rw (copied, dupped, held)

  forked-IsForked :
      IsForked me p np forked m (record m { word = fork_frame m.word p.trapframe np.trapframe })
  forked-IsForked = record {
    ready = refl;
    pid = refl;
    parent = refl;
    size = refl;
    cwd = refl;
    table = refl;
    frame = refl;
    start = refl;
    opened = fork_files-open p.ofile np.ofile;
    closed = fork_files-closed p.ofile np.ofile;
    named = copy_name-SameName p.name np.name;
    registers = fork_frame-copies m.word p.trapframe np.trapframe;
    others = fork_frame-outside m.word p.trapframe np.trapframe;
    pages = refl;
  }

  -- When a process is allocated and the parent's memory, files and directory can be duplicated, `kfork`
  -- returns the child's pid. The child is RUNNABLE and a child of the caller; its size, directory and name, its
  -- open descriptors and all 36 words of its trapframe are the parent's, but for a0, which is 0. Of
  -- memory nothing else is written, no other slot changes, and the files are as filedup() of each open one and
  -- idup() leave them.
  pub kfork-child :
      get_elem? k.procs me ≡ some p
      → allocproc vm k ≡ ok (some i, k1)
      → get_elem? k1.procs i ≡ some np
      → vm.uvmcopy p.pagetable np.pagetable p.sz k1.mem ≡ ok (true, m)
      → dup_all fs p.ofile k1.files ≡ ok s
      → on_cwd fs fs.idup p.cwd s ≡ ok s'
      → (k' : Kernel F) × (child : Proc) × (kfork vm fs me k ≡ ok (some np.pid, k'))
        × (get_elem? k'.procs i ≡ some child)
        × IsForked me p np child m k'.mem
        × (k'.procs ≡ set k1.procs i child)
        × (k'.files ≡ s')
  unfolding kfork fork_child
  kfork-child at alloc slot copied dupped held = (
    after,
    forked,
    rw (at, kfork) (rw (alloc, slot, fork_child) (fork_into-eq copied dupped held)),
    get_elem?-set_self k1.procs i forked (lt_of_get_elem? k1.procs i np slot),
    forked-IsForked,
    refl,
    refl,
  )
