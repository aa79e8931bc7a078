-- ===== src/Proc/Life/Pids.antt =====
-- Process ids and slots: what `allocproc` (kernel/proc.c) gives out.
use operating_system_se.Base.{
  ℕ, suc, ◌+◌, ◌<◌, ◌≡◌, ◌≢◌, refl, inl, inr, none, some, List, [], ◌∷◌, arith, ==_ne, Bool-cases,
  get_elem?, get_elem?-set, length, lt_of_get_elem?, set, ok,
}
use operating_system_se.Kalloc.{Mem, kalloc, page_size}
use operating_system_se.Proc.{Proc, unused, used, is_unused}
use operating_system_se.Proc.Life.Ops.{Vm}
use operating_system_se.Proc.Life.{
  Kernel, cleared, find_unused, prepared, proc_pagetable, put_proc, alloc_slot, allocproc,
}

-- A slot in use has a pid below the next one to be given out, and no two have the same; a free slot
-- has pid 0.
pub record PidsOk (ps : List Proc) (next : ℕ) : Type 0 where
  pub start : 0 < next
  pub free : (i : ℕ) (p : Proc) → get_elem? ps i ≡ some p → p.state ≡ unused → p.pid ≡ 0
  pub range :
      (i : ℕ) (p : Proc) → get_elem? ps i ≡ some p → p.state ≢ unused → (0 < p.pid) × (p.pid < next)
  pub unique :
      (i j : ℕ) (p q : Proc)
      → get_elem? ps i ≡ some p
      → get_elem? ps j ≡ some q
      → p.state ≢ unused
      → p.pid ≡ q.pid
      → i ≡ j

find_unused-some :
    (i k : ℕ) (ps : List Proc) (p : Proc)
    → find_unused i ps ≡ some (k, p)
    → (d : ℕ) × (k ≡ i + d) × (get_elem? ps d ≡ some p) × (p.state ≡ unused)
unfolding find_unused
find_unused-some i k [] p e = absurd (cc)
find_unused-some i k (q ∷ ps) p e = elim (Bool-cases (is_unused q.state)) [
  | inl hit ↦ (0, ground arith, ground arith, ground arith)
  | inr miss ↦
      let (d, eq, at, st) = find_unused-some (i + 1) k ps p (ground arith) in
      (suc d, omega arith, at, st)
]

-- Any update of the slot `i` by a process `q` that is in use with the next pid keeps `PidsOk`.
set-PidsOk :
    (ps : List Proc) (next i : ℕ) (q : Proc)
    → PidsOk ps next
    → i < length ps
    → q.state ≢ unused
    → q.pid ≡ next
    → PidsOk (set ps i q) (next + 1)
set-PidsOk ps next i q ok' lt st named = record {
  start = omega arith;
  free = λ j p at u. ground (arith, get_elem?-set ps i j q, ok'.free j p);
  range = λ j p at u. ground (arith, get_elem?-set ps i j q, ok'.range j p, ok'.start);
  unique = λ j k p r at at' u e. ground (
    arith,
    get_elem?-set ps i j q,
    get_elem?-set ps i k q,
    ok'.range j p,
    ok'.range k r,
    ok'.free k r,
    ok'.unique j k p r,
  );
}

-- The process that a successful `allocproc` makes of the slot's old content `p`.
abbrev pub allocated : {F : Type 0} → Vm → Kernel F → ℕ → Proc → Proc
allocated vm k pt p =
    prepared vm.forkret
      (record p { pid = k.nextpid; state = used; trapframe = (kalloc k.mem).0; pagetable = pt })

pub allocproc-eq :
    {F : Type 0} (vm : Vm) (k : Kernel F) (i pt : ℕ) (p : Proc) (m : Mem)
    → find_unused 0 k.procs ≡ some (i, p)
    → (kalloc k.mem).0 ≢ 0
    → proc_pagetable vm (kalloc k.mem).0 (kalloc k.mem).1 ≡ ok (pt, m)
    → pt ≢ 0
    → allocproc vm k
      ≡ ok (some i, put_proc vm i (allocated vm k pt p) m (record k { nextpid = k.nextpid + 1 }))
unfolding allocproc alloc_slot
allocproc-eq vm k i pt p m found page table full =
    rw (found, allocproc) (rw (==_ne _ 0 page, table, ==_ne pt 0 full))

-- With an UNUSED slot, a free page and a page table, `allocproc` returns a slot that was UNUSED. The
-- process in it has a pid that no other has, stands on the highest level with no ticks counted, and
-- starts at `forkret` on its own kernel stack; its memory is what was allocated. Pids stay unique.
pub allocproc-slot :
    {F : Type 0} (vm : Vm) (k : Kernel F) (i pt : ℕ) (p : Proc) (m : Mem)
    → PidsOk k.procs k.nextpid
    → find_unused 0 k.procs ≡ some (i, p)
    → (kalloc k.mem).0 ≢ 0
    → proc_pagetable vm (kalloc k.mem).0 (kalloc k.mem).1 ≡ ok (pt, m)
    → pt ≢ 0
    → (k' : Kernel F) × (q : Proc) × (allocproc vm k ≡ ok (some i, k'))
      × (k'.procs ≡ set k.procs i q)
      × (get_elem? k.procs i ≡ some p)
      × (p.state ≡ unused)
      × (q.state ≡ used)
      × (q.pid ≡ k.nextpid)
      × ((q.queue_level ≡ 0) × (q.q_ticks ≡ 0) × (q.wait_time ≡ 0))
      × ((q.context.ra ≡ vm.forkret) × (q.context.sp ≡ p.kstack + page_size))
      × ((q.trapframe ≡ (kalloc k.mem).0) × (q.pagetable ≡ pt) × (k'.mem ≡ m))
      × PidsOk k'.procs k'.nextpid
unfolding prepared
allocproc-slot vm k i pt p m ok' found page table full =
    let (d, eq, at, st) = find_unused-some 0 i k.procs p found in
    let i-eq : i ≡ d = omega arith in
    let here : get_elem? k.procs i ≡ some p = rw i-eq at in
    (
      put_proc vm i (allocated vm k pt p) m (record k { nextpid = k.nextpid + 1 }),
      allocated vm k pt p,
      allocproc-eq vm k i pt p m found page table full,
      refl,
      here,
      st,
      refl,
      refl,
      (refl, refl, refl),
      (refl, refl),
      (refl, refl, refl),
      set-PidsOk k.procs k.nextpid i _ ok' (lt_of_get_elem? k.procs i p here) (λ u. cc) refl,
    )

-- Without an UNUSED slot `allocproc` returns 0 and changes nothing.
pub allocproc-full :
    {F : Type 0} (vm : Vm) (k : Kernel F)
    → find_unused 0 k.procs ≡ none
    → allocproc vm k ≡ ok (none, k)
unfolding allocproc
allocproc-full vm k e = rw (e, allocproc)

-- Without a free page `allocproc` returns 0; the slot, if it held no page table, is UNUSED with pid 0
-- again, no other slot changes, and only the pid is used up.
pub allocproc-no_page :
    {F : Type 0} (vm : Vm) (k : Kernel F) (i : ℕ) (p : Proc)
    → find_unused 0 k.procs ≡ some (i, p)
    → (kalloc k.mem).0 ≡ 0
    → p.pagetable ≡ 0
    → (q : Proc) × (allocproc vm k
        ≡ ok (
          none,
          record k { procs = set k.procs i q; nextpid = k.nextpid + 1; mem = (kalloc k.mem).1 },
        ))
      × (q.state ≡ unused)
      × (q.pid ≡ 0)
unfolding allocproc alloc_slot cleared
allocproc-no_page vm k i p found dry clean = (
  cleared (record p { pid = k.nextpid; state = used; trapframe = (kalloc k.mem).0 }),
  rw (found, allocproc) (rw (dry, clean)),
  refl,
  refl,
)
