-- ===== src/Proc/Life/Wait.antt =====
-- What a round of `kwait` (kernel/proc.c) returns.
use operating_system_se.Base.{
  ℕ, suc, ◌+◌, ◌≡◌, refl, ◌∙◌, inl, inr, Bool, true, false, not, ◌&&◌, ◌||◌, none, some, List, [],
  ◌∷◌, arith, is_some, ◌==◌, same_ref, same_ref_iff, if◌then◌else◌, Bool-cases, get_elem?, set,
  Outcome, ok, ◌≢◌, ◌≤◌, ◌<◌, ◌%◌, zero, take, ==_ne,
}
use operating_system_se.Kalloc.{Mem, page_size, phystop, fill_page, store_word, kfree}
use operating_system_se.Proc.{Proc, unused, zombie, null, is_zombie, proc_at}
use operating_system_se.Proc.Wakeup.{killed, sleep_enter}
use operating_system_se.Proc.Life.Ops.{Vm}
use operating_system_se.Proc.Life.{
  Kernel, trampoline, trapframe_va, proc_freepagetable, cleared, free_memory, reaped, failed, again,
  scan_children, reap, kwait_round,
}

-- Whether `me` has a child, and whether it has one that is a zombie.
abbrev pub has_child : ℕ → List Proc → Bool
has_child me [] = false
has_child me (p ∷ ps) = same_ref p.parent (some me) || has_child me ps

abbrev pub has_zombie : ℕ → List Proc → Bool
has_zombie me [] = false
has_zombie me (p ∷ ps) = (same_ref p.parent (some me) && is_zombie p.state) || has_zombie me ps

scan_children-none :
    (me i : ℕ) (hk : Bool) (ps : List Proc)
    → has_zombie me ps ≡ false
    → ((scan_children me i hk ps).child ≡ none)
      × ((scan_children me i hk ps).havekids ≡ (hk || has_child me ps))
unfolding scan_children
scan_children-none me i hk [] h = (refl, ground arith)
scan_children-none me i hk (p ∷ ps) h =
    ground (arith, scan_children-none me (i + 1) (hk || same_ref p.parent (some me)) ps)

-- The scan finds a child exactly if some child is a zombie.
pub scan_children-child :
    (me i : ℕ) (hk : Bool) (ps : List Proc)
    → is_some (scan_children me i hk ps).child ≡ has_zombie me ps
unfolding scan_children
scan_children-child me i hk [] = refl
scan_children-child me i hk (p ∷ ps) =
    ground (arith, scan_children-child me (i + 1) (hk || same_ref p.parent (some me)) ps)

scan_children-some :
    (me i k : ℕ) (hk : Bool) (ps : List Proc) (p : Proc)
    → (scan_children me i hk ps).child ≡ some (k, p)
    → (d : ℕ) × (k ≡ i + d) × (get_elem? ps d ≡ some p) × (p.parent ≡ some me) × (p.state ≡ zombie)
unfolding scan_children
scan_children-some me i k hk [] p e = absurd (cc)
scan_children-some me i k hk (q ∷ ps) p e =
    elim (Bool-cases (same_ref q.parent (some me) && is_zombie q.state)) [
      | inl hit ↦ (
        0,
        ground arith,
        ground arith,
        ground (arith, same_ref_iff q.parent (some me)),
        ground arith,
      )
      | inr miss ↦
          let (d, eq, at, par, st) =
            scan_children-some me (i + 1) k (hk || same_ref q.parent (some me)) ps p
              (ground arith) in
          (suc d, omega arith, at, par, st)
    ]

module _ {F : Type 0} (vm : Vm) (k : Kernel F) (me addr : ℕ) (p : Proc) where
  -- If no child is a zombie, a round of `kwait` returns -1 when there is no child or the caller has
  -- been killed, and otherwise puts the caller to sleep on its own address.
  pub kwait_round-no_zombie :
      get_elem? k.procs me ≡ some p
      → has_zombie me k.procs ≡ false
      → kwait_round vm me addr k ≡ (
          if not (has_child me k.procs) || killed me k.procs
          then ok (failed, k)
          else ok (again, record k { procs = sleep_enter me (proc_at me) k.procs }))
  unfolding kwait_round
  kwait_round-no_zombie at h =
      let (no_child, kids) = scan_children-none me 0 false k.procs h in
      rw (at, kwait_round) (rw (no_child, kids))

-- The first zombie among the children of `me` is the one that the scan finds.
scan_children-first :
    (me i d : ℕ) (hk : Bool) (ps : List Proc) (p : Proc)
    → get_elem? ps d ≡ some p
    → p.parent ≡ some me
    → p.state ≡ zombie
    → has_zombie me (take d ps) ≡ false
    → (scan_children me i hk ps).child ≡ some (i + d, p)
unfolding scan_children
scan_children-first me i d hk [] p at par st h = absurd (cc)
scan_children-first me i zero hk (q ∷ ps) p at par st h =
    ground (arith, same_ref_iff q.parent (some me))
scan_children-first me i (suc d) hk (q ∷ ps) p at par st h =
    ground
      (arith, scan_children-first me (i + 1) d (hk || same_ref q.parent (some me)) ps p at par st)

-- The exit status goes to the address `addr`, unless that is 0.
abbrev pub report : Vm → Proc → ℕ → Proc → Mem → Outcome (Bool × Mem)
report vm p addr pp m = if addr == 0 then ok (true, m) else vm.copyout p.pagetable addr pp.xstate m

module _ {F : Type 0} (vm : Vm) (k : Kernel F) (me addr i : ℕ) (p pp : Proc) (m m' : Mem) where
  reap-reaped :
      report vm p addr pp k.mem ≡ ok (true, m)
      → free_memory vm pp m ≡ ok m'
      → reap vm p addr i pp k
        ≡ ok (reaped pp.pid, record k { procs = set k.procs i (cleared pp); mem = m' })
  unfolding reap
  reap-reaped sent freed = rw (sent, freed)

  reap-failed :
      report vm p addr pp k.mem ≡ ok (false, m)
      → reap vm p addr i pp k ≡ ok (failed, record k { mem = m })
  unfolding reap
  reap-failed sent = rw sent

  round-reaps :
      get_elem? k.procs me ≡ some p
      → (scan_children me 0 false k.procs).child ≡ some (i, pp)
      → kwait_round vm me addr k ≡ reap vm p addr i pp k
  unfolding kwait_round
  round-reaps at found = rw (at, kwait_round) (rw found)

  -- If the exit status cannot be delivered, the round returns -1 and the zombie is left for later.
  pub kwait_round-undelivered :
      get_elem? k.procs me ≡ some p
      → (scan_children me 0 false k.procs).child ≡ some (i, pp)
      → report vm p addr pp k.mem ≡ ok (false, m)
      → (kwait_round vm me addr k ≡ ok (failed, record k { mem = m }))
        × (has_zombie me k.procs ≡ true)
  kwait_round-undelivered at found sent = (
    round-reaps at found ∙ reap-failed sent,
    ground (arith, scan_children-child me 0 false k.procs),
  )

-- A page that `kfree` takes.
abbrev pub IsPage : Vm → ℕ → Type 0
IsPage vm pa = (pa ≢ 0) × (pa % page_size ≡ 0) × (vm.kend ≤ pa) × (pa < phystop)

-- The page is the first of the free list, and filled with junk but for its link.
abbrev pub page_freed : ℕ → Mem → Mem
page_freed pa m = record { word = store_word (fill_page m.word pa 1) pa m.freelist; freelist = pa }

kfree_run : (vm : Vm) (pa : ℕ) (m : Mem) → IsPage vm pa → kfree vm.kend pa m ≡ ok (page_freed pa m)
unfolding kfree
kfree_run vm pa m page = ground arith

-- What a slot is once its process is freed.
pub record IsCleared (p : Proc) : Type 0 where
  pub state : p.state ≡ unused
  pub pid : p.pid ≡ 0
  pub parent : p.parent ≡ none
  pub chan : p.chan ≡ null
  pub killed : p.killed ≡ 0
  pub xstate : p.xstate ≡ 0
  pub size : p.sz ≡ 0
  pub table : p.pagetable ≡ 0
  pub frame : p.trapframe ≡ 0
  pub name : p.name 0 ≡ 0

cleared-IsCleared : (p : Proc) → IsCleared (cleared p)
unfolding cleared
cleared-IsCleared p = record {
  state = refl;
  pid = refl;
  parent = refl;
  chan = refl;
  killed = refl;
  xstate = refl;
  size = refl;
  table = refl;
  frame = refl;
  name = refl;
}

free_memory_run :
    (vm : Vm) (p : Proc) (m m1 m2 m3 : Mem)
    → IsPage vm p.trapframe
    → p.pagetable ≢ 0
    → vm.uvmunmap p.pagetable trampoline 1 0 (page_freed p.trapframe m) ≡ ok m1
    → vm.uvmunmap p.pagetable trapframe_va 1 0 m1 ≡ ok m2
    → vm.uvmfree p.pagetable p.sz m2 ≡ ok m3
    → free_memory vm p m ≡ ok m3
unfolding free_memory proc_freepagetable
free_memory_run vm p m m1 m2 m3 page table e1 e2 e3 =
    rw
      (
        ==_ne p.trapframe 0 page.0,
        kfree_run vm p.trapframe m page,
        ==_ne p.pagetable 0 table,
        e1,
        e2,
      )
      e3

module _ {F : Type 0} (vm : Vm) (k : Kernel F) (me addr i : ℕ) (p pp : Proc)
    (m m1 m2 m3 : Mem) where
  -- The process `pp` in slot `i` is the first child of the caller that is a zombie; its trapframe is a page of
  -- the allocator's range, it has a page table, its exit status can be delivered, and the functions of vm.c do not
  -- panic. Then a round of `kwait` returns its pid. Its trapframe's page is freed first, with the page at the
  -- front of the free list; then the trampoline and the trapframe are unmapped, without freeing them, and the
  -- page table is freed with the size of the process. The slot is UNUSED with all that freeproc() resets
  -- reset, and no other slot changes.
  pub kwait_round-reaps :
      get_elem? k.procs me ≡ some p
      → get_elem? k.procs i ≡ some pp
      → pp.parent ≡ some me
      → pp.state ≡ zombie
      → has_zombie me (take i k.procs) ≡ false
      → report vm p addr pp k.mem ≡ ok (true, m)
      → IsPage vm pp.trapframe
      → pp.pagetable ≢ 0
      → vm.uvmunmap pp.pagetable trampoline 1 0 (page_freed pp.trapframe m) ≡ ok m1
      → vm.uvmunmap pp.pagetable trapframe_va 1 0 m1 ≡ ok m2
      → vm.uvmfree pp.pagetable pp.sz m2 ≡ ok m3
      → (q : Proc) × (kwait_round vm me addr k
          ≡ ok (reaped pp.pid, record k { procs = set k.procs i q; mem = m3 }))
        × IsCleared q
  kwait_round-reaps at here par st first sent page table e1 e2 e3 = (
    cleared pp,
    round-reaps vm k me addr i p pp m m3 at
          (ground (arith, scan_children-first me 0 i false k.procs pp here par st first))
        ∙ reap-reaped vm k me addr i p pp m m3 sent
            (free_memory_run vm pp m m1 m2 m3 page table e1 e2 e3),
    cleared-IsCleared pp,
  )
