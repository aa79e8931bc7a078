-- ===== src/Proc/Life/KillFree.antt =====
-- `kkill` (kernel/proc.c) does not look at the state of its victim: killing pid 0 marks a free slot.
use operating_system_se.Base.{
  ℕ, suc, ◌+◌, ◌<◌, ◌≡◌, ◌≢◌, refl, inl, inr, some, List, [], ◌∷◌, All, arith, Bool-cases,
  get_elem?, ok, set,
}
use operating_system_se.Kalloc.{Mem, kalloc}
use operating_system_se.Proc.{Proc, unused, is_unused}
use operating_system_se.Proc.Wakeup.{kill_one, kkill}
use operating_system_se.Proc.Life.Ops.{Vm}
use operating_system_se.Proc.Life.{Kernel, find_unused, prepared, proc_pagetable, allocproc}
use operating_system_se.Proc.Life.Pids.{PidsOk, allocated, allocproc-eq}

-- Free slots have pid 0, and only they.
record IsClean (p : Proc) : Type 0 where
  free : p.state ≡ unused → p.pid ≡ 0
  busy : p.state ≢ unused → 0 < p.pid

PidsOk-IsClean :
    (ps : List Proc) → ((i : ℕ) (p : Proc) → get_elem? ps i ≡ some p → IsClean p) → All IsClean ps
PidsOk-IsClean [] h = tt
PidsOk-IsClean (p ∷ ps) h = (h 0 p refl, PidsOk-IsClean ps (λ i q e. h (suc i) q e))

kkill-free :
    (j i : ℕ) (ps : List Proc) (p : Proc)
    → All IsClean ps
    → find_unused j ps ≡ some (i, p)
    → (ps' : List Proc) × (kkill 0 ps ≡ some ps') × (find_unused j ps' ≡ some (i, kill_one p))
unfolding kkill find_unused kill_one
kkill-free j i [] p c e = absurd (cc)
kkill-free j i (q ∷ ps) p c e = elim (Bool-cases (is_unused q.state)) [
  | inl free ↦ (kill_one q ∷ ps, ground (arith, c.0.free), ground arith)
  | inr busy ↦
      let (ps', killed, found) = kkill-free (j + 1) i ps p c.1 (ground arith) in
      (q ∷ ps', ground (arith, c.0.busy), ground arith)
]

-- `kkill` of pid 0 succeeds whenever some slot is UNUSED, and the process that the next successful
-- `allocproc` makes is then born killed.
pub kkill-born_killed :
    {F : Type 0} (vm : Vm) (k : Kernel F) (i pt : ℕ) (p : Proc) (m : Mem)
    → PidsOk k.procs k.nextpid
    → find_unused 0 k.procs ≡ some (i, p)
    → (kalloc k.mem).0 ≢ 0
    → proc_pagetable vm (kalloc k.mem).0 (kalloc k.mem).1 ≡ ok (pt, m)
    → pt ≢ 0
    → (ps' : List Proc) × (k' : Kernel F) × (q : Proc) × (kkill 0 k.procs ≡ some ps')
      × (allocproc vm (record k { procs = ps' }) ≡ ok (some i, k'))
      × (k'.procs ≡ set ps' i q)
      × (q.killed ≡ 1)
unfolding kill_one prepared
kkill-born_killed vm k i pt p m ok' found page table full =
    let clean =
      PidsOk-IsClean k.procs
        (λ j q at. record { free = ok'.free j q at; busy = λ u. (ok'.range j q at u).0 }) in
    let (ps', killed, found') = kkill-free 0 i k.procs p clean found in
    (
      ps',
      _,
      allocated vm (record k { procs = ps' }) pt (kill_one p),
      killed,
      allocproc-eq vm (record k { procs = ps' }) i pt (kill_one p) m found' page table full,
      refl,
      ground arith,
    )
