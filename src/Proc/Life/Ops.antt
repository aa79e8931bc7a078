-- ===== src/Proc/Life/Ops.antt =====
-- What kernel/proc.c calls outside this part: the virtual memory functions, whose source is not in the
-- repository, and the files and inodes (kernel/file.c, kernel/fs.c).
use operating_system_se.Base.{ℕ, Bool, Outcome}
use operating_system_se.Kalloc.{Mem}

-- Functions of vm.c. Page tables live in memory; 0 is a null page table. A Bool result is true for 0
-- and false for -1.
pub record Vm : Type 0 where
  pub kend : ℕ
  pub forkret : ℕ
  pub trampoline_code : ℕ
  pub uvmcreate : Mem → Outcome (ℕ × Mem)
  pub mappages : (pagetable va size pa perm : ℕ) → Mem → Outcome (Bool × Mem)
  pub uvmunmap : (pagetable va npages do_free : ℕ) → Mem → Outcome Mem
  pub uvmfree : (pagetable sz : ℕ) → Mem → Outcome Mem
  pub uvmcopy : (old new sz : ℕ) → Mem → Outcome (Bool × Mem)
  -- of the exit status, four bytes, to a user address
  pub copyout : (pagetable va value : ℕ) → Mem → Outcome (Bool × Mem)

-- Functions of kernel/file.c and kernel/fs.c, over their state; a file and an inode are indices.
-- `put_cwd` is begin_op(); iput(p->cwd); end_op().
pub record Files (F : Type 0) : Type 0 where
  pub filedup : ℕ → F → Outcome F
  pub fileclose : ℕ → F → Outcome F
  pub idup : ℕ → F → Outcome F
  pub put_cwd : ℕ → F → Outcome F
