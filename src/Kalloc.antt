-- ===== src/Kalloc.antt =====
-- kernel/kalloc.c: the allocator of physical pages. A free page holds the address of the next free
-- page in its first word. `kmem.lock` makes each body one step, and is not part of the state.
pub mod FreeList
pub mod Init
mod Tests
use operating_system_se.Base.{
  ℕ, zero, suc, ◌+◌, ◌-◌, ◌*◌, ◌/◌, ◌%◌, ◌≡◌, Bool, true, false, ◌&&◌, ◌||◌, not, ltb, leb, ◌==◌,
  if◌then◌else◌, Outcome, ok, panic, ◌>>=◌,
}

-- PGSIZE
abbrev pub page_size : ℕ
page_size = 4096

-- KERNBASE + 128*1024*1024
abbrev pub phystop : ℕ
phystop = 0x8800_0000

-- Physical memory, with `kmem.freelist` (0 is null): `word a` is the eight-byte word at address `a`.
pub record Mem : Type 0 where
  pub word : ℕ → ℕ
  pub freelist : ℕ

-- memset(pa, c, PGSIZE): each word of the page at `pa` is eight times the byte `c`.
unfoldable pub fill_page : (ℕ → ℕ) → ℕ → ℕ → ℕ → ℕ
fill_page f pa c a = if leb pa a && ltb a (pa + page_size) then c * 0x0101_0101_0101_0101 else f a

-- r->next = v
unfoldable pub store_word : (ℕ → ℕ) → ℕ → ℕ → ℕ → ℕ
store_word f p v a = if a == p then v else f a

-- `pgroundup`: (sz + PGSIZE - 1) & ~(PGSIZE - 1)
unfoldable pub pgroundup : ℕ → ℕ
pgroundup sz = (sz + page_size - 1) / page_size * page_size

unfoldable pub kalloc : Mem → ℕ × Mem
unfolding fill_page
kalloc m =
    if m.freelist == 0
    then (0, m)
    else (m.freelist, record { word = fill_page m.word m.freelist 5; freelist = m.word m.freelist })

-- `kend` is the linker's symbol `end`, the first address after the kernel.
module _ (kend : ℕ) where
  unfoldable pub kfree : ℕ → Mem → Outcome Mem
  unfolding fill_page store_word
  kfree pa m =
      if not (pa % page_size == 0) || (ltb pa kend || leb phystop pa)
      then panic "kfree"
      else ok (record { word = store_word (fill_page m.word pa 1) pa m.freelist; freelist = pa })

  -- The loop of `freerange`, on fuel.
  unfoldable pub freerange_loop : ℕ → ℕ → ℕ → Mem → Outcome Mem
  freerange_loop zero p pa_end m = panic "out of fuel"
  freerange_loop (suc fuel) p pa_end m =
      let rest = (do m' ← kfree p m; freerange_loop fuel (p + page_size) pa_end m') in
      if leb (p + page_size) pa_end then rest else ok m

  -- There are at most `pa_end / PGSIZE` rounds.
  unfoldable pub freerange : ℕ → ℕ → Mem → Outcome Mem
  unfolding freerange_loop
  freerange pa_start pa_end m =
      freerange_loop (pa_end / page_size + 1) (pgroundup pa_start) pa_end m

  unfoldable pub kinit : Mem → Outcome Mem
  unfolding freerange
  kinit m = freerange kend phystop m
