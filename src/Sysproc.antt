-- ===== src/Sysproc.antt =====
-- kernel/sysproc.c, the arguments of system calls (kernel/syscall.c), and `growproc` (kernel/proc.c). The paging
-- code, which is not in this repository, is a parameter: `uvmalloc` gives the new size or 0, `uvmdealloc` the new
-- size, and `copyin`, `copyinstr` the bytes they copy, or none for -1.
pub mod Bounds
mod Tests
use operating_system_se.Base.{
  ℕ, zero, suc, ◌+◌, ◌-◌, ◌%◌, ◌^◌, Bool, true, false, not, ◌&&◌, ◌||◌, Option, none, some, List,
  [], ◌∷◌, ltb, leb, ◌==◌, if◌then◌else◌, length, get_or, Outcome, ok, panic, ℤ, pos, negsuc,
}
use operating_system_se.Trap.{argraw, fetchaddr_ok}

-- The low 32 bits of a register as an int.
abbrev pub to_int : ℕ → ℤ
to_int a = if ltb (a % 2 ^ 32) (2 ^ 31) then pos (a % 2 ^ 32) else negsuc (2 ^ 32 - 1 - a % 2 ^ 32)

abbrev pub map_ok {ℓ κ} : {A : Type ℓ} {B : Type κ} → (A → B) → Outcome A → Outcome B
map_ok f (ok a) = ok (f a)
map_ok f (panic m) = panic m

unfoldable pub argint : List ℕ → ℕ → Outcome ℤ
unfolding argraw
argint regs n = map_ok to_int (argraw regs n)

unfoldable pub argaddr : List ℕ → ℕ → Outcome ℕ
unfolding argraw
argaddr regs n = argraw regs n

unfoldable pub fetchaddr : (copyin : ℕ → Option ℕ) → (sz addr : ℕ) → Option ℕ
unfolding fetchaddr_ok
fetchaddr copyin sz addr = if fetchaddr_ok addr sz then copyin addr else none

-- `fetchstr`: what is copied to `buf`, and strlen() of it. `copyinstr` copies `max` bytes at most.
unfoldable pub fetchstr :
    (copyinstr : ℕ → ℕ → Option (List ℕ)) → (addr max : ℕ) → Option (List ℕ × ℕ)
fetchstr copyinstr addr max = elim (copyinstr addr max) [
  | none ↦ none
  | some cs ↦ some (cs, length cs)
]

unfoldable pub argstr :
    (copyinstr : ℕ → ℕ → Option (List ℕ)) → List ℕ → (n max : ℕ) → Outcome (Option (List ℕ × ℕ))
unfolding argaddr fetchstr
argstr copyinstr regs n max = map_ok (λ addr. fetchstr copyinstr addr max) (argaddr regs n)

-- sz + n in 64 bits.
abbrev pub add_64 : ℕ → ℤ → ℕ
add_64 sz (pos n) = (sz + n) % 2 ^ 64
add_64 sz (negsuc n) = (sz + 2 ^ 64 - (n + 1)) % 2 ^ 64

-- `growproc`: the new size, or none for -1.
module _ (uvmalloc uvmdealloc : ℕ → ℕ → ℕ) where
  unfoldable pub growproc : (n : ℤ) (sz : ℕ) → Option ℕ
  growproc (pos n) sz =
      let new = uvmalloc sz (add_64 sz (pos n)) in
      if n == 0 then some sz else if new == 0 then none else some new
  growproc (negsuc n) sz = some (uvmdealloc sz (add_64 sz (negsuc n)))

  -- `sys_sbrk`: the old size or none for -1, and the new size. `eager` says whether the second argument is
  -- SBRK_EAGER.
  unfoldable pub sys_sbrk : (eager : Bool) (n : ℤ) (sz : ℕ) → Option ℕ × ℕ
  unfolding growproc
  sys_sbrk eager n sz =
      let grown : Option ℕ × ℕ = elim (growproc n sz) [
        | none ↦ (none, sz)
        | some new ↦ (some sz, new)
      ] in
      let lazy : Option ℕ × ℕ =
        if ltb (add_64 sz n) sz then (none, sz) else (some sz, add_64 sz n) in
      let negative : Bool = elim n [ pos k ↦ false | negsuc k ↦ true ] in
      if eager || negative then grown else lazy

-- ticks - ticks0, in 32 bits.
abbrev pub since : (ticks ticks0 : ℕ) → ℕ
since ticks ticks0 = (ticks + 2 ^ 32 - ticks0) % 2 ^ 32

-- How `sys_pause` ends: it returns 0 or -1, or sleeps.
pub data Pause : Type 0 where
  rested : Pause
  killed : Pause
  asleep : Pause

-- The loop of `sys_pause`: at each test it reads `ticks`, and what killed() returns if it goes on.
unfoldable pub pause_loop : (n ticks0 : ℕ) → List (ℕ × Bool) → Pause
pause_loop n ticks0 [] = asleep
pause_loop n ticks0 ((ticks, dead) ∷ more) =
    let rest = pause_loop n ticks0 more in
    if not (ltb (since ticks ticks0) n) then rested else if dead then killed else rest

unfoldable pub sys_pause : (n : ℤ) (ticks0 : ℕ) → List (ℕ × Bool) → Pause
unfolding pause_loop
sys_pause n ticks0 tests = pause_loop (elim n [ pos k ↦ k | negsuc k ↦ 0 ]) ticks0 tests
