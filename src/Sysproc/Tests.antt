-- ===== src/Sysproc/Tests.antt =====
-- The system calls of kernel/sysproc.c at concrete inputs.
use operating_system_se.Base.{ℕ, ◌-◌, ◌^◌, ◌≡◌, refl, false, some, [], ◌∷◌, ok, negsuc}
use operating_system_se.Trap.{argraw}
use operating_system_se.Sysproc.{argint, growproc, sys_sbrk}

-- a1 is -1.
minus_one : argint (0 ∷ (2 ^ 64 - 1) ∷ 0 ∷ 0 ∷ 0 ∷ 0 ∷ []) 1 ≡ ok (negsuc 0)
unfolding argint argraw
minus_one = refl

abbrev grows : ℕ → ℕ → ℕ
grows old new = new

shrinks : sys_sbrk grows grows false (negsuc 4095) 8192 ≡ (some 8192, 4096)
unfolding sys_sbrk growproc
shrinks = refl
